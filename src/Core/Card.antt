-- ===== src/Core/Card.antt =====
-- crates/mascara-core/src/card.rs: the contact card and its payload bytes; and assertion.rs, the proof
-- that a key vouches for a card. The signature schemes and bech32m are not part of the repository.
pub mod Payload
use mascara.Common.{
  ℕ, suc, Bool, not, Option, none, some, [], ◌∷◌, ◌++◌, Result, ok, err, ◌>>=◌, ok_or, eqb,
  if◌then◌else◌, ◌==◌, list_eq, nat_eq, length, take, drop,
}
use mascara.Common.Text.{Text, Bytes, codes, trim}
use mascara.Core.Error.{
  CoreError, invalid_card, assertion, wrong_length, unsupported_version, invalid_transport_key,
  keys_not_bound, not_a_card_string, wrong_prefix, rejected_signature, malformed_signature,
  invalid_signer,
}

abbrev pub card_hrp : Text
card_hrp = codes "mascara"

abbrev pub card_version : ℕ
card_version = 1

abbrev pub card_binding_context : Bytes
card_binding_context = codes "mascara-card-v1"

abbrev pub card_payload_len : ℕ
card_payload_len = 129

pub record Card : Type 0 where
  pub transport_pk : Bytes
  pub sealing_pk : Bytes
  pub binding_sig : Bytes

-- `binding_message`
abbrev pub binding_message : Bytes → Bytes
binding_message sealing_pk = card_binding_context ++ sealing_pk

-- `Card::payload_bytes`
unfoldable pub payload_bytes : Card → Bytes
payload_bytes card = card_version ∷ (card.transport_pk ++ (card.sealing_pk ++ card.binding_sig))

-- `VerifyingKey::from_bytes` succeeds, and `verify_strict` by key, message and signature.
module _ (is_key : Bytes → Bool) (verify_strict : Bytes → Bytes → Bytes → Bool) where
  -- The check that the transport key vouches for the sealing key.
  unfoldable pub bound : Card → Result Card CoreError
  bound card =
      if not (is_key card.transport_pk)
      then err (invalid_card invalid_transport_key)
      else if not
          (verify_strict card.transport_pk (binding_message card.sealing_pk) card.binding_sig)
      then err (invalid_card keys_not_bound)
      else ok card

  -- `Card::from_payload_bytes`
  unfoldable pub from_payload_bytes : Bytes → Result Card CoreError
  unfolding bound
  from_payload_bytes [] = err (invalid_card (wrong_length 0))
  from_payload_bytes (version ∷ body) =
      if not (eqb (suc (length body)) card_payload_len)
      then err (invalid_card (wrong_length (suc (length body))))
      else if not (eqb version card_version)
      then err (invalid_card (unsupported_version version))
      else bound (record {
        transport_pk = take 32 body;
        sealing_pk = take 32 (drop 32 body);
        binding_sig = take 64 (drop 64 body);
      })

  -- `bech32::encode`, and `CheckedHrpstring` by the prefix and the bytes that it gives.
  module _ (lower : Text → Text) (to_bech32m : Text → Bytes → Text)
      (from_bech32m : Text → Option (Text × Bytes)) where
    -- `Card::encode`
    unfoldable pub encode_card : Card → Text
    encode_card card = to_bech32m card_hrp (payload_bytes card)

    -- `Card::parse`
    unfoldable pub parse_card : Text → Result Card CoreError
    unfolding from_payload_bytes
    parse_card s = ok_or (from_bech32m (trim s)) (invalid_card not_a_card_string) >>= λ checked.
        if not (lower checked.0 == card_hrp)
        then err (invalid_card (wrong_prefix checked.0))
        else from_payload_bytes checked.1

abbrev pub link_context : Bytes
link_context = codes "mascara-link-v1"

pub record LinkAssertion : Type 0 where
  pub npub : Bytes
  pub sig : Bytes

module _ (digest : Bytes → Bytes) where
  -- `link_message`
  unfoldable pub link_message : Card → Bytes → Bytes
  link_message card nonce = digest (link_context ++ (payload_bytes card ++ nonce))

  -- `Signature::from_slice` and `XOnlyPublicKey::from_slice` succeed, and `verify_schnorr` by
  -- signature, message and key.
  module _ (is_signature is_signer : Bytes → Bool)
      (verify_schnorr : Bytes → Bytes → Bytes → Bool) where
    -- `verify_link_assertion`
    unfoldable pub verify_link_assertion :
        LinkAssertion → Card → Bytes → Result (Unit {0}) CoreError
    unfolding link_message
    verify_link_assertion a card nonce =
        if not (is_signature a.sig)
        then err (assertion malformed_signature)
        else if not (is_signer a.npub)
        then err (assertion invalid_signer)
        else if not (verify_schnorr a.sig (link_message card nonce) a.npub)
        then err (assertion rejected_signature)
        else ok tt
