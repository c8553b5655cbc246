-- ===== src/Core/Ticket/Opening.antt =====
-- Opening a ticket: what was checked of it, and that a sealed ticket is opened by its recipient.
use mascara.Common.{
  ℕ, ◌+◌, ◌≡◌, refl, ap, ◌∙◌, true, false, Option, none, some, ◌++◌, Result, ok, ok_or, >>=-eq-ok,
  ok_or-eq-ok, subst, ltb, eqb, [], ◌∷◌, any, length, Bool-cases, inl, inr, arith, eqb_iff, ◌≤◌,
}
use mascara.Common.Text.{
  Text, Bytes, trim, strip_prefix, strip_prefix-append, IsSolid, append-IsSolid, trim-IsSolid,
  is_whitespace,
}
use mascara.Core.Error.{CoreError}
use mascara.Core.Card.{Card, LinkAssertion, payload_bytes, verify_link_assertion, link_message}
use mascara.Core.Card.Payload.{IsBound, from_payload_bytes_iff}
use mascara.Core.Ticket.{
  FileRef, Endpoint, new_file, Ticket, Codecs, ticket_version, ticket_prefix, sealbytes,
  sender_card, crypto_seal, crypto_open, seal_ticket, check_assertion, accept_ticket, open_ticket,
}

any-IsSolid : (s : Text) → any is_whitespace s ≡ false → IsSolid s
any-IsSolid [] h = tt
any-IsSolid (c ∷ s) h = (ground (arith, h), any-IsSolid s (ground (arith, h)))

module _ (lib : Codecs) where
  -- An assertion whose signature by its key covers this card and nonce.
  abbrev pub IsVouched : Card → Bytes → LinkAssertion → Type 0
  IsVouched card nonce a =
      lib.verify_schnorr a.sig (link_message lib.digest card nonce) a.npub ≡ true

  -- What is known of a ticket that was opened.
  pub record IsAccepted (t : Ticket) : Type 0 where
    pub current : t.v ≡ 2
    pub card : Card
    pub carried : t.sender_card ≡ payload_bytes card
    pub carried_bound : IsBound lib.is_key lib.verify_strict card
    pub vouched : (a : LinkAssertion) → t.link_assertion ≡ some a → IsVouched card t.nonce a

  assertion-IsVouched :
      (a : LinkAssertion) (card : Card) (nonce : Bytes)
      → verify_link_assertion lib.digest lib.is_signature lib.is_signer lib.verify_schnorr a card
          nonce
        ≡ ok tt
      → IsVouched card nonce a
  unfolding verify_link_assertion
  assertion-IsVouched a card nonce h = ground arith

  accept-IsAccepted : (t out : Ticket) → accept_ticket lib t ≡ ok out → (t ≡ out) × IsAccepted t
  unfolding accept_ticket sender_card check_assertion
  accept-IsAccepted t out h = elim (Bool-cases (eqb t.v ticket_version)) [
    | inr bad ↦ cc (rw (accept_ticket, bad) at h)
    | inl current ↦
        let h' = rw (accept_ticket, current) at h in
        let (card, valid, h2) = >>=-eq-ok (sender_card lib t) _ h' in
        let (_, checked, h3) = >>=-eq-ok (check_assertion lib t.link_assertion card t.nonce) _ h2 in
        let (carried, held) =
          (from_payload_bytes_iff lib.is_key lib.verify_strict t.sender_card card).0 valid in
        let same : ◌≡◌ {A = Result Ticket CoreError} (ok t) (ok out) = h3 in
        (
          cc (same),
          record {
            current = (eqb_iff t.v 2).0 current;
            card = card;
            carried = carried;
            carried_bound = held;
            vouched = λ a e.
                assertion-IsVouched a card t.nonce
                  (subst (λ l. check_assertion lib l card t.nonce ≡ ok tt) e checked);
          },
        )
  ]

  crypto_open-ok :
      (sealed secret body : Bytes)
      → crypto_open lib sealed secret ≡ ok body
      → (sealbytes ≤ length sealed) × (lib.box_unseal secret sealed ≡ some body)
  unfolding crypto_open
  crypto_open-ok sealed secret body h = elim (Bool-cases (ltb (length sealed) sealbytes)) [
    | inl short ↦ cc (rw (crypto_open, short) at h)
    | inr long ↦ (
      ground (arith, long),
      ok_or-eq-ok (lib.box_unseal secret sealed) _ (rw (crypto_open, long) at h),
    )
  ]

  -- A ticket is opened only if the text, without white space around it, is the prefix and base64 of a
  -- box that this secret unseals to its encoding, it has the current version, its sender card is the
  -- payload of a card whose keys are bound, and a link assertion, if it carries one, was signed for
  -- that card and the ticket's nonce.
  pub open_ticket-IsAccepted :
      (s : Text) (secret : Bytes) (t : Ticket)
      → open_ticket lib s secret ≡ ok t
      → (b64 : Text) × (sealed : Bytes) × (body : Bytes) × (strip_prefix (trim s) ticket_prefix
          ≡ some b64)
        × (lib.from_base64 (trim b64) ≡ some sealed)
        × (sealbytes ≤ length sealed)
        × (lib.box_unseal secret sealed ≡ some body)
        × (lib.from_postcard body ≡ some t)
        × IsAccepted t
  unfolding open_ticket
  open_ticket-IsAccepted s secret t h =
      let (b64, e1, h1) = >>=-eq-ok (ok_or (strip_prefix (trim s) ticket_prefix) _) _ h in
      let (sealed, e2, h2) = >>=-eq-ok (ok_or (lib.from_base64 (trim b64)) _) _ h1 in
      let (body, e3, h3) = >>=-eq-ok (crypto_open lib sealed secret) _ h2 in
      let (decoded, e4, h4) = >>=-eq-ok (ok_or (lib.from_postcard body) _) _ h3 in
      let (long, unsealed) = crypto_open-ok sealed secret body e3 in
      let (same, accepted) = accept-IsAccepted decoded t h4 in
      (
        b64,
        sealed,
        body,
        ok_or-eq-ok _ _ e1,
        ok_or-eq-ok _ _ e2,
        long,
        unsealed,
        ok_or-eq-ok _ _ e4 ∙ ap some same,
        subst IsAccepted same accepted,
      )

  -- The base64 that is written has no white space, and reads back as the bytes.
  pub record IsBase64 : Type 0 where
    pub solid : (bytes : Bytes) → IsSolid (lib.to_base64 bytes)
    pub read : (bytes : Bytes) → lib.from_base64 (lib.to_base64 bytes) ≡ some bytes

  -- A box opens with the secret of the key that it was sealed to, and is 48 bytes longer than what it
  -- holds.
  pub record IsBox (key secret : Bytes) : Type 0 where
    pub opens :
        (random plaintext sealed : Bytes)
        → lib.box_seal random key plaintext ≡ some sealed
        → lib.box_unseal secret sealed ≡ some plaintext
    pub longer :
        (random plaintext sealed : Bytes)
        → lib.box_seal random key plaintext ≡ some sealed
        → length sealed ≡ length plaintext + 48

  prefix-IsSolid : IsSolid ticket_prefix
  unfolding is_whitespace
  prefix-IsSolid = any-IsSolid ticket_prefix refl

  crypto_open-again :
      (sealed secret body : Bytes)
      → sealbytes ≤ length sealed
      → lib.box_unseal secret sealed ≡ some body
      → crypto_open lib sealed secret ≡ ok body
  unfolding crypto_open
  crypto_open-again sealed secret body long unsealed =
      let enough : ltb (length sealed) sealbytes ≡ false = ground (arith, long) in
      rw (enough, unsealed) refl

  opened_sealed :
      (t : Ticket) (secret body sealed : Bytes)
      → IsBase64
      → lib.box_unseal secret sealed ≡ some body
      → sealbytes ≤ length sealed
      → lib.from_postcard body ≡ some t
      → accept_ticket lib t ≡ ok t
      → open_ticket lib (ticket_prefix ++ lib.to_base64 sealed) secret ≡ ok t
  unfolding open_ticket
  opened_sealed t secret body sealed b64 unsealed long decoded accepted =
      let text : Text = lib.to_base64 sealed in
      let solid : IsSolid text = b64.solid sealed in
      let trimmed =
        trim-IsSolid (ticket_prefix ++ text)
          (append-IsSolid ticket_prefix text prefix-IsSolid solid) in
      let opened = crypto_open-again sealed secret body long unsealed in
      rw
        (
          trimmed,
          strip_prefix-append ticket_prefix text,
          trim-IsSolid text solid,
          b64.read sealed,
          opened,
          decoded,
        )
        accepted

  -- A ticket that was sealed to a card is opened, unchanged, by whoever has the secret of the card's
  -- sealing key, if it is one that is accepted once decoded, and base64, the box and postcard read back
  -- what they wrote.
  pub open_ticket-seal_ticket :
      (random : Bytes) (t : Ticket) (recipient : Card) (secret : Bytes) (s : Text)
      → IsBase64
      → IsBox recipient.sealing_pk secret
      → ((body : Bytes) → lib.to_postcard t ≡ some body → lib.from_postcard body ≡ some t)
      → accept_ticket lib t ≡ ok t
      → seal_ticket lib random t recipient ≡ ok s
      → open_ticket lib s secret ≡ ok t
  unfolding seal_ticket crypto_seal
  open_ticket-seal_ticket random t recipient secret s b64 box decoded accepted h =
      let (body, e1, h1) = >>=-eq-ok (ok_or (lib.to_postcard t) _) _ h in
      let (sealed, e2, h2) = >>=-eq-ok (crypto_seal lib random recipient.sealing_pk body) _ h1 in
      let boxed : lib.box_seal random recipient.sealing_pk body ≡ some sealed =
        ok_or-eq-ok (lib.box_seal random recipient.sealing_pk body) _ e2 in
      let same : ◌≡◌ {A = Result Text CoreError} (ok (ticket_prefix ++ lib.to_base64 sealed))
          (ok s) =
        h2 in
      let written : ticket_prefix ++ lib.to_base64 sealed ≡ s = cc (same) in
      subst (λ x. open_ticket lib x secret ≡ ok t) written
        (opened_sealed t secret body sealed b64 (box.opens random body sealed boxed)
          (omega (arith, box.longer random body sealed boxed)) (decoded body (ok_or-eq-ok _ _ e1))
          accepted)

  -- A new ticket for a file, carrying a card whose keys are bound and no link assertion, that is sealed
  -- to a recipient's card is opened unchanged with the secret of that card's sealing key, if base64,
  -- the box and postcard read back what they wrote.
  pub open_ticket-new_file :
      (random : Bytes) (file_ref : FileRef) (endpoint : Endpoint) (card : Card)
      (expires_at : Option ℕ) (nonce : Bytes) (recipient : Card) (secret : Bytes) (s : Text)
      → let t = new_file file_ref endpoint (payload_bytes card) none expires_at nonce in
        IsBase64
        → IsBox recipient.sealing_pk secret
        → ((body : Bytes) → lib.to_postcard t ≡ some body → lib.from_postcard body ≡ some t)
        → IsBound lib.is_key lib.verify_strict card
        → seal_ticket lib random t recipient ≡ ok s
        → open_ticket lib s secret ≡ ok t
  unfolding accept_ticket sender_card check_assertion new_file
  open_ticket-new_file random file_ref endpoint card expires_at nonce recipient secret s b64 box
        decoded held h =
      let t = new_file file_ref endpoint (payload_bytes card) none expires_at nonce in
      let accepted : accept_ticket lib t ≡ ok t =
        rw
          ((from_payload_bytes_iff lib.is_key lib.verify_strict (payload_bytes card) card).1
            (refl, held))
          refl in
      open_ticket-seal_ticket random t recipient secret s b64 box decoded accepted h
