-- ===== src/Core/Keystore.antt =====
-- crates/mascara-core/src/keystore.rs and identity.rs: the two secrets of an identity, and the files
-- that hold them and the card. The directory is a map from names to contents with their mode; the
-- calls of a write may fail, as the environment decides; a file that is there can be read.
pub mod Private
pub mod Loaded
use mascara.Common.{
  ℕ, Bool, true, false, not, Option, none, some, List, [], ◌∷◌, ◌++◌, Result, ok, err, ◌>>=◌, ◌>>◌,
  ok_or, eqb, if◌then◌else◌, ◌==◌, list_eq, nat_eq, length, take,
}
use mascara.Common.Text.{Text, Bytes, codes}
use mascara.Core.Error.{
  CoreError, io, IoError, creating_dir, creating_file, writing, syncing, renaming, json, keystore,
  no_identity, unsupported_version, not_hex, wrong_length,
}
use mascara.Core.Card.{Card, binding_message}

pub record Identity : Type 0 where
  pub transport : Bytes
  pub sealing : Bytes

-- The public halves, and the signature by the transport key, which the libraries compute.
pub record Keys : Type 0 where
  pub verifying_key : Bytes → Bytes
  pub sealing_public : Bytes → Bytes
  pub sign : Bytes → Bytes → Bytes

-- `Identity::card`
unfoldable pub card : Keys → Identity → Card
card keys id =
    let sealing_pk : Bytes = keys.sealing_public id.sealing in
    record {
      transport_pk = keys.verifying_key id.transport;
      sealing_pk = sealing_pk;
      binding_sig = keys.sign id.transport (binding_message sealing_pk);
    }

abbrev pub keys_file : Text
keys_file = codes "keys.json"

abbrev pub card_file : Text
card_file = codes "card.txt"

-- `path.with_extension("tmp")` of the two.
abbrev pub keys_tmp : Text
keys_tmp = codes "keys.tmp"

abbrev pub card_tmp : Text
card_tmp = codes "card.tmp"

-- The content of a file, and whether its mode is 0600.
abbrev pub Home : Type 0
Home = Text → Option (Bytes × Bool)

unfoldable pub put_file : Text → Option (Bytes × Bool) → Home → Home
put_file n b h m = if n == m then b else h m

abbrev mode_of : Option (Bytes × Bool) → Bool
mode_of none = false
mode_of (some f) = f.1

pub data Call : Type 0 where
  make_dir : Call
  protect_dir : Call
  create : Text → Call
  protect : Text → Call
  write : Text → Bytes → Call
  sync : Text → Call
  rename : Text → Text → Call

-- Opening a file that exists empties it and leaves its mode.
unfoldable pub perform : Call → Home → Home
unfolding put_file
perform make_dir h = h
perform protect_dir h = h
perform (create n) h = put_file n (some ([], mode_of (h n))) h
perform (protect n) h = elim (h n) [ none ↦ h | some f ↦ put_file n (some (f.0, true)) h ]
perform (write n b) h = put_file n (some (b, mode_of (h n))) h
perform (sync n) h = h
perform (rename n m) h = put_file n none (put_file m (h n) h)

-- A failed write may have written the first bytes.
unfoldable pub fail : Call → ℕ → Home → Home
unfolding put_file
fail (write n b) k h = put_file n (some (take k b, mode_of (h n))) h
fail make_dir k h = h
fail protect_dir k h = h
fail (create n) k h = h
fail (protect n) k h = h
fail (sync n) k h = h
fail (rename n m) k h = h

abbrev error_of : Call → IoError
error_of make_dir = creating_dir
error_of protect_dir = creating_dir
error_of (create n) = creating_file
error_of (protect n) = creating_file
error_of (write n b) = writing
error_of (sync n) = syncing
error_of (rename n m) = renaming

-- The calls in turn, up to the first that fails; `weather` has an entry for each.
unfoldable pub run_all : List Call → List (Option ℕ) → Home → Result (Unit {0}) CoreError × Home
run_all [] weather h = (ok tt, h)
run_all (c ∷ calls) (some k ∷ weather) h = (err (io (error_of c)), fail c k h)
run_all (c ∷ calls) (none ∷ weather) h = run_all calls weather (perform c h)
run_all (c ∷ calls) [] h = run_all calls [] (perform c h)

-- `atomic_write`
unfoldable pub write_steps : Text → Text → Bytes → Bool → List Call
write_steps tmp name bytes true =
    create tmp ∷ protect tmp ∷ write tmp bytes ∷ sync tmp ∷ rename tmp name ∷ []
write_steps tmp name bytes false = create tmp ∷ write tmp bytes ∷ sync tmp ∷ rename tmp name ∷ []

-- `write_card`, by the card's text.
unfoldable pub card_steps : Bytes → List Call
unfolding write_steps
card_steps text = make_dir ∷ write_steps card_tmp card_file (text ++ codes "\n") false

-- `save_identity` once the JSON is made.
unfoldable pub save_steps : Bytes → Bytes → List Call
unfolding write_steps card_steps
save_steps keys_json text =
    make_dir ∷ protect_dir ∷ (write_steps keys_tmp keys_file keys_json true ++ card_steps text)

pub record KeysFile : Type 0 where
  pub v : ℕ
  pub transport_sk : Text
  pub sealing_sk : Text

-- `matches!(e, CoreError::NoIdentity(_))`
is_missing : CoreError → Bool
is_missing no_identity = true
is_missing e = false

-- An identity once it is saved.
once_saved : {A : Type 0} → A → Result (Unit {0}) CoreError × Home → Result A CoreError × Home
once_saved a (ok _, h) = (ok a, h)
once_saved a (err why, h) = (err why, h)

-- serde and hex are not part of the repository, and the date of creation is not read.
module _ (to_json : KeysFile → Option Bytes) (from_json : Bytes → Option KeysFile)
    (to_hex : Bytes → Text) (from_hex : Text → Option Bytes) (keys : Keys)
    (card_text : Card → Bytes) where
  -- `decode_secret`
  unfoldable pub decode_secret : Text → Result Bytes CoreError
  decode_secret s = ok_or (from_hex s) (keystore not_hex) >>= λ bytes.
      if not (eqb (length bytes) 32) then err (keystore (wrong_length (length bytes))) else ok bytes

  -- `load_identity`
  unfoldable pub load_identity : Home → Result Identity CoreError
  unfolding decode_secret
  load_identity h = elim (h keys_file) [
    | none ↦ err no_identity
    | some f ↦ ok_or (from_json f.0) json >>= λ parsed.
        if not (eqb parsed.v 1)
        then err (keystore (unsupported_version parsed.v))
        else (decode_secret parsed.transport_sk >>= λ transport.
            decode_secret parsed.sealing_sk >>= λ sealing.
            ok (record { transport = transport; sealing = sealing }))
  ]

  unfoldable pub key_file_of : Identity → KeysFile
  key_file_of id = record {
    v = 1;
    transport_sk = to_hex id.transport;
    sealing_sk = to_hex id.sealing;
  }

  -- `save_identity`
  unfoldable pub save_identity :
      Identity → List (Option ℕ) → Home → Result (Unit {0}) CoreError × Home
  unfolding key_file_of card
  save_identity id weather h = elim (to_json (key_file_of id)) [
    | none ↦
        let made = run_all (make_dir ∷ protect_dir ∷ []) weather h in (made.0 >> err json, made.1)
    | some keys_json ↦ run_all (save_steps keys_json (card_text (card keys id))) weather h
  ]

  -- `init_if_missing`, with the identity that would be minted.
  unfoldable pub init_if_missing :
      Identity → List (Option ℕ) → Home → Result (Identity × Bool) CoreError × Home
  unfolding load_identity save_identity is_missing once_saved
  init_if_missing fresh weather h = elim (load_identity h) [
    | ok id ↦ (ok (id, false), h)
    | err why ↦
        if is_missing why
        then once_saved (fresh, true) (save_identity fresh weather h)
        else (err why, h)
  ]

  -- `rotate`
  unfoldable pub rotate : Identity → List (Option ℕ) → Home → Result Identity CoreError × Home
  unfolding save_identity once_saved
  rotate fresh weather h = once_saved fresh (save_identity fresh weather h)
