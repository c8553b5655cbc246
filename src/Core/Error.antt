-- ===== src/Core/Error.antt =====
-- crates/mascara-core/src/error.rs. A message is modelled by the template that it is formatted from
-- and the values put into it.
use mascara.Common.{ℕ}
use mascara.Common.Text.{Text, Bytes}

pub data Reason : Type 0 where
  already_issued no_such_ticket : Bytes → Reason
  empty_id : Reason
  no_match : Text → Reason
  ambiguous : Text → ℕ → Reason
  unsupported_version : ℕ → Reason
  already_recorded no_such_transfer already_completed : Bytes → Reason
  could_not_encode could_not_decode could_not_read : Reason
  over_hard_cap : ℕ → Reason
  root_hash_mismatch : Bytes → Bytes → Reason
  missing_prefix : Reason
  not_base64 not_hex : Reason
  not_sealed : ℕ → Reason
  wrong_key_or_tampered : Reason
  wrong_length : ℕ → Reason
  invalid_transport_key keys_not_bound : Reason
  type_mismatch : Reason
  rejected_signature malformed_signature invalid_signer : Reason
  not_a_card_string : Reason
  wrong_prefix : Text → Reason
  encryption_failed : Reason

-- Which step of reading or writing a file failed.
pub data IoError : Type 0 where
  reading creating_dir creating_file writing syncing renaming : IoError

pub data CoreError : Type 0 where
  invalid_card seal ticket registry assertion manifest content history keystore : Reason → CoreError
  no_identity : CoreError
  io : IoError → CoreError
  json : CoreError
  -- Not a variant of the source: a panic, which unwinds through every caller.
  panicked : CoreError
