-- ===== src/Core/Manifest.antt =====
-- crates/mascara-core/src/manifest.rs: the folder manifest, decoded under its caps and verified
-- against the ticket's commitment. postcard and SHA-256 are not part of the repository.
pub mod Verified
use mascara.Common.{
  ℕ, ◌*◌, Bool, true, false, not, Option, none, some, List, [], Result, ok, err, ltb, eqb,
  if◌then◌else◌, ◌==◌, list_eq, nat_eq, length, ◌>>=◌, ok_or,
}
use mascara.Common.Text.{Text, Bytes}
use mascara.Core.Error.{
  CoreError, manifest, could_not_encode, could_not_decode, over_hard_cap, root_hash_mismatch,
  unsupported_version,
}

abbrev pub manifest_version : ℕ
manifest_version = 1

abbrev pub hard_cap_bytes : ℕ
hard_cap_bytes = 33554432

abbrev pub soft_warn_bytes : ℕ
soft_warn_bytes = 1572864

pub record ManifestEntry : Type 0 where
  pub rel_path : Text
  pub size : ℕ
  pub sha256 : Bytes
  pub md5 : Bytes
  pub mode : ℕ

pub record Manifest : Type 0 where
  pub v : ℕ
  pub entries : List ManifestEntry

pub data DecodeOutcome : Type 0 where
  clean : Manifest → DecodeOutcome
  with_soft_warn : Manifest → DecodeOutcome

-- `DecodeOutcome::into_manifest`
unfoldable pub into_manifest : DecodeOutcome → Manifest
into_manifest (clean m) = m
into_manifest (with_soft_warn m) = m

-- `DecodeOutcome::is_soft_warn`
unfoldable pub is_soft_warn : DecodeOutcome → Bool
is_soft_warn (clean m) = false
is_soft_warn (with_soft_warn m) = true

module _ (to_postcard : Manifest → Option Bytes) (from_postcard : Bytes → Option Manifest)
    (digest : Bytes → Bytes) where
  unfoldable pub encode : Manifest → Result Bytes CoreError
  encode m = ok_or (to_postcard m) (manifest could_not_encode)

  unfoldable pub root_hash : Manifest → Result Bytes CoreError
  unfolding encode
  root_hash m = encode m >>= λ bytes. ok (digest bytes)

  unfoldable pub verify : Manifest → Bytes → Result (Unit {0}) CoreError
  unfolding root_hash
  verify m expected = root_hash m >>= λ actual.
      if not (actual == expected)
      then err (manifest (root_hash_mismatch expected actual))
      else ok tt

  versioned : ℕ → Manifest → Result DecodeOutcome CoreError
  versioned len m =
      if not (eqb m.v manifest_version)
      then err (manifest (unsupported_version m.v))
      else if ltb soft_warn_bytes len
      then ok (with_soft_warn m)
      else ok (clean m)

  unfoldable pub decode : Bytes → Result DecodeOutcome CoreError
  unfolding versioned
  decode bytes =
      if ltb hard_cap_bytes (length bytes)
      then err (manifest (over_hard_cap (length bytes)))
      else (ok_or (from_postcard bytes) (manifest could_not_decode) >>= versioned (length bytes))

  unfoldable pub decode_and_verify : Bytes → Bytes → Result DecodeOutcome CoreError
  unfolding decode
  decode_and_verify bytes expected = decode bytes >>= λ outcome.
      if not (digest bytes == expected)
      then err (manifest (root_hash_mismatch expected (digest bytes)))
      else ok outcome
