-- ===== src/Core/Manifest/Verified.antt =====
-- What a verified manifest is worth, and that an encoded manifest comes back.
use mascara.Common.{
  ◌≤◌, ◌≡◌, ◌↔◌, refl, sym, Bool-cases, Option, some, ok, ltb, arith, list_eq, nat_eq, length,
  eq_iff, Option-cases, inl, inr,
}
use mascara.Common.Text.{Bytes}
use mascara.Core.Manifest.{
  Manifest, DecodeOutcome, clean, with_soft_warn, into_manifest, is_soft_warn, decode,
  decode_and_verify, hard_cap_bytes, soft_warn_bytes, manifest_version,
}

module _ (to_postcard : Manifest → Option Bytes) (from_postcard : Bytes → Option Manifest)
    (digest : Bytes → Bytes) where
  -- The conditions under which bytes are a manifest that may be used.
  abbrev pub IsAcceptable : Bytes → Bytes → DecodeOutcome → Type 0
  IsAcceptable bytes expected o =
      (length bytes ≤ hard_cap_bytes)
      × (from_postcard bytes ≡ some (into_manifest o))
      × ((into_manifest o).v ≡ manifest_version)
      × (digest bytes ≡ expected)
      × (is_soft_warn o ≡ ltb soft_warn_bytes (length bytes))

  -- `decode_and_verify` gives an outcome exactly if the bytes are within the hard cap, decode to its
  -- manifest, which has the current version, hash to the commitment, and exceed the soft cap just
  -- when the outcome carries the warning.
  pub decode_and_verify_iff :
      (bytes expected : Bytes) (o : DecodeOutcome)
      → (decode_and_verify to_postcard from_postcard digest bytes expected ≡ ok o)
        ↔ IsAcceptable bytes expected o
  unfolding decode_and_verify decode into_manifest is_soft_warn
  decode_and_verify_iff bytes expected (clean m) = elim (Option-cases (from_postcard bytes)) [
    | inl e ↦ (λ h. ground (arith, e), λ h. ground (arith, e))
    | inr (d, e) ↦ (
      λ h. ground (arith, e, eq_iff (digest bytes) expected),
      λ h. ground (arith, e, eq_iff (digest bytes) expected),
    )
  ]
  decode_and_verify_iff bytes expected (with_soft_warn m) =
      elim (Option-cases (from_postcard bytes)) [
        | inl e ↦ (λ h. ground (arith, e), λ h. ground (arith, e))
        | inr (d, e) ↦ (
          λ h. ground (arith, e, eq_iff (digest bytes) expected),
          λ h. ground (arith, e, eq_iff (digest bytes) expected),
        )
      ]

module _ (to_postcard : Manifest → Option Bytes) (from_postcard : Bytes → Option Manifest)
    (digest : Bytes → Bytes) where
  -- Bytes that meet the conditions give their manifest.
  pub decode_and_verify-some :
      (buf root : Bytes) (m : Manifest)
      → length buf ≤ hard_cap_bytes
      → digest buf ≡ root
      → from_postcard buf ≡ some m
      → m.v ≡ 1
      → (o : DecodeOutcome) × (decode_and_verify to_postcard from_postcard digest buf root ≡ ok o)
        × (into_manifest o ≡ m)
  unfolding into_manifest is_soft_warn
  decode_and_verify-some buf root m small hashed decoded version =
      elim (Bool-cases (ltb soft_warn_bytes (length buf))) [
        | inl large ↦ (
          with_soft_warn m,
          (decode_and_verify_iff to_postcard from_postcard digest buf root (with_soft_warn m)).1
              (small, decoded, version, hashed, sym large),
          refl,
        )
        | inr little ↦ (
          clean m,
          (decode_and_verify_iff to_postcard from_postcard digest buf root (clean m)).1
              (small, decoded, version, hashed, sym little),
          refl,
        )
      ]
