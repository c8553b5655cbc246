-- ===== src/Core/ContentCheck/Policies.antt =====
-- What the policies of content_check.rs refuse, and what they let pass.
use mascara.Common.{
  ◌≡◌, ◌↔◌, refl, ap, false, Option, some, ok, err, Bool-cases, Option-cases, inl, inr,
}
use mascara.Common.Text.{Text, Bytes}
use mascara.Core.Error.{content, type_mismatch}
use mascara.Core.ContentCheck.{
  Sniffed, Verdict, match, mismatch, unverifiable, warn_and_acknowledge, hard_refuse, ext_of,
  agrees, check, verdict_of, under_policy,
}

module _ (infer_get : Bytes → Option Sniffed) where
  -- The type of the bytes is recognised and contradicts the name's extension or the declared type.
  abbrev pub IsSpoof : Text → Option Text → Bytes → Type 0
  IsSpoof name mime bytes =
      (sniffed : Sniffed) × (infer_get bytes ≡ some sniffed)
      × (agrees infer_get name mime sniffed ≡ false)

  -- The strict policy refuses a file exactly if its bytes have a recognised type that contradicts its
  -- name or declared type, so never a file whose type is not recognised; the default policy refuses
  -- none; and what the strict policy lets pass gets the verdict of the default one.
  pub check-policies :
      (name : Text) (mime : Option Text) (bytes : Bytes)
      → ((check infer_get name mime bytes hard_refuse ≡ err (content type_mismatch))
          ↔ IsSpoof name mime bytes)
        × ((v : Verdict) × (check infer_get name mime bytes warn_and_acknowledge ≡ ok v))
        × ((v : Verdict)
            → check infer_get name mime bytes hard_refuse ≡ ok v
            → check infer_get name mime bytes warn_and_acknowledge ≡ ok v)
  unfolding check verdict_of under_policy
  check-policies name mime bytes = elim (Option-cases (infer_get bytes)) [
    | inl e ↦
        let w : verdict_of infer_get name mime bytes ≡ unverifiable = rw (verdict_of, e) refl in
        (
          ((λ h. cc (rw (check, w) at h)), λ s. cc (s.1, e)),
          (verdict_of infer_get name mime bytes, refl),
          λ v h. rw w (rw (check, w) at h),
        )
    | inr (sniffed, e) ↦ elim (Bool-cases (agrees infer_get name mime sniffed)) [
      | inl t ↦
          let w : verdict_of infer_get name mime bytes ≡ match = rw (verdict_of, e, t) refl in
          (
            (
              (λ h. cc (rw (check, w) at h)),
              λ s.
                  let same : sniffed ≡ s.0 = cc (e, s.1) in
                  cc (t, ap (agrees infer_get name mime) same, s.2),
            ),
            (verdict_of infer_get name mime bytes, refl),
            λ v h. rw w (rw (check, w) at h),
          )
      | inr f ↦
          let w : verdict_of infer_get name mime bytes
              ≡ mismatch (ext_of name) mime (some sniffed.extension) (some sniffed.mime_type) =
            rw (verdict_of, e, f) refl in
          (
            ((λ h. (sniffed, e, f)), λ s. rw (check, w) refl),
            (verdict_of infer_get name mime bytes, refl),
            λ v h. cc (rw (check, w) at h),
          )
    ]
  ]
