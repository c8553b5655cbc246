-- ===== src/Hoard/Gate/Freshness.antt =====
-- When gate.rs accepts a token.
use mascara.Common.{
  ℕ, ◌+◌, ◌^◌, ◌≤◌, ◌<◌, ◌≡◌, ◌↔◌, ap, sym, false, Result, ok, ltb, eqb, eqb_iff, arith, Bool-cases,
  Result-cases, inl, inr,
}
use mascara.Common.Text.{Bytes}
use mascara.Hoard.Gate.{
  HbError, TagU8, value, Token, kind_xfer_token, saturating_add, check_version,
  verify_binding_token,
}

check_version-ok : (v : TagU8) → (check_version v ≡ ok tt) ↔ (v ≡ value 1)
unfolding check_version
check_version-ok v = (λ h. ground (arith, v), λ h. ground (arith, v))

-- The saturated sum is passed just when the sum is, by a number of 64 bits.
not_before_iff : (a b c : ℕ) → c < 2 ^ 64 → (ltb (saturating_add a b) c ≡ false) ↔ (c ≤ a + b)
unfolding saturating_add
not_before_iff a b c h = (λ e. ground (arith, h, e), λ e. ground (arith, h, e))

module _ (verify_event : Token → Result (Unit {0}) HbError) where
  -- With 64-bit times, a token is accepted, for the key that signed it, exactly if its signature is
  -- good, it is a transfer token of version 1, and its time is neither more than 300 seconds after now
  -- nor more than `max_age` before now: the saturation of the sums changes nothing.
  pub verify_binding_token_iff :
      (t : Token) (now max_age : ℕ) (npub : Bytes)
      → now < 2 ^ 64
      → t.created_at < 2 ^ 64
      → (verify_binding_token verify_event t now max_age ≡ ok npub) ↔ (
          (verify_event t ≡ ok tt)
          × (t.kind ≡ kind_xfer_token)
          × (t.version ≡ value 1)
          × (t.created_at ≤ now + 300)
          × (now ≤ t.created_at + max_age)
          × (npub ≡ t.pubkey))
  unfolding verify_binding_token
  verify_binding_token_iff t now max_age npub small small' = (
    (λ h. elim (Result-cases (verify_event t)) [
      | inr (e, bad) ↦ cc (rw (verify_binding_token, bad) at h)
      | inl (u, good) ↦ elim (Bool-cases (eqb t.kind kind_xfer_token)) [
        | inr k ↦ cc (rw (verify_binding_token, good, k) at h)
        | inl k ↦ elim (Result-cases (check_version t.version)) [
          | inr (e, v) ↦ cc (rw (verify_binding_token, good, k, v) at h)
          | inl (u', v) ↦ elim (Bool-cases (ltb (saturating_add now 300) t.created_at)) [
            | inl early ↦ cc (rw (verify_binding_token, good, k, v, early) at h)
            | inr early ↦ elim (Bool-cases (ltb (saturating_add t.created_at max_age) now)) [
              | inl late ↦ cc (rw (verify_binding_token, good, k, v, early, late) at h)
              | inr late ↦
                  let same : ◌≡◌ {A = Result Bytes HbError} (ok t.pubkey) (ok npub) =
                    rw (verify_binding_token, good, k, v, early, late) at h in
                  (
                    good,
                    (eqb_iff t.kind kind_xfer_token).0 k,
                    (check_version-ok t.version).0 v,
                    (not_before_iff now 300 t.created_at small').0 early,
                    (not_before_iff t.created_at max_age now small).0 late,
                    cc (same),
                  )
            ]
          ]
        ]
      ]
    ]),
    λ (good, k, v, early, late, n).
        rw
          (
            good,
            (eqb_iff t.kind kind_xfer_token).1 k,
            (check_version-ok t.version).1 v,
            (not_before_iff now 300 t.created_at small').1 early,
            (not_before_iff t.created_at max_age now small).1 late,
          )
          (sym (ap ok n)),
  )
