-- ===== src/Core/Registry/Prefix.antt =====
-- `resolve_prefix` of registry.rs.
use mascara.Common.{
  ◌≡◌, refl, ap, Bool, true, List, [], ◌∷◌, ok, arith, eq_refl, Bool-cases, inl, inr, any, filter,
  All, list_eq, nat_eq, subst,
}
use mascara.Common.Text.{Text, Bytes, starts_with, trim}
use mascara.Core.Registry.{
  Nonce, IssuedRecord, IssuedTickets, has_nonce, matches_prefix, resolve_prefix, only_match,
  resolve_trimmed,
}

none_filtered :
    (q : IssuedRecord → Bool) (rs : List IssuedRecord) (r : IssuedRecord)
    → filter q rs ≡ []
    → All (λ s. q s ≡ true → s.nonce ≡ r.nonce) rs
none_filtered q [] r h = tt
none_filtered q (s ∷ rs) r h = elim (Bool-cases (q s)) [
  | inl t ↦ absurd (ground (arith, t))
  | inr f ↦ (λ t. cc, none_filtered q rs r (rw f at h))
]

one_filtered :
    (q : IssuedRecord → Bool) (rs : List IssuedRecord) (r : IssuedRecord)
    → filter q rs ≡ r ∷ []
    → (any (has_nonce r.nonce) rs ≡ true) × All (λ s. q s ≡ true → s.nonce ≡ r.nonce) rs
one_filtered q [] r h = cc
one_filtered q (s ∷ rs) r h = elim (Bool-cases (q s)) [
  | inl t ↦
      let h' : s ∷ filter q rs ≡ r ∷ [] = rw t at h in
      let e : s ≡ r = cc h' in
      (
        rw (e, eq_refl r.nonce) refl,
        ((λ _. ap (λ (x : IssuedRecord). x.nonce) e), none_filtered q rs r (cc h')),
      )
  | inr f ↦
      let rest = one_filtered q rs r (rw f at h) in (ground (arith, rest.0), ((λ t. cc), rest.1))
]

module _ (to_lowercase : Text → Text) (hex_encode : Bytes → Text) where
  abbrev pub Matches : Text → IssuedRecord → Type 0
  Matches prefix r = starts_with (hex_encode r.nonce) prefix ≡ true

  only_match-ok :
      (prefix : Text) (rs : List IssuedRecord) (n : Nonce)
      → only_match to_lowercase hex_encode prefix rs ≡ ok n
      → (r : IssuedRecord) × (rs ≡ r ∷ []) × (r.nonce ≡ n)
  unfolding only_match
  only_match-ok prefix [] n h = cc
  only_match-ok prefix (r ∷ []) n h = (r, refl, cc)
  only_match-ok prefix (r ∷ s ∷ many) n h = cc

  resolve_trimmed-ok :
      (t : IssuedTickets) (prefix : Text) (n : Nonce)
      → resolve_trimmed to_lowercase hex_encode t prefix ≡ ok n
      → (any (has_nonce n) t.tickets ≡ true) × All (λ r. Matches prefix r → r.nonce ≡ n) t.tickets
  unfolding resolve_trimmed
  resolve_trimmed-ok t [] n h = cc
  resolve_trimmed-ok t (c ∷ prefix) n h =
      let found = only_match-ok (c ∷ prefix) _ n h in
      let both =
        one_filtered (matches_prefix to_lowercase hex_encode (c ∷ prefix)) t.tickets found.0
          found.1 in
      subst
        (λ m.
          (any (has_nonce m) t.tickets ≡ true)
          × All (λ r. Matches (c ∷ prefix) r → r.nonce ≡ m) t.tickets)
        found.2 both

  -- An id that resolves names an issued nonce, and every issued nonce whose hex form begins with the
  -- trimmed, lower-cased id is that one.
  pub resolve_prefix_unique :
      (t : IssuedTickets) (id : Text) (n : Nonce)
      → resolve_prefix to_lowercase hex_encode t id ≡ ok n
      → (any (has_nonce n) t.tickets ≡ true)
        × All (λ r. Matches (to_lowercase (trim id)) r → r.nonce ≡ n) t.tickets
  unfolding resolve_prefix
  resolve_prefix_unique t id n h = resolve_trimmed-ok t (to_lowercase (trim id)) n h
