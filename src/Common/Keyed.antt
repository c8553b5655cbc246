-- ===== src/Common/Keyed.antt =====
-- Lists of records that are looked up by a key, as the stores keep them.
use mathlib.Core.Option
use mascara.Common.Tests.{
  if◌then◌else◌, Bool-cases, PartialEq, ◌==◌, eq_comm, eq_iff, ne_of_eq_false,
}
use mascara.Common.Lists.{
  any, filter, find, update_first, find-update_first_self, find-update_first_ne,
}
use mathlib.Core.Path.{◌≡◌, refl, sym, ap, ◌∙◌, subst}
use mathlib.Core.Logic.{◌≢◌, inl, inr}
use mathlib.Core.Bool.{Bool, true, false}
use mathlib.Core.Option.{Option, none, some}
use mathlib.Core.List.{List, [], ◌∷◌, ◌++◌, map}
use native.Mathlib.Omega.{arith}

module _ {ℓ κ} {A : Type ℓ} {K : Type κ} ⦃e : PartialEq K⦄ (key : A → K) where
  abbrev pub has : K → A → Bool
  has k a = key a == k

  -- No key stands twice.
  abbrev pub Distinct : List A → Type 0
  Distinct [] = Unit {0}
  Distinct (x ∷ xs) = (any (has (key x)) xs ≡ false) × Distinct xs

module _ {ℓ κ} {A : Type ℓ} {K : Type κ} ⦃e : PartialEq K⦄ (key : A → K) where
  has_disjoint : (n m : K) (a : A) → n ≢ m → has key n a ≡ true → has key m a ≡ false
  has_disjoint n m a h t = elim (Bool-cases (has key m a)) [
    | inl u ↦ absurd (h (sym ((eq_iff (key a) n).0 t) ∙ (eq_iff (key a) m).0 u))
    | inr f ↦ f
  ]

  pub find-has :
      (n m : K) (xs : List A) → (n == m) ≡ true → find (has key m) xs ≡ find (has key n) xs
  find-has n m xs h = ap (λ k. find (has key k) xs) (sym ((eq_iff n m).0 h))

  pub find-any :
      (k : K) (xs : List A) (a : A) → find (has key k) xs ≡ some a → any (has key k) xs ≡ true
  find-any k [] a h = cc
  find-any k (x ∷ xs) a h = ground (arith, find-any k xs a)

  pub any-append :
      (k : K) (xs : List A) (a : A)
      → any (has key k) (xs ++ a ∷ []) ≡ (if any (has key k) xs then true else has key k a)
  any-append k [] a = ground arith
  any-append k (x ∷ xs) a = ground (arith, any-append k xs a)

  pub append-Distinct :
      (xs : List A) (a : A)
      → any (has key (key a)) xs ≡ false
      → Distinct key xs
      → Distinct key (xs ++ a ∷ [])
  append-Distinct [] a h d = (refl, tt)
  append-Distinct (x ∷ xs) a h d = (
    ground (arith, any-append (key x) xs a, eq_comm (key x) (key a)),
    append-Distinct xs a (ground arith) d.1,
  )

  any-filter :
      (q : A → Bool) (k : K) (xs : List A)
      → any (has key k) xs ≡ false
      → any (has key k) (filter q xs) ≡ false
  any-filter q k [] h = refl
  any-filter q k (x ∷ xs) h = ground (arith, any-filter q k xs)

  pub filter-Distinct : (q : A → Bool) (xs : List A) → Distinct key xs → Distinct key (filter q xs)
  filter-Distinct q [] d = tt
  filter-Distinct q (x ∷ xs) d = ground (arith, any-filter q (key x) xs, filter-Distinct q xs d.1)

  find-none : (k : K) (xs : List A) → any (has key k) xs ≡ false → find (has key k) xs ≡ none
  find-none k [] h = refl
  find-none k (x ∷ xs) h = ground (arith, find-none k xs)

  -- With distinct keys a search in a filtered list finds what it would have found, if that was kept.
  pub find-filter :
      (q : A → Bool) (k : K) (xs : List A)
      → Distinct key xs
      → find (has key k) (filter q xs)
        ≡ elim (find (has key k) xs) [ none ↦ none | some a ↦ if q a then some a else none ]
  find-filter q k [] d = refl
  find-filter q k (x ∷ xs) d = ground (
    arith,
    find-filter q k xs d.1,
    eq_iff (key x) k,
    find-none k (filter q xs),
    any-filter q k xs,
    ap (λ (j : K). any (has key j) xs) {x = key x} {y = k},
  )

  module _ (f : A → A) (same : (a : A) → key (f a) ≡ key a) where
    any-map : (k : K) (xs : List A) → any (has key k) (map f xs) ≡ any (has key k) xs
    any-map k [] = refl
    any-map k (x ∷ xs) = rw (same x, any-map k xs) refl

    pub map-Distinct : (xs : List A) → Distinct key xs → Distinct key (map f xs)
    map-Distinct [] d = tt
    map-Distinct (x ∷ xs) d = (rw (same x, any-map (key x) xs) d.0, map-Distinct xs d.1)

    pub find-map :
        (k : K) (xs : List A) → find (has key k) (map f xs) ≡ Option.map f (find (has key k) xs)
    find-map k [] = refl
    find-map k (x ∷ xs) = rw (same x) (ground (arith, find-map k xs))

    any_update :
        (k n : K) (xs : List A)
        → any (has key k) (update_first (has key n) f xs) ≡ any (has key k) xs
    any_update k n [] = refl
    any_update k n (x ∷ xs) = ground (arith, same x, any_update k n xs)

    pub update-Distinct :
        (n : K) (xs : List A) → Distinct key xs → Distinct key (update_first (has key n) f xs)
    update-Distinct n [] d = tt
    update-Distinct n (x ∷ xs) d =
        ground (arith, same x, any_update (key x) n xs, update-Distinct n xs d.1)

    -- A write to the record of one key is seen by a search for that key only.
    pub find-update :
        (n m : K) (xs : List A)
        → find (has key m) (update_first (has key n) f xs)
          ≡ (if n == m then Option.map f (find (has key m) xs) else find (has key m) xs)
    find-update n m xs = elim (Bool-cases (n == m)) [
      | inl t ↦ rw t (
          subst
            (λ k.
              find (has key k) (update_first (has key n) f xs) ≡ Option.map f (find (has key k) xs))
            ((eq_iff n m).0 t) (find-update_first_self (has key n) f xs (λ a h. rw (same a) h)))
      | inr u ↦
          let other : n ≢ m = ne_of_eq_false n m u in
          rw u (
            find-update_first_ne (has key n) (has key m) f xs (λ a. has_disjoint n m a other)
              (λ a h. rw (same a) (has_disjoint n m a other h)))
    ]
