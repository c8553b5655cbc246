-- ===== src/Net/Pull/Search.antt =====
-- The search for a free name in engine.rs ends: a directory of finitely many files leaves one of the
-- numbered names free.
use mathlib.Core.List.{append_cancel_left, append_cancel_right}
use mascara.Common.{
  ℕ, suc, zero, ◌+◌, ◌≤◌, ◌<◌, ◌≡◌, ◌≢◌, refl, sym, ◌∙◌, Bool, true, false, not, none, some, List,
  [], ◌∷◌, ◌++◌, ◌==◌, list_eq, nat_eq, length, drop, any, filter, Bool-cases, Option-cases, inl,
  inr, arith, eq_iff, eq_false, subst,
}
use mascara.Common.Text.{Text, codes, before_last}
use mascara.Net.Pull.{Dir, numbered, first_free, unique_destination}

shorter :
    {A : Type 0} (p : A → Bool) (xs : List A)
    → (length (filter (λ x. not (p x)) xs) ≤ length xs)
      × ((any p xs ≡ true) → length (filter (λ x. not (p x)) xs) < length xs)
shorter p [] = (ground arith, λ h. cc)
shorter p (x ∷ xs) =
    let (le, lt) = shorter p xs in (ground (arith, le), λ h. ground (arith, le, lt))

still_there :
    (a b : Text) (xs : List Text)
    → a ≢ b
    → any (λ m. m == a) xs ≡ any (λ m. m == a) (filter (λ m. not (m == b)) xs)
still_there a b [] h = refl
still_there a b (x ∷ xs) h = elim (Bool-cases (x == b)) [
  | inl t ↦
      let other : (x == a) ≡ false = eq_false x a (λ p. h (sym p ∙ (eq_iff x b).0 t)) in
      rw (other, t) (still_there a b xs h)
  | inr f ↦ rw f (rw (still_there a b xs h) refl)
]

module _ (candidate : ℕ → Text) (injective : (i j : ℕ) → candidate i ≡ candidate j → i ≡ j) where
  -- Of more names than there are in a list, one is not in the list.
  not_listed :
      (k n : ℕ) (names : List Text)
      → length names < k
      → (i : ℕ) × (i < k) × (any (λ m. m == candidate (n + i)) names ≡ false)
  not_listed zero n names h = absurd (omega (arith, h))
  not_listed (suc k) n names h = elim (Bool-cases (any (λ m. m == candidate (n + k)) names)) [
    | inr f ↦ (k, omega arith, f)
    | inl t ↦
        let fewer = (shorter (λ m. m == candidate (n + k)) names).1 t in
        let (i, lt, absent) =
          not_listed k n (filter (λ m. not (m == candidate (n + k))) names)
            (omega (arith, h, fewer)) in
        let other : candidate (n + i) ≢ candidate (n + k) =
          λ p. omega (arith, lt, injective (n + i) (n + k) p) in
        (
          i,
          omega (arith, lt),
          still_there (candidate (n + i)) (candidate (n + k)) names other ∙ absent,
        )
  ]

first_free-some :
    (candidate : ℕ → Text) (fuel n i : ℕ) (d : Dir)
    → i < fuel
    → d (candidate (n + i)) ≡ none
    → (f : Text) × (first_free candidate fuel n d ≡ some f)
unfolding first_free
first_free-some candidate zero n i d h e = absurd (omega (arith, h))
first_free-some candidate (suc fuel) n zero d h e =
    let free : d (candidate n) ≡ none = subst (λ k. d (candidate k) ≡ none) (omega arith) e in
    (candidate n, rw (first_free, free) refl)
first_free-some candidate (suc fuel) n (suc i) d h e = elim (Option-cases (d (candidate n))) [
  | inl free ↦ (candidate n, rw (first_free, free) refl)
  | inr (b, taken) ↦
      let (f, found) =
        first_free-some candidate fuel (suc n) i d (omega (arith, h))
          (subst (λ k. d (candidate k) ≡ none) (omega arith) e) in
      (f, rw (first_free, taken) found)
]

same_number :
    (decimal : ℕ → Text) (front back : Text)
    → ((i j : ℕ) → decimal i ≡ decimal j → i ≡ j)
    → (i j : ℕ)
    → front ++ (codes " (" ++ (decimal i ++ back)) ≡ front ++ (codes " (" ++ (decimal j ++ back))
    → i ≡ j
same_number decimal front back injective i j h = injective i j (
    append_cancel_right (decimal i) (decimal j) back (
      append_cancel_left (codes " (") (decimal i ++ back) (decimal j ++ back) (
        append_cancel_left front (codes " (" ++ (decimal i ++ back))
          (codes " (" ++ (decimal j ++ back)) h)))

numbered_injective :
    (decimal : ℕ → Text) (name : Text)
    → ((i j : ℕ) → decimal i ≡ decimal j → i ≡ j)
    → (i j : ℕ) → numbered decimal name i ≡ numbered decimal name j
    → i ≡ j
unfolding numbered
numbered_injective decimal name injective i j h = elim (Option-cases (before_last b'.' name)) [
  | inl e ↦ same_number decimal name (codes ")") injective i j (rw (numbered, e) at h)
  | inr ([], e) ↦ same_number decimal name (codes ")") injective i j (rw (numbered, e) at h)
  | inr (c ∷ stem, e) ↦
      same_number decimal (c ∷ stem) (codes ")" ++ drop (length (c ∷ stem)) name) injective i j
        (rw (numbered, e) at h)
]

-- If every file's name is in a list that is shorter than the fuel, and different numbers are written
-- differently, the search finds a name.
pub unique_destination-some :
    (decimal : ℕ → Text) (fuel : ℕ) (d : Dir) (names : List Text) (name : Text)
    → ((i j : ℕ) → decimal i ≡ decimal j → i ≡ j)
    → ((m : Text) → any (λ n. n == m) names ≡ false → d m ≡ none)
    → length names < fuel
    → (f : Text) × (unique_destination decimal fuel d name ≡ some f)
unfolding unique_destination
unique_destination-some decimal fuel d names name injective listed enough =
    elim (Option-cases (d name)) [
      | inl free ↦ (name, rw (unique_destination, free) refl)
      | inr (b, taken) ↦
          let (i, lt, absent) =
            not_listed (numbered decimal name) (numbered_injective decimal name injective) fuel 2
              names enough in
          let (f, found) =
            first_free-some (numbered decimal name) fuel 2 i d lt
              (listed (numbered decimal name (2 + i)) absent) in
          (f, rw (unique_destination, taken) found)
    ]
