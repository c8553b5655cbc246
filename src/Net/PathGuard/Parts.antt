-- ===== src/Net/PathGuard/Parts.antt =====
-- The parts of a path: lemmas on `split` and `components`.
use mascara.Common.{
  ℕ, ◌≡◌, refl, Bool, false, ◌||◌, List, [], ◌∷◌, map, >>=-eq-ok, ok, arith, eqb, ◌==◌, list_eq,
  nat_eq, All, Bool-cases, inl, inr,
}
use mascara.Common.Text.{Text, codes, contains, split, onto_first, ends_with}
use mascara.Net.PathGuard.{
  normal, components_of, is_slash, check_segment, check_segments, has_drive_letter,
  is_windows_reserved_name, starts_with_slash,
}

abbrev pub is_backslash : ℕ → Bool
is_backslash c = eqb c b'\\'

-- A text with no backslash has the same parts, whether or not a backslash separates.
pub split-no_backslash :
    (s : Text)
    → contains b'\\' s ≡ false
    → split (λ c. is_slash c || is_backslash c) s ≡ split is_slash s
unfolding contains split
split-no_backslash [] h = refl
split-no_backslash (c ∷ s) h = ground (arith, split-no_backslash s)

-- A text with no slash is its only part.
pub split-no_slash : (s : Text) → contains b'/' s ≡ false → split is_slash s ≡ s ∷ []
unfolding contains split
split-no_slash [] h = refl
split-no_slash (c ∷ s) h = ground (arith, split-no_slash s)

pub starts-no_slash : (s : Text) → contains b'/' s ≡ false → starts_with_slash s ≡ false
unfolding contains
starts-no_slash [] h = refl
starts-no_slash (c ∷ s) h = ground arith

-- A part that `check_segment` accepts.
pub record IsPlain (seg : Text) : Type 0 where
  pub filled : (seg == []) ≡ false
  pub no_dot : (seg == codes ".") ≡ false
  pub no_dots : (seg == codes "..") ≡ false
  pub no_drive : has_drive_letter seg ≡ false
  pub no_colon : contains b':' seg ≡ false
  pub not_reserved : is_windows_reserved_name seg ≡ false
  pub no_last_dot : ends_with b'.' seg ≡ false
  pub no_last_space : ends_with b' ' seg ≡ false

pub check_segment-IsPlain : (seg : Text) → check_segment seg ≡ ok tt → IsPlain seg
unfolding check_segment
check_segment-IsPlain seg h = ground arith

pub check_segments-IsPlain : (segs : List Text) → check_segments segs ≡ ok tt → All IsPlain segs
unfolding check_segments
check_segments-IsPlain [] h = tt
check_segments-IsPlain (seg ∷ segs) h =
    let (_, first, rest) = >>=-eq-ok (check_segment seg) (λ _. check_segments segs) h in
    (check_segment-IsPlain seg first, check_segments-IsPlain segs rest)

pub components_of-plain :
    (segs : List Text) → All IsPlain segs → components_of segs ≡ map normal segs
unfolding components_of
components_of-plain [] h = refl
components_of-plain (seg ∷ segs) h =
    rw (h.0.filled, h.0.no_dot, h.0.no_dots, components_of-plain segs h.1)

All-onto_first :
    (c : ℕ) (d : ℕ) (segs : List Text)
    → eqb d c ≡ false
    → All (λ seg. contains c seg ≡ false) segs
    → All (λ seg. contains c seg ≡ false) (onto_first d segs)
unfolding contains
All-onto_first c d [] h k = (ground (arith, h), tt)
All-onto_first c d (seg ∷ segs) h k = (ground (arith, h, k.0), k.1)

no_char : (c : ℕ) → contains c [] ≡ false
unfolding contains
no_char c = refl

contains-cons :
    (c d : ℕ) (s : Text) → contains c (d ∷ s) ≡ false → (eqb d c ≡ false) × (contains c s ≡ false)
unfolding contains
contains-cons c d s h = ground arith

-- No part of a path has a slash, and none has a character that the path has not.
pub parts-no_slash : (s : Text) → All (λ seg. contains b'/' seg ≡ false) (split is_slash s)
unfolding split
parts-no_slash [] = (no_char b'/', tt)
parts-no_slash (c ∷ s) = elim (Bool-cases (is_slash c)) [
  | inl t ↦ rw t (no_char b'/', parts-no_slash s)
  | inr f ↦ rw f (All-onto_first b'/' c (split is_slash s) f (parts-no_slash s))
]

pub parts-no_char :
    (c : ℕ) (s : Text)
    → contains c s ≡ false
    → All (λ seg. contains c seg ≡ false) (split is_slash s)
unfolding split
parts-no_char c [] h = (no_char c, tt)
parts-no_char c (d ∷ s) h =
    let (other, rest) = contains-cons c d s h in
    elim (Bool-cases (is_slash d)) [
      | inl t ↦ rw t (no_char c, parts-no_char c s rest)
      | inr f ↦ rw f (All-onto_first c d (split is_slash s) other (parts-no_char c s rest))
    ]
