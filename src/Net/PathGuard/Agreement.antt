-- ===== src/Net/PathGuard/Agreement.antt =====
-- The two guards agree, and accept exactly the paths of plain parts.
use mathlib.Core.Bool.{true≢false}
use mascara.Common.{
  ◌≡◌, ◌↔◌, refl, ap, sym, ◌∙◌, false, List, [], ◌∷◌, map, ok, arith, ◌==◌, list_eq, nat_eq, All,
  Bool-cases, inl, inr, eq_refl, eq_false,
}
use mascara.Common.Text.{Text, contains, split}
use mascara.Net.PathGuard.{
  normal, safe_rel_path, safe_filename, is_slash, check_segment, check_segments, components,
  leading, all_normal, starts_with_slash,
}
use mascara.Net.PathGuard.Parts.{
  IsPlain, check_segments-IsPlain, components_of-plain, split-no_slash,
}
use mascara.Net.PathGuard.Containment.{safe_rel_path-checks}

plain-check_segment : (seg : Text) → IsPlain seg → check_segment seg ≡ ok tt
unfolding check_segment
plain-check_segment seg p = ground arith

plain-check_segments : (segs : List Text) → All IsPlain segs → check_segments segs ≡ ok tt
unfolding check_segments
plain-check_segments [] h = refl
plain-check_segments (seg ∷ segs) h =
    rw (plain-check_segment seg h.0) (plain-check_segments segs h.1)

plain-leading : (segs : List Text) → All IsPlain segs → leading segs ≡ map normal segs
unfolding leading
plain-leading [] h = refl
plain-leading (seg ∷ segs) h = rw h.0.no_dot (components_of-plain (seg ∷ segs) h)

nil-not-IsPlain : ¬ IsPlain []
nil-not-IsPlain p = absurd (true≢false (sym (eq_refl {A = Text} []) ∙ p.filled))

empty_not-IsPlain : ¬ All IsPlain (split is_slash [])
unfolding split
empty_not-IsPlain h = nil-not-IsPlain h.0

plain-filled : (s : Text) → All IsPlain (split is_slash s) → (s == []) ≡ false
unfolding split
plain-filled [] k = absurd (nil-not-IsPlain k.0)
plain-filled (c ∷ s) k = eq_false (c ∷ s) [] (λ e. cc)

plain-starts : (s : Text) → All IsPlain (split is_slash s) → starts_with_slash s ≡ false
unfolding split
plain-starts [] h = refl
plain-starts (c ∷ s) h = elim (Bool-cases (is_slash c)) [
  | inl t ↦ absurd (nil-not-IsPlain (rw t at h).0)
  | inr f ↦ f
]

pub plain-components :
    (s : Text) → All IsPlain (split is_slash s) → components s ≡ map normal (split is_slash s)
unfolding components
plain-components [] h = absurd (empty_not-IsPlain h)
plain-components (c ∷ s) h = rw (plain-starts (c ∷ s) h) (plain-leading (split is_slash (c ∷ s)) h)

all_normal-map : (rel : Text) (segs : List Text) → all_normal rel (map normal segs) ≡ ok rel
unfolding all_normal
all_normal-map rel [] = refl
all_normal-map rel (seg ∷ segs) = all_normal-map rel segs

plain-safe_rel_path :
    (rel : Text)
    → contains b'\\' rel ≡ false
    → All IsPlain (split is_slash rel)
    → safe_rel_path rel ≡ ok rel
unfolding safe_rel_path
plain-safe_rel_path rel nb h =
    rw
      (
        plain-filled rel h,
        plain-starts rel h,
        nb,
        plain-check_segments (split is_slash rel) h,
        plain-components rel h,
      )
      (all_normal-map rel (split is_slash rel))

-- `safe_rel_path` accepts a path exactly if it has no backslash and each of its parts is plain.
pub safe_rel_path_iff :
    (rel : Text)
    → (safe_rel_path rel ≡ ok rel)
      ↔ ((contains b'\\' rel ≡ false) × All IsPlain (split is_slash rel))
safe_rel_path_iff rel = (
  (λ h.
      let (nb, checked, _) = safe_rel_path-checks rel rel h in
      (nb, check_segments-IsPlain (split is_slash rel) checked)),
  λ h. plain-safe_rel_path rel h.0 h.1,
)

filename-IsPlain :
    (name out : Text)
    → safe_filename name ≡ ok out
    → IsPlain name × (contains b'/' name ≡ false) × (contains b'\\' name ≡ false)
unfolding safe_filename
filename-IsPlain name out h = ground arith

pub plain-safe_filename :
    (name : Text)
    → IsPlain name
    → contains b'/' name ≡ false
    → contains b'\\' name ≡ false
    → safe_filename name ≡ ok name
unfolding safe_filename
plain-safe_filename name p ns nb =
    let parts : split is_slash name ≡ name ∷ [] = split-no_slash name ns in
    let comps : components name ≡ normal name ∷ [] =
      plain-components name (rw parts (p, tt)) ∙ ap (map normal) parts in
    ground (arith, comps, eq_refl name)

-- `safe_filename` accepts exactly what `safe_rel_path` accepts and has no slash.
pub safe_filename_iff :
    (name : Text)
    → (safe_filename name ≡ ok name)
      ↔ ((safe_rel_path name ≡ ok name) × (contains b'/' name ≡ false))
safe_filename_iff name = (
  (λ h.
      let (p, ns, nb) = filename-IsPlain name name h in
      (plain-safe_rel_path name nb (rw (split-no_slash name ns) (p, tt)), ns)),
  λ h.
      let (nb, plain) = (safe_rel_path_iff name).0 h.0 in
      plain-safe_filename name (rw (split-no_slash name h.1) at plain).0 h.1 nb,
)
