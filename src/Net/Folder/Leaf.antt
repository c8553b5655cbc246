-- ===== src/Net/Folder/Leaf.antt =====
-- The last part of a guarded path in engine.rs, and the rename that `pull_entry` may make.
use mascara.Common.{
  ℕ, ◌≡◌, ◌≢◌, refl, ap, ◌∙◌, false, some, [], ◌∷◌, ◌++◌, map, ok, ◌==◌, list_eq, nat_eq, All,
  Bool-cases, inl, inr, eq_comm,
}
use mascara.Common.Text.{Text, contains, split, onto_first}
use mascara.Net.PathGuard.{normal, is_slash, safe_rel_path, safe_filename}
use mascara.Net.PathGuard.Parts.{IsPlain, check_segments-IsPlain, parts-no_slash, parts-no_char}
use mascara.Net.PathGuard.Agreement.{safe_rel_path_iff, plain-components, plain-safe_filename}
use mascara.Net.PathGuard.Containment.{safe_rel_path-checks}
use mascara.Net.Pull.{Dir}
use mascara.Net.Folder.{Parts, Turn, parent, last_part, last_normal, file_name, relocate}

onto_first-filled : (c : ℕ) (segs : Parts) → onto_first c segs ≢ []
onto_first-filled c [] e = cc
onto_first-filled c (seg ∷ segs) e = cc

pub split-filled : (s : Text) → split is_slash s ≢ []
unfolding split
split-filled [] e = cc
split-filled (c ∷ s) e = elim (Bool-cases (is_slash c)) [
  | inl t ↦ cc (rw t at e)
  | inr f ↦ onto_first-filled c (split is_slash s) (rw f at e)
]

parent-last_part : (segs : Parts) → segs ≢ [] → parent segs ++ last_part segs ∷ [] ≡ segs
unfolding parent
parent-last_part [] n = absurd (n refl)
parent-last_part (seg ∷ []) n = refl
parent-last_part (seg ∷ next ∷ segs) n =
    ap (λ s. seg ∷ s) (parent-last_part (next ∷ segs) (λ e. cc))

All-last_part {κ} : (P : Text → Type κ) (segs : Parts) → segs ≢ [] → All P segs → P (last_part segs)
All-last_part P [] n h = absurd (n refl)
All-last_part P (seg ∷ []) n h = h.0
All-last_part P (seg ∷ next ∷ segs) n h = All-last_part P (next ∷ segs) (λ e. cc) h.1

last_normal-plain :
    (segs : Parts) → segs ≢ [] → last_normal (map normal segs) ≡ some (last_part segs)
unfolding last_normal
last_normal-plain [] n = absurd (n refl)
last_normal-plain (seg ∷ []) n = refl
last_normal-plain (seg ∷ next ∷ segs) n = last_normal-plain (next ∷ segs) (λ e. cc)

-- What the guard makes of a path: itself, whose last part is a file name that the other guard accepts.
pub guarded :
    (rel out : Text)
    → safe_rel_path rel ≡ ok out
    → let leaf = last_part (split is_slash rel) in
      (safe_rel_path rel ≡ ok rel) × (file_name rel ≡ some leaf) × (safe_filename leaf ≡ ok leaf)
unfolding file_name
guarded rel out h =
    let (nb, checked, _) = safe_rel_path-checks rel out h in
    let plain : All IsPlain (split is_slash rel) =
      check_segments-IsPlain (split is_slash rel) checked in
    (
      (safe_rel_path_iff rel).1 (nb, plain),
      rw (plain-components rel plain) (last_normal-plain (split is_slash rel) (split-filled rel)),
      plain-safe_filename (last_part (split is_slash rel))
          (All-last_part IsPlain (split is_slash rel) (split-filled rel) plain)
          (All-last_part (λ seg. contains b'/' seg ≡ false) (split is_slash rel) (split-filled rel)
            (parts-no_slash rel))
          (All-last_part (λ seg. contains b'\\' seg ≡ false) (split is_slash rel) (split-filled rel)
            (parts-no_char b'\\' rel nb)),
    )

-- The rename at the end of `pull_entry` is never made.
pub relocate-same :
    (turn : Turn) (segs : Parts) (final : Text) (d : Dir)
    → segs ≢ []
    → relocate turn (last_part segs) segs final d ≡ (ok (parent segs ++ final ∷ []), d)
unfolding relocate
relocate-same turn segs final d n = elim (Bool-cases ((parent segs ++ final ∷ []) == segs)) [
  | inl t ↦ rw t refl
  | inr f ↦
      let other : (segs == (parent segs ++ final ∷ [])) ≡ false =
        eq_comm segs (parent segs ++ final ∷ []) ∙ f in
      rw (parent-last_part segs n, other, f) refl
]
