-- ===== src/Net/PathGuard/Containment.antt =====
-- A path that `safe_rel_path` accepts stays beneath the directory that it is joined to, on either
-- operating system.
use mathlib.Core.List.{append_assoc, append-nil}
use mascara.Common.{
  ◌≡◌, ap, sym, ◌∙◌, false, ◌||◌, List, [], ◌∷◌, ◌++◌, ok, arith, if◌then◌else◌, ◌==◌, list_eq,
  nat_eq, All,
}
use mascara.Common.Text.{Text, codes, contains, split}
use mascara.Net.PathGuard.{
  Component, normal, root_dir, cur_dir, parent_dir, safe_rel_path, is_slash, check_segments,
  components, all_normal,
}
use mascara.Net.PathGuard.Parts.{IsPlain, is_backslash, split-no_backslash, check_segments-IsPlain}

-- `..` leaves the last directory.
abbrev parent : List Text → List Text
parent [] = []
parent (d ∷ []) = []
parent (d ∷ e ∷ dirs) = d ∷ parent (e ∷ dirs)

-- The directory that a list of parts leads to.
abbrev walk : List Text → List Text → List Text
walk dir [] = dir
walk dir (part ∷ parts) =
    walk
      (if part == []
        then dir
        else if part == codes "."
        then dir
        else if part == codes ".."
        then parent dir
        else dir ++ part ∷ [])
      parts

-- Where a path leads from a directory, when slashes and backslashes both separate.
abbrev pub lands : List Text → Text → List Text
lands dir path = walk dir (split (λ c. is_slash c || is_backslash c) path)

walk-plain : (dir parts : List Text) → All IsPlain parts → walk dir parts ≡ dir ++ parts
walk-plain dir [] h = sym (append-nil dir)
walk-plain dir (part ∷ parts) h =
    rw (h.0.filled, h.0.no_dot, h.0.no_dots)
      (walk-plain (dir ++ part ∷ []) parts h.1 ∙ append_assoc dir (part ∷ []) parts)

all_normal-same :
    (rel out : Text) (comps : List Component) → all_normal rel comps ≡ ok out → out ≡ rel
unfolding all_normal
all_normal-same rel out [] h = cc
all_normal-same rel out (normal part ∷ comps) h = all_normal-same rel out comps h
all_normal-same rel out (root_dir ∷ comps) h = cc
all_normal-same rel out (cur_dir ∷ comps) h = cc
all_normal-same rel out (parent_dir ∷ comps) h = cc

pub safe_rel_path-checks :
    (rel out : Text)
    → safe_rel_path rel ≡ ok out
    → (contains b'\\' rel ≡ false) × (check_segments (split is_slash rel) ≡ ok tt) × (out ≡ rel)
unfolding safe_rel_path
safe_rel_path-checks rel out h = ground (arith, all_normal-same rel out (components rel))

-- An accepted path is returned as it was; no part of it is empty, a dot or two dots, has a colon or a
-- drive letter, is a device's name by `is_windows_reserved_name`, or ends in a dot or a space; and
-- from every directory it leads to its own parts beneath that directory.
pub safe_rel_path_contained :
    (rel out : Text) (dir : List Text)
    → safe_rel_path rel ≡ ok out
    → (out ≡ rel) × All IsPlain (split is_slash rel) × (lands dir rel ≡ dir ++ split is_slash rel)
unfolding safe_rel_path
safe_rel_path_contained rel out dir h =
    let (no_backslash, checked, returned) = safe_rel_path-checks rel out h in
    let plain = check_segments-IsPlain (split is_slash rel) checked in
    (
      returned,
      plain,
      ap (walk dir) (split-no_backslash rel no_backslash)
          ∙ walk-plain dir (split is_slash rel) plain,
    )
