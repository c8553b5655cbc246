-- ===== src/Net/Fetch/Cancelled.antt =====
-- The removal of partial files in engine.rs after the peer cancelled.
use mathlib.Core.List.{Memᴰ}
use mathlib.Core.List.Memᴰ
use mathlib.Core.List.Memᴰ.{head, tail}
use mascara.Common.{
  Bool, true, false, arith, ◌≡◌, ◌≢◌, refl, ap, sym, ◌∙◌, none, List, [], ◌∷◌, ok, ◌==◌, list_eq,
  nat_eq, Bool-cases, Result-cases, inl, inr, eq_refl, eq_iff,
}
use mascara.Common.Text.{Text}
use mascara.Core.Manifest.{Manifest, ManifestEntry}
use mascara.Net.PathGuard.{safe_rel_path}
use mascara.Net.Pull.{Dir, set, remove_file}
use mascara.Net.Pull.Steps.{remove_file_self, remove_file_ne}
use mascara.Net.Folder.{Parts, Tree, set_dir, Destination}
use mascara.Net.Folder.Entries.{home, part_name}
use mascara.Net.Fetch.{remove_entry_partials, remove_entry_partials_on_cancel}

-- One removal.
abbrev cleared : Bool → Parts → Text → Tree → Tree
cleared can_remove h n t = set_dir h (remove_file can_remove n (t h)) t

cleared_there :
    (can_remove : Bool) (h : Parts) (n : Text) (t : Tree)
    → can_remove ≡ true
    → cleared can_remove h n t h n ≡ none
unfolding set_dir
cleared_there can_remove h n t may = rw (eq_refl h) (remove_file_self can_remove n (t h) may)

still_none :
    (can_remove : Bool) (n m : Text) (d : Dir) → d m ≡ none → remove_file can_remove n d m ≡ none
unfolding remove_file set
still_none true n m d gone = ground (arith, gone)
still_none false n m d gone = gone

-- A removal leaves a file as it was or takes it away.
cleared-none :
    (can_remove : Bool) (h : Parts) (n : Text) (t : Tree) (q : Parts) (m : Text)
    → t q m ≡ none
    → cleared can_remove h n t q m ≡ none
unfolding set_dir
cleared-none can_remove h n t q m gone = elim (Bool-cases (h == q)) [
  | inr f ↦ rw f gone
  | inl same ↦
      let e : h ≡ q = (eq_iff h q).0 same in
      rw same (still_none can_remove n m (t h) (ap (λ k. t k m) e ∙ gone))
]

cleared_apart :
    (can_remove : Bool) (h : Parts) (n : Text) (t : Tree) (q : Parts) (m : Text)
    → (h ≡ q → n ≢ m)
    → cleared can_remove h n t q m ≡ t q m
unfolding set_dir
cleared_apart can_remove h n t q m apart = elim (Bool-cases (h == q)) [
  | inr f ↦ rw f refl
  | inl same ↦
      let e : h ≡ q = (eq_iff h q).0 same in
      rw same (remove_file_ne can_remove n m (t h) (λ p. apart e (sym p)) ∙ ap (λ k. t k m) e)
]

module _ (dest : Destination) where
  -- Whether the partial file of an entry can be removed.
  abbrev pub may : ManifestEntry → Bool
  may entry = dest.can_remove (home dest entry) (part_name dest entry)

  entries_none :
      (entries : List ManifestEntry) (t : Tree) (q : Parts) (m : Text)
      → t q m ≡ none
      → remove_entry_partials dest entries t q m ≡ none
  unfolding remove_entry_partials
  entries_none [] t q m gone = gone
  entries_none (entry ∷ entries) t q m gone = elim (Result-cases (safe_rel_path entry.rel_path)) [
    | inr (why, bad) ↦ rw (remove_entry_partials, bad) (entries_none entries t q m gone)
    | inl (out, good) ↦
        rw (remove_entry_partials, good)
          (entries_none entries _ q m
            (cleared-none (may entry) (home dest entry) (part_name dest entry) t q m gone))
  ]

  entries_cleared :
      (entries : List ManifestEntry) (t : Tree) (entry : ManifestEntry) (out : Text)
      → Memᴰ entry entries
      → safe_rel_path entry.rel_path ≡ ok out
      → may entry ≡ true
      → remove_entry_partials dest entries t (home dest entry) (part_name dest entry) ≡ none
  unfolding remove_entry_partials
  entries_cleared [] t entry out m safe can = absurd (Memᴰ.not-nil m)
  entries_cleared (e ∷ entries) t entry out (head same) safe can =
      let safe_e : safe_rel_path e.rel_path ≡ ok out = rw same at safe in
      rw (same, remove_entry_partials, safe_e)
        (entries_none entries _ (home dest e) (part_name dest e)
          (cleared_there (may e) (home dest e) (part_name dest e) t (ap may (sym same) ∙ can)))
  entries_cleared (e ∷ entries) t entry out (tail m) safe can =
      elim (Result-cases (safe_rel_path e.rel_path)) [
        | inr (why, bad) ↦
            rw (remove_entry_partials, bad) (entries_cleared entries t entry out m safe can)
        | inl (_, good) ↦
            rw (remove_entry_partials, good) (entries_cleared entries _ entry out m safe can)
      ]

  entries_apart :
      (entries : List ManifestEntry) (t : Tree) (q : Parts) (m : Text)
      → ((e : ManifestEntry) (out : Text)
          → Memᴰ e entries
          → safe_rel_path e.rel_path ≡ ok out
          → home dest e ≡ q
          → part_name dest e ≢ m)
      → remove_entry_partials dest entries t q m ≡ t q m
  unfolding remove_entry_partials
  entries_apart [] t q m apart = refl
  entries_apart (e ∷ entries) t q m apart = elim (Result-cases (safe_rel_path e.rel_path)) [
    | inr (why, bad) ↦
        rw (remove_entry_partials, bad) (entries_apart entries t q m (λ x o k. apart x o (tail k)))
    | inl (out, good) ↦
        rw (remove_entry_partials, good)
          (entries_apart entries _ q m (λ x o k. apart x o (tail k))
            ∙ cleared_apart (may e) (home dest e) (part_name dest e) t q m
                (apart e out (head refl) good))
  ]

  -- After a cancellation the partial file of every entry whose path the guard accepts is gone if it
  -- can be removed, and a file at a place that is no such entry's partial file is as it was.
  pub remove_entry_partials_cleared :
      (manifest : Manifest) (t : Tree)
      → let after = remove_entry_partials_on_cancel dest manifest t in
        ((entry : ManifestEntry) (out : Text)
          → Memᴰ entry manifest.entries
          → safe_rel_path entry.rel_path ≡ ok out
          → dest.can_remove (home dest entry) (part_name dest entry) ≡ true
          → after (home dest entry) (part_name dest entry) ≡ none)
        × ((q : Parts) (m : Text)
            → ((e : ManifestEntry) (out : Text)
                → Memᴰ e manifest.entries
                → safe_rel_path e.rel_path ≡ ok out
                → home dest e ≡ q
                → part_name dest e ≢ m)
            → after q m ≡ t q m)
  unfolding remove_entry_partials_on_cancel
  remove_entry_partials_cleared manifest t =
      (entries_cleared manifest.entries t, entries_apart manifest.entries t)
