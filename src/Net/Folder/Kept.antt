-- ===== src/Net/Folder/Kept.antt =====
-- What a folder pull of engine.rs does not touch, and what becomes of the files that it finished.
use mathlib.Core.List.{Memᴰ}
use mathlib.Core.List.Memᴰ
use mathlib.Core.List.Memᴰ.{head, tail}
use mascara.Common.{
  ℕ, ◌≡◌, ◌≢◌, refl, ap, sym, subst, ◌∙◌, false, Option, some, List, [], ◌∷◌, ◌++◌, map, Result,
  ◌==◌, list_eq, nat_eq, length, Bool-cases, inl, inr, eq_iff, ne_of_eq_false,
}
use mascara.Common.Text.{Text, Bytes, split}
use mascara.Net.PathGuard.{is_slash}
use mascara.Core.Manifest.{Manifest, ManifestEntry}
use mascara.Core.Registry.{Nonce}
use mascara.Net.Error.{NetError}
use mascara.Net.Folder.{Parts, Tree, Destination, Turn, beneath, last_part, parent, pull_folder}
use mascara.Net.Folder.Entries.{EntryLanded, EntryFailed, StaysHome, home, part_name}
use mascara.Net.Folder.Trace.{Done, Landed, nothing_done, entry_done, HasNoLinks, pull_folder-IsRun}

last_part-append : (segs : Parts) (final : Text) → last_part (segs ++ final ∷ []) ≡ final
last_part-append [] final = refl
last_part-append (seg ∷ []) final = refl
last_part-append (seg ∷ next ∷ segs) final = last_part-append (next ∷ segs) final

module _ (dest : Destination) where
  away :
      (entry : ManifestEntry) (t t' : Tree) (q : Parts)
      → StaysHome dest entry t t'
      → beneath q (dest.resolve []) ≡ false
      → t' q ≡ t q
  away entry t t' q stays out =
      stays.elsewhere q (λ e. cc (stays.under, out, ap (λ p. beneath p (dest.resolve [])) e))

  Landed-away :
      (digest : Bytes → Bytes) (t : Tree) (done : Done) (t' : Tree) (q : Parts)
      → Landed dest digest t done t'
      → beneath q (dest.resolve []) ≡ false
      → t' q ≡ t q
  Landed-away digest t _ t' q nothing_done out = refl
  Landed-away digest t _ t' q (entry_done {t1 = t1} {entry = entry} {done = done} here rest) out =
      Landed-away digest t1 done t' q rest out ∙ away entry t t1 q here.stays out

  failed_away :
      (entry : ManifestEntry) (t t' : Tree) (q : Parts)
      → EntryFailed dest t entry t'
      → beneath q (dest.resolve []) ≡ false
      → t' q ≡ t q
  failed_away entry t t' q (inl same) out = ap (λ (x : Tree). x q) same
  failed_away entry t t' q (inr (stays, _)) out = away entry t t' q stays out

  -- No partial file of these entries stands at this place.
  abbrev pub IsApart : Parts → Text → List ManifestEntry → Type 0
  IsApart h n entries =
      (e : ManifestEntry) → Memᴰ e entries → home dest e ≡ h → part_name dest e ≢ n

  entry_keeps :
      (digest : Bytes → Bytes) (t : Tree) (entry : ManifestEntry) (path : Parts) (t' : Tree)
      (h : Parts) (n : Text) (whole : Bytes)
      → EntryLanded dest digest t entry path t'
      → (home dest entry ≡ h → part_name dest entry ≢ n)
      → t h n ≡ some whole
      → t' h n ≡ some whole
  entry_keeps digest t entry path t' h n whole landed apart there =
      elim (Bool-cases (h == home dest entry)) [
        | inr f ↦
            ap (λ (d : Text → Option Bytes). d n)
              (landed.stays.elsewhere h (ne_of_eq_false h (home dest entry) f))
            ∙ there
        | inl same ↦
            let e : h ≡ home dest entry = (eq_iff h (home dest entry)).0 same in
            let before = subst (λ k. t k n ≡ some whole) e there in
            subst (λ k. t' k n ≡ some whole) (sym e)
              (landed.others n
                  (λ p. cc (landed.was_free, before, ap (λ m. t (home dest entry) m) p))
                  (λ p. apart (sym e) (sym p))
                ∙ before)
      ]

  failed_keeps :
      (t : Tree) (entry : ManifestEntry) (t' : Tree) (h : Parts) (n : Text) (whole : Bytes)
      → EntryFailed dest t entry t'
      → (home dest entry ≡ h → part_name dest entry ≢ n)
      → t h n ≡ some whole
      → t' h n ≡ some whole
  failed_keeps t entry t' h n whole (inl same) apart there = ap (λ (x : Tree). x h n) same ∙ there
  failed_keeps t entry t' h n whole (inr (stays, others)) apart there =
      elim (Bool-cases (h == home dest entry)) [
        | inr f ↦
            ap (λ (d : Text → Option Bytes). d n)
              (stays.elsewhere h (ne_of_eq_false h (home dest entry) f))
            ∙ there
        | inl same ↦
            let e : h ≡ home dest entry = (eq_iff h (home dest entry)).0 same in
            subst (λ k. t' k n ≡ some whole) (sym e)
              (others n (λ p. apart (sym e) (sym p)) ∙ subst (λ k. t k n ≡ some whole) e there)
      ]

  module _ (digest : Bytes → Bytes) where
    Landed-keeps :
        (t : Tree) (done : Done) (t' : Tree) (h : Parts) (n : Text) (whole : Bytes)
        → Landed dest digest t done t'
        → IsApart h n (map (λ p. p.0) done)
        → t h n ≡ some whole
        → t' h n ≡ some whole
    Landed-keeps t _ t' h n whole nothing_done apart there = there
    Landed-keeps t _ t' h n whole
          (entry_done {t1 = t1} {entry = entry} {path = path} {done = done} here rest) apart there =
        Landed-keeps t1 done t' h n whole rest (λ e m. apart e (tail m))
          (entry_keeps digest t entry path t1 h n whole here (apart entry (head refl)) there)

    -- A file that an entry asked for stands at this path.
    abbrev pub IsThere : Tree → ManifestEntry → Parts → Type 0
    IsThere t entry path =
        (whole : Bytes) × (t (home dest entry) (last_part path) ≡ some whole)
        × (length whole ≡ entry.size)
        × (digest whole ≡ entry.sha256)

    first-IsThere :
        (entry : ManifestEntry) (path : Parts) (done : Done) (t t1 t' : Tree)
        → EntryLanded dest digest t entry path t1
        → Landed dest digest t1 done t'
        → IsApart (home dest entry) (last_part path) (entry ∷ map (λ p. p.0) done)
        → IsThere t' entry path
    first-IsThere entry path done t t1 t' here rest apart =
        let same : last_part path ≡ here.final =
          ap last_part here.at
          ∙ last_part-append (parent (split is_slash entry.rel_path)) here.final in
        (
          here.whole,
          Landed-keeps t1 done t' (home dest entry) (last_part path) here.whole rest
              (λ e m. apart e (tail m)) (ap (λ n. t1 (home dest entry) n) same ∙ here.landed),
          here.sized,
          here.hashed,
        )

    Landed-IsThere :
        (t : Tree) (done : Done) (t' : Tree) (entry : ManifestEntry) (path : Parts)
        → Landed dest digest t done t'
        → Memᴰ (entry, path) done
        → IsApart (home dest entry) (last_part path) (map (λ p. p.0) done)
        → IsThere t' entry path
    Landed-IsThere t _ t' entry path nothing_done m apart = absurd (Memᴰ.not-nil m)
    Landed-IsThere t _ t' entry path
          (entry_done {t1 = t1} {entry = e} {path = p} {done = done} here rest) (tail m) apart =
        Landed-IsThere t1 done t' entry path rest m (λ x k. apart x (tail k))
    Landed-IsThere t _ t' entry path
          (entry_done {t1 = t1} {entry = e} {path = p} {done = done} here rest) (head same) apart =
        subst
          (λ (x : ManifestEntry × Parts).
            IsApart (home dest x.0) (last_part x.1) (e ∷ map (λ q. q.0) done) → IsThere t' x.0 x.1)
          (sym same) (λ a. first-IsThere e p done t t1 t' here rest a) apart

module _ (digest : Bytes → Bytes) (decimal : ℕ → Text) (fuel : ℕ) (lossy : Bytes → Text)
    (dest : Destination) (nonce : Nonce) where
  -- If no partial file of the manifest's entries is a symbolic link, then whatever a folder pull returns,
  -- no file in a directory outside the chosen one has changed, wherever a directory that is a symbolic
  -- link leads. Directories may have been made there.
  pub pull_folder_contained :
      (turns : ℕ → Turn) (manifest : Manifest) (t : Tree) (r : Result (List Parts) NetError)
      (done : Done) (t' : Tree) (made : List Parts) (q : Parts)
      → HasNoLinks dest manifest.entries
      → pull_folder digest decimal fuel lossy dest nonce turns manifest t ≡ some (r, done, t', made)
      → beneath q (dest.resolve []) ≡ false
      → t' q ≡ t q
  pull_folder_contained turns manifest t r done t' made q plain h out =
      let (t1, landed, how) =
        pull_folder-IsRun digest decimal fuel lossy dest nonce turns manifest t r done t' made plain
          h in
      elim how [
        | inl (_, _, same, _) ↦
            ap (λ (x : Tree). x q) same ∙ Landed-away dest digest t done t1 q landed out
        | inr (_, entry, _, _, _, left, _) ↦
            failed_away dest entry t1 t' q left out ∙ Landed-away dest digest t done t1 q landed out
      ]

  -- An entry that `on_entry_done` was told of still stands at its path when the pull returns, with or
  -- without an error, with the manifest's size and hash, if no entry of the manifest has its partial
  -- file at that place, and none of the partial files is a symbolic link.
  pub pull_folder-IsThere :
      (turns : ℕ → Turn) (manifest : Manifest) (t : Tree) (r : Result (List Parts) NetError)
      (done : Done) (t' : Tree) (made : List Parts) (entry : ManifestEntry) (path : Parts)
      → HasNoLinks dest manifest.entries
      → pull_folder digest decimal fuel lossy dest nonce turns manifest t ≡ some (r, done, t', made)
      → Memᴰ (entry, path) done
      → IsApart dest (home dest entry) (last_part path) manifest.entries
      → IsThere dest digest t' entry path
  pull_folder-IsThere turns manifest t r done t' made entry path plain h m apart =
      let (t1, landed, how) =
        pull_folder-IsRun digest decimal fuel lossy dest nonce turns manifest t r done t' made plain
          h in
      elim how [
        | inl (_, all, same, _) ↦
            subst (λ x. IsThere dest digest x entry path) (sym same)
              (Landed-IsThere dest digest t done t1 entry path landed m
                (subst (IsApart dest (home dest entry) (last_part path)) (sym all) apart))
        | inr (_, failed, rest, _, split_at, left, _) ↦
            let apart_all =
              subst (IsApart dest (home dest entry) (last_part path)) split_at apart in
            let (whole, there, sized, hashed) =
              Landed-IsThere dest digest t done t1 entry path landed m
                (λ e k. apart_all e (Memᴰ.append_left (failed ∷ rest) k)) in
            (
              whole,
              failed_keeps dest t1 failed t' (home dest entry) (last_part path) whole left
                  (apart_all failed (Memᴰ.append_right (map (λ p. p.0) done) (head refl))) there,
              sized,
              hashed,
            )
      ]
