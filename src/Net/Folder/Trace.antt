-- ===== src/Net/Folder/Trace.antt =====
-- A folder pull of engine.rs as the sequence of its entries.
use mascara.Common.{
  ℕ, suc, ◌≡◌, ◌⊎◌, refl, ap, sym, subst, ◌∙◌, some, List, [], ◌∷◌, ◌++◌, map, Result, ok, err,
  Option-cases, inl, inr,
}
use mathlib.Core.List.{Memᴰ, append-nil, append_assoc}
use mathlib.Core.List.Memᴰ.{head, tail}
use mascara.Common.Text.{Text, Bytes}
use mascara.Core.Manifest.{Manifest, ManifestEntry}
use mascara.Core.Registry.{Nonce}
use mascara.Net.Error.{NetError}
use mascara.Net.Folder.{
  Parts, Tree, Destination, Turn, pull_next, pull_entries, pull_folder, dirs_made,
}
use mascara.Net.Folder.Entries.{
  EntryLanded, EntryFailed, NoLink, pull_next-EntryLanded, pull_next-EntryFailed,
}

abbrev pub Done : Type 0
Done = List (ManifestEntry × Parts)

-- The entries that were finished one after another, each with the path it landed at.
pub data Landed (dest : Destination) (digest : Bytes → Bytes) : Tree → Done → Tree → Type 0 where
  nothing_done : {t : Tree} → Landed dest digest t [] t
  entry_done :
      {t t1 t2 : Tree} {entry : ManifestEntry} {path : Parts} {done : Done}
      → EntryLanded dest digest t entry path t1
      → Landed dest digest t1 done t2
      → Landed dest digest t ((entry, path) ∷ done) t2

-- The directories that were made for entries, the first of which is at this position.
abbrev pub dirs_of : Destination → (ℕ → Turn) → ℕ → List ManifestEntry → List Parts
dirs_of dest turns i [] = []
dirs_of dest turns i (entry ∷ entries) =
    dirs_made dest (turns i) entry ++ dirs_of dest turns (suc i) entries

-- No partial file of these entries is a symbolic link.
abbrev pub HasNoLinks : Destination → List ManifestEntry → Type 0
HasNoLinks dest entries = (e : ManifestEntry) → Memᴰ e entries → NoLink dest e

module _ (dest : Destination) (digest : Bytes → Bytes) (turns : ℕ → Turn) where
  -- How entries went, the first of which is at this position: all of them landed, or those before one
  -- that failed; and which directories were made for those that were tried.
  abbrev pub RunFrom :
      ℕ
      → List ManifestEntry
      → Tree
      → Result (List Parts) NetError
      → List Parts
      → Done
      → Tree
      → List Parts
      → Type 0
  RunFrom i entries t r paths done t' made =
      (t1 : Tree) × Landed dest digest t done t1
      × (((r ≡ ok paths)
            × (map (λ p. p.0) done ≡ entries)
            × (t' ≡ t1)
            × (made ≡ dirs_of dest turns i entries))
          ⊎ ((why : NetError) × (entry : ManifestEntry) × (rest : List ManifestEntry) × (r
                ≡ err why)
              × (entries ≡ map (λ p. p.0) done ++ entry ∷ rest)
              × EntryFailed dest t1 entry t'
              × (made ≡ dirs_of dest turns i (map (λ p. p.0) done ++ entry ∷ []))))

  -- How the entries of a manifest went.
  abbrev pub IsRun :
      List ManifestEntry → Tree → Result (List Parts) NetError → Done → Tree → List Parts → Type 0
  IsRun entries t r done t' made = RunFrom 0 entries t r (map (λ p. p.1) done) done t' made

module _ (digest : Bytes → Bytes) (decimal : ℕ → Text) (fuel : ℕ) (lossy : Bytes → Text)
    (dest : Destination) (nonce : Nonce) where
  -- `before` are the entries that were done already, and `old` the directories made for them.
  entries-IsRun :
      (turns : ℕ → Turn) (i : ℕ) (entries : List ManifestEntry) (before : Done) (t : Tree)
      (old : List Parts) (r : Result (List Parts) NetError) (told : Done) (t' : Tree)
      (made : List Parts)
      → HasNoLinks dest entries
      → pull_entries digest decimal fuel lossy dest nonce turns i entries before t old
        ≡ some (r, told, t', made)
      → (done : Done) × (told ≡ before ++ done)
        × (new : List Parts) × (made ≡ old ++ new)
        × RunFrom dest digest turns i entries t r (map (λ p. p.1) told) done t' new
  unfolding pull_entries
  entries-IsRun turns i [] before t old r told t' made plain h =
      let same : told ≡ before = cc (h) in
      let none_made : made ≡ old = cc (h) in
      (
        [],
        same ∙ sym (append-nil before),
        [],
        none_made ∙ sym (append-nil old),
        (t, nothing_done, inl (cc (h), refl, cc (h), refl)),
      )
  entries-IsRun turns i (entry ∷ entries) before t old r told t' made plain h =
      let dirs : List Parts = dirs_made dest (turns i) entry in
      elim (Option-cases (pull_next digest decimal fuel lossy dest nonce (turns i) entry t)) [
        | inl e ↦ cc (rw (pull_entries, e) at h)
        | inr ((err why, t1), e) ↦
            let it = rw (pull_entries, e) at h in
            let same : told ≡ before = cc (it) in
            let tree : t1 ≡ t' = cc (it) in
            let dirs_are : made ≡ old ++ dirs = cc (it) in
            (
              [],
              same ∙ sym (append-nil before),
              dirs,
              dirs_are,
              (
                t,
                nothing_done,
                inr (
                  why,
                  entry,
                  entries,
                  cc (it),
                  refl,
                  pull_next-EntryFailed digest decimal fuel lossy dest nonce (turns i) entry t why
                      t' (plain entry (head refl)) (rw tree at e),
                  sym (append-nil dirs),
                ),
              ),
            )
        | inr ((ok path, t1), e) ↦
            let (done, told_is, new, made_is, (t2, landed, how)) =
              entries-IsRun turns (suc i) entries (before ++ (entry, path) ∷ []) t1 (old ++ dirs) r
                told t' made (λ x m. plain x (tail m)) (rw (pull_entries, e) at h) in
            (
              (entry, path) ∷ done,
              told_is ∙ append_assoc before ((entry, path) ∷ []) done,
              dirs ++ new,
              made_is ∙ append_assoc old dirs new,
              (
                t2,
                entry_done
                    (pull_next-EntryLanded digest decimal fuel lossy dest nonce (turns i) entry t
                      path t1 (plain entry (head refl)) e)
                    landed,
                elim how [
                  | inl (good, all, same, dirs_are) ↦
                      inl (good, ap (λ es. entry ∷ es) all, same, ap (λ x. dirs ++ x) dirs_are)
                  | inr (why, failed, rest, bad, split_at, left, dirs_are) ↦ inr (
                    why,
                    failed,
                    rest,
                    bad,
                    ap (λ es. entry ∷ es) split_at,
                    left,
                    ap (λ x. dirs ++ x) dirs_are,
                  )
                ],
              ),
            )
      ]

  -- If no partial file of the manifest's entries is a symbolic link, a folder pull finishes entries in
  -- their order, and `on_entry_done` is told of exactly those: each was accepted by the path guard and
  -- landed beneath the chosen directory, under a name that was free there, with the manifest's size
  -- and hash, and changed no other file but its partial one. The pull returns the paths of all
  -- entries, or the error of the first that failed, which changed at most its own partial file,
  -- beneath the chosen directory. The directories made are those that `create_dir_all` makes for
  -- the entries tried, before it is known where these lead.
  pub pull_folder-IsRun :
      (turns : ℕ → Turn) (manifest : Manifest) (t : Tree) (r : Result (List Parts) NetError)
      (done : Done) (t' : Tree) (made : List Parts)
      → HasNoLinks dest manifest.entries
      → pull_folder digest decimal fuel lossy dest nonce turns manifest t ≡ some (r, done, t', made)
      → IsRun dest digest turns manifest.entries t r done t' made
  unfolding pull_folder
  pull_folder-IsRun turns manifest t r done t' made plain h =
      let (finished, told, new, made_is, run) =
        entries-IsRun turns 0 manifest.entries [] t [] r done t' made plain h in
      subst
        (λ (x : Done × List Parts).
          RunFrom dest digest turns 0 manifest.entries t r (map (λ p. p.1) done) x.0 t' x.1)
        (λ i. (sym told i, sym made_is i)) run
