-- ===== src/Net/Folder.antt =====
-- The pull of a folder in crates/mascara-net/src/engine.rs. The destination is a map from resolved
-- directories to their files; nobody else changes it during the pull.
pub mod Leaf
pub mod Entries
pub mod Trace
pub mod Kept
pub mod Returns
use mathlib.Core.Option
use mascara.Common.{
  ℕ, suc, Bool, true, false, not, ◌&&◌, Option, none, some, List, [], ◌∷◌, ◌++◌, map, Result, ok,
  err, if◌then◌else◌, ◌==◌, list_eq, nat_eq, is_none,
}
use mascara.Common.Text.{Text, Bytes, codes, split}
use mascara.Core.Ticket.{FileRef}
use mascara.Core.Manifest.{Manifest, ManifestEntry}
use mascara.Core.Registry.{Nonce}
use mascara.Net.Error.{
  NetError, protocol, io, local_io, cannot_place, cannot_resolve, outside_destination,
  symlink_at_destination, no_leaf_name,
}
use mascara.Net.PathGuard.{
  Component, root_dir, cur_dir, parent_dir, normal, components, is_slash, safe_rel_path,
}
use mascara.Net.Listener.Serve.{Request}
use mascara.Net.Pull.{Dir, set, Local, Incoming, pull_file_inner}

-- The parts of a path beneath the chosen directory, and of a resolved path.
abbrev pub Parts : Type 0
Parts = List Text

abbrev pub Tree : Type 0
Tree = Parts → Dir

unfoldable pub set_dir : Parts → Dir → Tree → Tree
set_dir p d t q = if p == q then d else t q

-- What the calls on the destination answer. A path beneath it resolves once its directory is made;
-- no parts stand for the destination itself. A removal
-- after a cancellation is of a name in a resolved directory.
pub record Destination : Type 0 where
  pub can_create : Parts → Bool
  pub can_resolve : Parts → Bool
  pub resolve : Parts → Parts
  pub is_symlink : Parts → Bool
  pub can_remove : Parts → Text → Bool

-- What is decided for one entry: its local calls, the stream that is opened for it, the rename at the
-- end, and the directories that `create_dir_all` makes for it, also where a link leads outside. If its
-- partial file is a symbolic link, the writes go through it, and `through_link` is what comes of it.
pub record Turn : Type 0 where
  pub local : Local
  pub opened : Result (Request → Incoming) NetError
  pub can_rename : Bool
  pub made : List Parts
  pub through_link : Tree → Result Parts NetError × Tree

-- `Path::parent` and the last part, of a path that has parts.
unfoldable pub parent : Parts → Parts
parent [] = []
parent (seg ∷ []) = []
parent (seg ∷ next ∷ segs) = seg ∷ parent (next ∷ segs)

abbrev pub last_part : Parts → Text
last_part [] = []
last_part (seg ∷ []) = seg
last_part (seg ∷ next ∷ segs) = last_part (next ∷ segs)

-- `Path::starts_with`
unfoldable pub beneath : Parts → Parts → Bool
beneath p [] = true
beneath [] (b ∷ base) = false
beneath (a ∷ p) (b ∷ base) = a == b && beneath p base

last_normal : List Component → Option Text
last_normal [] = none
last_normal (normal name ∷ []) = some name
last_normal (root_dir ∷ []) = none
last_normal (cur_dir ∷ []) = none
last_normal (parent_dir ∷ []) = none
last_normal (c ∷ next ∷ comps) = last_normal (next ∷ comps)

-- `Path::file_name`
unfoldable pub file_name : Text → Option Text
unfolding last_normal
file_name path = last_normal (components path)

-- `prepare_entry_dest`, and the directories that it made; it makes them before it looks where they
-- are.
unfoldable pub prepare_entry_dest :
    Destination → List Parts → Text → Result Parts NetError × List Parts
prepare_entry_dest dest made rel_path =
    let entry_dest : Parts = split is_slash rel_path in
    let up : Parts = parent entry_dest in
    let checked : Result Parts NetError =
      if not (dest.can_create up)
      then err io
      else if not (dest.can_resolve [])
      then err (local_io cannot_resolve)
      else if not (dest.can_resolve up)
      then err (local_io cannot_resolve)
      else if not (beneath (dest.resolve up) (dest.resolve []))
      then err (protocol outside_destination)
      else if dest.is_symlink entry_dest
      then err (protocol symlink_at_destination)
      else ok entry_dest in
    (checked, made)

-- The directories that an entry makes.
unfoldable pub dirs_made : Destination → Turn → ManifestEntry → List Parts
unfolding prepare_entry_dest
dirs_made dest turn entry = elim (safe_rel_path entry.rel_path) [
  | err why ↦ []
  | ok _ ↦ (prepare_entry_dest dest turn.made entry.rel_path).1
]

-- The end of `pull_entry`: the rename to the entry's own path.
unfoldable pub relocate : Turn → Text → Parts → Text → Dir → Result Parts NetError × Dir
relocate turn leaf entry_dest final d =
    let plain : Parts = parent entry_dest ++ leaf ∷ [] in
    let pulled : Parts = parent entry_dest ++ final ∷ [] in
    if not (pulled == entry_dest) && plain == pulled && not (is_none (d leaf))
    then (if turn.can_rename
        then (ok entry_dest, set (last_part entry_dest) (d leaf) (set leaf none d))
        else (err (local_io cannot_place), d))
    else (ok pulled, d)

unfoldable pub relocated :
    Turn → Text → Parts → Result Text NetError × Dir → Result Parts NetError × Dir
unfolding relocate
relocated turn leaf entry_dest (err why, d) = (err why, d)
relocated turn leaf entry_dest (ok final, d) = relocate turn leaf entry_dest final d

abbrev pub in_tree : Parts → Tree → Result Parts NetError × Dir → Result Parts NetError × Tree
in_tree here t (r, d) = (r, set_dir here d t)

module _ (digest : Bytes → Bytes) (decimal : ℕ → Text) (fuel : ℕ) (lossy : Bytes → Text)
    (dest : Destination) (nonce : Nonce) where
  -- `pull_entry`
  unfoldable pub pull_entry :
      Turn → (Request → Incoming) → FileRef → Parts → Tree → Option (Result Parts NetError × Tree)
  unfolding file_name relocated
  pull_entry turn peer entry_ref entry_dest t = elim (file_name entry_ref.name) [
    | none ↦ some (err (protocol no_leaf_name), t)
    | some leaf ↦
        let here : Parts = dest.resolve (parent entry_dest) in
        let leaf_ref : FileRef = record {
          name = leaf;
          size = entry_ref.size;
          sha256 = entry_ref.sha256;
          md5 = entry_ref.md5;
          mime = entry_ref.mime;
        } in
        if dest.is_symlink (parent entry_dest ++ (leaf ++ codes ".part") ∷ [])
        then some (turn.through_link t)
        else Option.map (λ r. in_tree here t (relocated turn leaf entry_dest r))
            (pull_file_inner digest decimal fuel lossy turn.local peer nonce entry_ref.name leaf_ref
              0 (t here))
  ]

  -- The body of the loop of `pull_folder`.
  unfoldable pub pull_next : Turn → ManifestEntry → Tree → Option (Result Parts NetError × Tree)
  unfolding pull_entry prepare_entry_dest
  pull_next turn entry t = elim (safe_rel_path entry.rel_path) [
    | err why ↦ some (err why, t)
    | ok _ ↦ elim (prepare_entry_dest dest turn.made entry.rel_path).0 [
      | err why ↦ some (err why, t)
      | ok entry_dest ↦ elim turn.opened [
        | err why ↦ some (err why, t)
        | ok peer ↦
            let entry_ref : FileRef = record {
              name = entry.rel_path;
              size = entry.size;
              sha256 = entry.sha256;
              md5 = entry.md5;
              mime = none;
            } in
            pull_entry turn peer entry_ref entry_dest t
      ]
    ]
  ]

  -- The loop: the result, what `on_entry_done` was told, the tree, and the directories that were made.
  -- `turns` is by position.
  unfoldable pub pull_entries :
      (ℕ → Turn)
      → ℕ
      → List ManifestEntry
      → List (ManifestEntry × Parts)
      → Tree
      → List Parts
      → Option (Result (List Parts) NetError × List (ManifestEntry × Parts) × Tree × List Parts)
  unfolding pull_next dirs_made
  pull_entries turns i [] done t made = some (ok (map (λ p. p.1) done), done, t, made)
  pull_entries turns i (entry ∷ entries) done t made =
      let made' = made ++ dirs_made dest (turns i) entry in
      elim (pull_next (turns i) entry t) [
        | none ↦ none
        | some (err why, t') ↦ some (err why, done, t', made')
        | some (ok path, t') ↦
            pull_entries turns (suc i) entries (done ++ (entry, path) ∷ []) t' made'
      ]

  -- `pull_folder`
  unfoldable pub pull_folder :
      (ℕ → Turn)
      → Manifest
      → Tree
      → Option (Result (List Parts) NetError × List (ManifestEntry × Parts) × Tree × List Parts)
  unfolding pull_entries
  pull_folder turns manifest t = pull_entries turns 0 manifest.entries [] t []
