-- ===== src/Net/Fetch.antt =====
-- The fetch of a folder's manifest in crates/mascara-net/src/engine.rs, and the removal of partial
-- files after a cancellation. The peer is what it answers to the bytes that it is sent.
pub mod Verified
pub mod Served
pub mod Cancelled
use mascara.Common.{
  ℕ, Bool, not, Option, none, some, List, [], ◌∷◌, ◌++◌, Result, ok, err, ltb, eqb, if◌then◌else◌,
  list_eq, nat_eq, length, take,
}
use mascara.Common.Text.{Text, Bytes, codes, split}
use mascara.Core.Registry.{Nonce}
use mascara.Core.Ticket.{FolderRef}
use mascara.Core.Manifest.{Manifest, ManifestEntry, into_manifest, decode_and_verify}
use mascara.Core.Error.{CoreError}
use mascara.Core.Disk.{FilePath, Fs, atomic_write}
use mascara.Net.Error.{NetError, protocol, io, core, manifest_too_large, request_not_encoded}
use mascara.Net.PathGuard.{is_slash, safe_filename, safe_rel_path}
use mascara.Net.Response.{read_u8, read_u64_le, read_refusal}
use mascara.Net.Listener.Serve.{Request, manifest_op, max_manifest_frame}
use mascara.Net.Wire.{request_frame}
use mascara.Net.Pull.{remove_file, Dir, set}
use mascara.Net.Folder.{Tree, set_dir, Destination, parent, last_part}

-- What the environment decides about the calls that write the cached copy.
pub record CacheEnv : Type 0 where
  pub can_create_dir : Bool
  pub suffix : Text
  pub weather : List (Option ℕ)

-- The status, the length, which is refused over the cap, and so many bytes.
unfoldable pub read_manifest : (Bytes → Text) → Bytes → Result Bytes NetError
read_manifest lossy frame = elim (read_u8 frame) [
  | none ↦ err io
  | some (status, rest) ↦
      if not (eqb status 0) then err (read_refusal lossy rest) else elim (read_u64_le rest) [
        | none ↦ err io
        | some (total, body) ↦
            if ltb max_manifest_frame total
            then err (protocol (manifest_too_large total))
            else if ltb (length body) total
            then err io
            else ok (take total body)
      ]
]

-- The end of `fetch_manifest`: the result of the write decides.
unfoldable pub cached : Manifest → Result (Unit {0}) CoreError × Fs → Result Manifest NetError × Fs
cached manifest (ok _, fs) = (ok manifest, fs)
cached manifest (err why, fs) = (err io, fs)

module _ (to_postcard : Manifest → Option Bytes) (from_postcard : Bytes → Option Manifest)
    (digest : Bytes → Bytes) (lossy : Bytes → Text) where
  unfoldable pub keep_manifest :
      CacheEnv → FilePath → FolderRef → Bytes → Fs → Result Manifest NetError × Fs
  unfolding cached
  keep_manifest env cache_path folder_ref buf fs =
      elim (decode_and_verify to_postcard from_postcard digest buf folder_ref.root_hash) [
        | err why ↦ (err (core why), fs)
        | ok outcome ↦
            if env.can_create_dir
            then cached (into_manifest outcome)
                (atomic_write cache_path buf env.suffix env.weather fs)
            else (err io, fs)
      ]

  -- `serde_json::to_vec` and `hex::encode` are not part of the repository.
  module _ (serialize : Request → Option Bytes) (hex : Nonce → Text) where
    -- `fetch_manifest`; `manifests` is the directory of that name under the cache directory.
    unfoldable pub fetch_manifest :
        CacheEnv → Text → (Bytes → Bytes) → Nonce → FolderRef → Fs → Result Manifest NetError × Fs
    unfolding read_manifest keep_manifest
    fetch_manifest env manifests peer nonce folder_ref fs =
        elim (serialize (record { v = 1; nonce = nonce; op = manifest_op })) [
          | none ↦ (err (protocol request_not_encoded), fs)
          | some json ↦ elim (read_manifest lossy (peer (request_frame json))) [
            | err why ↦ (err why, fs)
            | ok buf ↦
                keep_manifest env
                  (record { dir = manifests; name = hex nonce ++ codes ".postcard" }) folder_ref buf
                  fs
          ]
        ]

-- `remove_partial_on_cancel`
unfoldable pub remove_partial_on_cancel : Bool → Text → Dir → Dir
unfolding remove_file
remove_partial_on_cancel can_remove declared_name d = elim (safe_filename declared_name) [
  | err why ↦ d
  | ok name ↦ remove_file can_remove (name ++ codes ".part") d
]

-- `remove_entry_partials_on_cancel`; a removal is asked for by directory and name.
unfoldable pub remove_entry_partials : Destination → List ManifestEntry → Tree → Tree
unfolding remove_file
remove_entry_partials dest [] t = t
remove_entry_partials dest (entry ∷ entries) t = elim (safe_rel_path entry.rel_path) [
  | err why ↦ remove_entry_partials dest entries t
  | ok _ ↦
      let segs = split is_slash entry.rel_path in
      let here = dest.resolve (parent segs) in
      let part : Text = last_part segs ++ codes ".part" in
      remove_entry_partials dest entries
        (set_dir here (remove_file (dest.can_remove here part) part (t here)) t)
]

unfoldable pub remove_entry_partials_on_cancel : Destination → Manifest → Tree → Tree
unfolding remove_entry_partials
remove_entry_partials_on_cancel dest manifest t = remove_entry_partials dest manifest.entries t
