-- ===== src/Examples/Together.antt =====
-- Tests of the receiving side against the server, at a concrete host, ticket and offer.
use mathlib.Core.List.{Memᴰ, flatten}
use mascara.Common.{
  ℕ, ◌≡◌, ◌≢◌, refl, ap, true, Option, none, some, List, [], ◌∷◌, map, ok, err, arith, list_eq,
  nat_eq, list_beq, take,
}
use mascara.Common.Text.{
  Text, Bytes, codes, contains, split, ends_with, before_last, to_ascii_uppercase,
}
use mascara.Core.Registry.{Nonce}
use mascara.Core.Disk.{FilePath, Fs, run_calls, atomic_write}
use mascara.Core.Manifest.{Manifest, ManifestEntry, decode, decode_and_verify, into_manifest}
use mascara.Core.Ticket.{FileRef, download}
use mascara.Net.Error.{refused}
use mascara.Net.PathGuard.{
  safe_filename, safe_rel_path, components, has_drive_letter, is_windows_reserved_name,
}
use mascara.Net.Response.{read_refusal}
use mascara.Net.Listener.Offers.{OfferRecord, file_offer, folder_offer}
use mascara.Net.Listener.Serve.{Request, manifest_op, Message}
use mascara.Net.Pull.{Dir, set, pull_file}
use mascara.Net.Pull.Arrival.{IsCut}
use mascara.Net.Pull.Complete.{server, pull_file-server}
use mascara.Net.Folder.{Tree, set_dir, Parts}
use mascara.Net.Folder.Entries.{home, part_name}
use mascara.Net.Fetch.{
  CacheEnv, read_manifest, cached, keep_manifest, fetch_manifest, remove_entry_partials_on_cancel,
}
use mascara.Net.Fetch.Verified.{IsFetched, fetch_manifest-IsFetched}
use mascara.Net.Fetch.Served.{connection, fetch_manifest-connection}
use mascara.Net.Fetch.Cancelled.{remove_entry_partials_cleared}
use mascara.Examples.Registry.{two}
use mascara.Examples.Serving.{
  owner, nonce_1, owner_authorized, host, whole, folder_ref, source_path, write_it, same,
}
use mascara.Examples.Folders.{plain_root, two_entries, empty, fine, digit}

abbrev empty_manifest : Manifest
empty_manifest = record { v = 1; entries = [] }

abbrev read_empty : Bytes → Option Manifest
read_empty b = some empty_manifest

abbrev ask : Request
ask = record { v = 1; nonce = nonce_1; op = manifest_op }

abbrev parse_ask : Bytes → Option Request
parse_ask b = some ask

abbrev write_ask : Request → Option Bytes
write_ask r = some (33 ∷ [])

abbrev silent : Message → Bytes
silent m = []

abbrev to_hex : Nonce → Text
to_hex n = codes "01"

abbrev calm_cache : CacheEnv
calm_cache = record { can_create_dir = true; suffix = codes "r"; weather = [] }

abbrev no_files : Fs
no_files p = none

abbrev folder_offers : Nonce → Option OfferRecord
folder_offers n = some (record {
  nonce = nonce_1;
  payload = folder_offer source_path folder_ref source_path;
  grant = download;
})

abbrev cache_path : FilePath
cache_path = record { dir = codes "m"; name = codes "01.postcard" }

abbrev honest : Bytes → Bytes
honest sent = 0 ∷ 4 ∷ 0 ∷ 0 ∷ 0 ∷ 0 ∷ 0 ∷ 0 ∷ 0 ∷ whole

abbrev fetched : Fs
fetched = (atomic_write cache_path whole (codes "r") [] no_files).1

manifest_fetched :
    fetch_manifest write_it read_empty same same write_ask to_hex calm_cache
      (codes "m")
      honest
      nonce_1
      folder_ref
      no_files
    ≡ (ok empty_manifest, fetched)
unfolding fetch_manifest read_manifest keep_manifest decode_and_verify decode into_manifest cached
    atomic_write run_calls list_beq
manifest_fetched = refl

fetch_manifest-IsFetched_example :
    IsFetched write_it read_empty same folder_ref cache_path empty_manifest fetched
fetch_manifest-IsFetched_example =
    fetch_manifest-IsFetched write_it read_empty same same write_ask to_hex calm_cache (codes "m")
      honest nonce_1 folder_ref no_files empty_manifest fetched manifest_fetched

abbrev refusing : Bytes → Bytes
refusing sent = 1 ∷ 2 ∷ 0 ∷ 0 ∷ 0 ∷ codes "no"

fetch_refused :
    fetch_manifest write_it read_empty same same write_ask to_hex calm_cache
      (codes "m")
      refusing
      nonce_1
      folder_ref
      no_files
    ≡ (err (refused (codes "no")), no_files)
unfolding fetch_manifest read_manifest read_refusal
fetch_refused = refl

fetch_manifest-connection_example :
    let (result, after) =
      fetch_manifest write_it read_empty same same write_ask to_hex calm_cache
        (codes "m")
        (connection host write_it read_empty same parse_ask silent owner two folder_offers 8)
        nonce_1
        folder_ref
        no_files in
    (result ≡ ok empty_manifest) × (after cache_path ≡ some whole)
fetch_manifest-connection_example =
    fetch_manifest-connection host write_it read_empty same parse_ask silent same write_ask to_hex
      owner two folder_offers 8 nonce_1 source_path source_path folder_ref
      (record { is_file = true; len = 4 }) whole (33 ∷ []) empty_manifest calm_cache (codes "m")
      no_files owner_authorized refl refl (ground arith) refl (ground arith) refl refl refl refl
      refl (ground arith) refl refl

-- A partial file and a finished one.
abbrev half_pulled : Tree
half_pulled =
    set_dir (codes "root" ∷ codes "s" ∷ [])
      (set (codes "a.part") (some (7 ∷ [])) (set (codes "b") (some (9 ∷ [])) (λ m. none))) empty

remove_entry_partials_cleared_example :
    let after = remove_entry_partials_on_cancel plain_root two_entries half_pulled in
    ((entry : ManifestEntry) (out : Text)
      → Memᴰ entry two_entries.entries
      → safe_rel_path entry.rel_path ≡ ok out
      → plain_root.can_remove (home plain_root entry) (part_name plain_root entry) ≡ true
      → after (home plain_root entry) (part_name plain_root entry) ≡ none)
    × ((q : Parts) (m : Text)
        → ((e : ManifestEntry) (out : Text)
            → Memᴰ e two_entries.entries
            → safe_rel_path e.rel_path ≡ ok out
            → home plain_root e ≡ q
            → part_name plain_root e ≢ m)
        → after q m ≡ half_pulled q m)
remove_entry_partials_cleared_example =
    remove_entry_partials_cleared plain_root two_entries half_pulled

-- Every byte arrives alone.
abbrev one_by_one : Bytes → List Bytes
one_by_one = map (λ b. b ∷ [])

one_by_one-IsCut : (bytes : Bytes) → IsCut (one_by_one bytes) × (flatten (one_by_one bytes) ≡ bytes)
unfolding flatten
one_by_one-IsCut [] = (tt, refl)
one_by_one-IsCut (b ∷ bytes) =
    let (cut, joined) = one_by_one-IsCut bytes in
    (((ground arith, ground arith), cut), ap (λ bs. b ∷ bs) joined)

abbrev wanted : FileRef
wanted = record { name = codes "a.txt"; size = 4; sha256 = whole; md5 = []; mime = none }

abbrev file_offers : Nonce → Option OfferRecord
file_offers n =
    some (record { nonce = nonce_1; payload = file_offer source_path wanted; grant = download })

-- The first half is there from an earlier pull.
abbrev half : Dir
half = set (codes "a.txt.part") (some (5 ∷ 6 ∷ [])) (λ m. none)

name_accepted : safe_filename (codes "a.txt") ≡ ok (codes "a.txt")
unfolding safe_filename components has_drive_letter is_windows_reserved_name contains split
    ends_with before_last to_ascii_uppercase list_beq
name_accepted = refl

name_free : half (codes "a.txt") ≡ none
unfolding set list_beq
name_free = refl

half_is_prefix : (b : Bytes) → half (codes "a.txt.part") ≡ some b → (k : ℕ) × (b ≡ take k whole)
unfolding set list_beq
half_is_prefix b h = (2, cc (h))

pull_file-server_example :
    (d' : Dir) × (pull_file same digit 3 same fine
        (server host write_it read_empty same file_offers silent one_by_one owner two 8)
        nonce_1
        wanted
        0
        half
      ≡ some (ok (codes "a.txt"), d'))
    × (d' (codes "a.txt") ≡ some whole)
    × (d' (codes "a.txt.part") ≡ none)
pull_file-server_example =
    pull_file-server host write_it read_empty same file_offers silent one_by_one digit 3 same owner
      two 8 nonce_1 source_path wanted whole fine half owner_authorized refl refl refl refl
      (ground arith) refl one_by_one-IsCut
      (record { dir_made = refl; opened = refl; flushed = refl; placed = refl; written = refl })
      name_accepted name_free half_is_prefix
