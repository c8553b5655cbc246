-- ===== src/Net/Listener/Served.antt =====
-- What a reply of listener.rs that carries bytes tells: who asked, and which bytes these are.
use mascara.Common.{
  ℕ, ◌-◌, ◌≤◌, ◌≡◌, ◌↔◌, refl, ap, sym, ◌∙◌, Bool, true, Option, none, some, List, ◌++◌, Result, ok,
  >>=-eq-ok, ltb, ◌==◌, list_eq, nat_eq, find, find-test, length, take, drop, take-append-drop,
  length-drop, eq_iff, eqb_iff, eq_refl, Bool-cases, Option-cases, Result-cases, inl, inr, arith,
}
use mascara.Common.Text.{Text, Bytes}
use mascara.Core.Ticket.{FileRef, FolderRef, Metadata, check_source, unchanged}
use mascara.Core.Manifest.{Manifest, ManifestEntry, DecodeOutcome, decode_and_verify, into_manifest}
use mascara.Net.Error.{NetError}
use mascara.Net.Listener.Offers.{HostPath}
use mascara.Net.Listener.Serve.{
  Host, Message, Reply, stream, resolve_within_root, read_stored_manifest, stream_file,
  stream_checked, serve_file_op, serve_manifest_op, manifest_entry_for, locate,
  serve_folder_file_op, max_manifest_frame, path_starts_with, join,
}

module _ (host : Host) where
  -- The bytes of a file of this size from an offset on, by the two calls that the server makes.
  abbrev pub IsTail : HostPath → ℕ → ℕ → ℕ → Bytes → Type 0
  IsTail path size offset n bytes =
      (whole : Bytes) × (host.metadata path ≡ some (record { is_file = true; len = size }))
      × (host.content path ≡ some whole)
      × (offset ≤ size)
      × (n ≡ size - offset)
      × (bytes ≡ drop offset whole)

  source-unchanged :
      (m : Option Metadata) (size : ℕ)
      → check_source m size ≡ unchanged
      → m ≡ some (record { is_file = true; len = size })
  unfolding check_source
  source-unchanged none size h = cc
  source-unchanged (some md) size h =
      let (is_file, len) : (md.is_file ≡ true) × (md.len ≡ size) =
        ground (arith, eqb_iff md.len size) in
      ap (λ (p : Bool × ℕ). some (record { is_file = p.0; len = p.1 })) {x = (md.is_file, md.len)}
        {y = (true, size)} (cc (is_file, len))

  stream_file-ok :
      (path : HostPath) (size offset n : ℕ) (bytes : Bytes)
      → stream_file host path size offset ≡ ok (stream n bytes)
      → (whole : Bytes) × (host.content path ≡ some whole)
        × (offset ≤ size)
        × (n ≡ size - offset)
        × (bytes ≡ drop offset whole)
  unfolding stream_file
  stream_file-ok path size offset n bytes h = elim (Option-cases (host.content path)) [
    | inl e ↦ absurd (ground (arith, e))
    | inr (whole, e) ↦ (whole, e, ground (arith, e), ground (arith, e), ground (arith, e))
  ]

  checks :
      (path : HostPath) (size offset n : ℕ) (bytes : Bytes)
      → stream_checked host path size offset ≡ ok (stream n bytes)
      → (check_source (host.metadata path) size ≡ unchanged)
        × (stream_file host path size offset ≡ ok (stream n bytes))
  unfolding stream_checked
  checks path size offset n bytes h = ground (arith, check_source (host.metadata path) size)

  pub stream_checked-IsTail :
      (path : HostPath) (size offset n : ℕ) (bytes : Bytes)
      → stream_checked host path size offset ≡ ok (stream n bytes)
      → IsTail path size offset n bytes
  stream_checked-IsTail path size offset n bytes h =
      let (same, sent) = checks path size offset n bytes h in
      let (whole, e, le, en, eb) = stream_file-ok path size offset n bytes sent in
      (whole, source-unchanged (host.metadata path) size same, e, le, en, eb)

  pub IsTail-stream_checked :
      (path : HostPath) (size offset n : ℕ) (bytes : Bytes)
      → IsTail path size offset n bytes
      → stream_checked host path size offset ≡ ok (stream n bytes)
  unfolding stream_checked stream_file check_source
  IsTail-stream_checked path size offset n bytes (whole, m, c, le, en, eb) =
      rw (stream_checked, m, (eqb_iff size size).1 refl, stream_file, c) (ground arith)

module _ (host : Host) where
  -- A file operation on a file offer sends bytes exactly if it names the offer's file, which stands at
  -- the offer's path with the size of the ticket, not below the offset; and they are its bytes from
  -- the offset on, announced by the number that the ticket's size leaves.
  pub serve_file_op_iff :
      (path : HostPath) (file_ref : FileRef) (req_path : Text) (offset n : ℕ) (bytes : Bytes)
      → (serve_file_op host path file_ref req_path offset ≡ ok (stream n bytes))
        ↔ ((req_path ≡ file_ref.name) × IsTail host path file_ref.size offset n bytes)
  unfolding serve_file_op
  serve_file_op_iff path file_ref req_path offset n bytes = (
    λ h. elim (Bool-cases (req_path == file_ref.name)) [
      | inl same ↦ (
        (eq_iff req_path file_ref.name).0 same,
        stream_checked-IsTail host path file_ref.size offset n bytes
            (rw (serve_file_op, same) at h),
      )
      | inr other ↦ cc (rw (serve_file_op, other) at h)
    ],
    λ (same, tail).
        rw (same, eq_refl file_ref.name)
          (IsTail-stream_checked host path file_ref.size offset n bytes tail),
  )

  -- If the file has the size that is served, the bytes that are sent are as many as announced, and
  -- complete the first `offset` bytes to the file.
  pub tail_completes_prefix :
      (path : HostPath) (size offset n : ℕ) (bytes whole : Bytes)
      → host.content path ≡ some whole
      → length whole ≡ size
      → stream_checked host path size offset ≡ ok (stream n bytes)
      → (length bytes ≡ n) × (take offset whole ++ bytes ≡ whole)
  tail_completes_prefix path size offset n bytes whole c len h =
      let (found, _, c', _, en, eb) = stream_checked-IsTail host path size offset n bytes h in
      let same : found ≡ whole = cc in
      (
        rw (eb, same) (length-drop offset whole ∙ rw (len, en) refl),
        rw (eb, same) (take-append-drop offset whole),
      )

-- What is established before a folder's file is sent.
abbrev pub IsCommitted :
    (Manifest → Option Bytes)
    → (Bytes → Option Manifest)
    → (Bytes → Bytes)
    → Host
    → HostPath
    → FolderRef
    → HostPath
    → Text
    → ManifestEntry
    → HostPath
    → Type 0
IsCommitted to_postcard from_postcard digest host dir_path folder_ref manifest_path rel entry
      file_path =
    (stored : Bytes) × (outcome : DecodeOutcome) × (root : HostPath) × (read_stored_manifest host
        manifest_path
      ≡ ok stored)
    × (decode_and_verify to_postcard from_postcard digest stored folder_ref.root_hash ≡ ok outcome)
    × (find (λ e. e.rel_path == rel) (into_manifest outcome).entries ≡ some entry)
    × (entry.rel_path ≡ rel)
    × (host.canonicalize dir_path ≡ some root)
    × (host.canonicalize (join dir_path rel) ≡ some file_path)
    × (path_starts_with file_path root ≡ true)

module _ (host : Host) (to_postcard : Manifest → Option Bytes)
    (from_postcard : Bytes → Option Manifest) (digest : Bytes → Bytes) where
  resolved :
      (dir_path : HostPath) (rel : Text) (file_path : HostPath)
      → resolve_within_root host dir_path rel ≡ ok file_path
      → (root : HostPath) × (host.canonicalize dir_path ≡ some root)
        × (host.canonicalize (join dir_path rel) ≡ some file_path)
        × (path_starts_with file_path root ≡ true)
  unfolding resolve_within_root
  resolved dir_path rel file_path h = elim (Option-cases (host.canonicalize dir_path)) [
    | inl e ↦ absurd (ground (arith, e))
    | inr (root, e) ↦ elim (Option-cases (host.canonicalize (join dir_path rel))) [
      | inl f ↦ absurd (ground (arith, e, f))
      | inr (file, f) ↦ (root, e, ground (arith, e, f), ground (arith, e, f))
    ]
  ]

  entry_found :
      (entries : List ManifestEntry) (rel : Text) (entry : ManifestEntry)
      → manifest_entry_for host to_postcard from_postcard digest entries rel ≡ ok entry
      → find (λ e. e.rel_path == rel) entries ≡ some entry
  unfolding manifest_entry_for
  entry_found entries rel entry h = ground arith

  located :
      (stored : Bytes) (dir_path : HostPath) (folder_ref : FolderRef) (rel : Text)
      (entry : ManifestEntry) (file_path : HostPath)
      → locate host to_postcard from_postcard digest stored dir_path folder_ref rel
        ≡ ok (entry, file_path)
      → (outcome : DecodeOutcome) × (decode_and_verify to_postcard from_postcard digest stored
            folder_ref.root_hash
          ≡ ok outcome)
        × (manifest_entry_for host to_postcard from_postcard digest
              (into_manifest outcome).entries
              rel
            ≡ ok entry)
        × (resolve_within_root host dir_path rel ≡ ok file_path)
  unfolding locate
  located stored dir_path folder_ref rel entry file_path h =
      elim (Result-cases
        (decode_and_verify to_postcard from_postcard digest stored folder_ref.root_hash)) [
          | inr (e, bad) ↦ cc (rw (locate, bad) at h)
          | inl (outcome, decoded) ↦
              elim (Result-cases (
                manifest_entry_for host to_postcard from_postcard digest
                  (into_manifest outcome).entries rel)) [
                    | inr (e, bad) ↦ cc (rw (locate, decoded, bad) at h)
                    | inl (entry', listed) ↦
                        elim (Result-cases (resolve_within_root host dir_path rel)) [
                          | inr (e, bad) ↦ cc (rw (locate, decoded, listed, bad) at h)
                          | inl (path', inside) ↦
                              let same : ◌≡◌ {A = Result (ManifestEntry × HostPath) Message}
                                  (ok (entry', path')) (ok (entry, file_path)) =
                                rw (locate, decoded, listed, inside) at h in
                              (outcome, decoded, cc (listed, same), cc (inside, same))
                        ]
                  ]
        ]

  -- A file operation on a folder offer sends bytes only of the file that a canonical path under the
  -- canonical shared folder names, for an entry with the requested path in the manifest that the
  -- stored bytes hold and that hashes to the ticket's commitment; and they are the file's bytes from
  -- the offset on, announced by the number that the entry's size leaves.
  pub serve_folder_file_op-IsCommitted :
      (dir_path : HostPath) (folder_ref : FolderRef) (manifest_path : HostPath) (rel : Text)
      (offset n : ℕ) (bytes : Bytes)
      → serve_folder_file_op host to_postcard from_postcard digest dir_path folder_ref manifest_path
          rel offset
        ≡ ok (stream n bytes)
      → (entry : ManifestEntry) × (file_path : HostPath) × IsCommitted to_postcard from_postcard
          digest host dir_path folder_ref manifest_path rel entry file_path
        × IsTail host file_path entry.size offset n bytes
  unfolding serve_folder_file_op
  serve_folder_file_op-IsCommitted dir_path folder_ref manifest_path rel offset n bytes h =
      let (stored, read, h') = >>=-eq-ok (read_stored_manifest host manifest_path) _ h in
      elim (Result-cases
        (locate host to_postcard from_postcard digest stored dir_path folder_ref rel)) [
          | inr (why, bad) ↦ cc (rw bad at h')
          | inl (found, placed) ↦
              let (outcome, verified, listed, inside) =
                located stored dir_path folder_ref rel found.0 found.1 placed in
              let (root, canonical, target, under) = resolved dir_path rel found.1 inside in
              let named = entry_found (into_manifest outcome).entries rel found.0 listed in
              (
                found.0,
                found.1,
                (
                  stored,
                  outcome,
                  root,
                  read,
                  verified,
                  named,
                  (eq_iff found.0.rel_path rel).0 (
                      find-test (λ e. e.rel_path == rel) (into_manifest outcome).entries found.0
                        named),
                  canonical,
                  target,
                  under,
                ),
                stream_checked-IsTail host found.1 found.0.size offset n bytes (rw placed at h'),
              )
        ]

  read-within :
      (path : HostPath) (stored : Bytes)
      → read_stored_manifest host path ≡ ok stored
      → host.content path ≡ some stored
  unfolding read_stored_manifest
  read-within path stored h = ground (arith, host.metadata path, host.content path)

  -- A manifest operation on a folder offer sends the stored bytes unchanged, announced by their number,
  -- and only if they hash to the ticket's commitment and are within the cap.
  pub serve_manifest_op-IsVerified :
      (manifest_path : HostPath) (folder_ref : FolderRef) (n : ℕ) (bytes : Bytes)
      → serve_manifest_op host to_postcard from_postcard digest manifest_path folder_ref
        ≡ ok (stream n bytes)
      → (host.content manifest_path ≡ some bytes)
        × (digest bytes ≡ folder_ref.root_hash)
        × (n ≡ length bytes)
        × (n ≤ max_manifest_frame)
  unfolding serve_manifest_op
  serve_manifest_op-IsVerified manifest_path folder_ref n bytes h =
      let (stored, read, h') = >>=-eq-ok (read_stored_manifest host manifest_path) _ h in
      let content = read-within manifest_path stored read in
      elim (Bool-cases (digest stored == folder_ref.root_hash)) [
        | inr drifted ↦ cc (rw drifted at h')
        | inl hashed ↦ elim (Bool-cases (ltb max_manifest_frame (length stored))) [
          | inl over ↦ cc (rw (hashed, over) at h')
          | inr within ↦
              let sent : ◌≡◌ {A = Result Reply NetError} (ok (stream (length stored) stored))
                  (ok (stream n bytes)) =
                rw (hashed, within) at h' in
              let same : stored ≡ bytes = cc in
              let counted : length stored ≡ n = cc in
              (
                rw content (cc same),
                rw (sym same) ((eq_iff (digest stored) folder_ref.root_hash).0 hashed),
                rw (sym same) (sym counted),
                rw (sym counted) (ground (arith, within)),
              )
        ]
      ]
