-- ===== src/Net/Listener/Serve.antt =====
-- One request of listener.rs, from the frame that is read to the reply that is written. The reply's
-- texts are modelled by their templates. A stream that breaks while the reply is written is left out:
-- it makes the source return an error and changes nothing else.
use mascara.Common.{
  ℕ, ◌+◌, ◌-◌, ◌*◌, Bool, true, false, not, ◌&&◌, ◌||◌, Option, none, some, List, [], ◌∷◌, ◌++◌,
  Result, ok, err, ◌>>=◌, ok_or, map_err, ltb, eqb, if◌then◌else◌, ◌==◌, list_eq, nat_eq, any, find,
  length, take, drop,
}
use mascara.Common.Text.{Text, Bytes}
use mascara.Core.Error.{CoreError}
use mascara.Core.Registry.{Nonce, IssuedTickets}
use mascara.Core.Ticket.{
  FileRef, FolderRef, Grant, download, sync, Metadata, unchanged, missing, changed, check_source,
}
use mascara.Core.Manifest.{
  Manifest, ManifestEntry, hard_cap_bytes, into_manifest, decode_and_verify,
}
use mascara.Net.Error.{NetError, protocol, io, manifest_too_large}
use mascara.Net.PathGuard.{
  Component, root_dir, cur_dir, parent_dir, normal, components, starts_with_slash,
}
use mascara.Net.Listener.{Refusal, sync_not_supported, no_local_source, authorize}
use mascara.Net.Listener.Offers.{HostPath, OfferPayload, file_offer, folder_offer, OfferRecord}

abbrev pub max_request_frame : ℕ
max_request_frame = 8192

abbrev pub max_manifest_frame : ℕ
max_manifest_frame = hard_cap_bytes

pub data Op : Type 0 where
  manifest_op : Op
  file_op : Text → ℕ → Op

pub record Request : Type 0 where
  pub v : ℕ
  pub nonce : Nonce
  pub op : Op

-- The reason that `send_error` is given.
pub data Message : Type 0 where
  frame_too_large unsupported_protocol manifest_over_cap : ℕ → Message
  malformed_request path_mismatch no_manifest source_missing root_unresolved : Message
  refused : Refusal → Message
  source_changed offset_beyond : ℕ → ℕ → Message
  manifest_drifted : Bytes → Bytes → Message
  manifest_unverified : CoreError → Message
  not_an_entry not_plain_path escapes : Text → Message

-- What is written: status 1 and a reason, or status 0, the announced length and the bytes.
pub data Reply : Type 0 where
  error_reply : Message → Reply
  stream : ℕ → Bytes → Reply

abbrev send_error : Message → Result Reply NetError
send_error why = ok (error_reply why)

-- The calls on the local file system.
pub record Host : Type 0 where
  pub metadata : HostPath → Option Metadata
  pub content : HostPath → Option Bytes
  pub canonicalize : HostPath → Option HostPath

same_component : Component → Component → Bool
same_component root_dir root_dir = true
same_component cur_dir cur_dir = true
same_component parent_dir parent_dir = true
same_component (normal a) (normal b) = a == b
same_component a b = false

-- `Path::starts_with`, component by component.
unfoldable pub path_starts_with : HostPath → HostPath → Bool
unfolding same_component
path_starts_with p [] = true
path_starts_with [] (b ∷ base) = false
path_starts_with (a ∷ p) (b ∷ base) = same_component a b && path_starts_with p base

climbs : Component → Bool
climbs root_dir = true
climbs parent_dir = true
climbs cur_dir = false
climbs (normal _) = false

-- `Path::join` with a path that is not absolute.
abbrev pub join : HostPath → Text → HostPath
join dir rel = dir ++ components rel

module _ (host : Host) where
  under_root : Text → Option HostPath → HostPath → Result HostPath Message
  under_root rel none root = err (escapes rel)
  under_root rel (some file) root =
      if path_starts_with file root then ok file else err (escapes rel)

  -- `resolve_within_root`
  unfoldable pub resolve_within_root : HostPath → Text → Result HostPath Message
  unfolding climbs under_root
  resolve_within_root dir_path rel =
      if rel == [] || starts_with_slash rel || any climbs (components rel)
      then err (not_plain_path rel)
      else (ok_or (host.canonicalize dir_path) root_unresolved
          >>= under_root rel (host.canonicalize (join dir_path rel)))

  -- `read_stored_manifest`
  unfoldable pub read_stored_manifest : HostPath → Result Bytes NetError
  read_stored_manifest path = ok_or (host.metadata path) io >>= λ meta.
      if ltb max_manifest_frame meta.len
      then err (protocol (manifest_too_large meta.len))
      else ok_or (host.content path) io

  -- `stream_file`
  unfoldable pub stream_file : HostPath → ℕ → ℕ → Result Reply NetError
  stream_file path size offset =
      if ltb size offset
      then send_error (offset_beyond offset size)
      else (ok_or (host.content path) io >>= λ bytes.
          ok (stream (size - offset) (drop offset bytes)))

  -- `check_source`, then `stream_file`, as both file operations do.
  unfoldable pub stream_checked : HostPath → ℕ → ℕ → Result Reply NetError
  unfolding stream_file
  stream_checked path size offset = elim (check_source (host.metadata path) size) [
    | missing ↦ send_error source_missing
    | changed expected actual ↦ send_error (source_changed expected actual)
    | unchanged ↦ stream_file path size offset
  ]

  -- `serve_file_op`, with the test of the requested path that `handle_request` makes before it.
  unfoldable pub serve_file_op : HostPath → FileRef → Text → ℕ → Result Reply NetError
  unfolding stream_checked
  serve_file_op path file_ref req_path offset =
      if not (req_path == file_ref.name)
      then send_error path_mismatch
      else stream_checked path file_ref.size offset

  -- postcard and SHA-256 are not part of the repository.
  module _ (to_postcard : Manifest → Option Bytes) (from_postcard : Bytes → Option Manifest)
      (digest : Bytes → Bytes) where
    -- `serve_manifest_op`
    unfoldable pub serve_manifest_op : HostPath → FolderRef → Result Reply NetError
    unfolding read_stored_manifest
    serve_manifest_op manifest_path folder_ref = read_stored_manifest manifest_path >>= λ bytes.
        if not (digest bytes == folder_ref.root_hash)
        then send_error (manifest_drifted folder_ref.root_hash (digest bytes))
        else if ltb max_manifest_frame (length bytes)
        then send_error (manifest_over_cap (length bytes))
        else ok (stream (length bytes) bytes)

    -- `manifest_entry_for`
    unfoldable pub manifest_entry_for : List ManifestEntry → Text → Result ManifestEntry Message
    manifest_entry_for entries rel =
        ok_or (find (λ e. e.rel_path == rel) entries) (not_an_entry rel)

    -- The checks of `serve_folder_file_op` that end in a refusal: the entry and where its file is.
    unfoldable pub locate :
        Bytes → HostPath → FolderRef → Text → Result (ManifestEntry × HostPath) Message
    unfolding manifest_entry_for resolve_within_root
    locate bytes dir_path folder_ref rel =
        map_err manifest_unverified
          (decode_and_verify to_postcard from_postcard digest bytes folder_ref.root_hash)
        >>= λ outcome. manifest_entry_for (into_manifest outcome).entries rel >>= λ entry.
            resolve_within_root dir_path rel >>= λ file_path. ok (entry, file_path)

    -- `serve_folder_file_op`
    unfoldable pub serve_folder_file_op :
        HostPath → FolderRef → HostPath → Text → ℕ → Result Reply NetError
    unfolding locate stream_checked
    serve_folder_file_op dir_path folder_ref manifest_path rel offset =
        read_stored_manifest manifest_path >>= λ bytes.
        elim (locate bytes dir_path folder_ref rel) [
          | err why ↦ send_error why
          | ok found ↦ stream_checked found.1 found.0.size offset
        ]

    unfoldable pub dispatch : OfferPayload → Op → Result Reply NetError
    unfolding serve_file_op serve_manifest_op serve_folder_file_op
    dispatch (file_offer path file_ref) (file_op req_path offset) =
        serve_file_op path file_ref req_path offset
    dispatch (file_offer path file_ref) manifest_op = send_error no_manifest
    dispatch (folder_offer dir folder_ref manifest_path) manifest_op =
        serve_manifest_op manifest_path folder_ref
    dispatch (folder_offer dir folder_ref manifest_path) (file_op rel offset) =
        serve_folder_file_op dir folder_ref manifest_path rel offset

    unfoldable pub by_grant : Grant → OfferPayload → Op → Result Reply NetError
    unfolding dispatch
    by_grant download payload op = dispatch payload op
    by_grant sync payload op = send_error (refused sync_not_supported)

    -- `handle_request` after the frame is parsed.
    unfoldable pub handle_parsed :
        Bytes → IssuedTickets → (Nonce → Option OfferRecord) → ℕ → Request → Result Reply NetError
    unfolding by_grant
    handle_parsed remote_id tickets lookup now req =
        if not (eqb req.v 1)
        then send_error (unsupported_protocol req.v)
        else (elim (authorize tickets req.nonce remote_id now) [
          | err refusal ↦ send_error (refused refusal)
          | ok _ ↦ elim (lookup req.nonce) [
            | none ↦ send_error (refused no_local_source)
            | some offer ↦ by_grant offer.grant offer.payload req.op
          ]
        ])

    -- `serde_json::from_slice` is not part of the repository.
    module _ (parse_request : Bytes → Option Request) where
      -- `handle_request`
      unfoldable pub handle_request :
          Bytes → IssuedTickets → (Nonce → Option OfferRecord) → ℕ → Bytes → Result Reply NetError
      unfolding handle_parsed
      handle_request remote_id tickets lookup now (a ∷ b ∷ c ∷ d ∷ frame) =
          let len : ℕ = a + 256 * b + 65536 * c + 16777216 * d in
          if ltb max_request_frame len
          then send_error (frame_too_large len)
          else if ltb (length frame) len
          then err io
          else (elim (parse_request (take len frame)) [
            | none ↦ send_error malformed_request
            | some req ↦ handle_parsed remote_id tickets lookup now req
          ])
      handle_request remote_id tickets lookup now short = err io
