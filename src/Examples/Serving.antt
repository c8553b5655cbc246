-- ===== src/Examples/Serving.antt =====
-- Tests of the listener, at a concrete host, ticket and offer.
use mascara.Common.{
  ℕ, take, ◌≤◌, ◌≡◌, ◌↔◌, refl, true, false, Option, none, some, [], ◌∷◌, ok, err, arith, find,
  ◌==◌, list_eq, nat_eq, list_beq, option_beq, length,
}
use mascara.Common.Text.{Bytes, split}
use mascara.Core.Registry.{
  Nonce, IssuedRecord, has_nonce, is_valid, record_is_valid, new_record, issue, revoke,
}
use mascara.Core.Registry.Permanence
use mascara.Core.Ticket.{FileRef, FolderRef, download, check_source}
use mascara.Core.Manifest.{Manifest, ManifestEntry, decode, decode_and_verify, into_manifest}
use mascara.Examples.Registry.{two, two-Reach, revoked_first}
use mascara.Net.PathGuard.{normal, components}
use mascara.Net.Listener.{
  UnknownRemoteLimiter, authorize, invalid_ticket, wrong_remote, recipient_of,
}
use mascara.Net.Listener.Auth.{authorize_iff, live_ticket_has_one_recipient}
use mascara.Net.Listener.Offers.{HostPath, OfferRecord, file_offer}
use mascara.Net.Listener.Serve.{
  Host, Request, file_op, stream, error_reply, refused, stream_checked, stream_file, serve_file_op,
  serve_manifest_op, serve_folder_file_op, resolve_within_root, read_stored_manifest,
  manifest_entry_for, locate, dispatch, by_grant, handle_parsed, handle_request, max_request_frame,
  path_starts_with,
}
use mascara.Net.Response.{read_u32_le}
use mascara.Net.Listener.Served.{
  IsTail, IsCommitted, serve_file_op_iff, serve_folder_file_op-IsCommitted,
}
use mascara.Net.Listener.Requests.{IsGranted, stream-IsGranted, revoked-handle_parsed}

abbrev pub owner : Bytes
owner = 70 ∷ []

abbrev stranger : Bytes
stranger = 80 ∷ []

abbrev pub nonce_1 : Nonce
nonce_1 = 1 ∷ []

pub owner_authorized : authorize two nonce_1 owner 8 ≡ ok tt
unfolding authorize is_valid record_is_valid recipient_of issue new_record list_beq option_beq
owner_authorized = refl

live : is_valid two nonce_1 8 ≡ true
unfolding is_valid record_is_valid issue new_record list_beq
live = refl

expired : is_valid two (2 ∷ []) 9 ≡ false
unfolding is_valid record_is_valid issue new_record list_beq
expired = refl

authorize_iff_example : (authorize two nonce_1 owner 8 ≡ ok tt) ↔ (
    (r : IssuedRecord) × (find (has_nonce nonce_1) two.tickets ≡ some r)
    × (record_is_valid r 8 ≡ true)
    × (r.recipient_transport_pk ≡ some owner))
authorize_iff_example = authorize_iff two nonce_1 owner 8

live_ticket_has_one_recipient_example :
    (pk : Bytes) × (authorize two nonce_1 pk 8 ≡ ok tt)
    × ((other : Bytes) → (other == pk) ≡ false → authorize two nonce_1 other 8 ≡ err wrong_remote)
live_ticket_has_one_recipient_example =
    live_ticket_has_one_recipient nonce_1 8 two-Reach (ground arith) live

abbrev limiter : UnknownRemoteLimiter
limiter = record { window = 60; max_per_window = 2; seen = [] }

abbrev file_ref : FileRef
file_ref = record { name = 65 ∷ []; size = 4; sha256 = 9 ∷ []; md5 = []; mime = none }

abbrev tail : Bytes
tail = 6 ∷ 7 ∷ 8 ∷ []

abbrev pub folder_ref : FolderRef
folder_ref = record { name = 66 ∷ []; root_hash = 5 ∷ 6 ∷ 7 ∷ 8 ∷ [] }

abbrev pub whole : Bytes
whole = 5 ∷ 6 ∷ 7 ∷ 8 ∷ []

-- Every path is the same file of four bytes.
abbrev pub host : Host
host = record {
  metadata = λ p. some (record { is_file = true; len = 4 });
  content = λ p. some whole;
  canonicalize = λ p. some p;
}

abbrev pub source_path : HostPath
source_path = normal (65 ∷ []) ∷ []

abbrev offer : OfferRecord
offer = record { nonce = nonce_1; payload = file_offer source_path file_ref; grant = download }

abbrev offers : Nonce → Option OfferRecord
offers n = some offer

-- A codec of one manifest, whose one entry is the file.
abbrev one_entry : Manifest
one_entry = record {
  v = 1;
  entries = record { rel_path = 65 ∷ []; size = 4; sha256 = 9 ∷ []; md5 = []; mode = 420 } ∷ [];
}

abbrev pub write_it : Manifest → Option Bytes
write_it m = some whole

abbrev pub read_it : Bytes → Option Manifest
read_it b = some one_entry

abbrev pub same : Bytes → Bytes
same b = b

abbrev ask : Request
ask = record { v = 1; nonce = nonce_1; op = file_op (65 ∷ []) 1 }

abbrev parse_any : Bytes → Option Request
parse_any b = some ask

serve_file_op_iff_example :
    (serve_file_op host source_path file_ref (65 ∷ []) 1 ≡ ok (stream 3 (6 ∷ 7 ∷ 8 ∷ [])))
    ↔ ((65 ∷ [] ≡ file_ref.name) × IsTail host source_path 4 1 3 (6 ∷ 7 ∷ 8 ∷ []))
serve_file_op_iff_example =
    serve_file_op_iff host source_path file_ref (65 ∷ []) 1 3 (6 ∷ 7 ∷ 8 ∷ [])

checked : stream_checked host source_path 4 1 ≡ ok (stream 3 (6 ∷ 7 ∷ 8 ∷ []))
unfolding stream_checked stream_file check_source
checked = refl

folder_sent :
    serve_folder_file_op host write_it read_it same source_path folder_ref source_path (65 ∷ []) 1
    ≡ ok (stream 3 (6 ∷ 7 ∷ 8 ∷ []))
unfolding serve_folder_file_op read_stored_manifest locate decode_and_verify decode into_manifest
    manifest_entry_for resolve_within_root components path_starts_with stream_checked stream_file
    check_source list_beq split
folder_sent = refl

serve_folder_file_op-IsCommitted_example :
    (entry : ManifestEntry) × (file_path : HostPath) × IsCommitted write_it read_it same host
      source_path folder_ref source_path
      (65 ∷ [])
      entry
      file_path
    × IsTail host file_path entry.size 1 3 (6 ∷ 7 ∷ 8 ∷ [])
serve_folder_file_op-IsCommitted_example =
    serve_folder_file_op-IsCommitted host write_it read_it same source_path folder_ref source_path
      (65 ∷ []) 1 3 (6 ∷ 7 ∷ 8 ∷ []) folder_sent

manifest_sent :
    serve_manifest_op host write_it read_it same source_path folder_ref ≡ ok (stream 4 whole)
unfolding serve_manifest_op read_stored_manifest list_beq
manifest_sent = refl

request_sent :
    handle_request host write_it read_it same parse_any owner two offers 8 (1 ∷ 0 ∷ 0 ∷ 0 ∷ 33 ∷ [])
    ≡ ok (stream 3 (6 ∷ 7 ∷ 8 ∷ []))
unfolding handle_request handle_parsed by_grant dispatch serve_file_op stream_checked stream_file
    check_source authorize is_valid record_is_valid recipient_of issue new_record list_beq
    option_beq
request_sent = refl

stream-IsGranted_example :
    (len : ℕ) × (body : Bytes) × (req : Request) × (read_u32_le (1 ∷ 0 ∷ 0 ∷ 0 ∷ 33 ∷ [])
      ≡ some (len, body))
    × (len ≤ max_request_frame)
    × (len ≤ length body)
    × (parse_any (take len body) ≡ some req)
    × IsGranted host write_it read_it same owner two offers 8 req (stream 3 (6 ∷ 7 ∷ 8 ∷ []))
stream-IsGranted_example =
    stream-IsGranted host write_it read_it same parse_any owner two offers 8
      (1 ∷ 0 ∷ 0 ∷ 0 ∷ 33 ∷ []) 3 (6 ∷ 7 ∷ 8 ∷ []) request_sent

revoked-handle_parsed_example :
    handle_parsed host write_it read_it same owner (revoke two nonce_1).1 offers 8 ask
    ≡ ok (error_reply (refused invalid_ticket))
revoked-handle_parsed_example =
    revoked-handle_parsed host write_it read_it same offers two (revoke two nonce_1).1 true owner 8
      ask revoked_first Permanence.Later.same refl
