-- ===== src/Net/Pull/Complete.antt =====
-- A pull of engine.rs from the server of listener.rs: the two sides together.
use mathlib.Core.Option
use mathlib.Core.List.{flatten}
use mascara.Common.{
  ℕ, ◌-◌, ◌≤◌, ◌<◌, ◌^◌, ◌≡◌, ◌≢◌, refl, ap, ◌∙◌, true, false, Option, none, some, List, [], ◌++◌,
  Result, ok, err, list_eq, nat_eq, length, length-append, take, drop, arith,
}
use mascara.Common.Text.{Text, Bytes, codes}
use mascara.Core.Ticket.{FileRef, download}
use mascara.Core.Registry.{Nonce, IssuedTickets}
use mascara.Core.Manifest.{Manifest}
use mascara.Net.Error.{NetError}
use mascara.Net.PathGuard.{safe_filename}
use mascara.Net.Response.{read_response}
use mascara.Net.Listener.{authorize}
use mascara.Net.Listener.Offers.{HostPath, OfferRecord, file_offer}
use mascara.Net.Listener.Serve.{
  Host, Request, file_op, Message, Reply, error_reply, stream, handle_parsed,
}
use mascara.Net.Listener.Requests.{recipient_is_served}
use mascara.Net.Wire.{answer_frame, reply_frame, read-write_u64}
use mascara.Net.Pull.{
  Dir, set, Local, Incoming, compute_partial_state, settle, resume_point, receive_into_part,
  streamed, pull_named, pull_file, pull_file_inner,
}
use mascara.Net.Pull.Steps.{
  set_ne, set_self, compute_partial_state_ne, resume_point-IsResumed, IsResumed,
}
use mascara.Net.Pull.Arrival.{
  IsCut, IsStart, IsCalm, part_before, resumed-IsStart, then_eq, received_rest,
}

streamed-read :
    (digest : Bytes → Bytes) (decimal : ℕ → Text) (fuel : ℕ) (lossy : Bytes → Text) (env : Local)
    (peer : Request → Incoming) (nonce : Nonce) (wire_path : Text) (file_ref : FileRef) (d : Dir)
    (part name : Text) (point : ℕ × Bytes) (remaining : ℕ)
    → let incoming = peer (record { v = 1; nonce = nonce; op = file_op wire_path point.0 }) in
      read_response lossy incoming.head file_ref.size point.0 ≡ ok remaining
      → streamed digest decimal fuel lossy env peer nonce wire_path file_ref d part name point
        ≡ receive_into_part digest decimal fuel env incoming d part name file_ref.sha256 point.0
            remaining point.1
unfolding streamed
streamed-read digest decimal fuel lossy env peer nonce wire_path file_ref d part name point
      remaining good =
    rw (streamed, good) refl

read_response-stream :
    (lossy : Bytes → Text) (utf8 : Message → Bytes) (size offset : ℕ) (bytes : Bytes)
    → offset ≤ size
    → size < 2 ^ 64
    → read_response lossy (reply_frame utf8 (stream (size - offset) bytes)) size offset
      ≡ ok (size - offset)
unfolding read_response reply_frame
read_response-stream lossy utf8 size offset bytes le small =
    rw (read_response, read-write_u64 (size - offset) bytes (omega (arith, small)))
      (ground (arith, le))

module _ (host : Host) (to_postcard : Manifest → Option Bytes)
    (from_postcard : Bytes → Option Manifest) (digest : Bytes → Bytes)
    (lookup : Nonce → Option OfferRecord) (utf8 : Message → Bytes) (cut : Bytes → List Bytes) where
  abbrev body_of : Result Reply NetError → Bytes
  body_of (ok (stream n bytes)) = bytes
  body_of (ok (error_reply why)) = []
  body_of (err why) = []

  -- How an answer arrives.
  abbrev through : Result Reply NetError → Incoming
  through reply = record {
    head = answer_frame utf8 reply;
    reads = cut (body_of reply);
    broken = false;
  }

  -- The stream to a server in this state, whose bodies arrive in pieces.
  abbrev pub server : Bytes → IssuedTickets → ℕ → Request → Incoming
  server remote tickets now req =
      through (handle_parsed host to_postcard from_postcard digest remote tickets lookup now req)

  module _ (decimal : ℕ → Text) (fuel : ℕ) (lossy : Bytes → Text) where
    streamed-whole :
        (remote : Bytes) (tickets : IssuedTickets) (now : ℕ) (nonce : Nonce) (path : HostPath)
        (file_ref : FileRef) (whole : Bytes) (env : Local) (d : Dir) (point : ℕ × Bytes)
        → authorize tickets nonce remote now ≡ ok tt
        → lookup nonce
          ≡ some (record { nonce = nonce; payload = file_offer path file_ref; grant = download })
        → host.metadata path ≡ some (record { is_file = true; len = file_ref.size })
        → host.content path ≡ some whole
        → length whole ≡ file_ref.size
        → file_ref.size < 2 ^ 64
        → digest whole ≡ file_ref.sha256
        → ((bytes : Bytes) → IsCut (cut bytes) × (flatten (cut bytes) ≡ bytes))
        → IsCalm env
        → IsStart whole point
        → IsResumed d (file_ref.name ++ codes ".part") point
        → d file_ref.name ≡ none
        → let part = file_ref.name ++ codes ".part" in
          streamed digest decimal fuel lossy env
            (server remote tickets now)
            nonce
            file_ref.name
            file_ref
            d
            part
            file_ref.name
            point
          ≡ some (
            ok file_ref.name,
            set part none (set file_ref.name (some whole) (set part (some whole) d)),
          )
    unfolding answer_frame
    streamed-whole remote tickets now nonce path file_ref whole env d point a l m c sized small
          hashed cuts calm start resumed free =
        let (le, _) = start in
        let rest : Bytes = drop point.0 whole in
        let reply =
          recipient_is_served host to_postcard from_postcard digest lookup tickets remote now nonce
            path file_ref point.0 whole a l m c (omega (arith, le, sized)) in
        let read =
          read_response-stream lossy utf8 file_ref.size point.0 rest (omega (arith, le, sized))
            small in
        let (plain, joined) = cuts rest in
        let req : Request = record { v = 1; nonce = nonce; op = file_op file_ref.name point.0 } in
        let arrived : server remote tickets now req ≡ record {
          head = reply_frame utf8 (stream (file_ref.size - point.0) rest);
          reads = cut rest;
          broken = false;
        } =
          ap through reply in
        streamed-read digest decimal fuel lossy env (server remote tickets now) nonce file_ref.name
          file_ref d (file_ref.name ++ codes ".part") file_ref.name point (file_ref.size - point.0)
          (ap (λ (x : Incoming). read_response lossy x.head file_ref.size point.0) arrived ∙ read)
        ∙ ap
            (λ (x : Incoming).
              receive_into_part digest decimal fuel env x d (file_ref.name ++ codes ".part")
                file_ref.name file_ref.sha256 point.0 (file_ref.size - point.0) point.1)
            arrived
        ∙ received_rest digest decimal fuel env d file_ref.name
            (reply_frame utf8 (stream (file_ref.size - point.0) rest)) whole (cut rest) point
            file_ref.sha256 (file_ref.size - point.0) calm plain joined start resumed free hashed
            (omega (arith, sized))

    -- A pull by the recipient of a live ticket from the server, with nothing yet or resumed from a
    -- partial file that holds first bytes of the offered file, ends with the whole file under its name
    -- and no partial file, if the offered file stands unchanged on the server, the name is accepted and
    -- free, the body arrives whole in pieces that fit the buffer, and nothing fails locally.
    pub pull_file-server :
        (remote : Bytes) (tickets : IssuedTickets) (now : ℕ) (nonce : Nonce) (path : HostPath)
        (file_ref : FileRef) (whole : Bytes) (env : Local) (d : Dir)
        → authorize tickets nonce remote now ≡ ok tt
        → lookup nonce
          ≡ some (record { nonce = nonce; payload = file_offer path file_ref; grant = download })
        → host.metadata path ≡ some (record { is_file = true; len = file_ref.size })
        → host.content path ≡ some whole
        → length whole ≡ file_ref.size
        → file_ref.size < 2 ^ 64
        → digest whole ≡ file_ref.sha256
        → ((bytes : Bytes) → IsCut (cut bytes) × (flatten (cut bytes) ≡ bytes))
        → IsCalm env
        → safe_filename file_ref.name ≡ ok file_ref.name
        → d file_ref.name ≡ none
        → ((b : Bytes) → d (file_ref.name ++ codes ".part") ≡ some b → (k : ℕ) × (b ≡ take k whole))
        → (d' : Dir) × (pull_file digest decimal fuel lossy env
              (server remote tickets now)
              nonce
              file_ref
              0
              d
            ≡ some (ok file_ref.name, d'))
          × (d' file_ref.name ≡ some whole)
          × (d' (file_ref.name ++ codes ".part") ≡ none)
    unfolding pull_file pull_file_inner pull_named settle
    pull_file-server remote tickets now nonce path file_ref whole env d a l m c sized small hashed
          cuts calm safe free prefix =
        let name : Text = file_ref.name in
        let part : Text = name ++ codes ".part" in
        let found = compute_partial_state env d part file_ref.size in
        let resumed = resume_point-IsResumed env d part file_ref.size in
        let other : name ≢ part =
          λ e. absurd (omega (arith, ap length e, length-append name (codes ".part"))) in
        let start =
          resumed-IsStart d found.1 part whole (resume_point 0 file_ref.size found.0)
            (part_before env d part file_ref.size) prefix resumed in
        let answer =
          streamed-whole remote tickets now nonce path file_ref whole env found.1
            (resume_point 0 file_ref.size found.0) a l m c sized small hashed cuts calm start
            resumed (compute_partial_state_ne env d part file_ref.size name other ∙ free) in
        let before : Dir = set part (some whole) found.1 in
        (
          set part none (set name (some whole) before),
          rw (pull_file_inner, safe)
              (then_eq env.can_create_dir _ calm.dir_made
                ∙ ap (Option.map (settle env.can_remove_failed part)) answer),
          set_ne part name none (set name (some whole) before) other
              ∙ set_self name (some whole) before,
          set_self part none (set name (some whole) before),
        )
