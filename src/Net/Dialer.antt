-- ===== src/Net/Dialer.antt =====
-- crates/mascara-net/src/dialer.rs, with endpoint_addr_from_ticket of endpoint.rs and consent.rs: from
-- an opened ticket to a transfer over a dialed connection. The QUIC library is not part of the
-- repository; a dial is given by what its calls answer.
pub mod Pinned
pub mod Cancel
use mathlib.Core.Option
use mascara.Common.{
  ℕ, Bool, true, false, not, Option, none, some, List, [], ◌∷◌, Result, ok, err, ◌>>=◌, ok_or,
  map_err, eqb, if◌then◌else◌, ◌==◌, list_eq, nat_eq,
}
use mascara.Common.Text.{Text, Bytes}
use mascara.Core.Card.{Card}
use mascara.Core.Ticket.{FileRef, FolderRef, Ticket, Codecs, sender_card, file_ref, folder_ref}
use mascara.Core.Manifest.{Manifest, ManifestEntry}
use mascara.Core.Disk.{Fs}
use mascara.Net.Error.{
  NetError, protocol, io, core, endpoint, connection, local_io, refused, hash_mismatch,
  connection_lost, cancelled, invalid_sender_card, invalid_transport_key, invalid_address,
  no_addresses, wrong_flow,
}
use mascara.Net.Listener.Serve.{Request}
use mascara.Net.Pull.{Dir, Local, Incoming, pull_file}
use mascara.Net.Folder.{Parts, Tree, Destination, Turn, pull_folder}
use mascara.Net.Fetch.{
  CacheEnv, fetch_manifest, remove_partial_on_cancel, remove_entry_partials_on_cancel,
}

-- `ConsentAck`: a value that `acknowledge_ip_exposure` gives.
pub data ConsentAck : Type 0 where
  acknowledged : ConsentAck

unfoldable pub acknowledge_ip_exposure : Unit {0} → ConsentAck
acknowledge_ip_exposure _ = acknowledged

-- `EndpointAddr`: the key to dial, and the addresses.
pub record EndpointAddr : Type 0 where
  pub id : Bytes
  pub addrs : List Text

-- What the connection closes with: an application error code, or otherwise.
pub data Closing : Type 0 where
  application_closed : ℕ → Closing
  closed_otherwise : Closing
  still_open : Closing

-- A connection by the key of the remote, whether a stream opens, and how it closes within the two
-- seconds after an error.
pub record Connection : Type 0 where
  pub remote_id : Bytes
  pub opens : Bool
  pub closing : Closing

module _ (lib : Codecs) (is_endpoint_key : Bytes → Bool) (is_socket_addr : Text → Bool) where
  all_addrs : List Text → Result (Unit {0}) NetError
  all_addrs [] = ok tt
  all_addrs (a ∷ addrs) =
      if is_socket_addr a then all_addrs addrs else err (protocol invalid_address)

  -- `endpoint_addr_from_ticket`
  unfoldable pub endpoint_addr_from_ticket : Ticket → Result EndpointAddr NetError
  unfolding all_addrs
  endpoint_addr_from_ticket t =
      map_err (λ _. protocol invalid_sender_card) (sender_card lib t) >>= λ card.
      if not (is_endpoint_key card.transport_pk)
      then err (protocol invalid_transport_key)
      else (all_addrs t.endpoint.addrs >>= λ _.
          if t.endpoint.addrs == []
          then err (protocol no_addresses)
          else ok (record { id = card.transport_pk; addrs = t.endpoint.addrs }))

  -- `dial`; `connect` is the library's.
  unfoldable pub dial : (EndpointAddr → Option Connection) → Ticket → Result Connection NetError
  unfolding endpoint_addr_from_ticket
  dial connect t = endpoint_addr_from_ticket t >>= λ addr.
      map_err (λ _. protocol invalid_sender_card) (sender_card lib t) >>= λ card.
      ok_or (connect addr) connection >>= λ conn.
      if not (conn.remote_id == card.transport_pk) then err connection else ok conn

-- `classify_io_failure`
cancelled_by : Closing → NetError
cancelled_by (application_closed code) = if eqb code 1 then cancelled else connection_lost
cancelled_by closed_otherwise = connection_lost
cancelled_by still_open = connection_lost

unfoldable pub classify_io_failure : Connection → NetError → NetError
unfolding cancelled_by
classify_io_failure conn io = cancelled_by conn.closing
classify_io_failure conn (core e) = core e
classify_io_failure conn (local_io e) = local_io e
classify_io_failure conn (protocol e) = protocol e
classify_io_failure conn endpoint = endpoint
classify_io_failure conn connection = connection
classify_io_failure conn (refused e) = refused e
classify_io_failure conn hash_mismatch = hash_mismatch
classify_io_failure conn connection_lost = connection_lost
classify_io_failure conn cancelled = cancelled

-- `matches!(e, NetError::Cancelled)`
is_cancelled : NetError → Bool
is_cancelled cancelled = true
is_cancelled io = false
is_cancelled (core e) = false
is_cancelled (local_io e) = false
is_cancelled (protocol e) = false
is_cancelled endpoint = false
is_cancelled connection = false
is_cancelled (refused e) = false
is_cancelled hash_mismatch = false
is_cancelled connection_lost = false

-- The end of `pull`: an error is classified, and a cancellation removes what `discard` removes.
unfoldable pub settle_dial {ℓ} :
    {A S : Type ℓ} → Connection → (S → S) → Result A NetError × S → Result A NetError × S
unfolding classify_io_failure is_cancelled
settle_dial conn discard (ok a, s) = (ok a, s)
settle_dial conn discard (err e, s) =
    let why = classify_io_failure conn e in (err why, if is_cancelled why then discard s else s)

module _ (digest : Bytes → Bytes) (decimal : ℕ → Text) (fuel : ℕ) (lossy : Bytes → Text)
    (lib : Codecs) (is_endpoint_key : Bytes → Bool) (is_socket_addr : Text → Bool)
    (connect : EndpointAddr → Option Connection) where
  -- The stream of `pull`, if it opens.
  unfoldable pub pull_over :
      Connection
      → Local
      → (Request → Incoming)
      → Bytes
      → FileRef
      → Dir
      → Option (Result Text NetError × Dir)
  pull_over conn env peer nonce wanted d =
      if conn.opens
      then pull_file digest decimal fuel lossy env peer nonce wanted 0 d
      else some (err connection, d)

  -- `pull`; `peer` is what answers on the stream of a connection.
  unfoldable pub pull :
      Local
      → (Connection → Request → Incoming)
      → Ticket
      → ConsentAck
      → Dir
      → Option (Result Text NetError × Dir)
  unfolding pull_over dial settle_dial
  pull env peer t ack d = elim (file_ref t) [
    | none ↦ some (err (protocol wrong_flow), d)
    | some wanted ↦ elim (dial lib is_endpoint_key is_socket_addr connect t) [
      | err why ↦ some (err why, d)
      | ok conn ↦
          Option.map
            (settle_dial conn (remove_partial_on_cancel env.can_remove_cancelled wanted.name))
            (pull_over conn env (peer conn) t.nonce wanted d)
    ]
  ]

  -- `pull_folder`; the turns are those of a connection.
  unfoldable pub dial_folder :
      Destination
      → (Connection → ℕ → Turn)
      → Ticket
      → ConsentAck
      → Manifest
      → Tree
      → Option (Result (List Parts) NetError × List (ManifestEntry × Parts) × Tree × List Parts)
  unfolding dial settle_dial
  dial_folder dest turns t ack manifest tree = elim (folder_ref t) [
    | none ↦ some (err (protocol wrong_flow), [], tree, [])
    | some _ ↦ elim (dial lib is_endpoint_key is_socket_addr connect t) [
      | err why ↦ some (err why, [], tree, [])
      | ok conn ↦
          Option.map
            (λ r.
              let ended =
                settle_dial conn (remove_entry_partials_on_cancel dest manifest) (r.0, r.2) in
              (ended.0, r.1, ended.1, r.3))
            (pull_folder digest decimal fuel lossy dest t.nonce (turns conn) manifest tree)
    ]
  ]

-- `fetch_manifest`; `peer` is what answers on the stream of a connection.
module _ (to_postcard : Manifest → Option Bytes) (from_postcard : Bytes → Option Manifest)
    (digest : Bytes → Bytes) (lossy : Bytes → Text) (serialize : Request → Option Bytes)
    (hex : Bytes → Text) (lib : Codecs) (is_endpoint_key : Bytes → Bool)
    (is_socket_addr : Text → Bool) (connect : EndpointAddr → Option Connection) where
  unfoldable pub dial_manifest :
      CacheEnv
      → Text
      → (Connection → Bytes → Bytes)
      → Ticket
      → ConsentAck
      → Fs
      → Result Manifest NetError × Fs
  unfolding dial settle_dial
  dial_manifest env manifests peer t ack fs = elim (folder_ref t) [
    | none ↦ (err (protocol wrong_flow), fs)
    | some wanted ↦ elim (dial lib is_endpoint_key is_socket_addr connect t) [
      | err why ↦ (err why, fs)
      | ok conn ↦
          settle_dial conn (λ x. x)
            (if conn.opens
              then fetch_manifest to_postcard from_postcard digest lossy serialize hex env manifests
                  (peer conn) t.nonce wanted fs
              else (err connection, fs))
    ]
  ]
