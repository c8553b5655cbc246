-- ===== src/Net/Dialer/Pinned.antt =====
-- What dialer.rs transfers over: a connection to the key of the ticket's card, and to no other.
use mathlib.Core.Option
use mascara.Common.{
  then_branch, else_branch, ℕ, ◌≡◌, ◌⊎◌, refl, ap, sym, ◌∙◌, Bool, Option, none, some, Result, ok,
  err, ok_or, map_err, >>=-eq-ok, ok_or-eq-ok, ◌==◌, list_eq, nat_eq, eq_iff, Bool-cases,
  Option-cases, Result-cases, inl, inr,
}
use mascara.Common.Text.{Text, Bytes}
use mascara.Core.Card.{Card, payload_bytes}
use mascara.Core.Card.Payload.{IsBound, from_payload_bytes_iff}
use mascara.Core.Ticket.{FileRef, Ticket, Codecs, sender_card, file_ref}
use mascara.Net.Error.{NetError, protocol, connection, wrong_flow}
use mascara.Net.Fetch.{remove_partial_on_cancel}
use mascara.Net.PathGuard.{safe_filename}
use mascara.Net.Listener.Serve.{Request}
use mascara.Net.Pull.{Dir, Local, Incoming, pull_file}
use mascara.Net.Pull.Landing.{IsLanded, pull_file-IsLanded}
use mascara.Net.Dialer.{
  ConsentAck, EndpointAddr, Connection, endpoint_addr_from_ticket, dial, settle_dial, pull_over,
  pull,
}

map_err-eq-ok :
    {A E F : Type 0} (f : E → F) (r : Result A E) {out : A} → map_err f r ≡ ok out → r ≡ ok out
map_err-eq-ok f (ok a) {out} h = let same : a ≡ out = cc (h) in ap ok same
map_err-eq-ok f (err e) h = cc

module _ (lib : Codecs) (is_endpoint_key : Bytes → Bool) (is_socket_addr : Text → Bool)
    (connect : EndpointAddr → Option Connection) where
  -- The remote of the connection has the transport key of the ticket's card, which is bound.
  pub record IsPinned (t : Ticket) (conn : Connection) : Type 0 where
    pub card : Card
    pub carried : t.sender_card ≡ payload_bytes card
    pub card_bound : IsBound lib.is_key lib.verify_strict card
    pub pinned : conn.remote_id ≡ card.transport_pk
    pub addr : EndpointAddr
    pub dialed : connect addr ≡ some conn

  pub dial-IsPinned :
      (t : Ticket) (conn : Connection)
      → dial lib is_endpoint_key is_socket_addr connect t ≡ ok conn
      → IsPinned t conn
  unfolding dial sender_card
  dial-IsPinned t conn h =
      let (addr, _, h1) =
        >>=-eq-ok (endpoint_addr_from_ticket lib is_endpoint_key is_socket_addr t) _ h in
      let (card, e, h2) = >>=-eq-ok (map_err _ (sender_card lib t)) _ h1 in
      let (made, f, h3) = >>=-eq-ok (ok_or (connect addr) connection) _ h2 in
      elim (Bool-cases (made.remote_id == card.transport_pk)) [
        | inr bad ↦ cc (rw bad at h3)
        | inl good ↦
            let both : ◌≡◌ {A = Result Connection NetError} (ok made) (ok conn) = rw good at h3 in
            let same : made ≡ conn = cc (both) in
            let (carried, held) =
              (from_payload_bytes_iff lib.is_key lib.verify_strict t.sender_card card).0
                (map_err-eq-ok _ (sender_card lib t) e) in
            record {
              card = card;
              carried = carried;
              card_bound = held;
              pinned =
                  ap (λ (c : Connection). c.remote_id) (sym same)
                  ∙ (eq_iff made.remote_id card.transport_pk).0 good;
              addr = addr;
              dialed = ok_or-eq-ok (connect addr) connection f ∙ ap some same;
            }
      ]

settled-ok :
    (conn : Connection) (discard : Dir → Dir) (x : Option (Result Text NetError × Dir))
    (final : Text) (d' : Dir)
    → Option.map (settle_dial conn discard) x ≡ some (ok final, d')
    → x ≡ some (ok final, d')
unfolding settle_dial
settled-ok conn discard none final d' h = cc
settled-ok conn discard (some (ok f, d)) final d' h = h
settled-ok conn discard (some (err e, d)) final d' h = cc (h)

module _ (digest : Bytes → Bytes) (decimal : ℕ → Text) (fuel : ℕ) (lossy : Bytes → Text)
    (lib : Codecs) (is_endpoint_key : Bytes → Bool) (is_socket_addr : Text → Bool)
    (connect : EndpointAddr → Option Connection) where
  -- What `pull` goes through: it stops with the directory as it was, or transfers over a connection
  -- that is pinned.
  pub pull-cases :
      (env : Local) (peer : Connection → Request → Incoming) (t : Ticket) (ack : ConsentAck)
      (d : Dir)
      → ((why : NetError) × (pull digest decimal fuel lossy lib is_endpoint_key is_socket_addr
              connect env peer t ack d
            ≡ some (err why, d)))
        ⊎ ((wanted : FileRef) × (conn : Connection) × (file_ref t ≡ some wanted)
            × IsPinned lib is_endpoint_key is_socket_addr connect t conn
            × (pull digest decimal fuel lossy lib is_endpoint_key is_socket_addr connect env peer t
                  ack d
                ≡ Option.map
                    (settle_dial conn
                      (remove_partial_on_cancel env.can_remove_cancelled wanted.name))
                    (pull_over digest decimal fuel lossy lib is_endpoint_key is_socket_addr connect
                      conn env
                      (peer conn)
                      t.nonce
                      wanted
                      d)))
  unfolding pull
  pull-cases env peer t ack d = elim (Option-cases (file_ref t)) [
    | inl e ↦ inl (protocol wrong_flow, rw (pull, e) refl)
    | inr (wanted, e) ↦ elim (Result-cases (dial lib is_endpoint_key is_socket_addr connect t)) [
      | inr (why, f) ↦ inl (why, rw (pull, e, f) refl)
      | inl (conn, f) ↦ inr (
        wanted,
        conn,
        e,
        dial-IsPinned lib is_endpoint_key is_socket_addr connect t conn f,
        rw (pull, e, f) refl,
      )
    ]
  ]

  over-ok :
      (conn : Connection) (env : Local) (peer : Request → Incoming) (nonce : Bytes)
      (wanted : FileRef) (d : Dir) (final : Text) (d' : Dir)
      → pull_over digest decimal fuel lossy lib is_endpoint_key is_socket_addr connect conn env peer
          nonce wanted d
        ≡ some (ok final, d')
      → pull_file digest decimal fuel lossy env peer nonce wanted 0 d ≡ some (ok final, d')
  unfolding pull_over
  over-ok conn env peer nonce wanted d final d' h = elim (Bool-cases conn.opens) [
    | inl y ↦ then_branch conn.opens _ _ y h
    | inr n ↦ cc (else_branch conn.opens _ _ n h)
  ]

  -- A pull from a ticket that succeeds went over a connection whose remote has the transport key of the
  -- ticket's card, the keys of which are bound, and left under a free name a file with the size and the
  -- hash of the ticket.
  pub pull-IsPinned :
      (env : Local) (peer : Connection → Request → Incoming) (t : Ticket) (ack : ConsentAck)
      (d : Dir) (final : Text) (d' : Dir)
      → pull digest decimal fuel lossy lib is_endpoint_key is_socket_addr connect env peer t ack d
        ≡ some (ok final, d')
      → (wanted : FileRef) × (conn : Connection) × (name : Text) × (file_ref t ≡ some wanted)
        × IsPinned lib is_endpoint_key is_socket_addr connect t conn
        × (safe_filename wanted.name ≡ ok name)
        × IsLanded digest decimal fuel lossy d wanted name final d'
  pull-IsPinned env peer t ack d final d' h = elim (pull-cases env peer t ack d) [
    | inl (why, e) ↦ cc (e, h)
    | inr (wanted, conn, e, pinned, same) ↦
        let sent =
          settled-ok conn (remove_partial_on_cancel env.can_remove_cancelled wanted.name) _ final d'
            (sym same ∙ h) in
        let (name, good, landed) =
          pull_file-IsLanded digest decimal fuel lossy env (peer conn) t.nonce wanted d final d'
            (over-ok conn env (peer conn) t.nonce wanted d final d' sent) in
        (wanted, conn, name, e, pinned, good, landed)
  ]
