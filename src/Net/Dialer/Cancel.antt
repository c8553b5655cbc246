-- ===== src/Net/Dialer/Cancel.antt =====
-- What dialer.rs leaves of a transfer that failed: the partial file is kept for a lost connection only.
use mathlib.Core.Option
use mascara.Common.{
  then_branch, else_branch, ℕ, ◌≡◌, ◌≢◌, ◌⊎◌, refl, ap, sym, ◌∙◌, Bool, true, false, Option, none,
  some, ◌++◌, Result, ok, err, eqb, if◌then◌else◌, Bool-cases, inl, inr,
}
use mascara.Common.Text.{Text, Bytes, codes}
use mascara.Core.Ticket.{FileRef, Ticket, Codecs, file_ref}
use mascara.Net.Error.{
  NetError, protocol, io, core, endpoint, connection, local_io, refused, hash_mismatch,
  connection_lost, cancelled,
}
use mascara.Net.PathGuard.{safe_filename}
use mascara.Net.Listener.Serve.{Request}
use mascara.Net.Pull.{Dir, remove_file, Local, Incoming, keeps_partial}
use mascara.Net.Pull.Steps.{remove_file_self, remove_file_ne}
use mascara.Net.Pull.Outcomes.{IsKept, pull_file-failed}
use mascara.Net.Fetch.{remove_partial_on_cancel}
use mascara.Net.Dialer.{
  ConsentAck, EndpointAddr, Connection, classify_io_failure, settle_dial, pull_over, pull,
  is_cancelled, cancelled_by, Closing,
}
use mascara.Net.Dialer.Pinned.{pull-cases}

closing-cases : (c : Closing) → (cancelled_by c ≡ connection_lost) ⊎ (cancelled_by c ≡ cancelled)
unfolding cancelled_by
closing-cases (Closing.application_closed code) = elim (Bool-cases (eqb code 1)) [
  | inl t ↦ inr (rw t refl)
  | inr f ↦ inl (rw f refl)
]
closing-cases Closing.closed_otherwise = inl refl
closing-cases Closing.still_open = inl refl

-- An error that keeps the partial file is a lost connection or a cancellation once it is classified.
kept_class :
    (conn : Connection) (e : NetError)
    → keeps_partial e ≡ true
    → (classify_io_failure conn e ≡ connection_lost) ⊎ (classify_io_failure conn e ≡ cancelled)
unfolding classify_io_failure keeps_partial
kept_class conn io h = closing-cases conn.closing
kept_class conn connection_lost h = inl refl
kept_class conn (core e) h = cc
kept_class conn (local_io e) h = cc
kept_class conn (protocol e) h = cc
kept_class conn endpoint h = cc
kept_class conn connection h = cc
kept_class conn (refused e) h = cc
kept_class conn hash_mismatch h = cc
kept_class conn cancelled h = cc

-- What a pull leaves that failed: nothing, or the partial file for a lost connection.
abbrev pub IsDiscarded : Local → Text → NetError → Dir → Dir → Type 0
IsDiscarded env part e d d' =
    IsKept part d d'
    × (env.can_remove_failed ≡ true
        → env.can_remove_cancelled ≡ true
        → e ≢ connection_lost
        → d' part ≡ none)

removed :
    (can_remove : Bool) (name : Text) (declared : Text) (d : Dir)
    → safe_filename declared ≡ ok name
    → remove_partial_on_cancel can_remove declared d
      ≡ remove_file can_remove (name ++ codes ".part") d
unfolding remove_partial_on_cancel
removed can_remove name declared d good = rw (remove_partial_on_cancel, good) refl

settled_discard :
    (env : Local) (conn : Connection) (declared name : Text) (e why : NetError) (d d1 d' : Dir)
    → settle_dial {A = Text} {S = Dir} conn
        (remove_partial_on_cancel env.can_remove_cancelled declared)
        (err e, d1)
      ≡ (err why, d')
    → safe_filename declared ≡ ok name
    → IsKept (name ++ codes ".part") d d1
    → ((keeps_partial e ≡ false) → env.can_remove_failed ≡ true → d1 (name ++ codes ".part") ≡ none)
    → IsDiscarded env (name ++ codes ".part") why d d'
unfolding settle_dial is_cancelled
settled_discard env conn declared name e why d d1 d' h good kept gone =
    let part : Text = name ++ codes ".part" in
    let w : NetError = classify_io_failure conn e in
    let both : ◌≡◌ {A = Result Text NetError × Dir}
        (
          err w,
          if is_cancelled w
              then remove_partial_on_cancel env.can_remove_cancelled declared d1
              else d1,
        )
        (err why, d') =
      h in
    let class : w ≡ why = cc (both) in
    let left : (if is_cancelled w
          then remove_partial_on_cancel env.can_remove_cancelled declared d1
          else d1)
        ≡ d' =
      cc (both) in
    elim (Bool-cases (is_cancelled w)) [
      | inl t ↦
          let after : remove_file env.can_remove_cancelled part d1 ≡ d' =
            sym (removed env.can_remove_cancelled name declared d1 good)
            ∙ then_branch (is_cancelled w) _ _ t left in
          (
            (λ m ne.
                ap (λ (x : Dir). x m) (sym after)
                ∙ remove_file_ne env.can_remove_cancelled part m d1 ne
                ∙ kept m ne),
            λ _ removes _.
                ap (λ (x : Dir). x part) (sym after)
                ∙ remove_file_self env.can_remove_cancelled part d1 removes,
          )
      | inr f ↦
          let after : d1 ≡ d' = else_branch (is_cancelled w) _ _ f left in
          (
            (λ m ne. ap (λ (x : Dir). x m) (sym after) ∙ kept m ne),
            λ removes _ not_lost.
                ap (λ (x : Dir). x part) (sym after) ∙ elim (Bool-cases (keeps_partial e)) [
                  | inr plain ↦ gone plain removes
                  | inl keeps ↦ elim (kept_class conn e keeps) [
                    | inl lost ↦ absurd (not_lost (sym class ∙ lost))
                    | inr was ↦ let it : is_cancelled w ≡ true = ap is_cancelled was in cc (it, f)
                  ]
                ],
          )
    ]

settled_connection :
    (conn : Connection) (discard : Dir → Dir) (e why : NetError) (d1 d' : Dir)
    → e ≡ connection
    → settle_dial {A = Text} {S = Dir} conn discard (err e, d1) ≡ (err why, d')
    → d' ≡ d1
unfolding settle_dial classify_io_failure is_cancelled
settled_connection conn discard e why d1 d' same h = cc (rw same at h)

settled_unsafe :
    (can_remove : Bool) (conn : Connection) (declared : Text) (fault e why : NetError) (d1 d' : Dir)
    → safe_filename declared ≡ err fault
    → settle_dial {A = Text} {S = Dir} conn
        (remove_partial_on_cancel can_remove declared)
        (err e, d1)
      ≡ (err why, d')
    → d' ≡ d1
unfolding settle_dial remove_partial_on_cancel
settled_unsafe can_remove conn declared fault e why d1 d' bad h =
    let was : Bool = is_cancelled (classify_io_failure conn e) in
    let left : (if was then remove_partial_on_cancel can_remove declared d1 else d1) ≡ d' =
      ap (λ (p : Result Text NetError × Dir). p.1) h in
    let nothing : remove_partial_on_cancel can_remove declared d1 ≡ d1 =
      rw (remove_partial_on_cancel, bad) refl in
    elim (Bool-cases was) [
      | inl t ↦ sym (then_branch was _ _ t left) ∙ nothing
      | inr f ↦ sym (else_branch was _ _ f left)
    ]

same_some : {a b : Result Text NetError × Dir} → some a ≡ some b → a ≡ b
same_some h = cc (h)

same_dir :
    {e f : NetError} {d d' : Dir}
    → ◌≡◌ {A = Option (Result Text NetError × Dir)} (some (err e, d)) (some (err f, d'))
    → d' ≡ d
same_dir h = cc (h)

settled_err :
    (conn : Connection) (discard : Dir → Dir) (x : Option (Result Text NetError × Dir))
    (why : NetError) (d' : Dir)
    → Option.map (settle_dial conn discard) x ≡ some (err why, d')
    → (e : NetError) × (d1 : Dir) × (x ≡ some (err e, d1))
      × (settle_dial {A = Text} {S = Dir} conn discard (err e, d1) ≡ (err why, d'))
unfolding settle_dial
settled_err conn discard none why d' h = cc
settled_err conn discard (some (ok f, d)) why d' h = cc (h)
settled_err conn discard (some (err e, d)) why d' h = (e, d, refl, same_some h)

module _ (digest : Bytes → Bytes) (decimal : ℕ → Text) (fuel : ℕ) (lossy : Bytes → Text)
    (lib : Codecs) (is_endpoint_key : Bytes → Bool) (is_socket_addr : Text → Bool)
    (connect : EndpointAddr → Option Connection) where
  -- A pull from a ticket that fails leaves the directory as it was, or changes at most the partial file
  -- of the ticket's name, and that is gone unless the error is a lost connection or its removal fails: a
  -- cancellation by the peer removes it.
  pub pull-failed :
      (env : Local) (peer : Connection → Request → Incoming) (t : Ticket) (ack : ConsentAck)
      (d : Dir) (why : NetError) (d' : Dir)
      → pull digest decimal fuel lossy lib is_endpoint_key is_socket_addr connect env peer t ack d
        ≡ some (err why, d')
      → (d' ≡ d)
        ⊎ ((wanted : FileRef) × (name : Text) × (file_ref t ≡ some wanted)
            × (safe_filename wanted.name ≡ ok name)
            × IsDiscarded env (name ++ codes ".part") why d d')
  unfolding pull_over
  pull-failed env peer t ack d why d' h =
      elim (pull-cases digest decimal fuel lossy lib is_endpoint_key is_socket_addr connect env peer
        t ack d) [
          | inl (other, e) ↦ inl (same_dir (sym e ∙ h))
          | inr (wanted, conn, e, pinned, same) ↦
              let (failed, d1, sent, ended) =
                settled_err conn (remove_partial_on_cancel env.can_remove_cancelled wanted.name) _
                  why d' (sym same ∙ h) in
              elim (Bool-cases conn.opens) [
                | inr n ↦
                    let over : ◌≡◌ {A = Option (Result Text NetError × Dir)}
                        (some (err connection, d)) (some (err failed, d1)) =
                      else_branch conn.opens _ _ n sent in
                    let none_sent : failed ≡ connection = cc (over) in
                    inl (
                      settled_connection conn
                        (remove_partial_on_cancel env.can_remove_cancelled wanted.name) failed why
                        d1 d' none_sent ended
                      ∙ same_dir over)
                | inl y ↦
                    elim (pull_file-failed digest decimal fuel lossy env (peer conn) t.nonce wanted
                      0 d failed d1 (then_branch conn.opens _ _ y sent)) [
                        | inl (unchanged, bad) ↦ inl (
                            settled_unsafe env.can_remove_cancelled conn wanted.name failed failed
                              why d1 d' bad ended
                            ∙ unchanged)
                        | inr (name, good, kept, gone) ↦ inr (
                          wanted,
                          name,
                          e,
                          good,
                          settled_discard env conn wanted.name name failed why d d1 d' ended good
                              kept gone,
                        )
                      ]
              ]
        ]
