-- ===== src/Net/Listener/Auth.antt =====
-- Who is served: exactly the recipient of a live ticket.
use mascara.Common.{
  ℕ, ◌≤◌, ◌≡◌, ◌↔◌, refl, Bool, true, false, some, List, [], ◌∷◌, ok, err, ◌==◌, list_eq, nat_eq,
  option_eq, any, find, eq_iff, eq_refl, Bool-cases, Option-cases, inl, inr, arith, find-All,
  eq_false, ne_of_eq_false,
}
use mascara.Common.Text.{Bytes}
use mascara.Core.Registry.{
  Nonce, IssuedRecord, IssuedTickets, is_valid, has_nonce, record_is_valid, revoke,
}
use mascara.Core.Registry.Reach.{Reach, Reach-Inv, IsTidy, record_is_valid_antitone}
use mascara.Core.Registry.Permanence.{Later, revocation_is_permanent}
use mascara.Net.Listener.{
  invalid_ticket, wrong_remote, recipient_of, authorize, known, admit, UnknownRemoteLimiter,
}

pub authorize-ok :
    (t : IssuedTickets) (n : Nonce) (remote : Bytes) (now : ℕ)
    → authorize t n remote now ≡ ok tt
    → (is_valid t n now ≡ true) × (recipient_of t n ≡ some remote)
unfolding authorize
authorize-ok t n remote now h = ground (arith, eq_iff (recipient_of t n) (some remote))

-- A request is authorized exactly if the registry's first record of its nonce is live and names the
-- remote as its recipient.
pub authorize_iff :
    (t : IssuedTickets) (n : Nonce) (remote : Bytes) (now : ℕ)
    → (authorize t n remote now ≡ ok tt) ↔ (
        (r : IssuedRecord) × (find (has_nonce n) t.tickets ≡ some r)
        × (record_is_valid r now ≡ true)
        × (r.recipient_transport_pk ≡ some remote))
unfolding is_valid recipient_of authorize
authorize_iff t n remote now = (
  (λ h.
      let (valid, named) = authorize-ok t n remote now h in
      elim (Option-cases (find (has_nonce n) t.tickets)) [
        | inl e ↦ cc (rw e at valid)
        | inr (r, e) ↦ (r, e, rw e at valid, rw (recipient_of, e) at named)
      ]),
  λ (r, e, v, pk). rw (e, v, recipient_of, pk, eq_refl (some remote)) refl,
)

-- A nonce that is unknown, revoked or expired gets one and the same refusal, whichever remote asks.
pub authorize_hides_recipient :
    (t : IssuedTickets) (n : Nonce) (remote other : Bytes) (now : ℕ)
    → is_valid t n now ≡ false
    → (authorize t n remote now ≡ err invalid_ticket)
      × (authorize t n remote now ≡ authorize t n other now)
unfolding authorize
authorize_hides_recipient t n remote other now h = (rw h refl, rw h refl)

-- After a revocation that succeeded nobody is authorized for the nonce again, at any time, whatever is
-- issued, revoked or compacted in between.
pub revoked-never-authorized :
    (t u : IssuedTickets) (n : Nonce) (was_live : Bool) (remote : Bytes) (now : ℕ)
    → (revoke t n).0 ≡ ok was_live
    → Later (revoke t n).1 u
    → authorize u n remote now ≡ err invalid_ticket
revoked-never-authorized t u n b remote now h l =
    (authorize_hides_recipient u n remote remote now
      ((revocation_is_permanent t u n b h l).0 now)).0

-- In a registry that operations produced, a nonce that is live at a later time has one recipient:
-- that remote is authorized and every other is refused as the wrong one.
pub live_ticket_has_one_recipient :
    {t : IssuedTickets} {w : ℕ} (n : Nonce) (now : ℕ)
    → Reach t w
    → w ≤ now
    → is_valid t n now ≡ true
    → (pk : Bytes) × (authorize t n pk now ≡ ok tt)
      × ((other : Bytes) → (other == pk) ≡ false → authorize t n other now ≡ err wrong_remote)
unfolding is_valid recipient_of authorize
live_ticket_has_one_recipient {t} {w} n now reached h v =
    elim (Option-cases (find (has_nonce n) t.tickets)) [
      | inl e ↦ cc (rw e at v)
      | inr (r, e) ↦
          let live : record_is_valid r now ≡ true = rw e at v in
          let tidy : IsTidy w r =
            find-All (has_nonce n) (IsTidy w) t.tickets r (Reach-Inv reached).tidy e in
          let held = tidy.held (record_is_valid_antitone r w now h live) in
          elim (Option-cases r.recipient_transport_pk) [
            | inl none_named ↦ cc (rw none_named at held)
            | inr (pk, named) ↦ (
              pk,
              (authorize_iff t n pk now).1 (r, e, live, named),
              λ other differs.
                  rw
                    (
                      e,
                      live,
                      recipient_of,
                      named,
                      eq_false (some pk) (some other)
                          (λ p. ne_of_eq_false other pk differs (cc (p))),
                    )
                    refl,
            )
          ]
    ]

known-find :
    (n : Nonce) (rs : List IssuedRecord) (r : IssuedRecord) (pk : Bytes)
    → find (has_nonce n) rs ≡ some r
    → r.recipient_transport_pk ≡ some pk
    → any (λ k. k == pk) (known rs) ≡ true
unfolding known
known-find n [] r pk e h = cc
known-find n (s ∷ rs) r pk e h = elim (Bool-cases (has_nonce n s)) [
  | inl here ↦ let same : s ≡ r = cc (rw here at e) in rw (same, h, eq_refl pk) refl
  | inr there ↦ elim (Option-cases s.recipient_transport_pk) [
    | inl bare ↦ rw bare (known-find n rs r pk (rw there at e) h)
    | inr (k, named) ↦ ground (arith, named, known-find n rs r pk (rw there at e) h)
  ]
]

-- A remote that is authorized for some nonce is admitted to a connection, whatever the limiter has
-- counted, and is not counted.
pub authorized_is_admitted :
    (t : IssuedTickets) (l : UnknownRemoteLimiter) (n : Nonce) (remote : Bytes) (now : ℕ)
    → authorize t n remote now ≡ ok tt
    → admit t l remote now ≡ (true, l)
unfolding admit
authorized_is_admitted t l n remote now h =
    let (r, e, _, pk) = (authorize_iff t n remote now).0 h in
    rw (known-find n t.tickets r remote e pk) refl
