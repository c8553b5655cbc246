-- ===== src/Net/Listener.antt =====
-- crates/mascara-net/src/listener.rs: who may be served, and the offers that can be served.
pub mod Auth
pub mod Limiter
pub mod Offers
pub mod Serve
pub mod Served
pub mod Requests
use mathlib.Core.Option
use mascara.Common.{
  ℕ, ◌+◌, ◌-◌, ◌%◌, ◌^◌, Bool, true, false, not, ◌&&◌, ◌||◌, Option, none, some, List, [], ◌∷◌,
  ◌++◌, Result, ok, err, ltb, leb, eqb, if◌then◌else◌, ◌==◌, list_eq, nat_eq, option_eq, any, find,
  filter,
}
use mascara.Common.Text.{Text, Bytes}
use mascara.Core.Registry.{Nonce, IssuedRecord, IssuedTickets, is_valid, has_nonce}

pub data Refusal : Type 0 where
  invalid_ticket wrong_remote sync_not_supported no_local_source : Refusal

-- The recipient that the first record of the nonce names.
unfoldable pub recipient_of : IssuedTickets → Nonce → Option Bytes
recipient_of t n = elim (find (has_nonce n) t.tickets) [
  | none ↦ none
  | some r ↦ r.recipient_transport_pk
]

-- `authorize`
unfoldable pub authorize : IssuedTickets → Nonce → Bytes → ℕ → Result (Unit {0}) Refusal
unfolding recipient_of
authorize t n remote_id now =
    if not (is_valid t n now)
    then err invalid_ticket
    else if not (recipient_of t n == some remote_id)
    then err wrong_remote
    else ok tt

-- The set `known` of `run`, as a list: the recipients of all records.
unfoldable pub known : List IssuedRecord → List Bytes
known [] = []
known (r ∷ rs) = elim r.recipient_transport_pk [ none ↦ known rs | some pk ↦ pk ∷ known rs ]

-- A remote's window: when it began, and the attempts in it.
pub record Window : Type 0 where
  pub remote : Bytes
  pub began : ℕ
  pub attempts : ℕ

pub record UnknownRemoteLimiter : Type 0 where
  pub window : ℕ
  pub max_per_window : ℕ
  pub seen : List Window

-- `or_insert`, then the reset of a window that is over; `Instant::duration_since` stops at 0.
unfoldable pub current_window : UnknownRemoteLimiter → Bytes → ℕ → Window
current_window l remote now = elim (find (λ w. w.remote == remote) l.seen) [
  | none ↦ record { remote = remote; began = now; attempts = 0 }
  | some w ↦
      if ltb l.window (now - w.began)
      then record { remote = remote; began = now; attempts = 0 }
      else w
]

-- `entry.1 += 1` on a `u32`.
unfoldable pub counted : Window → Window
counted w = record w { attempts = (w.attempts + 1) % 2 ^ 32 }

-- `UnknownRemoteLimiter::allow`
unfoldable pub allow : UnknownRemoteLimiter → Bytes → ℕ → Bool × UnknownRemoteLimiter
unfolding current_window counted
allow l remote now =
    let w : Window = counted (current_window l remote now) in
    (
      leb w.attempts l.max_per_window,
      record l { seen = w ∷ filter (λ v. not (v.remote == remote)) l.seen },
    )

-- The test of `run` on a new connection, `||` and `!` being lazy: a known remote is not counted.
unfoldable pub admit :
    IssuedTickets → UnknownRemoteLimiter → Bytes → ℕ → Bool × UnknownRemoteLimiter
unfolding known allow
admit t l remote now =
    if any (λ pk. pk == remote) (known t.tickets) then (true, l) else allow l remote now
