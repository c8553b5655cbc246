-- ===== src/Core/Registry.antt =====
-- crates/mascara-core/src/registry.rs: the issued-ticket registry, a state machine over the list of
-- issued nonces. A `&mut self` method returns its result and the state it leaves. A `DateTime<Utc>`
-- is the number of nanoseconds since the least one; only its order is used here.
pub mod Validity
pub mod Reach
pub mod Permanence
pub mod Prefix
pub mod Saved
pub mod Durable
use mascara.Common.{
  ℕ, Bool, true, false, not, ◌&&◌, Option, none, some, List, [], ◌∷◌, ◌++◌, map, Result, ok, err,
  ltb, if◌then◌else◌, ◌==◌, list_eq, nat_eq, any, filter, find, update_first, length, is_some_and,
  is_none_or,
}
use mascara.Common.Text.{Text, Bytes, starts_with, trim}
use mascara.Common.Keyed.{has}
use mascara.Core.Error.{
  CoreError, registry, already_issued, no_such_ticket, empty_id, no_match, ambiguous,
}

-- ticket.rs: `NONCE_LEN` bytes.
abbrev pub Nonce : Type 0
Nonce = Bytes

abbrev pub registry_version : ℕ
registry_version = 1

pub record IssuedRecord : Type 0 where
  pub nonce : Nonce
  pub name : Option Text
  pub issued_at : ℕ
  pub revoked : Bool
  pub expires_at : Option ℕ
  pub recipient_transport_pk : Option Bytes

-- `IssuedRecord::new`
unfoldable pub new_record : Nonce → Option Text → ℕ → Option ℕ → Bytes → IssuedRecord
new_record nonce name now expires_at recipient_transport_pk = record {
  nonce = nonce;
  name = name;
  issued_at = now;
  revoked = false;
  expires_at = expires_at;
  recipient_transport_pk = some recipient_transport_pk;
}

-- `IssuedRecord::is_valid`
unfoldable pub record_is_valid : IssuedRecord → ℕ → Bool
record_is_valid r now = not r.revoked && is_none_or r.expires_at (λ e. ltb now e)

pub record IssuedTickets : Type 0 where
  pub v : ℕ
  pub tickets : List IssuedRecord

-- `IssuedTickets::default`
abbrev pub no_tickets : IssuedTickets
no_tickets = record { v = registry_version; tickets = [] }

-- The closure `|r| &r.nonce == nonce`.
abbrev pub has_nonce : Nonce → IssuedRecord → Bool
has_nonce = has (λ r. r.nonce)

-- `IssuedTickets::issue`
unfoldable pub issue : IssuedTickets → IssuedRecord → Result (Unit {0}) CoreError × IssuedTickets
issue t r =
    if any (has_nonce r.nonce) t.tickets
    then (err (registry (already_issued r.nonce)), t)
    else (ok tt, record t { tickets = t.tickets ++ r ∷ [] })

abbrev pub as_revoked : IssuedRecord → IssuedRecord
as_revoked r = record r { revoked = true; recipient_transport_pk = none }

-- `IssuedTickets::revoke`
unfoldable pub revoke : IssuedTickets → Nonce → Result Bool CoreError × IssuedTickets
revoke t n = elim (find (has_nonce n) t.tickets) [
  | some r ↦
      (ok (not r.revoked), record t { tickets = update_first (has_nonce n) as_revoked t.tickets })
  | none ↦ (err (registry (no_such_ticket n)), t)
]

abbrev pub drop_dead : ℕ → IssuedRecord → IssuedRecord
drop_dead now r = if record_is_valid r now then r else record r { recipient_transport_pk = none }

-- `IssuedTickets::compact`
unfoldable pub compact : IssuedTickets → ℕ → IssuedTickets
compact t now = record t { tickets = map (drop_dead now) t.tickets }

-- `IssuedTickets::is_valid`
unfoldable pub is_valid : IssuedTickets → Nonce → ℕ → Bool
is_valid t n now = is_some_and (find (has_nonce n) t.tickets) (λ r. record_is_valid r now)

-- `str::to_lowercase` and `hex::encode` are not part of the repository.
module _ (to_lowercase : Text → Text) (hex_encode : Bytes → Text) where
  abbrev pub matches_prefix : Text → IssuedRecord → Bool
  matches_prefix prefix r = starts_with (hex_encode r.nonce) prefix

  only_match : Text → List IssuedRecord → Result Nonce CoreError
  only_match prefix [] = err (registry (no_match prefix))
  only_match prefix (r ∷ []) = ok r.nonce
  only_match prefix (r ∷ s ∷ many) = err (registry (ambiguous prefix (length (r ∷ s ∷ many))))

  resolve_trimmed : IssuedTickets → Text → Result Nonce CoreError
  unfolding only_match
  resolve_trimmed t [] = err (registry empty_id)
  resolve_trimmed t (c ∷ prefix) =
      only_match (c ∷ prefix) (filter (matches_prefix (c ∷ prefix)) t.tickets)

  -- `IssuedTickets::resolve_prefix`
  unfoldable pub resolve_prefix : IssuedTickets → Text → Result Nonce CoreError
  unfolding resolve_trimmed
  resolve_prefix t prefix = resolve_trimmed t (to_lowercase (trim prefix))
