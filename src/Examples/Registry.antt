-- ===== src/Examples/Registry.antt =====
-- Tests of the registry and of its storage, at concrete tickets.
use mascara.Common.{
  ℕ, ◌≡◌, ◌≢◌, refl, Bool, true, false, ◌⊎◌, inl, none, some, [], ◌∷◌, ok, err, arith, eqb, eqb_iff,
  if◌then◌else◌, ◌==◌, list_eq, nat_eq, list_beq,
}
use mascara.Common.Text.{Text, Bytes, starts_with, trim}
use mascara.Core.Error.{CoreError, json, registry, already_issued}
use mascara.Core.Store.{Backend, save, transact}
use mascara.Core.Store.Laws.{IsFaithful}
use mascara.Core.Registry.{
  Nonce, IssuedRecord, IssuedTickets, no_tickets, new_record, issue, revoke, compact, is_valid,
  resolve_prefix, registry_version,
}
use mascara.Core.Registry.Reach.{Reach, Inv, Reach-Inv}
use mascara.Core.Registry.Permanence.{Later, revocation_is_permanent}
use mascara.Core.Registry.Saved.{saved_revoke, issue_around_revoke}
use mascara.Core.Registry.Durable.{IsCurrent, saved_revoke_durable, lost_revocation}

-- Two tickets, one of which expires.
abbrev pub first : IssuedRecord
first = new_record (1 ∷ []) none 5 none (70 ∷ [])

abbrev pub second : IssuedRecord
second = new_record (2 ∷ []) none 6 (some 9) (80 ∷ [])

abbrev pub one : IssuedTickets
one = (issue no_tickets first).1

abbrev pub two : IssuedTickets
two = (issue one second).1

pub two-Reach : Reach two 6
unfolding new_record
two-Reach =
    Reach.issued (2 ∷ []) none 6 (some 9) (80 ∷ [])
      (Reach.issued (1 ∷ []) none 5 none (70 ∷ []) Reach.start (ground arith)) (ground arith)

pub revoked_first : (revoke two (1 ∷ [])).0 ≡ ok true
unfolding revoke issue new_record list_beq
revoked_first = refl

abbrev after : IssuedTickets
after = (issue (compact (revoke two (1 ∷ [])).1 20) (new_record (3 ∷ []) none 21 none (70 ∷ []))).1

revocation_is_permanent_example :
    ((now : ℕ) → is_valid after (1 ∷ []) now ≡ false)
    × ((r : IssuedRecord)
        → r.nonce ≡ 1 ∷ []
        → (issue after r).0 ≡ err (registry (already_issued (1 ∷ []))))
revocation_is_permanent_example =
    revocation_is_permanent two after (1 ∷ []) true revoked_first
      (Later.issued (new_record (3 ∷ []) none 21 none (70 ∷ [])) (Later.compacted 20 Later.same))

Reach-Inv_example : Inv two 6
Reach-Inv_example = Reach-Inv two-Reach

issued_second : (issue one second).0 ≡ ok tt
unfolding issue new_record list_beq
issued_second = refl

abbrev first_nonce : Nonce
first_nonce = 1 ∷ []

abbrev second_nonce : Nonce
second_nonce = 2 ∷ []

-- A lower case and a hex encoding of one digit a byte, enough for these nonces.
abbrev same_case : Text → Text
same_case s = s

abbrev plain_hex : Bytes → Text
plain_hex b = b

resolved_second : resolve_prefix same_case plain_hex two (2 ∷ []) ≡ ok (2 ∷ [])
unfolding resolve_prefix issue new_record list_beq starts_with trim
resolved_second = refl

-- A store in memory, that refuses another version as the file store does.
abbrev pub memory : Backend IssuedTickets IssuedTickets
memory = record {
  load = λ w. if eqb w.v registry_version then ok w else err json;
  store = λ w s. (ok tt, s);
}

pub memory-IsFaithful : IsFaithful IsCurrent memory
memory-IsFaithful = record {
  content = λ w. if eqb w.v registry_version then ok w else err json;
  load-content = λ w. inl refl;
  content-Fits = λ w s h. ground (arith);
  content-stored = λ w s fits h. rw ((eqb_iff s.v registry_version).1 fits) refl;
  content-failed = λ w s h. absurd (h refl);
}

saved_revoke_durable_example :
    let (result, w') = saved_revoke memory two (1 ∷ []) in
    ((t u : IssuedTickets) × (c : Bool) × (result ≡ ok c)
      × (memory-IsFaithful.content two ≡ ok t)
      × (memory-IsFaithful.content w' ≡ ok u)
      × ((m : Nonce) (now : ℕ)
          → is_valid u m now ≡ (if first_nonce == m then false else is_valid t m now)))
    ⊎ ((e : CoreError) × (result ≡ err e)
        × (memory-IsFaithful.content w' ≡ memory-IsFaithful.content two))
saved_revoke_durable_example = saved_revoke_durable memory-IsFaithful two (1 ∷ [])

one_loads : memory.load one ≡ ok one
unfolding issue new_record
one_loads = refl

second_is_other : second.nonce ≢ 1 ∷ []
unfolding new_record
second_is_other = λ e. cc

both_succeed :
    ((issue_around_revoke memory one second (1 ∷ [])).0 ≡ ok tt)
    × ((issue_around_revoke memory one second (1 ∷ [])).1 ≡ ok true)
unfolding issue_around_revoke saved_revoke transact save issue revoke new_record list_beq
both_succeed = (refl, refl)

lost_revocation_example :
    (u : IssuedTickets) × (memory-IsFaithful.content
        (issue_around_revoke memory one second (1 ∷ [])).2
      ≡ ok u)
    × ((now : ℕ) → is_valid u (1 ∷ []) now ≡ is_valid one (1 ∷ []) now)
lost_revocation_example =
    lost_revocation memory-IsFaithful one one second (1 ∷ []) true one_loads second_is_other
      both_succeed.0 both_succeed.1
