-- ===== src/Core/Registry/Permanence.antt =====
-- What cannot be undone in registry.rs: no later operation, at whatever time, revives a revoked nonce.
use mathlib.Core.Option
use mascara.Common.{
  ℕ, ◌≡◌, refl, ap, ◌∙◌, Bool, true, false, some, ok, err, arith, ◌==◌, eq_refl, Bool-cases,
  Option-cases, inl, inr, any, find, find-append, list_eq, nat_eq,
}
use mascara.Common.Keyed.{find-any}
use mascara.Core.Error.{registry, already_issued}
use mascara.Core.Registry.{
  Nonce, IssuedRecord, IssuedTickets, record_is_valid, has_nonce, as_revoked, drop_dead, issue,
  revoke, compact, is_valid,
}
use mascara.Core.Registry.Validity.{find-revoke, find-compact}

-- The registries that any further operations can lead to.
pub data Later (t : IssuedTickets) : IssuedTickets → Type 0 where
  same : Later t t
  issued : {u : IssuedTickets} (r : IssuedRecord) → Later t u → Later t (issue u r).1
  revoked : {u : IssuedTickets} (n : Nonce) → Later t u → Later t (revoke u n).1
  compacted : {u : IssuedTickets} (now : ℕ) → Later t u → Later t (compact u now)

-- The nonce is on record, as revoked.
abbrev IsDead : Nonce → IssuedTickets → Type 0
IsDead n t = (r : IssuedRecord) × (find (has_nonce n) t.tickets ≡ some r) × (r.revoked ≡ true)

issue-IsDead :
    (n : Nonce) (t : IssuedTickets) (r : IssuedRecord) → IsDead n t → IsDead n (issue t r).1
unfolding issue
issue-IsDead n t r (d, e, h) = elim (Bool-cases (any (has_nonce r.nonce) t.tickets)) [
  | inl old ↦ rw (old, issue) (d, e, h)
  | inr new ↦ rw (new, issue) (d, find-append (has_nonce n) t.tickets r ∙ rw e refl, h)
]

revoke-IsDead : (n m : Nonce) (t : IssuedTickets) → IsDead n t → IsDead n (revoke t m).1
revoke-IsDead n m t (d, e, h) = elim (Bool-cases (m == n)) [
  | inl s ↦ (as_revoked d, find-revoke t m n ∙ rw (s, e) refl, refl)
  | inr f ↦ (d, find-revoke t m n ∙ rw (f, e) refl, h)
]

compact-IsDead : (n : Nonce) (now : ℕ) (t : IssuedTickets) → IsDead n t → IsDead n (compact t now)
compact-IsDead n now t (d, e, h) =
    (drop_dead now d, find-compact t n now ∙ ap (Option.map (drop_dead now)) e, ground arith)

Later-IsDead : (n : Nonce) {t u : IssuedTickets} → IsDead n t → Later t u → IsDead n u
Later-IsDead n d same = d
Later-IsDead n d (issued {u} r l) = issue-IsDead n u r (Later-IsDead n d l)
Later-IsDead n d (revoked {u} m l) = revoke-IsDead n m u (Later-IsDead n d l)
Later-IsDead n d (compacted {u} now l) = compact-IsDead n now u (Later-IsDead n d l)

found :
    (t : IssuedTickets) (n : Nonce) (r : IssuedRecord)
    → find (has_nonce n) t.tickets ≡ some r
    → find (has_nonce n) (revoke t n).1.tickets ≡ some (as_revoked r)
found t n r e = find-revoke t n n ∙ rw (eq_refl n, e) refl

revoke-gives-IsDead :
    (t : IssuedTickets) (n : Nonce) (was_live : Bool)
    → (revoke t n).0 ≡ ok was_live
    → IsDead n (revoke t n).1
unfolding revoke
revoke-gives-IsDead t n b h = elim (Option-cases (find (has_nonce n) t.tickets)) [
  | inl e ↦ absurd (ground (arith, e))
  | inr (r, e) ↦ (as_revoked r, found t n r e, refl)
]

-- After a revocation that succeeded, whatever is issued, revoked or compacted later, the nonce is
-- valid at no time and is refused if it is issued again.
pub revocation_is_permanent :
    (t u : IssuedTickets) (n : Nonce) (was_live : Bool)
    → (revoke t n).0 ≡ ok was_live
    → Later (revoke t n).1 u
    → ((now : ℕ) → is_valid u n now ≡ false)
      × ((r : IssuedRecord) → r.nonce ≡ n → (issue u r).0 ≡ err (registry (already_issued n)))
unfolding is_valid record_is_valid issue
revocation_is_permanent t u n b h l =
    let d : IsDead n u = Later-IsDead n (revoke-gives-IsDead t n b h) l in
    (
      λ now. rw (d.1, d.2) refl,
      λ r e. rw (e, find-any (λ (r : IssuedRecord). r.nonce) n u.tickets d.0 d.1) refl,
    )
