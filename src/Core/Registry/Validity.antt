-- ===== src/Core/Registry/Validity.antt =====
-- What each operation of registry.rs does to the validity of every nonce, at every time.
use mathlib.Core.Option
use mascara.Common.{
  ℕ, ◌≡◌, refl, ap, false, ok, arith, if◌then◌else◌, ◌==◌, eq_iff, Bool-cases, Option-cases, inl,
  inr, any, find, any-find, find-append, list_eq, nat_eq,
}
use mascara.Common.Keyed.{find-update, find-map, find-has}
use mascara.Core.Registry.{
  Nonce, IssuedRecord, IssuedTickets, record_is_valid, has_nonce, as_revoked, drop_dead, issue,
  revoke, compact, is_valid,
}

-- A nonce that was just issued is as valid as its record; every other nonce is as valid as before.
pub is_valid-issue :
    (t : IssuedTickets) (r : IssuedRecord) (n : Nonce) (now : ℕ)
    → (issue t r).0 ≡ ok tt
    → is_valid (issue t r).1 n now
      ≡ (if r.nonce == n then record_is_valid r now else is_valid t n now)
unfolding issue is_valid
is_valid-issue t r n now h = elim (Bool-cases (any (has_nonce r.nonce) t.tickets)) [
  | inl old ↦ ground (arith, old)
  | inr new ↦
      rw (new, find-append (has_nonce n) t.tickets r)
        (ground (
          arith,
          eq_iff r.nonce n,
          any-find (has_nonce r.nonce) t.tickets new,
          ap (λ (m : Nonce). find (has_nonce m) t.tickets) {x = r.nonce} {y = n},
        ))
]

-- What a search finds after a revocation, whether or not the registry knew the nonce.
pub find-revoke :
    (t : IssuedTickets) (n m : Nonce)
    → find (has_nonce m) (revoke t n).1.tickets ≡ (
        if n == m
        then Option.map as_revoked (find (has_nonce m) t.tickets)
        else find (has_nonce m) t.tickets)
unfolding revoke
find-revoke t n m = elim (Option-cases (find (has_nonce n) t.tickets)) [
  | inl e ↦
      rw (e, revoke) (ground (arith, e, find-has (λ (r : IssuedRecord). r.nonce) n m t.tickets))
  | inr (r, e) ↦
      rw (e, revoke)
        (find-update (λ (a : IssuedRecord). a.nonce) as_revoked (λ a. refl) n m t.tickets)
]

-- Revoking a nonce ends its validity at every time and changes that of no other nonce, whether or
-- not the registry knew it.
pub is_valid-revoke :
    (t : IssuedTickets) (n m : Nonce) (now : ℕ)
    → is_valid (revoke t n).1 m now ≡ (if n == m then false else is_valid t m now)
unfolding is_valid record_is_valid
is_valid-revoke t n m now = rw (find-revoke t n m) (ground arith)

drop_dead_nonce : (now : ℕ) (r : IssuedRecord) → (drop_dead now r).nonce ≡ r.nonce
drop_dead_nonce now r = ground arith

pub find-compact :
    (t : IssuedTickets) (n : Nonce) (now : ℕ)
    → find (has_nonce n) (compact t now).tickets
      ≡ Option.map (drop_dead now) (find (has_nonce n) t.tickets)
unfolding compact
find-compact t n now =
    find-map (λ (r : IssuedRecord). r.nonce) (drop_dead now) (drop_dead_nonce now) n t.tickets

-- Compaction changes the validity of no nonce, at any time.
pub is_valid-compact :
    (t : IssuedTickets) (n : Nonce) (at now : ℕ) → is_valid (compact t at) n now ≡ is_valid t n now
unfolding is_valid record_is_valid
is_valid-compact t n at now = rw (find-compact t n at) (ground arith)
