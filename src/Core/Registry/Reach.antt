-- ===== src/Core/Registry/Reach.antt =====
-- The registries that registry.rs can produce: an invariant over every sequence of operations.
use mascara.Common.{
  ℕ, ◌≤◌, ◌≡◌, refl, true, false, Option, none, List, [], ◌∷◌, map, arith, Bool-cases, Option-cases,
  inl, inr, any, find, All, All-append, All-update_first, is_none, list_eq, nat_eq,
}
use mascara.Common.Keyed.{Distinct, append-Distinct, update-Distinct, map-Distinct}
use mascara.Common.Text.{Text, Bytes}
use mascara.Core.Registry.{
  Nonce, IssuedRecord, IssuedTickets, no_tickets, new_record, record_is_valid, has_nonce,
  as_revoked, drop_dead, issue, revoke, compact,
}

-- A registry and the time up to which the clock has been read.
pub data Reach : IssuedTickets → ℕ → Type 0 where
  start : Reach no_tickets 0
  issued :
      {t : IssuedTickets} {w : ℕ} (n : Nonce) (name : Option Text) (now : ℕ) (expires_at : Option ℕ)
      (pk : Bytes)
      → Reach t w
      → w ≤ now
      → Reach (issue t (new_record n name now expires_at pk)).1 now
  revoked : {t : IssuedTickets} {w : ℕ} (n : Nonce) → Reach t w → Reach (revoke t n).1 w
  compacted :
      {t : IssuedTickets} {w : ℕ} (now : ℕ) → Reach t w → w ≤ now → Reach (compact t now) now

-- A revoked record names no recipient; one that is live at `w` does.
pub record IsTidy (w : ℕ) (r : IssuedRecord) : Type 0 where
  pub bare : r.revoked ≡ true → r.recipient_transport_pk ≡ none
  pub held : record_is_valid r w ≡ true → is_none r.recipient_transport_pk ≡ false

pub record Inv (t : IssuedTickets) (w : ℕ) : Type 0 where
  pub distinct : Distinct (λ r. r.nonce) t.tickets
  pub tidy : All (IsTidy w) t.tickets

-- Validity is lost and never gained as time goes on.
pub record_is_valid_antitone :
    (r : IssuedRecord) (w now : ℕ)
    → w ≤ now
    → record_is_valid r now ≡ true
    → record_is_valid r w ≡ true
unfolding record_is_valid
record_is_valid_antitone r w now h v = ground arith

IsTidy-mono : {w now : ℕ} → w ≤ now → (r : IssuedRecord) → IsTidy w r → IsTidy now r
IsTidy-mono {w} {now} h r d = record {
  bare = d.bare;
  held = λ v. d.held (record_is_valid_antitone r w now h v);
}

All-IsTidy-mono :
    {w now : ℕ} → w ≤ now → (rs : List IssuedRecord) → All (IsTidy w) rs → All (IsTidy now) rs
All-IsTidy-mono h [] d = tt
All-IsTidy-mono h (r ∷ rs) d = (IsTidy-mono h r d.0, All-IsTidy-mono h rs d.1)

new_record-IsTidy :
    (n : Nonce) (name : Option Text) (now : ℕ) (e : Option ℕ) (pk : Bytes)
    → IsTidy now (new_record n name now e pk)
unfolding new_record
new_record-IsTidy n name now e pk = record { bare = λ h. cc; held = λ v. refl }

as_revoked-IsTidy : (w : ℕ) (r : IssuedRecord) → IsTidy w (as_revoked r)
unfolding record_is_valid
as_revoked-IsTidy w r = record { bare = λ h. refl; held = λ v. cc }

valid_without_pk :
    (r : IssuedRecord) (now : ℕ)
    → record_is_valid (record r { recipient_transport_pk = none }) now ≡ record_is_valid r now
unfolding record_is_valid
valid_without_pk r now = refl

drop_dead-IsTidy :
    {w : ℕ} (now : ℕ) → w ≤ now → (r : IssuedRecord) → IsTidy w r → IsTidy now (drop_dead now r)
drop_dead-IsTidy {w} now h r d = elim (Bool-cases (record_is_valid r now)) [
  | inl v ↦ rw v (IsTidy-mono h r d)
  | inr v ↦ rw v (record { bare = λ _. refl; held = λ v'. cc (valid_without_pk r now) })
]

drop_dead_nonce : (now : ℕ) (r : IssuedRecord) → (drop_dead now r).nonce ≡ r.nonce
drop_dead_nonce now r = ground arith

issue-Inv :
    {t : IssuedTickets} {w : ℕ} (n : Nonce) (name : Option Text) (now : ℕ) (e : Option ℕ)
    (pk : Bytes)
    → w ≤ now
    → Inv t w
    → Inv (issue t (new_record n name now e pk)).1 now
unfolding issue
issue-Inv {t} n name now e pk h v =
    elim (Bool-cases (any (has_nonce (new_record n name now e pk).nonce) t.tickets)) [
      | inl old ↦
          rw (old, issue)
            (record { distinct = v.distinct; tidy = All-IsTidy-mono h t.tickets v.tidy })
      | inr new ↦
          rw (new, issue)
            (record {
              distinct =
                  append-Distinct (λ (r : IssuedRecord). r.nonce) t.tickets
                    (new_record n name now e pk) new v.distinct;
              tidy =
                  All-append (IsTidy now) t.tickets (new_record n name now e pk ∷ [])
                    (All-IsTidy-mono h t.tickets v.tidy) (new_record-IsTidy n name now e pk, tt);
            })
    ]

revoke-Inv : {t : IssuedTickets} {w : ℕ} (n : Nonce) → Inv t w → Inv (revoke t n).1 w
unfolding revoke
revoke-Inv {t} {w} n v = elim (Option-cases (find (has_nonce n) t.tickets)) [
  | inl e ↦ rw (e, revoke) v
  | inr (r, e) ↦
      rw (e, revoke)
        (record {
          distinct =
              update-Distinct (λ (r : IssuedRecord). r.nonce) as_revoked (λ r. refl) n t.tickets
                v.distinct;
          tidy =
              All-update_first (has_nonce n) (IsTidy w) as_revoked t.tickets
                (λ a _ _. as_revoked-IsTidy w a) v.tidy;
        })
]

map-IsTidy :
    {w : ℕ} (now : ℕ)
    → w ≤ now
    → (rs : List IssuedRecord) → All (IsTidy w) rs
    → All (IsTidy now) (map (drop_dead now) rs)
map-IsTidy now h [] d = tt
map-IsTidy now h (r ∷ rs) d = (drop_dead-IsTidy now h r d.0, map-IsTidy now h rs d.1)

compact-Inv : {t : IssuedTickets} {w : ℕ} (now : ℕ) → w ≤ now → Inv t w → Inv (compact t now) now
unfolding compact
compact-Inv {t} now h v = record {
  distinct =
      map-Distinct (λ (r : IssuedRecord). r.nonce) (drop_dead now) (drop_dead_nonce now) t.tickets
        v.distinct;
  tidy = map-IsTidy now h t.tickets v.tidy;
}

-- In every registry that operations at non-decreasing times produce from the empty one, no nonce
-- stands twice, a revoked record names no recipient, and a record that is live at the time of the last operation names
-- one.
pub Reach-Inv : {t : IssuedTickets} {w : ℕ} → Reach t w → Inv t w
Reach-Inv start = record { distinct = tt; tidy = tt }
Reach-Inv (issued n name now e pk r h) = issue-Inv n name now e pk h (Reach-Inv r)
Reach-Inv (revoked n r) = revoke-Inv n (Reach-Inv r)
Reach-Inv (compacted now r h) = compact-Inv now h (Reach-Inv r)
