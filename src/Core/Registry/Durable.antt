-- ===== src/Core/Registry/Durable.antt =====
-- What the calls of `Registry<S>` leave in a faithful store, and what two processes can do to it.
use mascara.Common.{
  ℕ, ◌≡◌, ◌≢◌, refl, ap, sym, ◌∙◌, Bool, false, ◌⊎◌, inl, inr, Result, ok, err, arith,
  if◌then◌else◌, ◌==◌, list_eq, nat_eq, eq_false,
}
use mascara.Core.Error.{CoreError}
use mascara.Core.Store.{Backend, save}
use mascara.Core.Store.Laws.{IsFaithful, transact-Commits, save-ok, load-ok}
use mascara.Core.Registry.{
  Nonce, IssuedRecord, IssuedTickets, record_is_valid, issue, revoke, is_valid, registry_version,
}
use mascara.Core.Registry.Validity.{is_valid-issue, is_valid-revoke}
use mascara.Core.Registry.Saved.{saved_issue, saved_revoke, issue_around_revoke}

abbrev pub IsCurrent : IssuedTickets → Type 0
IsCurrent t = t.v ≡ registry_version

issue-IsCurrent : (r : IssuedRecord) (t : IssuedTickets) → IsCurrent t → IsCurrent (issue t r).1
unfolding issue
issue-IsCurrent r t h = ground arith

revoke-IsCurrent : (n : Nonce) (t : IssuedTickets) → IsCurrent t → IsCurrent (revoke t n).1
unfolding revoke
revoke-IsCurrent n t h = ground arith

module _ {W : Type 0} {b : Backend IssuedTickets W} (law : IsFaithful IsCurrent b) where
  -- A revocation through a faithful store either succeeds, and then the stored registry has the nonce
  -- invalid at every time and every other nonce as before, or fails and leaves the stored registry.
  pub saved_revoke_durable :
      (w : W) (n : Nonce)
      → let (result, w') = saved_revoke b w n in
        ((t u : IssuedTickets) × (c : Bool) × (result ≡ ok c)
          × (law.content w ≡ ok t)
          × (law.content w' ≡ ok u)
          × ((m : Nonce) (now : ℕ)
              → is_valid u m now ≡ (if n == m then false else is_valid t m now)))
        ⊎ ((e : CoreError) × (result ≡ err e) × (law.content w' ≡ law.content w))
  unfolding saved_revoke
  saved_revoke_durable w n = elim (transact-Commits law (λ t. revoke t n) (revoke-IsCurrent n) w) [
    | inl (t, c, before, _, result, after) ↦
        inl (t, (revoke t n).1, c, result, before, after, λ m now. is_valid-revoke t n m now)
    | inr failed ↦ inr failed
  ]

  -- An issue through the store either succeeds, and then in the stored registry the nonce is as valid
  -- as its record and every other nonce as before, or fails and leaves the stored registry.
  pub saved_issue_durable :
      (w : W) (r : IssuedRecord)
      → let (result, w') = saved_issue b w r in
        ((t u : IssuedTickets) × (result ≡ ok tt)
          × (law.content w ≡ ok t)
          × (law.content w' ≡ ok u)
          × ((m : Nonce) (now : ℕ)
              → is_valid u m now
                ≡ (if r.nonce == m then record_is_valid r now else is_valid t m now)))
        ⊎ ((e : CoreError) × (result ≡ err e) × (law.content w' ≡ law.content w))
  unfolding saved_issue
  saved_issue_durable w r = elim (transact-Commits law (λ t. issue t r) (issue-IsCurrent r) w) [
    | inl (t, c, before, changed, result, after) ↦
        inl (t, (issue t r).1, result, before, after, λ m now. is_valid-issue t r m now changed)
    | inr failed ↦ inr failed
  ]

  around :
      (w : W) (t : IssuedTickets) (r : IssuedRecord) (n : Nonce)
      → b.load w ≡ ok t
      → let (revoked, w') = saved_revoke b w n in
        let (issued, w'') = save b w' (issue t r) in
        issue_around_revoke b w r n ≡ (issued, revoked, w'')
  unfolding issue_around_revoke
  around w t r n loaded = rw (loaded, issue_around_revoke)

  -- A revocation that runs between the load and the store of an issue of another nonce is lost: if
  -- all calls report success, then in the registry that is left the revoked nonce is as valid as
  -- before, at every time.
  pub lost_revocation :
      (w : W) (t : IssuedTickets) (r : IssuedRecord) (n : Nonce) (c : Bool)
      → b.load w ≡ ok t
      → r.nonce ≢ n
      → (issue_around_revoke b w r n).0 ≡ ok tt
      → (issue_around_revoke b w r n).1 ≡ ok c
      → (u : IssuedTickets) × (law.content (issue_around_revoke b w r n).2 ≡ ok u)
        × ((now : ℕ) → is_valid u n now ≡ is_valid t n now)
  lost_revocation w t r n c loaded other issued revoked =
      let whole = around w t r n loaded in
      let w' : W = (saved_revoke b w n).1 in
      let stored = save-ok b w' (issue t r) tt (
        sym (ap (λ (p : Result (Unit {0}) CoreError × Result Bool CoreError × W). p.0) whole)
        ∙ issued) in
      (
        (issue t r).1,
        ap (λ (p : Result (Unit {0}) CoreError × Result Bool CoreError × W). law.content p.2) whole
            ∙ ap law.content stored.2
            ∙ law.content-stored w' (issue t r).1
                (issue-IsCurrent r t (law.content-Fits w t (load-ok law w t loaded))) stored.1,
        λ now. is_valid-issue t r n now stored.0 ∙ rw (eq_false r.nonce n other) refl,
      )
