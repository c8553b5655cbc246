-- ===== src/Cli/Started.antt =====
-- The history record that a transfer continues.
use mascara.Common.{
  ℕ, ◌≡◌, ◌⊎◌, refl, sym, ap, ◌∙◌, Bool, true, none, some, List, [], ◌∷◌, ◌++◌, Result, ok, err,
  arith, list_eq, nat_eq, find, any, Option-cases, Result-cases, Bool-cases, inl, inr, eq_refl,
  ◌>>◌,
}
use mascara.Common.Text.{Text}
use mascara.Core.Error.{CoreError}
use mascara.Core.Store.{Backend}
use mascara.Core.Store.Laws.{IsFaithful, transact-Commits, load-ok}
use mascara.Core.History.{
  TransferId, HistoryRecord, History, history_version, has_id, is_resumable, record_in_progress,
  log_list, log_in_progress,
}
use mascara.Cli.{Offer, continues, record_started}

abbrev pub IsReadable : History → Type 0
IsReadable h = h.v ≡ history_version

find-append_last :
    {A : Type 0} (p : A → Bool) (xs : List A) (x : A)
    → find p xs ≡ none
    → p x ≡ true
    → find p (xs ++ x ∷ []) ≡ some x
find-append_last p [] x none_yet it = rw (it) refl
find-append_last p (y ∷ xs) x none_yet it = ground (arith, find-append_last p xs x)

-- What `record_in_progress` adds is found.
find-record_in_progress :
    (h : History) (o : Offer) (id : TransferId) (from : Text) (now : ℕ) (u : Unit {0})
    → find (continues o.sha256 o.name) h.records ≡ none
    → (record_in_progress h id o.name o.size o.sha256 o.md5 from now).0 ≡ ok u
    → (r : HistoryRecord) × (find
          (continues o.sha256 o.name)
          (record_in_progress h id o.name o.size o.sha256 o.md5 from now).1.records
        ≡ some r)
      × (r.id ≡ id)
unfolding record_in_progress is_resumable
find-record_in_progress h o id from now u none_yet good =
    elim (Bool-cases (any (has_id id) h.records)) [
      | inl y ↦ cc (rw (y) at good)
      | inr n ↦ rw (n) (
        _,
        find-append_last (continues o.sha256 o.name) h.records _ none_yet
            (rw (eq_refl o.sha256, eq_refl o.name) refl),
        refl,
      )
    ]

record_in_progress-IsReadable :
    (o : Offer) (id : TransferId) (from : Text) (now : ℕ) (h : History)
    → IsReadable h
    → IsReadable (record_in_progress h id o.name o.size o.sha256 o.md5 from now).1
unfolding record_in_progress
record_in_progress-IsReadable o id from now h fits = ground (arith)

new_id :
    {W : Type 0} (minted id : TransferId) (p : Result (Unit {0}) CoreError × W) (w' : W)
    → ◌≡◌ {A = Result TransferId CoreError × W} (p.0 >> ok minted, p.1) (ok id, w')
    → (minted ≡ id) × (p ≡ (ok tt, w'))
new_id minted id (ok u, w) w' e = let same : w ≡ w' = cc (e) in (cc (e), ap (λ x. (ok tt, x)) same)
new_id minted id (err why, w) w' e = cc (e)

module _ {W : Type 0} (b : Backend History W) where
  reused :
      (o : Offer) (minted : TransferId) (from : Text) (now : ℕ) (w : W) (h : History)
      (r : HistoryRecord)
      → b.load w ≡ ok h
      → find (continues o.sha256 o.name) h.records ≡ some r
      → record_started b o minted from now w ≡ (ok r.id, w)
  unfolding record_started log_list
  reused o minted from now w h r there found = rw (record_started, there, found) refl

  -- The three ways through `record_started`.
  started-cases :
      (o : Offer) (minted id : TransferId) (from : Text) (now : ℕ) (w w' : W)
      → record_started b o minted from now w ≡ (ok id, w')
      → (h : History) × (b.load w ≡ ok h)
        × (((r : HistoryRecord) × (find (continues o.sha256 o.name) h.records ≡ some r)
              × (r.id ≡ id)
              × (w ≡ w'))
            ⊎ ((find (continues o.sha256 o.name) h.records ≡ none)
                × (minted ≡ id)
                × (log_in_progress b w minted o.name o.size o.sha256 o.md5 from now ≡ (ok tt, w'))))
  unfolding record_started log_list
  started-cases o minted id from now w w' e = elim (Result-cases (b.load w)) [
    | inr (why, there) ↦ cc (rw (record_started, there) at e)
    | inl (h, there) ↦ elim (Option-cases (find (continues o.sha256 o.name) h.records)) [
      | inr (r, found) ↦
          let both : ◌≡◌ {A = Result TransferId CoreError × W} (ok r.id, w) (ok id, w') =
            sym (reused o minted from now w h r there found) ∙ e in
          (h, there, inl (r, found, cc (both), cc (both)))
      | inl none_yet ↦
          let (same, logged) =
            new_id minted id (log_in_progress b w minted o.name o.size o.sha256 o.md5 from now) w'
              (rw (record_started, there, none_yet) at e) in
          (h, there, inr (none_yet, same, logged))
    ]
  ]

  -- Afterwards the record is the first that continues the transfer.
  recorded :
      (law : IsFaithful IsReadable b) (o : Offer) (minted id : TransferId) (from : Text) (now : ℕ)
      (w w' : W) (h' : History)
      → record_started b o minted from now w ≡ (ok id, w')
      → b.load w' ≡ ok h'
      → (r : HistoryRecord) × (find (continues o.sha256 o.name) h'.records ≡ some r) × (r.id ≡ id)
  unfolding log_in_progress
  recorded law o minted id from now w w' h' e there' =
      let (h, there, how) = started-cases o minted id from now w w' e in
      elim how [
        | inl (r, found, same, unchanged) ↦
            let old : h ≡ h' = cc (there, there', unchanged) in
            (
              r,
              ap (λ (x : History). find (continues o.sha256 o.name) x.records) (sym old) ∙ found,
              same,
            )
        | inr (none_yet, same, logged) ↦
            elim (transact-Commits law
              (λ x. record_in_progress x minted o.name o.size o.sha256 o.md5 from now)
              (record_in_progress-IsReadable o minted from now) w) [
                | inr (why, bad, _) ↦ cc (bad, logged)
                | inl (s, u, before, good, _, after) ↦
                    let start : h ≡ s = cc (before, load-ok law w h there) in
                    let new : h'
                        ≡ (record_in_progress s minted o.name o.size o.sha256 o.md5 from now).1 =
                      cc (after, logged, load-ok law w' h' there') in
                    let (r, found, r_id) =
                      find-record_in_progress s o minted from now u
                        (ap (λ (x : History). find (continues o.sha256 o.name) x.records)
                            (sym start)
                          ∙ none_yet)
                        good in
                    (
                      r,
                      ap (λ (x : History). find (continues o.sha256 o.name) x.records) new ∙ found,
                      r_id ∙ same,
                    )
              ]
      ]

  -- Over a faithful store, once a transfer was recorded as started, a second start for the same content
  -- and name continues that record and writes nothing, whatever it would mint, if the log can be read.
  pub record_started_again :
      (law : IsFaithful IsReadable b) (o o' : Offer) (minted minted' id : TransferId)
      (from from' : Text) (now now' : ℕ) (w w' : W) (h' : History)
      → record_started b o minted from now w ≡ (ok id, w')
      → b.load w' ≡ ok h'
      → o'.sha256 ≡ o.sha256
      → o'.name ≡ o.name
      → record_started b o' minted' from' now' w' ≡ (ok id, w')
  record_started_again law o o' minted minted' id from from' now now' w w' h' e there' sha
        same_name =
      let (r, found, same) = recorded law o minted id from now w w' h' e there' in
      let again : find (continues o'.sha256 o'.name) h'.records ≡ some r =
        rw (sha, same_name) found in
      reused o' minted' from' now' w' h' r there' again ∙ ap (λ (x : TransferId). (ok x, w')) same
