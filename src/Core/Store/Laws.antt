-- ===== src/Core/Store/Laws.antt =====
-- What a faithful backend promises, and what a transaction over it then does.
use mascara.Common.{◌≡◌, refl, sym, ◌∙◌, ◌⊎◌, inl, inr, ◌≢◌, Result, ok, err, arith, Result-cases}
use mascara.Core.Error.{CoreError, io, reading}
use mascara.Core.Store.{Backend, save, transact}

-- `content` is what a read that does not fail returns: a state that fits. A `store` that succeeds
-- replaces it by a state that fits, and one that fails leaves it.
pub record IsFaithful {S W : Type 0} (Fits : S → Type 0) (b : Backend S W) : Type 0 where
  pub content : W → Result S CoreError
  pub load-content : (w : W) → (b.load w ≡ content w) ⊎ (b.load w ≡ err (io reading))
  pub content-Fits : (w : W) (s : S) → content w ≡ ok s → Fits s
  pub content-stored :
      (w : W) (s : S) → Fits s → (b.store w s).0 ≡ ok tt → content (b.store w s).1 ≡ ok s
  pub content-failed :
      (w : W) (s : S) → (b.store w s).0 ≢ ok tt → content (b.store w s).1 ≡ content w

pub load-ok :
    {S W : Type 0} {Fits : S → Type 0} {b : Backend S W} (law : IsFaithful Fits b) (w : W) (s : S)
    → b.load w ≡ ok s
    → law.content w ≡ ok s
load-ok law w s h = elim (law.load-content w) [ inl e ↦ sym e ∙ h | inr e ↦ absurd (cc) ]

pub save-ok :
    {S W A : Type 0} (b : Backend S W) (w : W) (p : Result A CoreError × S) (a : A)
    → (save b w p).0 ≡ ok a
    → (p.0 ≡ ok a) × ((b.store w p.1).0 ≡ ok tt) × ((save b w p).1 ≡ (b.store w p.1).1)
unfolding save
save-ok b w (err e, s) a h = absurd (cc)
save-ok b w (ok c, s) a h = elim (Result-cases (b.store w s).0) [
  | inl (u, e) ↦ (rw (e, save) at h, e, rw (e, save))
  | inr (x, e) ↦ absurd (ground (arith, e))
]

-- The four ways through a transaction.
module _ {S W A : Type 0} (b : Backend S W) (change : S → Result A CoreError × S) (w : W) where
  transact_unloaded : (e : CoreError) → b.load w ≡ err e → transact b change w ≡ (err e, w)
  unfolding transact
  transact_unloaded e h = rw (h, transact)

  module _ (s : S) (h : b.load w ≡ ok s) where
    transact_refused : (e : CoreError) → (change s).0 ≡ err e → transact b change w ≡ (err e, w)
    unfolding transact
    transact_refused e k = rw (h, transact) (rw (k, save))

    transact_stored :
        (a : A) (u : Unit {0})
        → (change s).0 ≡ ok a
        → (b.store w (change s).1).0 ≡ ok u
        → transact b change w ≡ (ok a, (b.store w (change s).1).1)
    unfolding transact
    transact_stored a u k e = rw (h, transact) (rw (k, save) (rw (e, save)))

    transact_unstored :
        (a : A) (x : CoreError)
        → (change s).0 ≡ ok a
        → (b.store w (change s).1).0 ≡ err x
        → transact b change w ≡ (err x, (b.store w (change s).1).1)
    unfolding transact
    transact_unstored a x k e = rw (h, transact) (rw (k, save) (rw (e, save)))

module _ {S W A : Type 0} {Fits : S → Type 0} {b : Backend S W} (law : IsFaithful Fits b)
    (change : S → Result A CoreError × S) (change-Fits : (s : S) → Fits s → Fits (change s).1) where
  -- What a transaction leaves: with a result, the changed content; with an error, the old content.
  abbrev pub Commits : W → Result A CoreError × W → Type 0
  Commits w p =
      ((s : S) × (a : A) × (law.content w ≡ ok s)
        × ((change s).0 ≡ ok a)
        × (p.0 ≡ ok a)
        × (law.content p.1 ≡ ok (change s).1))
      ⊎ ((e : CoreError) × (p.0 ≡ err e) × (law.content p.1 ≡ law.content w))

  saved :
      (w : W) (s : S) (a : A)
      → b.load w ≡ ok s
      → (change s).0 ≡ ok a
      → Commits w (transact b change w)
  saved w s a h k = elim (Result-cases (b.store w (change s).1).0) [
    | inl (u, e) ↦ rw (transact_stored b change w s h a u k e) (
        inl (
          s,
          a,
          load-ok law w s h,
          k,
          refl,
          law.content-stored w (change s).1
              (change-Fits s (law.content-Fits w s (load-ok law w s h))) e,
        ))
    | inr (x, e) ↦
        rw (transact_unstored b change w s h a x k e)
          (inr (x, refl, law.content-failed w (change s).1 (λ p. cc)))
  ]

  -- A transaction over a faithful backend commits or leaves the content as it was.
  pub transact-Commits : (w : W) → Commits w (transact b change w)
  transact-Commits w = elim (Result-cases (b.load w)) [
    | inr (e, h) ↦ rw (transact_unloaded b change w e h) (inr (e, refl, refl))
    | inl (s, h) ↦ elim (Result-cases (change s).0) [
      | inl (a, k) ↦ saved w s a h k
      | inr (e, k) ↦ rw (transact_refused b change w s h e k) (inr (e, refl, refl))
    ]
  ]
