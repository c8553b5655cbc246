-- ===== src/Core/Store.antt =====
-- The storage seam of registry.rs and history.rs (`IssuedStore`, `HistoryStore`), the composition
-- load → mutate → store of `Registry` and `HistoryLog`, and the file backend of both.
pub mod Laws
pub mod File
use mascara.Common.{ℕ, ◌≡◌, Bool, ◌⊎◌, ◌≢◌, Result, ok, err}
use mascara.Core.Error.{CoreError, io, reading}

-- A backend over a world `W`: `load` reads the whole state `S`, `store` replaces it.
pub record Backend (S W : Type 0) : Type 0 where
  pub load : W → Result S CoreError
  pub store : W → S → Result (Unit {0}) CoreError × W

module _ {S W A : Type 0} (b : Backend S W) where
  unfoldable pub save : W → Result A CoreError × S → Result A CoreError × W
  save w (err e, s) = (err e, w)
  save w (ok a, s) =
      let (result, w') = b.store w s in elim result [ ok _ ↦ (ok a, w') | err e ↦ (err e, w') ]

  -- `let mut t = self.store.load()?; let a = t.change()?; self.store.store(&t)?; Ok(a)`
  unfoldable pub transact : (S → Result A CoreError × S) → W → Result A CoreError × W
  unfolding save
  transact change w = elim (b.load w) [ ok s ↦ save w (change s) | err e ↦ (err e, w) ]
