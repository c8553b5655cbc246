-- ===== src/Core/Keystore/Private.antt =====
-- No moment of a save in keystore.rs shows a secret in an unprotected file, or a torn key file.
use mascara.Common.{
  ℕ, suc, zero, ◌≡◌, ◌⊎◌, refl, Bool, true, Option, none, some, List, [], ◌∷◌, inl, inr, list_eq,
  nat_eq, list_beq, take,
}
use mascara.Common.Text.{Bytes}
use mascara.Core.Keystore.{
  Home, Call, perform, fail, run_all, put_file, write_steps, card_steps, save_steps, keys_file,
  keys_tmp, rename, write, protect, create,
}

-- The temporary file, by what it was before: the same, empty, protected, or away.
pub data Harmless (before : Option (Bytes × Bool)) : Option (Bytes × Bool) → Type 0 where
  same : Harmless before before
  emptied : (mode : Bool) → Harmless before (some ([], mode))
  protected : (bytes : Bytes) → Harmless before (some (bytes, true))
  gone : Harmless before none

-- The key file is as it was, or whole and protected; the temporary file is harmless.
abbrev pub IsGuarded : Bytes → Home → Home → Type 0
IsGuarded keys_json before h =
    Harmless (before keys_tmp) (h keys_tmp)
    × ((h keys_file ≡ before keys_file) ⊎ (h keys_file ≡ some (keys_json, true)))

-- A predicate holds before each call, after it failed, and at the end.
abbrev Throughout : (Home → Type 0) → List Call → Home → Type 0
Throughout P [] h = P h
Throughout P (c ∷ calls) h = P h × ((k : ℕ) → P (fail c k h)) × Throughout P calls (perform c h)

Throughout-start : (P : Home → Type 0) (calls : List Call) (h : Home) → Throughout P calls h → P h
Throughout-start P [] h t = t
Throughout-start P (c ∷ calls) h t = t.0

Throughout-run_all :
    (P : Home → Type 0) (calls : List Call) (h : Home) (k : ℕ) (weather : List (Option ℕ))
    → Throughout P calls h
    → P (run_all (take k calls) weather h).1
unfolding run_all
Throughout-run_all P calls h zero weather t = Throughout-start P calls h t
Throughout-run_all P [] h (suc k) weather t = t
Throughout-run_all P (c ∷ calls) h (suc k) (some n ∷ weather) (now, failed, rest) = failed n
Throughout-run_all P (c ∷ calls) h (suc k) (none ∷ weather) (now, failed, rest) =
    Throughout-run_all P calls (perform c h) k weather rest
Throughout-run_all P (c ∷ calls) h (suc k) [] (now, failed, rest) =
    Throughout-run_all P calls (perform c h) k [] rest

-- Writing the card touches neither file.
card_steps-IsGuarded :
    (keys_json text : Bytes) (before h : Home)
    → IsGuarded keys_json before h
    → Throughout (IsGuarded keys_json before) (card_steps text) h
unfolding card_steps write_steps perform fail put_file list_beq
card_steps-IsGuarded keys_json text before h g =
    let quiet : ℕ → IsGuarded keys_json before h = λ _. g in
    (g, quiet, (g, quiet, (g, quiet, (g, quiet, (g, quiet, g)))))

save-IsGuarded :
    (keys_json text : Bytes) (h : Home)
    → Throughout (IsGuarded keys_json h) (save_steps keys_json text) h
unfolding save_steps write_steps perform fail put_file list_beq
save-IsGuarded keys_json text h =
    let start : IsGuarded keys_json h h = (same, inl refl) in
    let renamed : Home = perform (rename keys_tmp keys_file) (
      perform (write keys_tmp keys_json)
        (perform (protect keys_tmp) (perform (create keys_tmp) h))) in
    let stored : Throughout (IsGuarded keys_json h) (card_steps text) renamed =
      card_steps-IsGuarded keys_json text h renamed (gone, inr refl) in
    (
      start,
      (λ _. start),
      (
        start,
        (λ _. start),
        (
          start,
          (λ _. start),
          (
            (emptied _, inl refl),
            (λ _. (emptied _, inl refl)),
            (
              (protected [], inl refl),
              (λ k. (protected (take k keys_json), inl refl)),
              (
                (protected keys_json, inl refl),
                (λ _. (protected keys_json, inl refl)),
                ((protected keys_json, inl refl), (λ _. (protected keys_json, inl refl)), stored),
              ),
            ),
          ),
        ),
      ),
    )

-- Whatever fails while an identity is saved, and wherever the process is stopped (after `k` calls), the
-- key file is as it was or holds all of the new secrets with mode 0600, and the temporary file is as
-- it was, empty, with mode 0600, or gone.
pub save_steps-IsGuarded :
    (keys_json text : Bytes) (h : Home) (weather : List (Option ℕ)) (k : ℕ)
    → IsGuarded keys_json h (run_all (take k (save_steps keys_json text)) weather h).1
save_steps-IsGuarded keys_json text h weather k =
    Throughout-run_all (IsGuarded keys_json h) (save_steps keys_json text) h k weather
      (save-IsGuarded keys_json text h)
