-- ===== src/Cli/Totals.antt =====
-- The totals that `recv` shows before it asks.
use mathlib.Core.List.{Memᴰ}
use mathlib.Core.List.Memᴰ
use mathlib.Core.List.Memᴰ.{head, tail}
use mascara.Common.{
  true, not, any, ◌&&◌, ◌==◌, list_eq, nat_eq, eq_iff, false, ℕ, ◌+◌, ◌≡◌, ◌↔◌, ◌≤◌, ◌<◌, refl, ap,
  ◌∙◌, Bool, some, List, [], ◌∷◌, map, arith, filter, Option-cases, Bool-cases, inl, inr,
}
use mascara.Common.Text.{Text}
use mascara.Core.Manifest.{ManifestEntry}
use mascara.Core.History.{HistoryRecord, is_resumable}
use mascara.Cli.{checked_add, total_from, checked_total, u64_limit, to_pull, is_held, is_completed}

checked_add-fits : (limit a b : ℕ) → a + b < limit → checked_add limit a b ≡ some (a + b)
unfolding checked_add
checked_add-fits limit a b fits = ground (arith)

checked_add-sum : (limit a b c : ℕ) → checked_add limit a b ≡ some c → (a + b ≡ c) × (c < limit)
unfolding checked_add
checked_add-sum limit a b c h = (ground (arith), ground (arith))

total_from-filter :
    {A : Type 0} (limit : ℕ) (size : A → ℕ) (q : A → Bool) (xs : List A) (t s n : ℕ)
    → s ≤ t
    → total_from limit t (map size xs) ≡ some n
    → (m : ℕ) × (total_from limit s (map size (filter q xs)) ≡ some m) × (m ≤ n)
unfolding total_from
total_from-filter limit size q [] t s n le h =
    let same : t ≡ n = cc (h) in (s, refl, omega (arith, same))
total_from-filter limit size q (x ∷ xs) t s n le h =
    elim (Option-cases (checked_add limit t (size x))) [
      | inl e ↦ cc (rw (total_from, e) at h)
      | inr (c, e) ↦
          let (sum, fits) = checked_add-sum limit t (size x) c e in
          let h1 : total_from limit c (map size xs) ≡ some n = rw (total_from, e) at h in
          let less : checked_add limit s (size x) ≡ some (s + size x) =
            checked_add-fits limit s (size x) (omega (arith)) in
          elim (Bool-cases (q x)) [
            | inl y ↦
                rw (total_from, y, less)
                  (total_from-filter limit size q xs c (s + size x) n (omega (arith)) h1)
            | inr f ↦ rw (f) (total_from-filter limit size q xs c s n (omega (arith)) h1)
          ]
    ]

Mem-filter :
    {A : Type 0} (q : A → Bool) (xs : List A) (a : A)
    → Memᴰ a (filter q xs) ↔ (Memᴰ a xs × (q a ≡ true))
Mem-filter q [] a = ((λ m. absurd (Memᴰ.not-nil m)), λ (m, _). absurd (Memᴰ.not-nil m))
Mem-filter q (x ∷ xs) a = elim (Bool-cases (q x)) [
  | inr f ↦ rw (f) (
    (λ m. let (there, it) = (Mem-filter q xs a).0 m in (tail there, it)),
    λ (m, it). elim (Memᴰ.cases_cons m) [
      | inl e ↦ cc (f, it, ap q e)
      | inr there ↦ (Mem-filter q xs a).1 (there, it)
    ],
  )
  | inl t ↦ rw (t) (
    (λ m. elim (Memᴰ.cases_cons m) [
      | inl e ↦ (head e, ap q e ∙ t)
      | inr there ↦ let (m', it) = (Mem-filter q xs a).0 there in (tail m', it)
    ]),
    λ (m, it). elim (Memᴰ.cases_cons m) [
      | inl e ↦ head e
      | inr there ↦ tail ((Mem-filter q xs a).1 (there, it))
    ],
  )
]

any_iff :
    {A : Type 0} (p : A → Bool) (xs : List A)
    → (any p xs ≡ true) ↔ ((a : A) × Memᴰ a xs × (p a ≡ true))
any_iff p [] = ((λ h. cc (h)), λ (a, m, _). absurd (Memᴰ.not-nil m))
any_iff p (x ∷ xs) = elim (Bool-cases (p x)) [
  | inl t ↦ rw (t) ((λ _. (x, head refl, t)), λ _. refl)
  | inr f ↦ rw (f) (
    (λ h. let (a, m, it) = (any_iff p xs).0 h in (a, tail m, it)),
    λ (a, m, it). elim (Memᴰ.cases_cons m) [
      | inl e ↦ cc (f, it, ap p e)
      | inr there ↦ (any_iff p xs).1 (a, there, it)
    ],
  )
]

-- A completed transfer has the entry's hash, and the entry's file is where a pull would put it.
abbrev pub IsHeld : List HistoryRecord → (Text → Bool) → ManifestEntry → Type 0
IsHeld records is_file e =
    (is_file e.rel_path ≡ true)
    × (r : HistoryRecord) × Memᴰ r records
    × (is_resumable r.state ≡ false)
    × (r.sha256 ≡ e.sha256)

both_true : (a b : Bool) → ((a && b) ≡ true) ↔ ((a ≡ true) × (b ≡ true))
both_true a b = ground arith

holds_iff :
    (r : HistoryRecord) (e : ManifestEntry)
    → ((is_completed r.state && r.sha256 == e.sha256) ≡ true)
      ↔ ((is_resumable r.state ≡ false) × (r.sha256 ≡ e.sha256))
unfolding is_completed
holds_iff r e = ground (arith, eq_iff r.sha256 e.sha256)

is_held_iff :
    (records : List HistoryRecord) (is_file : Text → Bool) (e : ManifestEntry)
    → (is_held records is_file e ≡ true) ↔ IsHeld records is_file e
unfolding is_held
is_held_iff records is_file e =
    let p : HistoryRecord → Bool = λ r. is_completed r.state && r.sha256 == e.sha256 in
    let split : (is_held records is_file e ≡ true)
        ↔ ((any p records ≡ true) × (is_file e.rel_path ≡ true)) =
      both_true (any p records) (is_file e.rel_path) in
    (
      (λ h.
          let (some_holds, there) = split.0 h in
          let (r, m, it) = (any_iff p records).0 some_holds in
          let (over, same) = (holds_iff r e).0 it in (there, r, m, over, same)),
      λ (there, r, m, over, same).
          split.1 ((any_iff p records).1 (r, m, (holds_iff r e).1 (over, same)), there),
    )

-- If the declared sizes of a folder have a total, then an entry is left to pull exactly when it is one
-- of the folder's that is not held; and the sizes of those have a total, which is no larger: the
-- second check of `recv` does not refuse.
pub to_pull-fits :
    (records : List HistoryRecord) (is_file : Text → Bool) (entries : List ManifestEntry) (n : ℕ)
    → checked_total (map (λ (e : ManifestEntry). e.size) entries) ≡ some n
    → ((e : ManifestEntry)
        → Memᴰ e (to_pull records is_file entries) ↔ (Memᴰ e entries × ¬ IsHeld records is_file e))
      × (m : ℕ) × (checked_total
            (map (λ (e : ManifestEntry). e.size) (to_pull records is_file entries))
          ≡ some m)
      × (m ≤ n)
unfolding checked_total to_pull
to_pull-fits records is_file entries n h =
    let (m, fits, le) =
      total_from-filter u64_limit (λ (e : ManifestEntry). e.size) _ entries 0 0 n (omega (arith))
        h in
    (
      (λ e.
          let (out, back) = Mem-filter (λ x. not (is_held records is_file x)) entries e in
          let held = is_held_iff records is_file e in
          (
            (λ m. let (there, it) = out m in (there, λ k. cc (it, held.1 k))),
            λ (m, free). elim (Bool-cases (is_held records is_file e)) [
              | inl t ↦ absurd (free (held.0 t))
              | inr f ↦ back (m, rw (f) refl)
            ],
          )),
      m,
      fits,
      le,
    )

abbrev pub sum : List ℕ → ℕ
sum [] = 0
sum (x ∷ xs) = x + sum xs

total_from-sum :
    (limit : ℕ) (sizes : List ℕ) (t n : ℕ)
    → t < limit
    → total_from limit t sizes ≡ some n
    → (t + sum sizes ≡ n) × (n < limit)
unfolding total_from
total_from-sum limit [] t n below h =
    let same : t ≡ n = cc (h) in (omega (arith, same), omega (arith, same))
total_from-sum limit (x ∷ sizes) t n below h = elim (Option-cases (checked_add limit t x)) [
  | inl e ↦ cc (rw (total_from, e) at h)
  | inr (c, e) ↦
      let (step, fits) = checked_add-sum limit t x c e in
      let (rest, small) = total_from-sum limit sizes c n fits (rw (total_from, e) at h) in
      (omega (arith, step, rest), small)
]

sum-total_from :
    (limit : ℕ) (sizes : List ℕ) (t : ℕ)
    → t + sum sizes < limit
    → total_from limit t sizes ≡ some (t + sum sizes)
unfolding total_from
sum-total_from limit [] t below = ap some (omega (arith))
sum-total_from limit (x ∷ sizes) t below =
    let step : checked_add limit t x ≡ some (t + x) = checked_add-fits limit t x (omega (arith)) in
    let same : t + x + sum sizes ≡ t + (x + sum sizes) = omega (arith) in
    rw (total_from, step) (sum-total_from limit sizes (t + x) (omega (arith)) ∙ ap some same)

-- A total is shown exactly when the sum of the declared sizes is below 2 ^ 64, and it is that sum.
pub checked_total_iff :
    (sizes : List ℕ) (n : ℕ) → (checked_total sizes ≡ some n) ↔ ((sum sizes ≡ n) × (n < u64_limit))
unfolding checked_total
checked_total_iff sizes n = (
  (λ h.
      let (same, fits) = total_from-sum u64_limit sizes 0 n (omega (arith)) h in
      (omega (arith, same), fits)),
  λ (same, fits).
      let small : 0 + sum sizes < u64_limit = omega (arith, same, fits) in
      let equal : 0 + sum sizes ≡ n = omega (arith, same) in
      sum-total_from u64_limit sizes 0 small ∙ ap some equal,
)
