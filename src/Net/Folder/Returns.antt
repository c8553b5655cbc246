-- ===== src/Net/Folder/Returns.antt =====
-- A folder pull of engine.rs comes to an end.
use mathlib.Core.List.Memᴰ.{head, tail}
use mascara.Common.{
  ℕ, suc, ◌+◌, ◌*◌, ◌<◌, ◌≡◌, refl, ap, sym, subst, ◌∙◌, Bool, false, ◌||◌, Option, none, some,
  List, [], ◌∷◌, ◌++◌, Result, ok, err, ◌==◌, list_eq, nat_eq, length, any, Bool-cases,
  Option-cases, inl, inr, arith, eq_iff, ne_of_eq_false,
}
use mascara.Common.Text.{Text, Bytes}
use mascara.Core.Manifest.{Manifest, ManifestEntry}
use mascara.Core.Registry.{Nonce}
use mascara.Net.Error.{NetError}
use mascara.Net.Pull.Returns.{inner-Returns}
use mascara.Net.Folder.{Parts, Tree, Destination, Turn, pull_next, pull_entries, pull_folder}
use mascara.Net.Folder.Entries.{
  EntryLanded, home, part_name, leaf_ref, lifted, next-cases, NoLink, pull_next-EntryLanded,
}
use mascara.Net.Folder.Trace.{Done, HasNoLinks}

-- Every file in the tree has a name of the list.
abbrev pub IsNamed : List Text → Tree → Type 0
IsNamed names t = (q : Parts) (m : Text) → any (λ n. n == m) names ≡ false → t q m ≡ none

first_out : (a b : Bool) → (a || b) ≡ false → a ≡ false
first_out a b h = ground arith

second_out : (a b : Bool) → (a || b) ≡ false → b ≡ false
second_out a b h = ground arith

IsNamed-after :
    (dest : Destination) (digest : Bytes → Bytes) (names : List Text) (t : Tree)
    (entry : ManifestEntry) (path : Parts) (t' : Tree)
    (landed : EntryLanded dest digest t entry path t')
    → IsNamed names t
    → IsNamed (landed.final ∷ part_name dest entry ∷ names) t'
IsNamed-after dest digest names t entry path t' landed named q m out =
    let not_final : (landed.final == m) ≡ false = first_out _ _ out in
    let not_part : (part_name dest entry == m) ≡ false = first_out _ _ (second_out _ _ out) in
    let rest : any (λ n. n == m) names ≡ false = second_out _ _ (second_out _ _ out) in
    elim (Bool-cases (q == home dest entry)) [
      | inr f ↦
          ap (λ (d : Text → Option Bytes). d m)
            (landed.stays.elsewhere q (ne_of_eq_false q (home dest entry) f))
          ∙ named q m rest
      | inl same ↦
          let e : q ≡ home dest entry = (eq_iff q (home dest entry)).0 same in
          subst (λ k. t' k m ≡ none) (sym e)
            (landed.others m (λ p. ne_of_eq_false landed.final m not_final (sym p))
                (λ p. ne_of_eq_false (part_name dest entry) m not_part (sym p))
              ∙ named (home dest entry) m rest)
    ]

module _ (digest : Bytes → Bytes) (decimal : ℕ → Text) (fuel : ℕ) (lossy : Bytes → Text)
    (dest : Destination) (nonce : Nonce) where
  next-Returns :
      (turn : Turn) (entry : ManifestEntry) (t : Tree) (names : List Text)
      → ((i j : ℕ) → decimal i ≡ decimal j → i ≡ j)
      → IsNamed names t
      → NoLink dest entry
      → suc (length names) < fuel
      → (r : Result Parts NetError × Tree) × (pull_next digest decimal fuel lossy dest nonce turn
            entry t
          ≡ some r)
  next-Returns turn entry t names injective named plain enough =
      elim (next-cases digest decimal fuel lossy dest nonce turn entry t plain) [
        | inl (why, e) ↦ ((err why, t), e)
        | inr (peer, _, _, _, lift) ↦
            let (r, e) =
              inner-Returns digest decimal fuel lossy turn.local peer nonce entry.rel_path
                (leaf_ref digest decimal fuel lossy dest nonce entry) 0 (t (home dest entry)) names
                injective (named (home dest entry)) enough in
            (lifted digest decimal fuel lossy dest nonce entry t r, rw e at lift)
      ]

  entries-Returns :
      (turns : ℕ → Turn) (i : ℕ) (entries : List ManifestEntry) (before : Done) (t : Tree)
      (old : List Parts) (names : List Text)
      → ((i j : ℕ) → decimal i ≡ decimal j → i ≡ j)
      → IsNamed names t
      → HasNoLinks dest entries
      → suc (length names + 2 * length entries) < fuel
      → (r : Result (List Parts) NetError × Done × Tree × List Parts) × (pull_entries digest decimal
            fuel lossy dest nonce turns i entries before t old
          ≡ some r)
  unfolding pull_entries
  entries-Returns turns i [] before t old names injective named plain enough = (_, refl)
  entries-Returns turns i (entry ∷ entries) before t old names injective named plain enough =
      let (answer, answered) =
        next-Returns (turns i) entry t names injective named (plain entry (head refl))
          (omega (arith, enough)) in
      elim (Option-cases (pull_next digest decimal fuel lossy dest nonce (turns i) entry t)) [
        | inl e ↦ cc (e, answered)
        | inr ((err why, t1), e) ↦ rw (pull_entries, e) (_, refl)
        | inr ((ok path, t1), e) ↦
            let landed =
              pull_next-EntryLanded digest decimal fuel lossy dest nonce (turns i) entry t path t1
                (plain entry (head refl)) e in
            rw (pull_entries, e)
              (entries-Returns turns (suc i) entries (before ++ (entry, path) ∷ []) t1 _
                (landed.final ∷ part_name dest entry ∷ names) injective
                (IsNamed-after dest digest names t entry path t1 landed named)
                (λ x m. plain x (tail m)) (omega (arith, enough)))
      ]

  -- If every call returns and no partial file of the manifest's entries is a symbolic link, a folder pull
  -- returns, whatever the peer sends and however often it then ends a stream, and whatever fails
  -- locally. The numbers tried for a free name are more than one plus the names in a list that has
  -- every file's name plus two for each entry of the manifest, and different numbers are written
  -- differently.
  pub pull_folder-Returns :
      (turns : ℕ → Turn) (manifest : Manifest) (t : Tree) (names : List Text)
      → ((i j : ℕ) → decimal i ≡ decimal j → i ≡ j)
      → IsNamed names t
      → HasNoLinks dest manifest.entries
      → suc (length names + 2 * length manifest.entries) < fuel
      → (r : Result (List Parts) NetError × Done × Tree × List Parts) × (pull_folder digest decimal
            fuel lossy dest nonce turns manifest t
          ≡ some r)
  unfolding pull_folder
  pull_folder-Returns turns manifest t names injective named plain enough =
      entries-Returns turns 0 manifest.entries [] t [] names injective named plain enough
