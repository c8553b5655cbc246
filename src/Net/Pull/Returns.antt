-- ===== src/Net/Pull/Returns.antt =====
-- A pull of engine.rs always returns: the loop that reads the body ends, and so does the search for a
-- free name.
use mathlib.Core.Option
use mascara.Common.{
  ℕ, suc, ◌<◌, ◌≡◌, ◌≢◌, refl, ap, sym, ◌∙◌, Bool, true, false, not, Option, none, some, List, ◌∷◌,
  ◌++◌, Result, ok, err, arith, ltb, if◌then◌else◌, ◌==◌, list_eq, nat_eq, length, Bool-cases,
  Result-cases, inl, inr, ne_of_eq_false,
}
use mascara.Common.Text.{Text, Bytes, codes}
use mascara.Core.Ticket.{FileRef}
use mascara.Core.Registry.{Nonce}
use mascara.Net.Error.{NetError}
use mascara.Net.PathGuard.{safe_filename}
use mascara.Net.Listener.Serve.{Request, file_op}
use mascara.Net.Pull.{
  Dir, set, Local, Incoming, PartialState, absent, compute_partial_state, unique_destination,
  settle, resume_point, open_part, place, finish, receive_into_part, streamed, pull_named,
  pull_file, pull_file_inner, after_loop,
}
use mascara.Net.Response.{read_response}
use mascara.Net.Pull.Loop.{receive_loop-some}
use mascara.Net.Pull.Steps.{set_ne}
use mascara.Common.{any}
use mascara.Net.Pull.Outcomes.{found_ne}
use mascara.Net.Pull.Search.{unique_destination-some}

abbrev pub Answer : Type 0
Answer = Option (Result Text NetError × Dir)

-- The fuel was enough.
abbrev pub Returns : Answer → Type 0
Returns x = (r : Result Text NetError × Dir) × (x ≡ some r)

branch-Returns : (b : Bool) (x y : Answer) → Returns x → Returns y → Returns (if b then x else y)
branch-Returns true x y a b = a
branch-Returns false x y a b = b

now : (r : Result Text NetError × Dir) → Returns (some r)
now r = (r, refl)

module _ (digest : Bytes → Bytes) (decimal : ℕ → Text) (fuel : ℕ) where
  abbrev pub HasFree : Dir → Text → Type 0
  HasFree d name = (f : Text) × (unique_destination decimal fuel d name ≡ some f)

  place-Returns :
      (env : Local) (d : Dir) (part name : Text) (whole : Bytes)
      → HasFree d name
      → Returns (place digest decimal fuel env d part name whole)
  unfolding place
  place-Returns env d part name whole (final, f) =
      rw (place, f) (branch-Returns env.can_place _ _ (now _) (now _))

  finish-Returns :
      (env : Local) (d : Dir) (part name : Text) (whole hashed sha256 : Bytes)
      → HasFree d name
      → Returns (finish digest decimal fuel env d part name whole hashed sha256)
  unfolding finish
  finish-Returns env d part name whole hashed sha256 free =
      branch-Returns (not env.can_flush) _ _ (now _) (
        branch-Returns (not (digest hashed == sha256)) _ _ (now _)
          (place-Returns env d part name whole free))

  after_loop-Returns :
      (env : Local) (d : Dir) (part name : Text) (sha256 base prehash : Bytes)
      (r : Result (Unit {0}) NetError × Bytes)
      → ((whole : Bytes) → HasFree (set part (some whole) d) name)
      → Returns (after_loop digest decimal fuel env d part name sha256 base prehash r)
  unfolding after_loop
  after_loop-Returns env d part name sha256 base prehash (err e, got) free = now _
  after_loop-Returns env d part name sha256 base prehash (ok _, got) free =
      finish-Returns env (set part (some (base ++ got)) d) part name (base ++ got) (prehash ++ got)
        sha256 (free (base ++ got))

  receive_into_part-Returns :
      (env : Local) (peer : Incoming) (d : Dir) (part name : Text) (sha256 : Bytes)
      (offset remaining : ℕ) (prehash : Bytes)
      → ((whole : Bytes) → HasFree (set part (some whole) d) name)
      → Returns (
          receive_into_part digest decimal fuel env peer d part name sha256 offset remaining
            prehash)
  unfolding receive_into_part
  receive_into_part-Returns env peer d part name sha256 offset remaining prehash free =
      elim (Result-cases (open_part env d part offset)) [
        | inr (e, bad) ↦ rw (receive_into_part, bad) (now _)
        | inl (base, opened) ↦
            let (r, read) =
              receive_loop-some remaining remaining peer.reads peer.broken env.writes
                (omega (arith)) in
            rw (receive_into_part, opened, read)
              (after_loop-Returns env d part name sha256 base prehash r free)
      ]

  module _ (lossy : Bytes → Text) where
    streamed-Returns :
        (env : Local) (peer : Request → Incoming) (nonce : Nonce) (wire_path : Text)
        (file_ref : FileRef) (d : Dir) (part name : Text) (point : ℕ × Bytes)
        → ((whole : Bytes) → HasFree (set part (some whole) d) name)
        → Returns
            (streamed digest decimal fuel lossy env peer nonce wire_path file_ref d part name point)
    unfolding streamed
    streamed-Returns env peer nonce wire_path file_ref d part name point free =
        let incoming : Incoming =
          peer (record { v = 1; nonce = nonce; op = file_op wire_path point.0 }) in
        elim (Result-cases (read_response lossy incoming.head file_ref.size point.0)) [
          | inr (e, bad) ↦ rw (streamed, bad) (now _)
          | inl (remaining, good) ↦
              rw (streamed, good)
                (receive_into_part-Returns env incoming d part name file_ref.sha256 point.0
                  remaining point.1 free)
        ]

settled-Returns :
    (can_remove : Bool) (part : Text) (x : Answer)
    → Returns x
    → Returns (Option.map (settle can_remove part) x)
settled-Returns can_remove part x (r, e) =
    (settle can_remove part r, ap (Option.map (settle can_remove part)) e)

module _ (digest : Bytes → Bytes) (decimal : ℕ → Text) (fuel : ℕ) (lossy : Bytes → Text) where
  named-Returns :
      (env : Local) (peer : Request → Incoming) (nonce : Nonce) (wire_path : Text)
      (file_ref : FileRef) (requested : ℕ) (d : Dir) (names : List Text) (name : Text)
      → ((i j : ℕ) → decimal i ≡ decimal j → i ≡ j)
      → ((m : Text) → any (λ n. n == m) names ≡ false → d m ≡ none)
      → suc (length names) < fuel
      → Returns
          (pull_named digest decimal fuel lossy env peer nonce wire_path file_ref requested d name)
  unfolding pull_named
  named-Returns env peer nonce wire_path file_ref requested d names name injective listed enough =
      let part : Text = name ++ codes ".part" in
      let found : PartialState × Dir =
        if ltb 0 requested then (absent, d) else compute_partial_state env d part file_ref.size in
      let still : (whole : Bytes) (m : Text)
          → any (λ n. n == m) (part ∷ names) ≡ false
          → set part (some whole) found.1 m ≡ none =
        λ whole m out. elim (Bool-cases (part == m)) [
          | inl t ↦ cc (rw t at out)
          | inr f ↦
              let other : m ≢ part = λ p. ne_of_eq_false part m f (sym p) in
              set_ne part m (some whole) found.1 other
              ∙ found_ne env d part file_ref.size requested m other
              ∙ listed m (rw f at out)
        ] in
      settled-Returns env.can_remove_failed part _ (
        streamed-Returns digest decimal fuel lossy env peer nonce wire_path file_ref found.1 part
          name (resume_point requested file_ref.size found.0)
          (λ whole.
            unique_destination-some decimal fuel (set part (some whole) found.1) (part ∷ names) name
              injective (still whole) enough))

  pub inner-Returns :
      (env : Local) (peer : Request → Incoming) (nonce : Nonce) (wire_path : Text)
      (file_ref : FileRef) (requested : ℕ) (d : Dir) (names : List Text)
      → ((i j : ℕ) → decimal i ≡ decimal j → i ≡ j)
      → ((m : Text) → any (λ n. n == m) names ≡ false → d m ≡ none)
      → suc (length names) < fuel
      → Returns
          (pull_file_inner digest decimal fuel lossy env peer nonce wire_path file_ref requested d)
  unfolding pull_file_inner
  inner-Returns env peer nonce wire_path file_ref requested d names injective listed enough =
      elim (Result-cases (safe_filename file_ref.name)) [
        | inr (e, bad) ↦ rw (pull_file_inner, bad) (now _)
        | inl (name, good) ↦
            rw (pull_file_inner, good)
              (branch-Returns env.can_create_dir _ _
                (named-Returns env peer nonce wire_path file_ref requested d names name injective
                  listed enough)
                (now _))
      ]

  -- If every call returns, a pull does, whatever the peer sends and however often it then ends the
  -- stream, and whatever fails locally: the turns of its loop are at most the bytes awaited. The
  -- numbers tried for a free name are more than one plus the names in a list that has every file's
  -- name, and different numbers are written differently.
  pub pull_file-Returns :
      (env : Local) (peer : Request → Incoming) (nonce : Nonce) (file_ref : FileRef) (requested : ℕ)
      (d : Dir) (names : List Text)
      → ((i j : ℕ) → decimal i ≡ decimal j → i ≡ j)
      → ((m : Text) → any (λ n. n == m) names ≡ false → d m ≡ none)
      → suc (length names) < fuel
      → Returns (pull_file digest decimal fuel lossy env peer nonce file_ref requested d)
  unfolding pull_file
  pull_file-Returns env peer nonce file_ref requested d names injective listed enough =
      inner-Returns env peer nonce file_ref.name file_ref requested d names injective listed enough
