-- ===== src/Net/Pull/Steps.antt =====
-- The steps of a pull of engine.rs, each when it succeeds.
use mathlib.Core.Option
use mascara.Common.{
  ℕ, suc, zero, ◌-◌, ◌≤◌, ◌≡◌, ◌≢◌, refl, sym, ◌∙◌, Bool, true, false, ◌||◌, Option, none, some, [],
  ◌∷◌, ◌++◌, Result, ok, err, ltb, eqb, ◌==◌, list_eq, nat_eq, length, Bool-cases, Option-cases,
  Result-cases, inl, inr, arith, eq_iff, eq_refl, eqb_iff, eq_false,
}
use mascara.Common.Text.{Text, Bytes}
use mascara.Net.Error.{NetError}
use mascara.Net.Pull.{
  Dir, set, Local, Incoming, compute_partial_state, receive_loop, numbered, first_free,
  unique_destination, settle, resume_point, open_part, place, finish, receive_into_part, after_loop,
  remove_file, classify,
}
use mascara.Net.Pull.Loop.{receive_loop-length}
use mascara.Net.Response.{read_response, read_u8, read_u64_le}

first_free-is_none :
    (candidate : ℕ → Text) (fuel n : ℕ) (d : Dir) (f : Text)
    → first_free candidate fuel n d ≡ some f
    → d f ≡ none
unfolding first_free
first_free-is_none candidate zero n d f h = cc
first_free-is_none candidate (suc fuel) n d f h = elim (Option-cases (d (candidate n))) [
  | inl e ↦ let same : candidate n ≡ f = cc (rw e at h) in rw (sym same) e
  | inr (b, e) ↦ first_free-is_none candidate fuel (suc n) d f (rw e at h)
]

-- The name under which a download is placed is free.
pub unique_destination-is_none :
    (decimal : ℕ → Text) (fuel : ℕ) (d : Dir) (name f : Text)
    → unique_destination decimal fuel d name ≡ some f
    → d f ≡ none
unfolding unique_destination
unique_destination-is_none decimal fuel d name f h = elim (Option-cases (d name)) [
  | inl e ↦ let same : name ≡ f = cc (rw (unique_destination, e) at h) in rw (sym same) e
  | inr (b, e) ↦
      first_free-is_none (numbered decimal name) fuel 2 d f (rw (unique_destination, e) at h)
]

module _ (digest : Bytes → Bytes) (decimal : ℕ → Text) (fuel : ℕ) where
  -- A directory in which the whole file was put under a free name, the partial file taken away.
  abbrev pub IsPlaced : Dir → Text → Bytes → Text → Dir → Type 0
  IsPlaced d part whole final d' =
      (d final ≡ none) × (d' ≡ set part none (set final (some whole) d))

  place-ok :
      (env : Local) (d : Dir) (part name : Text) (whole : Bytes) (final : Text) (d' : Dir)
      → place digest decimal fuel env d part name whole ≡ some (ok final, d')
      → IsPlaced d part whole final d'
  unfolding place
  place-ok env d part name whole final d' h =
      elim (Option-cases (unique_destination decimal fuel d name)) [
        | inl e ↦ cc (rw (place, e) at h)
        | inr (f, e) ↦ elim (Bool-cases env.can_place) [
          | inr t ↦ cc (rw (place, e, t) at h)
          | inl t ↦
              let both : ◌≡◌ {A = Option (Result Text NetError × Dir)}
                  (some (ok f, set part none (set f (some whole) d))) (some (ok final, d')) =
                rw (place, e, t) at h in
              let same : f ≡ final = cc (both) in
              let dirs : set part none (set f (some whole) d) ≡ d' = cc (both) in
              (
                rw (sym same) (unique_destination-is_none decimal fuel d name f e),
                rw (sym same) (sym dirs),
              )
        ]
      ]

  finish-ok :
      (env : Local) (d : Dir) (part name : Text) (whole hashed sha256 : Bytes) (final : Text)
      (d' : Dir)
      → finish digest decimal fuel env d part name whole hashed sha256 ≡ some (ok final, d')
      → (digest hashed ≡ sha256) × IsPlaced d part whole final d'
  unfolding finish
  finish-ok env d part name whole hashed sha256 final d' h = elim (Bool-cases env.can_flush) [
    | inr e ↦ cc (rw (finish, e) at h)
    | inl e ↦ elim (Bool-cases (digest hashed == sha256)) [
      | inr f ↦ cc (rw (finish, e, f) at h)
      | inl f ↦ (
        (eq_iff (digest hashed) sha256).0 f,
        place-ok env d part name whole final d' (rw (finish, e, f) at h),
      )
    ]
  ]

  pub receive_into_part-ok :
      (env : Local) (peer : Incoming) (d : Dir) (part name : Text) (sha256 : Bytes)
      (offset remaining : ℕ) (prehash : Bytes) (final : Text) (d' : Dir)
      → receive_into_part digest decimal fuel env peer d part name sha256 offset remaining prehash
        ≡ some (ok final, d')
      → (base : Bytes) × (got : Bytes) × (open_part env d part offset ≡ ok base)
        × (length got ≡ remaining)
        × (digest (prehash ++ got) ≡ sha256)
        × IsPlaced (set part (some (base ++ got)) d) part (base ++ got) final d'
  unfolding receive_into_part after_loop
  receive_into_part-ok env peer d part name sha256 offset remaining prehash final d' h =
      elim (Result-cases (open_part env d part offset)) [
        | inr (e, bad) ↦ cc (rw (receive_into_part, bad) at h)
        | inl (base, opened) ↦
            elim (Option-cases
              (receive_loop remaining remaining peer.reads peer.broken env.writes)) [
                | inl out ↦ cc (rw (receive_into_part, opened, out) at h)
                | inr ((err why, got), read) ↦ cc (rw (receive_into_part, opened, read) at h)
                | inr ((ok u, got), read) ↦
                    let (hashed, placed) =
                      finish-ok env (set part (some (base ++ got)) d) part name (base ++ got)
                        (prehash ++ got) sha256 final d'
                        (rw (receive_into_part, opened, read) at h) in
                    (
                      base,
                      got,
                      opened,
                      receive_loop-length remaining remaining peer.reads peer.broken env.writes u
                          got read,
                      hashed,
                      placed,
                    )
              ]
      ]

pub set_ne : (n m : Text) (b : Option Bytes) (d : Dir) → m ≢ n → set n b d m ≡ d m
unfolding set
set_ne n m b d h = rw (eq_false n m (λ p. h (sym p))) refl

pub set_self : (n : Text) (b : Option Bytes) (d : Dir) → set n b d n ≡ b
unfolding set
set_self n b d = rw (eq_refl n) refl

pub remove_file_ne :
    (can_remove : Bool) (n m : Text) (d : Dir) → m ≢ n → remove_file can_remove n d m ≡ d m
unfolding remove_file
remove_file_ne true n m d h = set_ne n m none d h
remove_file_ne false n m d h = refl

pub remove_file_self :
    (can_remove : Bool) (n : Text) (d : Dir)
    → can_remove ≡ true
    → remove_file can_remove n d n ≡ none
unfolding remove_file
remove_file_self can_remove n d h = rw h (set_self n none d)

pub compute_partial_state_ne :
    (env : Local) (d : Dir) (part : Text) (size : ℕ) (m : Text)
    → m ≢ part
    → (compute_partial_state env d part size).1 m ≡ d m
unfolding compute_partial_state
compute_partial_state_ne env d part size m h =
    ground (arith, remove_file_ne env.can_remove_useless part m d h)

nothing : (bytes : Bytes) → length bytes ≡ 0 → bytes ≡ []
nothing [] h = refl
nothing (c ∷ bytes) h = absurd (omega (arith, h))

pub opened_is_hashed :
    (env : Local) (d : Dir) (part : Text) (point : ℕ × Bytes) (base : Bytes)
    → (length point.1 ≡ point.0)
    → ((ltb 0 point.0 ≡ true) → d part ≡ some point.1)
    → open_part env d part point.0 ≡ ok base
    → base ≡ point.1
unfolding open_part
opened_is_hashed env d part point base len held h = elim (Bool-cases (ltb 0 point.0)) [
  | inr new ↦ elim (Bool-cases env.can_open) [
    | inr n ↦ cc (rw (open_part, new, n) at h)
    | inl y ↦
        let made : ◌≡◌ {A = Result Bytes NetError} (ok []) (ok base) =
          rw (open_part, new, y) at h in
        cc (made, nothing point.1 (ground (arith, len, new)))
  ]
  | inl old ↦ elim (Bool-cases env.can_open) [
    | inr n ↦ cc (rw (open_part, old, n) at h)
    | inl y ↦
        let made : ◌≡◌ {A = Result Bytes NetError} (ok point.1) (ok base) =
          rw (open_part, old, y, held old) at h in
        cc (made)
  ]
]

-- What the resume point is worth: it asks for the end of what was hashed, which is what the partial
-- file holds.
abbrev pub IsResumed : Dir → Text → ℕ × Bytes → Type 0
IsResumed d part point =
    (length point.1 ≡ point.0) × ((ltb 0 point.0 ≡ true) → d part ≡ some point.1)

pub resume_point-IsResumed :
    (env : Local) (d : Dir) (part : Text) (size : ℕ)
    → let (state, d1) = compute_partial_state env d part size in
      IsResumed d1 part (resume_point 0 size state)
unfolding compute_partial_state resume_point classify
resume_point-IsResumed env d part size = elim (Option-cases (d part)) [
  | inl e ↦ rw (compute_partial_state, e) (refl, λ t. cc)
  | inr (bytes, e) ↦ elim (Bool-cases env.can_open_part) [
    | inr n ↦ rw (compute_partial_state, e, n) (refl, λ t. cc)
    | inl o ↦ elim (Bool-cases env.can_read_part) [
      | inr n ↦ rw (compute_partial_state, e, o, n) (refl, λ t. cc)
      | inl y ↦ elim (Bool-cases (eqb (length bytes) 0 || ltb size (length bytes))) [
        | inl bad ↦ rw (compute_partial_state, e, o, y, bad) (refl, λ t. cc)
        | inr good ↦ elim (Bool-cases (eqb (length bytes) size)) [
          | inl whole ↦
              rw (compute_partial_state, e, o, y, good, whole)
                ((eqb_iff (length bytes) size).0 whole, λ t. e)
          | inr less ↦ rw (compute_partial_state, e, o, y, good, less) (refl, λ t. e)
        ]
      ]
    ]
  ]
]

pub response-ok :
    (lossy : Bytes → Text) (frame : Bytes) (size offset remaining : ℕ)
    → read_response lossy frame size offset ≡ ok remaining
    → (offset ≤ size) × (remaining ≡ size - offset)
unfolding read_response
response-ok lossy frame size offset remaining h = elim (Option-cases (read_u8 frame)) [
  | inl e ↦ cc (rw (read_response, e) at h)
  | inr (sr, e) ↦ elim (Bool-cases (eqb sr.0 0)) [
    | inr f ↦ cc (rw (read_response, e, f) at h)
    | inl f ↦ elim (Option-cases (read_u64_le sr.1)) [
      | inl g ↦ cc (rw (read_response, e, f, g) at h)
      | inr (announced, g) ↦ elim (Bool-cases (ltb size offset)) [
        | inl b ↦ cc (rw (read_response, e, f, g, b) at h)
        | inr b ↦ elim (Bool-cases (eqb announced.0 (size - offset))) [
          | inr c ↦ cc (rw (read_response, e, f, g, b, c) at h)
          | inl c ↦
              let same : ◌≡◌ {A = Result ℕ NetError} (ok announced.0) (ok remaining) =
                rw (read_response, e, f, g, b, c) at h in
              let it : announced.0 ≡ remaining = cc (same) in
              (ground (arith, b), sym it ∙ (eqb_iff announced.0 (size - offset)).0 c)
        ]
      ]
    ]
  ]
]

pub settle-ok :
    (can_remove : Bool) (part : Text) (x : Option (Result Text NetError × Dir)) (final : Text)
    (d' : Dir)
    → Option.map (settle can_remove part) x ≡ some (ok final, d')
    → x ≡ some (ok final, d')
unfolding settle
settle-ok can_remove part none final d' h = cc
settle-ok can_remove part (some (ok f, d)) final d' h = h
settle-ok can_remove part (some (err e, d)) final d' h = cc
