-- ===== src/Net/Pull/Outcomes.antt =====
-- A pull of engine.rs that fails: what it leaves in the directory.
use mathlib.Core.Option
use mascara.Common.{
  then_branch, else_branch, ℕ, ◌≡◌, ◌≢◌, ◌⊎◌, refl, ap, sym, ◌∙◌, Bool, true, false, Option, none,
  some, ◌++◌, Result, ok, err, ltb, if◌then◌else◌, ◌==◌, list_eq, nat_eq, Bool-cases, Option-cases,
  Result-cases, inl, inr,
}
use mascara.Common.Text.{Text, Bytes, codes}
use mascara.Core.Ticket.{FileRef}
use mascara.Core.Registry.{Nonce}
use mascara.Net.Error.{NetError, io}
use mascara.Net.PathGuard.{safe_filename}
use mascara.Net.Listener.Serve.{Request, file_op}
use mascara.Net.Pull.{
  Dir, set, Local, Incoming, PartialState, absent, compute_partial_state, receive_loop,
  unique_destination, settle, resume_point, open_part, place, finish, receive_into_part, streamed,
  pull_named, pull_file, keeps_partial, pull_file_inner, after_loop, remove_file,
}
use mascara.Net.Response.{read_response}
use mascara.Net.Pull.Steps.{set_ne, compute_partial_state_ne, remove_file_ne, remove_file_self}

-- Every file but this one is as it was.
abbrev pub IsKept : Text → Dir → Dir → Type 0
IsKept part d d' = (m : Text) → m ≢ part → d' m ≡ d m

same_pair :
    {e f : NetError} {d d' : Dir}
    → ◌≡◌ {A = Option (Result Text NetError × Dir)} (some (err e, d)) (some (err f, d'))
    → d ≡ d'
same_pair h = cc (h)

module _ (digest : Bytes → Bytes) (decimal : ℕ → Text) (fuel : ℕ) where
  place-err :
      (env : Local) (d : Dir) (part name : Text) (whole : Bytes) (e : NetError) (d' : Dir)
      → place digest decimal fuel env d part name whole ≡ some (err e, d')
      → d ≡ d'
  unfolding place
  place-err env d part name whole e d' h =
      elim (Option-cases (unique_destination decimal fuel d name)) [
        | inl f ↦ cc (rw (place, f) at h)
        | inr (final, f) ↦ elim (Bool-cases env.can_place) [
          | inl t ↦ cc (rw (place, f, t) at h)
          | inr t ↦ same_pair (rw (place, f, t) at h)
        ]
      ]

  finish-err :
      (env : Local) (d : Dir) (part name : Text) (whole hashed sha256 : Bytes) (e : NetError)
      (d' : Dir)
      → finish digest decimal fuel env d part name whole hashed sha256 ≡ some (err e, d')
      → d ≡ d'
  unfolding finish
  finish-err env d part name whole hashed sha256 e d' h = elim (Bool-cases env.can_flush) [
    | inr f ↦ same_pair (rw (finish, f) at h)
    | inl f ↦ elim (Bool-cases (digest hashed == sha256)) [
      | inr g ↦ same_pair (rw (finish, f, g) at h)
      | inl g ↦ place-err env d part name whole e d' (rw (finish, f, g) at h)
    ]
  ]

  receive_into_part-err :
      (env : Local) (peer : Incoming) (d : Dir) (part name : Text) (sha256 : Bytes)
      (offset remaining : ℕ) (prehash : Bytes) (e : NetError) (d' : Dir)
      → receive_into_part digest decimal fuel env peer d part name sha256 offset remaining prehash
        ≡ some (err e, d')
      → IsKept part d d'
  unfolding receive_into_part after_loop
  receive_into_part-err env peer d part name sha256 offset remaining prehash e d' h m other =
      elim (Result-cases (open_part env d part offset)) [
        | inr (f, bad) ↦ ap (λ (x : Dir). x m) (sym (same_pair (rw (receive_into_part, bad) at h)))
        | inl (base, opened) ↦
            elim (Option-cases
              (receive_loop remaining remaining peer.reads peer.broken env.writes)) [
                | inl out ↦ cc (rw (receive_into_part, opened, out) at h)
                | inr ((err f, got), read) ↦
                    ap (λ (x : Dir). x m)
                      (sym (same_pair (rw (receive_into_part, opened, read) at h)))
                    ∙ set_ne part m (some (base ++ got)) d other
                | inr ((ok _, got), read) ↦
                    ap (λ (x : Dir). x m)
                      (sym (
                        finish-err env (set part (some (base ++ got)) d) part name (base ++ got)
                          (prehash ++ got) sha256 e d' (rw (receive_into_part, opened, read) at h)))
                    ∙ set_ne part m (some (base ++ got)) d other
              ]
      ]

  module _ (lossy : Bytes → Text) where
    streamed-err :
        (env : Local) (peer : Request → Incoming) (nonce : Nonce) (wire_path : Text)
        (file_ref : FileRef) (d : Dir) (part name : Text) (point : ℕ × Bytes) (e : NetError)
        (d' : Dir)
        → streamed digest decimal fuel lossy env peer nonce wire_path file_ref d part name point
          ≡ some (err e, d')
        → IsKept part d d'
    unfolding streamed
    streamed-err env peer nonce wire_path file_ref d part name point e d' h m other =
        let incoming : Incoming =
          peer (record { v = 1; nonce = nonce; op = file_op wire_path point.0 }) in
        elim (Result-cases (read_response lossy incoming.head file_ref.size point.0)) [
          | inr (f, bad) ↦ ap (λ (x : Dir). x m) (sym (same_pair (rw (streamed, bad) at h)))
          | inl (remaining, good) ↦
              receive_into_part-err env incoming d part name file_ref.sha256 point.0 remaining
                point.1 e d' (rw (streamed, good) at h) m other
        ]

pub found_ne :
    (env : Local) (d : Dir) (part : Text) (size requested : ℕ)
    → IsKept part d
        (if ltb 0 requested then (absent, d) else compute_partial_state env d part size).1
found_ne env d part size requested m other = elim (Bool-cases (ltb 0 requested)) [
  | inl t ↦ rw t refl
  | inr t ↦ rw t (compute_partial_state_ne env d part size m other)
]

settled_ne :
    (can_remove : Bool) (e : NetError) (part : Text) (d : Dir)
    → IsKept part d (if keeps_partial e then d else remove_file can_remove part d)
settled_ne can_remove e part d m other = elim (Bool-cases (keeps_partial e)) [
  | inl t ↦ rw t refl
  | inr t ↦ rw t (remove_file_ne can_remove part m d other)
]

settle-err :
    (can_remove : Bool) (part : Text) (x : Option (Result Text NetError × Dir)) (e : NetError)
    (d' : Dir)
    → Option.map (settle can_remove part) x ≡ some (err e, d')
    → (d : Dir) × (x ≡ some (err e, d))
      × (d' ≡ (if keeps_partial e then d else remove_file can_remove part d))
unfolding settle
settle-err can_remove part none e d' h = cc
settle-err can_remove part (some (ok f, d)) e d' h = cc
settle-err can_remove part (some (err f, d)) e d' h =
    let same : f ≡ e = cc (h) in
    let dirs : (if keeps_partial f then d else remove_file can_remove part d) ≡ d' = cc (h) in
    (d, rw same refl, rw (sym same) (sym dirs))

module _ (digest : Bytes → Bytes) (decimal : ℕ → Text) (fuel : ℕ) (lossy : Bytes → Text) where
  named-err :
      (env : Local) (peer : Request → Incoming) (nonce : Nonce) (wire_path : Text)
      (file_ref : FileRef) (requested : ℕ) (d : Dir) (name : Text) (e : NetError) (d' : Dir)
      → pull_named digest decimal fuel lossy env peer nonce wire_path file_ref requested d name
        ≡ some (err e, d')
      → IsKept (name ++ codes ".part") d d'
        × ((keeps_partial e ≡ false)
            → env.can_remove_failed ≡ true
            → d' (name ++ codes ".part") ≡ none)
  unfolding pull_named
  named-err env peer nonce wire_path file_ref requested d name e d' h =
      let part : Text = name ++ codes ".part" in
      let found : PartialState × Dir =
        if ltb 0 requested then (absent, d) else compute_partial_state env d part file_ref.size in
      let point : ℕ × Bytes = resume_point requested file_ref.size found.0 in
      let (d2, failed, ended) =
        settle-err env.can_remove_failed part
          (streamed digest decimal fuel lossy env peer nonce wire_path file_ref found.1 part name
            point)
          e d' h in
      let streamed_ne =
        streamed-err digest decimal fuel lossy env peer nonce wire_path file_ref found.1 part name
          point e d2 failed in
      (
        (λ m other.
            ap (λ (x : Dir). x m) ended
            ∙ settled_ne env.can_remove_failed e part d2 m other
            ∙ streamed_ne m other
            ∙ found_ne env d part file_ref.size requested m other),
        λ discarded removes.
            ap (λ (x : Dir). x part) ended
            ∙ rw discarded (remove_file_self env.can_remove_failed part d2 removes),
      )

  pub inner-err :
      (env : Local) (peer : Request → Incoming) (nonce : Nonce) (wire_path : Text)
      (file_ref : FileRef) (requested : ℕ) (d : Dir) (e : NetError) (d' : Dir)
      → pull_file_inner digest decimal fuel lossy env peer nonce wire_path file_ref requested d
        ≡ some (err e, d')
      → ((d' ≡ d) × (safe_filename file_ref.name ≡ err e))
        ⊎ ((name : Text) × (safe_filename file_ref.name ≡ ok name)
            × IsKept (name ++ codes ".part") d d'
            × ((keeps_partial e ≡ false)
                → env.can_remove_failed ≡ true
                → d' (name ++ codes ".part") ≡ none))
  unfolding pull_file_inner keeps_partial
  inner-err env peer nonce wire_path file_ref requested d e d' h =
      elim (Result-cases (safe_filename file_ref.name)) [
        | inr (f, bad) ↦
            let h' = rw (pull_file_inner, bad) at h in
            let same : f ≡ e = cc (h') in inl (sym (same_pair h'), bad ∙ ap err same)
        | inl (name, good) ↦
            let h' = rw (pull_file_inner, good) at h in
            elim (Bool-cases env.can_create_dir) [
              | inr n ↦
                  let h'' = else_branch env.can_create_dir _ _ n h' in
                  let same : io ≡ e = cc (h'') in
                  inr (
                    name,
                    good,
                    (λ m _. ap (λ (x : Dir). x m) (sym (same_pair h''))),
                    λ lost _.
                        let held : keeps_partial e ≡ true = ap keeps_partial (sym same) in
                        cc (lost, held),
                  )
              | inl y ↦
                  let (kept, gone) =
                    named-err env peer nonce wire_path file_ref requested d name e d'
                      (then_branch env.can_create_dir _ _ y h') in
                  inr (name, good, kept, gone)
            ]
      ]

  -- A pull that fails changes no file but the partial one of the ticket's name, and that is gone unless
  -- the error is a lost connection or an i/o error or the removal fails; with a name that the guard refuses it changes
  -- nothing. This holds for every offset that the caller asks for.
  pub pull_file-failed :
      (env : Local) (peer : Request → Incoming) (nonce : Nonce) (file_ref : FileRef) (requested : ℕ)
      (d : Dir) (e : NetError) (d' : Dir)
      → pull_file digest decimal fuel lossy env peer nonce file_ref requested d ≡ some (err e, d')
      → ((d' ≡ d) × (safe_filename file_ref.name ≡ err e))
        ⊎ ((name : Text) × (safe_filename file_ref.name ≡ ok name)
            × IsKept (name ++ codes ".part") d d'
            × ((keeps_partial e ≡ false)
                → env.can_remove_failed ≡ true
                → d' (name ++ codes ".part") ≡ none))
  unfolding pull_file
  pull_file-failed env peer nonce file_ref requested d e d' h =
      inner-err env peer nonce file_ref.name file_ref requested d e d' h
