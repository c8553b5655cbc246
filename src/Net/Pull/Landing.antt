-- ===== src/Net/Pull/Landing.antt =====
-- A pull of engine.rs that succeeds: what it leaves in the directory.
use mascara.Common.{
  then_branch, else_branch, ℕ, ◌-◌, ◌≤◌, ◌≡◌, ◌≢◌, ap, sym, ◌∙◌, none, some, ◌++◌, ok, list_eq,
  nat_eq, length, length-append, Bool-cases, Result-cases, inl, inr, arith,
}
use mascara.Common.Text.{Text, Bytes, codes}
use mascara.Core.Ticket.{FileRef}
use mascara.Core.Registry.{Nonce}
use mascara.Net.PathGuard.{safe_filename}
use mascara.Net.Listener.Serve.{Request, file_op}
use mascara.Net.Pull.{
  Dir, set, Local, Incoming, compute_partial_state, resume_point, receive_into_part, streamed,
  pull_named, pull_file, pull_file_inner,
}
use mascara.Net.Response.{read_response}
use mascara.Net.Pull.Steps.{
  receive_into_part-ok, set_ne, set_self, compute_partial_state_ne, opened_is_hashed,
  resume_point-IsResumed, response-ok, settle-ok,
}

-- The directory after the rename, by what it was before the pull.
assembled :
    (d d1 : Dir) (part final : Text) (whole : Bytes) (d' : Dir)
    → ((m : Text) → m ≢ part → d1 m ≡ d m)
    → set part (some whole) d1 final ≡ none
    → d' ≡ set part none (set final (some whole) (set part (some whole) d1))
    → (d' final ≡ some whole)
      × (d final ≡ none)
      × (d' part ≡ none)
      × ((m : Text) → m ≢ final → m ≢ part → d' m ≡ d m)
assembled d d1 part final whole d' kept free e =
    let other : final ≢ part = λ p. cc (set_self part (some whole) d1, free, p) in
    (
      rw (e, set_ne part final none (set final (some whole) (set part (some whole) d1)) other)
          (set_self final (some whole) (set part (some whole) d1)),
      sym (kept final other) ∙ sym (set_ne part final (some whole) d1 other) ∙ free,
      rw e (set_self part none (set final (some whole) (set part (some whole) d1))),
      λ m not_final not_part.
          ap (λ (x : Dir). x m) e
          ∙ set_ne part m none (set final (some whole) (set part (some whole) d1)) not_part
          ∙ set_ne final m (some whole) (set part (some whole) d1) not_final
          ∙ set_ne part m (some whole) d1 not_part
          ∙ kept m not_part,
    )

module _ (digest : Bytes → Bytes) (decimal : ℕ → Text) (fuel : ℕ) (lossy : Bytes → Text) where
  -- What a pull leaves that ended well.
  abbrev pub IsLanded : Dir → FileRef → Text → Text → Dir → Type 0
  IsLanded d file_ref name final d' =
      (whole : Bytes) × (d' final ≡ some whole)
      × (length whole ≡ file_ref.size)
      × (digest whole ≡ file_ref.sha256)
      × (d final ≡ none)
      × (d' (name ++ codes ".part") ≡ none)
      × ((m : Text) → m ≢ final → m ≢ name ++ codes ".part" → d' m ≡ d m)

  streamed-ok :
      (env : Local) (peer : Request → Incoming) (nonce : Nonce) (wire_path : Text)
      (file_ref : FileRef) (d : Dir) (part name : Text) (point : ℕ × Bytes) (final : Text)
      (d' : Dir)
      → streamed digest decimal fuel lossy env peer nonce wire_path file_ref d part name point
        ≡ some (ok final, d')
      → (incoming : Incoming) × (point.0 ≤ file_ref.size)
        × (receive_into_part digest decimal fuel env incoming d part name file_ref.sha256 point.0
              (file_ref.size - point.0)
              point.1
            ≡ some (ok final, d'))
  unfolding streamed
  streamed-ok env peer nonce wire_path file_ref d part name point final d' h =
      let incoming : Incoming =
        peer (record { v = 1; nonce = nonce; op = file_op wire_path point.0 }) in
      elim (Result-cases (read_response lossy incoming.head file_ref.size point.0)) [
        | inr (e, bad) ↦ cc (rw (streamed, bad) at h)
        | inl (remaining, good) ↦
            let (le, count) =
              response-ok lossy incoming.head file_ref.size point.0 remaining good in
            (incoming, le, rw (sym count) (rw (streamed, good) at h))
      ]

  named-IsLanded :
      (env : Local) (peer : Request → Incoming) (nonce : Nonce) (wire_path : Text)
      (file_ref : FileRef) (d : Dir) (name final : Text) (d' : Dir)
      → pull_named digest decimal fuel lossy env peer nonce wire_path file_ref 0 d name
        ≡ some (ok final, d')
      → IsLanded d file_ref name final d'
  unfolding pull_named
  named-IsLanded env peer nonce wire_path file_ref d name final d' h =
      let part : Text = name ++ codes ".part" in
      let d1 : Dir = (compute_partial_state env d part file_ref.size).1 in
      let point : ℕ × Bytes =
        resume_point 0 file_ref.size (compute_partial_state env d part file_ref.size).0 in
      let (len, held) = resume_point-IsResumed env d part file_ref.size in
      let sent =
        settle-ok env.can_remove_failed part
          (streamed digest decimal fuel lossy env peer nonce wire_path file_ref d1 part name point)
          final d' h in
      let (incoming, le, received) =
        streamed-ok env peer nonce wire_path file_ref d1 part name point final d' sent in
      let (base, got, opened, count, hashed, (free, moved)) =
        receive_into_part-ok digest decimal fuel env incoming d1 part name file_ref.sha256 point.0
          (file_ref.size - point.0) point.1 final d' received in
      let same : base ≡ point.1 = opened_is_hashed env d1 part point base len held opened in
      let (placed, was_free, part_gone, kept) =
        assembled d d1 part final (base ++ got) d'
          (compute_partial_state_ne env d part file_ref.size) free moved in
      (
        base ++ got,
        placed,
        length-append base got ∙ rw same (omega (arith, len, count, le)),
        rw same hashed,
        was_free,
        part_gone,
        kept,
      )

  pub inner-IsLanded :
      (env : Local) (peer : Request → Incoming) (nonce : Nonce) (wire_path : Text)
      (file_ref : FileRef) (d : Dir) (final : Text) (d' : Dir)
      → pull_file_inner digest decimal fuel lossy env peer nonce wire_path file_ref 0 d
        ≡ some (ok final, d')
      → (name : Text) × (safe_filename file_ref.name ≡ ok name) × IsLanded d file_ref name final d'
  unfolding pull_file_inner
  inner-IsLanded env peer nonce wire_path file_ref d final d' h =
      elim (Result-cases (safe_filename file_ref.name)) [
        | inr (e, bad) ↦ cc (rw (pull_file_inner, bad) at h)
        | inl (name, good) ↦
            let h' = rw (pull_file_inner, good) at h in
            elim (Bool-cases env.can_create_dir) [
              | inr n ↦ cc (else_branch env.can_create_dir _ _ n h')
              | inl y ↦ (
                name,
                good,
                named-IsLanded env peer nonce wire_path file_ref d name final d'
                    (then_branch env.can_create_dir _ _ y h'),
              )
            ]
      ]

  -- A pull that succeeds, where the caller asks for no offset, from nothing or from the partial file of
  -- an earlier one, leaves under a name that was free a file of the ticket's size that hashes to the
  -- ticket's commitment; the partial file is gone and every other file is as it was. The name on the
  -- ticket was accepted by the guard.
  pub pull_file-IsLanded :
      (env : Local) (peer : Request → Incoming) (nonce : Nonce) (file_ref : FileRef) (d : Dir)
      (final : Text) (d' : Dir)
      → pull_file digest decimal fuel lossy env peer nonce file_ref 0 d ≡ some (ok final, d')
      → (name : Text) × (safe_filename file_ref.name ≡ ok name) × IsLanded d file_ref name final d'
  unfolding pull_file
  pull_file-IsLanded env peer nonce file_ref d final d' h =
      inner-IsLanded env peer nonce file_ref.name file_ref d final d' h
