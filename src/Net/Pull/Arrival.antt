-- ===== src/Net/Pull/Arrival.antt =====
-- The end of a pull of engine.rs when the rest of the file arrives and nothing fails.
use mathlib.Core.List.{flatten}
use mascara.Common.{
  ℕ, suc, zero, ◌-◌, min, ◌≤◌, ◌<◌, ◌≡◌, ◌≢◌, refl, ap, sym, ◌∙◌, Bool, true, false, not, none,
  some, List, [], ◌∷◌, ◌++◌, ok, ltb, eqb, ◌==◌, list_eq, nat_eq, length, length-append,
  length-take, length-drop, take, drop, take-append-drop, All, Bool-cases, inl, inr, arith, eq_iff,
  if◌then◌else◌,
}
use mascara.Common.Text.{Text, Bytes, codes}
use mascara.Net.Pull.{
  Dir, set, Local, compute_partial_state, receive_loop, unique_destination, open_part, place,
  finish, receive_into_part, chunk, next_read, after_loop, remove_file,
}
use mascara.Net.Pull.Steps.{set_ne, set_self, IsResumed}

-- A body as it arrives: no read is empty or larger than the buffer.
abbrev pub IsCut : List Bytes → Type 0
IsCut reads = All (λ piece. (0 < length piece) × (length piece ≤ chunk)) reads

take_all : (n : ℕ) (xs : Bytes) → length xs ≤ n → take n xs ≡ xs
take_all zero [] h = refl
take_all zero (x ∷ xs) h = absurd (omega (arith, h))
take_all (suc n) [] h = refl
take_all (suc n) (x ∷ xs) h = ap (λ ys. x ∷ ys) (take_all n xs (omega (arith, h)))

-- The loop takes in a body that arrives whole.
receive_loop-flatten :
    (n fuel : ℕ) (reads : List Bytes)
    → n ≤ fuel
    → IsCut reads
    → n ≡ length (flatten reads)
    → receive_loop n fuel reads false [] ≡ some (ok tt, flatten reads)
unfolding receive_loop next_read flatten
receive_loop-flatten zero fuel [] le cut e = refl
receive_loop-flatten zero fuel (p ∷ ps) le cut e =
    absurd (omega (arith, cut.0.0, length-append p (flatten ps), e))
receive_loop-flatten (suc n) zero reads le cut e = absurd (omega (arith, le))
receive_loop-flatten (suc n) (suc fuel) [] le cut e = absurd (omega (arith, e))
receive_loop-flatten (suc n) (suc fuel) (p ∷ ps) le cut e =
    let whole : take (min (suc n) chunk) p ≡ p =
      take_all (min (suc n) chunk) p (omega (arith, cut.0.1, length-append p (flatten ps), e)) in
    let filled : eqb (length p) 0 ≡ false = ground (arith, cut.0.0) in
    let rest =
      receive_loop-flatten (suc n - length p) fuel ps (omega (arith, le, cut.0.0)) cut.1
        (omega (arith, length-append p (flatten ps), e)) in
    rw (receive_loop, whole, filled, rest) refl

-- What a pull that starts at an offset holds already: the first bytes of the file.
abbrev pub IsStart : Bytes → ℕ × Bytes → Type 0
IsStart whole point = (point.0 ≤ length whole) × (point.1 ≡ take point.0 whole)

pub part_before :
    (env : Local) (d : Dir) (part : Text) (size : ℕ) (b : Bytes)
    → (compute_partial_state env d part size).1 part ≡ some b
    → d part ≡ some b
unfolding compute_partial_state remove_file
part_before env d part size b h = ground (arith, set_self part none d, d part)

take-length-take : (k : ℕ) (xs : Bytes) → take (length (take k xs)) xs ≡ take k xs
take-length-take zero xs = refl
take-length-take (suc k) [] = refl
take-length-take (suc k) (x ∷ xs) = ap (λ ys. x ∷ ys) (take-length-take k xs)

short_prefix :
    (k : ℕ) (whole b : Bytes)
    → b ≡ take k whole
    → (length b ≤ length whole) × (b ≡ take (length b) whole)
short_prefix k whole b e =
    (omega (arith, ap length e, length-take k whole), rw e (sym (take-length-take k whole)))

no_bytes : (b : Bytes) → length b ≡ 0 → b ≡ []
no_bytes [] h = refl
no_bytes (c ∷ b) h = absurd (omega (arith, h))

pub resumed-IsStart :
    (d d1 : Dir) (part : Text) (whole : Bytes) (point : ℕ × Bytes)
    → ((b : Bytes) → d1 part ≡ some b → d part ≡ some b)
    → ((b : Bytes) → d part ≡ some b → (k : ℕ) × (b ≡ take k whole))
    → IsResumed d1 part point
    → IsStart whole point
resumed-IsStart d d1 part whole point before prefix (len, held) =
    elim (Bool-cases (ltb 0 point.0)) [
      | inr new ↦
          let none_yet : point.0 ≡ 0 = ground (arith, new) in
          (omega (arith, none_yet), rw none_yet (no_bytes point.1 (len ∙ none_yet)))
      | inl old ↦
          let (k, e) = prefix point.1 (before point.1 (held old)) in
          let (le, same) = short_prefix k whole point.1 e in
          (omega (arith, le, len), same ∙ ap (λ n. take n whole) len)
    ]

-- Nothing fails locally.
pub record IsCalm (env : Local) : Type 0 where
  pub dir_made : env.can_create_dir ≡ true
  pub opened : env.can_open ≡ true
  pub flushed : env.can_flush ≡ true
  pub placed : env.can_place ≡ true
  pub written : env.writes ≡ []

opened_start :
    (env : Local) (d : Dir) (part : Text) (point : ℕ × Bytes)
    → IsCalm env
    → IsResumed d part point
    → open_part env d part point.0 ≡ ok point.1
unfolding open_part
opened_start env d part point calm (len, held) = elim (Bool-cases (ltb 0 point.0)) [
  | inr new ↦ rw (new, calm.opened) (ap ok (sym (no_bytes point.1 (len ∙ ground (arith, new)))))
  | inl old ↦ rw (old, calm.opened, held old) refl
]

pub then_eq : {A : Type 0} {x : A} (b : Bool) (y : A) → b ≡ true → (if b then x else y) ≡ x
then_eq true y h = refl
then_eq false y h = cc

else_eq : {A : Type 0} {y : A} (b : Bool) (x : A) → b ≡ false → (if b then x else y) ≡ y
else_eq true x h = cc
else_eq false x h = refl

module _ (digest : Bytes → Bytes) (decimal : ℕ → Text) (fuel : ℕ) where
  place-free :
      (env : Local) (d : Dir) (part name : Text) (whole : Bytes)
      → env.can_place ≡ true
      → d name ≡ none
      → place digest decimal fuel env d part name whole
        ≡ some (ok name, set part none (set name (some whole) d))
  unfolding place unique_destination
  place-free env d part name whole may free =
      let named : unique_destination decimal fuel d name ≡ some name =
        rw (unique_destination, free) refl in
      rw (place, named) (then_eq env.can_place _ may)

  -- The rest of a file arrives: the whole file is placed under its name.
  pub received_rest :
      (env : Local) (d : Dir) (name : Text) (head whole : Bytes) (reads : List Bytes)
      (point : ℕ × Bytes) (sha256 : Bytes) (remaining : ℕ)
      → IsCalm env
      → IsCut reads
      → flatten reads ≡ drop point.0 whole
      → IsStart whole point
      → IsResumed d (name ++ codes ".part") point
      → d name ≡ none
      → digest whole ≡ sha256
      → remaining ≡ length whole - point.0
      → let part = name ++ codes ".part" in
        receive_into_part digest decimal fuel env
          (record { head = head; reads = reads; broken = false })
          d
          part
          name
          sha256
          point.0
          remaining
          point.1
        ≡ some (ok name, set part none (set name (some whole) (set part (some whole) d)))
  unfolding receive_into_part after_loop finish
  received_rest env d name head whole reads point sha256 remaining calm cut rest start resumed free
        hashed count =
      let part : Text = name ++ codes ".part" in
      let body : receive_loop remaining remaining reads false env.writes
          ≡ some (ok tt, flatten reads) =
        ap (receive_loop remaining remaining reads false) calm.written
        ∙ receive_loop-flatten remaining remaining reads (omega (arith)) cut
            (omega (arith, count, ap length rest, length-drop point.0 whole)) in
      let joined : point.1 ++ flatten reads ≡ whole =
        rw (start.1, rest) (take-append-drop point.0 whole) in
      let other : name ≢ part =
        λ e. absurd (omega (arith, ap length e, length-append name (codes ".part"))) in
      let still : set part (some whole) d name ≡ none =
        set_ne part name (some whole) d other ∙ free in
      rw (receive_into_part, opened_start env d part point calm resumed, body, joined)
        (else_eq (not env.can_flush) _ (ap not calm.flushed)
          ∙ else_eq (not (digest whole == sha256)) _
              (ap not ((eq_iff (digest whole) sha256).1 hashed))
          ∙ place-free env (set part (some whole) d) part name whole calm.placed still)
