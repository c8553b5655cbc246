-- ===== src/Net/Pull/Loop.antt =====
-- The loop of engine.rs that reads the body of a file: its length, and that it ends.
use mascara.Common.{
  ℕ, suc, zero, ◌-◌, min, ◌≤◌, ◌≡◌, ◌≢◌, refl, ap, sym, ◌∙◌, Bool, Option, some, List, [], ◌++◌,
  Result, ok, err, eqb, list_eq, nat_eq, length, length-append, length-take, take, Bool-cases,
  Option-cases, inl, inr, arith, eqb_iff,
}
use mascara.Common.Text.{Bytes}
use mascara.Net.Error.{NetError}
use mascara.Net.Pull.{receive_loop, next_write, next_read, chunk}

-- The loop that ends well has appended as many bytes as were announced.
pub receive_loop-length :
    (left fuel : ℕ) (reads : List Bytes) (broken : Bool) (writes : List Bool) (u : Unit {0})
    (bytes : Bytes)
    → receive_loop left fuel reads broken writes ≡ some (ok u, bytes)
    → length bytes ≡ left
unfolding receive_loop
receive_loop-length zero fuel reads broken writes u bytes h =
    let it : ◌≡◌ {A = Option (Result (Unit {0}) NetError × Bytes)} (some (ok tt, []))
        (some (ok u, bytes)) =
      h in
    let none_read : [] ≡ bytes = cc (it) in ap length (sym none_read)
receive_loop-length (suc left) zero reads broken writes u bytes h = cc (h)
receive_loop-length (suc left) (suc fuel) reads broken writes u bytes h =
    elim (Option-cases (next_read reads broken)) [
      | inl e ↦ cc (rw (receive_loop, e) at h)
      | inr ((piece, later), e) ↦
          let got : Bytes = take (min (suc left) chunk) piece in
          elim (Bool-cases (eqb (length got) 0)) [
            | inl t ↦ cc (rw (receive_loop, e, t) at h)
            | inr f ↦ elim (Bool-cases (next_write writes).0) [
              | inr t ↦ cc (rw (receive_loop, e, f, t) at h)
              | inl w ↦
                  elim (Option-cases (
                    receive_loop (suc left - length got) fuel later broken (next_write writes).1)) [
                      | inl r ↦ cc (rw (receive_loop, e, f, w, r) at h)
                      | inr ((err why, more), r) ↦ cc (rw (receive_loop, e, f, w, r) at h)
                      | inr ((ok v, more), r) ↦
                          let it : ◌≡◌ {A = Option (Result (Unit {0}) NetError × Bytes)}
                              (some (ok v, got ++ more)) (some (ok u, bytes)) =
                            rw (receive_loop, e, f, w, r) at h in
                          let whole : got ++ more ≡ bytes = cc (it) in
                          let rest =
                            receive_loop-length (suc left - length got) fuel later broken
                              (next_write writes).1 v more r in
                          ap length (sym whole)
                          ∙ length-append got more
                          ∙ omega (arith, rest, length-take (min (suc left) chunk) piece)
                    ]
            ]
          ]
    ]

-- The loop ends, whatever the reads return: with as much fuel as bytes are awaited.
pub receive_loop-some :
    (left fuel : ℕ) (reads : List Bytes) (broken : Bool) (writes : List Bool)
    → left ≤ fuel
    → (r : Result (Unit {0}) NetError × Bytes) × (receive_loop left fuel reads broken writes
        ≡ some r)
unfolding receive_loop
receive_loop-some zero fuel reads broken writes le = (_, refl)
receive_loop-some (suc left) zero reads broken writes le = absurd (omega (arith, le))
receive_loop-some (suc left) (suc fuel) reads broken writes le =
    elim (Option-cases (next_read reads broken)) [
      | inl e ↦ rw (receive_loop, e) (_, refl)
      | inr ((piece, later), e) ↦
          let got : Bytes = take (min (suc left) chunk) piece in
          elim (Bool-cases (eqb (length got) 0)) [
            | inl t ↦ rw (receive_loop, e, t) (_, refl)
            | inr f ↦ elim (Bool-cases (next_write writes).0) [
              | inr t ↦ rw (receive_loop, e, f, t) (_, refl)
              | inl w ↦
                  let some_read : length got ≢ 0 = λ p. cc (f, (eqb_iff (length got) 0).1 p) in
                  let less : suc left - length got ≤ fuel = omega (arith, le, some_read) in
                  let (r, rest) =
                    receive_loop-some (suc left - length got) fuel later broken
                      (next_write writes).1 less in
                  rw (receive_loop, e, f, w, rest) (_, refl)
            ]
          ]
    ]
