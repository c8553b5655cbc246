-- ===== src/Net/Listener/Limiter.antt =====
-- The cap on unknown remotes in listener.rs, over the attempts of one remote in one window.
use mascara.Common.{
  ℕ, suc, ◌+◌, ◌-◌, ◌^◌, ◌≤◌, ◌<◌, min, ◌≡◌, refl, ap, ◌∙◌, none, some, List, [], ◌∷◌, leb,
  if◌then◌else◌, ◌==◌, list_eq, nat_eq, find, length, All, eq_refl, arith,
}
use mascara.Common.Text.{Bytes}
use mascara.Net.Listener.{UnknownRemoteLimiter, Window, current_window, counted, allow}

-- How many attempts of a remote at these times, in their order, are allowed.
abbrev pub allowed : UnknownRemoteLimiter → Bytes → List ℕ → ℕ
allowed l remote [] = 0
allowed l remote (now ∷ times) =
    (if (allow l remote now).0 then 1 else 0) + allowed (allow l remote now).1 remote times

-- The window that stands for the remote after an attempt is the one that was counted.
after-allow :
    (l : UnknownRemoteLimiter) (remote : Bytes) (now : ℕ)
    → (current_window l remote now).remote ≡ remote
    → find (λ w. w.remote == remote) (allow l remote now).1.seen
      ≡ some (counted (current_window l remote now))
unfolding allow counted
after-allow l remote now h = rw (h, eq_refl remote) refl

counted_began : (w : Window) → (counted w).began ≡ w.began
unfolding counted
counted_began w = refl

counted_remote : (w : Window) → (counted w).remote ≡ w.remote
unfolding counted
counted_remote w = refl

counted_once : (w : Window) → w.attempts + 1 < 2 ^ 32 → (counted w).attempts ≡ w.attempts + 1
unfolding counted
counted_once w h = omega arith

same_window :
    (l : UnknownRemoteLimiter) (w : Window) (remote : Bytes) (now : ℕ)
    → find (λ w. w.remote == remote) l.seen ≡ some w
    → now ≤ w.began + l.window
    → current_window l remote now ≡ w
unfolding current_window
same_window l w remote now e h = rw (current_window, e) (ground arith)

new_window :
    (l : UnknownRemoteLimiter) (remote : Bytes) (now : ℕ)
    → find (λ w. w.remote == remote) l.seen ≡ none
    → current_window l remote now ≡ record { remote = remote; began = now; attempts = 0 }
unfolding current_window
new_window l remote now e = rw (current_window, e) refl

settings_kept :
    (l : UnknownRemoteLimiter) (remote : Bytes) (now : ℕ)
    → ((allow l remote now).1.window ≡ l.window)
      × ((allow l remote now).1.max_per_window ≡ l.max_per_window)
unfolding allow
settings_kept l remote now = (refl, refl)

answer :
    (l : UnknownRemoteLimiter) (remote : Bytes) (now : ℕ) (w : Window)
    → current_window l remote now ≡ w
    → w.attempts + 1 < 2 ^ 32
    → (allow l remote now).0 ≡ leb (w.attempts + 1) l.max_per_window
unfolding allow
answer l remote now w e few = rw (e, counted_once w few) refl

allowed-within :
    (l : UnknownRemoteLimiter) (w : Window) (remote : Bytes) (times : List ℕ)
    → find (λ w. w.remote == remote) l.seen ≡ some w
    → w.remote ≡ remote
    → All (λ now. now ≤ w.began + l.window) times
    → w.attempts + length times < 2 ^ 32
    → allowed l remote times ≡ min (length times) (l.max_per_window - w.attempts)
allowed-within l w remote [] e same h few = omega arith
allowed-within l w remote (now ∷ times) e same h few =
    let current : current_window l remote now ≡ w = same_window l w remote now e h.0 in
    let once : (counted w).attempts ≡ w.attempts + 1 = counted_once w (omega (arith, few)) in
    let (window_kept, max_kept) = settings_kept l remote now in
    let began_kept : (counted w).began ≡ w.began = counted_began w in
    let rest =
      allowed-within (allow l remote now).1 (counted w) remote times
        (after-allow l remote now (ap (λ (v : Window). v.remote) current ∙ same)
          ∙ ap (λ v. some (counted v)) current)
        (counted_remote w ∙ same) (rw (window_kept, began_kept) h.1) (omega (arith, few, once)) in
    rw (answer l remote now w current (omega (arith, few)), rest, once, max_kept) (ground arith)

-- From a remote not counted so far, fewer than 2 ^ 32 attempts in one window are allowed as often
-- as they are, or `max_per_window` times if that is less.
pub allowed_in_new_window :
    (l : UnknownRemoteLimiter) (remote : Bytes) (now : ℕ) (times : List ℕ)
    → find (λ w. w.remote == remote) l.seen ≡ none
    → All (λ later. later ≤ now + l.window) times
    → suc (length times) < 2 ^ 32
    → allowed l remote (now ∷ times) ≡ min (suc (length times)) l.max_per_window
allowed_in_new_window l remote now times e h few =
    let fresh : Window = record { remote = remote; began = now; attempts = 0 } in
    let current : current_window l remote now ≡ fresh = new_window l remote now e in
    let once : (counted fresh).attempts ≡ 1 = counted_once fresh (omega arith) in
    let (window_kept, max_kept) = settings_kept l remote now in
    let rest =
      allowed-within (allow l remote now).1 (counted fresh) remote times
        (after-allow l remote now (ap (λ (v : Window). v.remote) current)
          ∙ ap (λ v. some (counted v)) current)
        (counted_remote fresh) (rw (window_kept, counted_began fresh) h)
        (omega (arith, few, once)) in
    rw (answer l remote now fresh current (omega arith), rest, once, max_kept) (ground arith)
