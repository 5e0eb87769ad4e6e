-- ===== src/AntiPoison/Window.antt =====
-- The rate limiter over any sequence of calls: the sliding window.
use Prim.Native.String.{String}
use hiveguard.Prelude.{ℕ, ◌≤◌, refl, arith, List, [], ◌∷◌, count, if◌then◌else◌}
use hiveguard.Prelude.Eq.{string_eq}
use hiveguard.Prelude.Map.{lookup}
use hiveguard.AntiPoison.{RateLimiter, new, times_of, check_and_record}
use hiveguard.AntiPoison.Exact.{recent_calls, Exact, check_and_record-Exact}

-- A run of calls, each with its time: the limiter, and the accepted calls, the latest first.
unfoldable pub run :
    List (String × ℕ) → RateLimiter → List (String × ℕ) → RateLimiter × List (String × ℕ)
run [] rl accepted = (rl, accepted)
run ((key, now) ∷ calls) rl accepted =
    let r = check_and_record now key rl in
    run calls r.0 (if r.1 then (key, now) ∷ accepted else accepted)

-- The times of the calls do not go back, and the first is not before `now`.
abbrev pub Ascending : ℕ → List (String × ℕ) → Type 0
Ascending now [] = Unit
Ascending now ((key, t) ∷ calls) = (now ≤ t) × Ascending t calls

-- The time of the last call.
abbrev pub last_time : ℕ → List (String × ℕ) → ℕ
last_time now [] = now
last_time now ((key, t) ∷ calls) = last_time t calls

run-Exact :
    (limit window now : ℕ) (calls : List (String × ℕ)) (rl : RateLimiter)
    (accepted : List (String × ℕ))
    → Ascending now calls
    → Exact limit window now rl accepted
    → Exact limit window (last_time now calls) (run calls rl accepted).0 (run calls rl accepted).1
unfolding run
run-Exact limit window now [] rl accepted a x = x
run-Exact limit window now ((key, t) ∷ calls) rl accepted a x =
    run-Exact limit window t calls (check_and_record t key rl).0
      (if (check_and_record t key rl).1 then (key, t) ∷ accepted else accepted) a.1
      (check_and_record-Exact limit window now t key rl accepted a.0 x)

-- However the calls for different keys interleave, as long as time does not go back: of the calls
-- for one key that a new limiter accepted, at most `limit` lie within the window that ends at the
-- last call.
pub run_limit :
    (limit window : ℕ) (key : String) (calls : List (String × ℕ))
    → Ascending 0 calls
    → recent_calls window (last_time 0 calls) key (run calls (new limit window) []).1 ≤ limit
unfolding new recent_calls times_of lookup count
run_limit limit window key calls a =
    let start : Exact limit window 0 (new limit window) [] = record {
      limits = refl;
      windows = refl;
      distinct = tt;
      seen = λ k at h. refl;
      few = λ k. omega arith;
    } in
    let x = run-Exact limit window 0 calls (new limit window) [] a start in
    omega (arith, x.seen key (last_time 0 calls) (omega arith), x.few key)
