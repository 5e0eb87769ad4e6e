-- ===== src/Tests/AntiPoison.antt =====
-- hiveguard-core/src/anti_poison.rs: two keys, and a limit of two calls in ten milliseconds.
use Prim.Native.String.{String}
use hiveguard.Prelude.{ℕ, ◌≤◌, arith, List, [], ◌∷◌}
use hiveguard.AntiPoison.{new}
use hiveguard.AntiPoison.Window
use hiveguard.AntiPoison.Window.{run, last_time}
use hiveguard.AntiPoison.Exact.{recent_calls}

abbrev calls : List (String × ℕ)
calls = ("a", 1) ∷ ("a", 2) ∷ ("b", 2) ∷ ("a", 3) ∷ ("a", 12) ∷ []

run_limit_example : recent_calls 10 (last_time 0 calls) "a" (run calls (new 2 10) []).1 ≤ 2
run_limit_example =
    Window.run_limit 2 10 "a" calls
      (omega arith, (omega arith, (omega arith, (omega arith, (omega arith, tt)))))
