-- ===== src/Hlc/Run.antt =====
-- A clock over any sequence of local events and received timestamps.
use Prim.Native.Nat.Ordering.{lt}
use hiveguard.Prelude.{ℕ, ◌+◌, ◌≤◌, ◌<◌, ◌≡◌, List, [], ◌∷◌, arith, length, suc}
use hiveguard.Hlc.{HlcTimestamp, tick, update, cmp, max_skew_ms, u32_mod, u64_mod}
use hiveguard.Hlc.Clock.{update_advances}

-- What happens to a clock, each time with the wall clock that it reads.
pub data Event : Type 0 where
  local : ℕ → Event
  receive : ℕ → HlcTimestamp → Event

pub advance : Event → HlcTimestamp → HlcTimestamp
advance (local now_ms) t = tick now_ms t
advance (receive now_ms remote) t = update now_ms t remote

-- The timestamps that the clock returns.
pub run : List Event → HlcTimestamp → List HlcTimestamp
run [] t = []
run (e ∷ es) t = advance e t ∷ run es (advance e t)

-- The wall clock leaves room for the skew, and a received counter is at most `b`.
abbrev pub Bounded : ℕ → List Event → Type 0
Bounded b [] = Unit
Bounded b (local now_ms ∷ es) = Bounded b es
Bounded b (receive now_ms remote ∷ es) =
    (now_ms + max_skew_ms < u64_mod) × (remote.counter ≤ b) × Bounded b es

abbrev pub Ascending : HlcTimestamp → List HlcTimestamp → Type 0
Ascending t [] = Unit
Ascending t (u ∷ us) = (cmp t u ≡ lt) × Ascending u us

Bounded-suc : (b : ℕ) (es : List Event) → Bounded b es → Bounded (suc b) es
Bounded-suc b [] h = tt
Bounded-suc b (local now_ms ∷ es) h = Bounded-suc b es h
Bounded-suc b (receive now_ms remote ∷ es) h = (h.0, omega arith, Bounded-suc b es h.2)

counter-tick :
    (now_ms : ℕ) (t : HlcTimestamp) (b : ℕ) → t.counter ≤ b → (tick now_ms t).counter ≤ suc b
unfolding tick
counter-tick now_ms t b h = ground arith

counter-update :
    (now_ms : ℕ) (t remote : HlcTimestamp) (b : ℕ)
    → t.counter ≤ b
    → remote.counter ≤ b
    → (update now_ms t remote).counter ≤ suc b
unfolding update
counter-update now_ms t remote b h k = ground arith

tick-lt : (now_ms : ℕ) (t : HlcTimestamp) → t.counter + 1 < u32_mod → cmp t (tick now_ms t) ≡ lt
unfolding tick cmp
tick-lt now_ms t h = ground arith

-- If no counter, of the clock or received, is above `b`, and `b` plus the number of events fits the
-- counter, then the timestamps that the clock returns are strictly ascending.
pub run-Ascending :
    (b : ℕ) (es : List Event) (t : HlcTimestamp)
    → t.counter ≤ b
    → Bounded b es
    → b + length es < u32_mod
    → Ascending t (run es t)
unfolding run advance
run-Ascending b [] t c h k = tt
run-Ascending b (local now_ms ∷ es) t c h k = (
  tick-lt now_ms t (omega arith),
  run-Ascending (suc b) es (tick now_ms t) (counter-tick now_ms t b c) (Bounded-suc b es h)
      (omega arith),
)
run-Ascending b (receive now_ms remote ∷ es) t c h k = (
  (update_advances now_ms t remote h.0 (omega arith) (omega arith)).0,
  run-Ascending (suc b) es (update now_ms t remote) (counter-update now_ms t remote b c h.1)
      (Bounded-suc b es h.2) (omega arith),
)
