-- ===== src/Hlc/Clock.antt =====
-- How `tick` and `update` move a clock.
use Prim.Native.Nat.Ordering.{lt}
use hiveguard.Prelude.{ℕ, ◌+◌, ◌≤◌, ◌<◌, ◌≡◌, ◌↔◌, arith, true}
use hiveguard.Hlc.{
  HlcTimestamp, InRange, tick, update, cmp, max_skew_ms, u32_mod, u64_mod, is_within_skew,
}

-- While the counter is not at its maximum, a tick returns a timestamp strictly above the clock's,
-- not before the wall clock, that keeps the node and stays in range.
pub tick_advances :
    (now_ms : ℕ) (t : HlcTimestamp)
    → InRange t
    → now_ms < u64_mod
    → t.counter + 1 < u32_mod
    → (cmp t (tick now_ms t) ≡ lt)
      × (now_ms ≤ (tick now_ms t).wall_time_ms)
      × ((tick now_ms t).node_id_hash ≡ t.node_id_hash)
      × InRange (tick now_ms t)
unfolding tick cmp
tick_advances now_ms t r h k = ground arith

-- While neither counter is at its maximum, receiving a timestamp moves the clock strictly up, to a
-- time that is not before the wall clock; and if the received time is within the skew, the result
-- is strictly above the received timestamp too.
pub update_advances :
    (now_ms : ℕ) (t remote : HlcTimestamp)
    → now_ms + max_skew_ms < u64_mod
    → t.counter + 1 < u32_mod
    → remote.counter + 1 < u32_mod
    → (cmp t (update now_ms t remote) ≡ lt)
      × (now_ms ≤ (update now_ms t remote).wall_time_ms)
      × (remote.wall_time_ms ≤ now_ms + max_skew_ms → cmp remote (update now_ms t remote) ≡ lt)
unfolding update cmp
update_advances now_ms t remote n h k = (ground arith, ground arith, λ w. ground arith)

-- No received timestamp, whatever it holds, moves a clock past the wall clock by more than the
-- largest skew, unless the clock was already past it; and then the wall time stays.
pub update_bounded :
    (now_ms : ℕ) (t remote : HlcTimestamp)
    → now_ms + max_skew_ms < u64_mod
    → (t.wall_time_ms ≤ now_ms + max_skew_ms
        → (update now_ms t remote).wall_time_ms ≤ now_ms + max_skew_ms)
      × (now_ms + max_skew_ms < t.wall_time_ms
          → (update now_ms t remote).wall_time_ms ≡ t.wall_time_ms)
unfolding update
update_bounded now_ms t remote n = (λ h. ground arith, λ h. ground arith)

-- The skew check accepts exactly the timestamps at most five minutes from the wall clock, on either
-- side of it.
pub is_within_skew_iff :
    (now_ms : ℕ) (t : HlcTimestamp)
    → (is_within_skew now_ms t ≡ true)
      ↔ ((t.wall_time_ms ≤ now_ms + max_skew_ms) × (now_ms ≤ t.wall_time_ms + max_skew_ms))
unfolding is_within_skew
is_within_skew_iff now_ms t = (λ h. ground arith, λ h. ground arith)
