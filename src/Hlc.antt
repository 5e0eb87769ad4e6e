-- ===== src/Hlc.antt =====
-- hiveguard-core/src/hlc.rs: hybrid logical clock timestamps, their total order, and the two
-- operations that advance a clock. The wall clock is an argument, in milliseconds since the epoch.
-- A `u64` or `u32` is a number below its modulus; `+ 1` on the `u32` counter wraps, as in a release
-- build.
pub mod Order
pub mod Clock
pub mod Run
use Prim.Native.String.{String}
use hiveguard.Crypto.{Blake3, as_bytes, from_le_bytes}
use hiveguard.Prelude.{
  take, ℕ, ◌+◌, ◌-◌, ◌*◌, ◌%◌, ◌^◌, ◌<◌, Bool, ◌&&◌, ltb, leb, ◌==◌, if◌then◌else◌,
}
use Prim.Native.Nat.{Ordering, compare, max}
use hiveguard.Prelude.Ord.{then_with}

pub record HlcTimestamp : Type 0 where
  pub wall_time_ms : ℕ
  pub counter : ℕ
  pub node_id_hash : ℕ

abbrev pub u32_mod : ℕ
u32_mod = 2 ^ 32

abbrev pub u64_mod : ℕ
u64_mod = 2 ^ 64

-- The fields lie in the ranges of their Rust types.
pub record InRange (t : HlcTimestamp) : Type 0 where
  pub wall_range : t.wall_time_ms < u64_mod
  pub counter_range : t.counter < u32_mod
  pub hash_range : t.node_id_hash < u32_mod

-- `MAX_SKEW_MS`: five minutes.
abbrev pub max_skew_ms : ℕ
max_skew_ms = 5 * 60 * 1000

unfoldable pub now : ℕ → ℕ → HlcTimestamp
now now_ms hash = record { wall_time_ms = now_ms; counter = 0; node_id_hash = hash }

unfoldable pub new : ℕ → ℕ → ℕ → HlcTimestamp
new wall counter hash = record { wall_time_ms = wall; counter = counter; node_id_hash = hash }

-- `x + 1` on a `u32`, in a build without overflow checks.
abbrev pub bump : ℕ → ℕ
bump c = (c + 1) % u32_mod

-- The new state of the clock, which is also the timestamp that is returned.
unfoldable pub tick : ℕ → HlcTimestamp → HlcTimestamp
tick now_ms t =
    if ltb t.wall_time_ms now_ms
    then record t { wall_time_ms = now_ms; counter = 0 }
    else record t { counter = bump t.counter }

-- The remote wall time, cut at the largest skew. `now_ms + MAX_SKEW_MS` is a `u64` sum.
unfoldable pub clamp_remote : ℕ → ℕ → ℕ
clamp_remote now_ms remote =
    if ltb ((now_ms + max_skew_ms) % u64_mod) remote
    then (now_ms + max_skew_ms) % u64_mod
    else remote

unfoldable pub update : ℕ → HlcTimestamp → HlcTimestamp → HlcTimestamp
unfolding clamp_remote
update now_ms t remote =
    let remote_wall = clamp_remote now_ms remote.wall_time_ms in
    if ltb t.wall_time_ms now_ms && ltb remote_wall now_ms
    then record t { wall_time_ms = now_ms; counter = 0 }
    else if t.wall_time_ms == remote_wall
    then record t { counter = bump (max t.counter remote.counter) }
    else if ltb t.wall_time_ms remote_wall
    then record t { wall_time_ms = remote_wall; counter = bump remote.counter }
    else record t { counter = bump t.counter }

unfoldable pub is_within_skew : ℕ → HlcTimestamp → Bool
is_within_skew now_ms t =
    leb (if ltb now_ms t.wall_time_ms then t.wall_time_ms - now_ms else now_ms - t.wall_time_ms)
      max_skew_ms

-- `impl Ord`: wall time, then counter, then the hash of the node.
unfoldable pub cmp : HlcTimestamp → HlcTimestamp → Ordering
cmp a b =
    then_with (then_with (compare a.wall_time_ms b.wall_time_ms) (compare a.counter b.counter))
      (compare a.node_id_hash b.node_id_hash)

unfoldable pub hash_node_id : Blake3 → String → ℕ
hash_node_id blake3 node_id = from_le_bytes (take 4 (blake3.hash (as_bytes node_id)))
