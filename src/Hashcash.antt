-- ===== src/Hashcash.antt =====
-- hiveguard-core/src/hashcash.rs: the proof-of-work stamp of a ban record. The texts of errors are
-- left out. `MIN_DIFFICULTY` is the one of a build that is not a test.
pub mod Leading
pub mod Mining
use Prim.Native.Nat.{bit_and}
use hiveguard.Prelude.{
  ℕ, zero, suc, ◌+◌, ◌-◌, ◌*◌, ◌/◌, ◌%◌, ◌^◌, Bool, true, false, ◌&&◌, List, [], ◌∷◌, ◌++◌, Option,
  none, some, get_or, ltb, ◌==◌, if◌then◌else◌,
}
use hiveguard.Crypto.{Bytes, Blake3, to_le_bytes}

pub record PowStamp : Type 0 where
  pub nonce : ℕ
  pub difficulty : ℕ

abbrev pub min_difficulty : ℕ
min_difficulty = 16

-- The loop over `hash.iter().take(n)`.
unfoldable pub all_zero : ℕ → Bytes → Bool
all_zero zero hash = true
all_zero (suc n) [] = true
all_zero (suc n) (b ∷ hash) = b == 0 && all_zero n hash

-- `0xFF_u8 << (8 - remainder)`
unfoldable pub high_mask : ℕ → ℕ
high_mask remainder = 255 * 2 ^ (8 - remainder) % 256

-- An index past the end would panic; it reads 0 here. A `u8` of difficulty stays below it.
unfoldable pub has_leading_zeros : Bytes → ℕ → ℕ → Bool
has_leading_zeros hash full_bytes remainder =
    if all_zero full_bytes hash
    then if ltb 0 remainder
      then bit_and (get_or hash full_bytes 0) (high_mask remainder) == 0
      else true
    else false

module _ (b3 : Blake3) where
  unfoldable pub compute_hash : ℕ → Bytes → Bytes
  compute_hash nonce text = b3.hash (to_le_bytes 8 nonce ++ text)

  -- The loop of `mine`, on the attempts that are left.
  unfoldable pub mine_from : Bytes → ℕ → ℕ → ℕ → Option PowStamp
  mine_from text difficulty zero nonce = none
  mine_from text difficulty (suc attempts) nonce =
      let rest = mine_from text difficulty attempts (nonce + 1) in
      if has_leading_zeros (compute_hash nonce text) (difficulty / 8) (difficulty % 8)
      then some (record { nonce = nonce; difficulty = difficulty })
      else rest

  unfoldable pub mine : Bytes → ℕ → ℕ → Option PowStamp
  mine text difficulty max_attempts = mine_from text difficulty max_attempts 0

  unfoldable pub verify : PowStamp → Bytes → Bool
  verify stamp text =
      if ltb stamp.difficulty min_difficulty
      then false
      else has_leading_zeros (compute_hash stamp.nonce text) (stamp.difficulty / 8)
          (stamp.difficulty % 8)
