-- ===== src/Tests/Codec.antt =====
-- An encoding that knows two kinds of entry, for the runs of the log.
use hiveguard.Prelude.{◌+◌, ◌%◌, ◌^◌, ◌≡◌, arith, ℕ, zero, suc, List, [], ◌∷◌, Option, none, some}
use hiveguard.Net.{IpNet}
use hiveguard.Persistence.Wal.{WalEntry, Codec}

unfoldable pub to_allocvec : WalEntry → Option (List ℕ)
to_allocvec (WalEntry.remove_ban (IpNet.v4 a p)) = some (0 ∷ a ∷ p ∷ [])
to_allocvec (WalEntry.add_whitelist (IpNet.v4 a p)) = some (1 ∷ a ∷ p ∷ [])
to_allocvec _ = none

pub take_from_bytes : List ℕ → Option (WalEntry × List ℕ)
take_from_bytes (zero ∷ a ∷ p ∷ rest) = some (WalEntry.remove_ban (IpNet.v4 a p), rest)
take_from_bytes (suc zero ∷ a ∷ p ∷ rest) = some (WalEntry.add_whitelist (IpNet.v4 a p), rest)
take_from_bytes _ = none

unfoldable pub sum : List ℕ → ℕ
sum [] = 0
sum (b ∷ bs) = b + sum bs

pub decode_encode :
    (e : WalEntry) (payload : List ℕ)
    → to_allocvec e ≡ some payload
    → take_from_bytes payload ≡ some (e, [])
unfolding to_allocvec take_from_bytes
decode_encode (WalEntry.remove_ban (IpNet.v4 a p)) payload h = ground (arith, h)
decode_encode (WalEntry.remove_ban (IpNet.v6 a p)) payload h = absurd (ground (arith, h))
decode_encode (WalEntry.add_whitelist (IpNet.v4 a p)) payload h = ground (arith, h)
decode_encode (WalEntry.add_whitelist (IpNet.v6 a p)) payload h = absurd (ground (arith, h))
decode_encode (WalEntry.add_ban r) payload h = absurd (ground (arith, h))
decode_encode (WalEntry.remove_whitelist n) payload h = absurd (ground (arith, h))
decode_encode (WalEntry.add_crdt_ban r) payload h = absurd (ground (arith, h))
decode_encode (WalEntry.tombstone_crdt_ban n) payload h = absurd (ground (arith, h))
decode_encode (WalEntry.revoke_ban n t) payload h = absurd (ground (arith, h))

unfoldable pub codec : Codec
codec = record {
  to_allocvec = to_allocvec;
  take_from_bytes = take_from_bytes;
  hash = λ payload. sum payload % 2 ^ 32;
  decode_encode = decode_encode;
  hash_below = λ payload. omega arith;
}
