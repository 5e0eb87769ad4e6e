-- ===== src/BanStore/Counts.antt =====
-- The arrays of counts: what an increment, a decrement and a rebuild do to every entry.
use hiveguard.Prelude.{
  ℕ, ◌+◌, ◌-◌, ◌^◌, ◌%◌, ◌≤◌, ◌<◌, ◌≡◌, refl, arith, Bool, false, List, [], ◌∷◌, length, get_or,
  set, length-set, get_or-set_self, get_or-set_ne, count, All, ◌==◌, if◌then◌else◌, ◌∙◌,
}
use hiveguard.Prelude.Map.{HashMap}
use hiveguard.Net.{IpNet, clear_low}
use hiveguard.Models.{BanRecord}
use hiveguard.BanStore.{InMemoryBanStore, inc_at, dec_at, inc_prefix, dec_prefix, count_keys}

-- The key is an IPv4 network of prefix length `p`.
abbrev pub is_v4 : ℕ → IpNet → Bool
is_v4 p (IpNet.v4 a q) = q == p
is_v4 p (IpNet.v6 a q) = false

abbrev pub is_v6 : ℕ → IpNet → Bool
is_v6 p (IpNet.v4 a q) = false
is_v6 p (IpNet.v6 a q) = q == p

-- A block in normal form: the prefix fits the family, and no host bit is set.
abbrev pub IsBlock : IpNet → Type 0
IsBlock (IpNet.v4 a p) = (p ≤ 32) × (a < 2 ^ 32) × (clear_low (32 - p) a ≡ a)
IsBlock (IpNet.v6 a p) = (p ≤ 128) × (a < 2 ^ 128) × (clear_low (128 - p) a ≡ a)

-- The two arrays have their lengths.
pub record Sized (s : InMemoryBanStore) : Type 0 where
  pub len4 : length s.v4_prefix_counts ≡ 33
  pub len6 : length s.v6_prefix_counts ≡ 129

get_or-set :
    (xs : List ℕ) (i p v : ℕ)
    → i < length xs
    → get_or (set xs i v) p 0 ≡ (if i == p then v else get_or xs p 0)
get_or-set xs i p v h = ground (arith, get_or-set_self xs i v 0 h, get_or-set_ne xs i p v 0)

get_or-inc_at :
    (xs : List ℕ) (i p : ℕ)
    → i < length xs
    → get_or xs p 0 + 1 < 2 ^ 32
    → get_or (inc_at i xs) p 0 ≡ get_or xs p 0 + (if i == p then 1 else 0)
unfolding inc_at
get_or-inc_at xs i p h k = ground (arith, get_or-set xs i p ((get_or xs i 0 + 1) % 2 ^ 32) h)

get_or-dec_at :
    (xs : List ℕ) (i p : ℕ)
    → i < length xs
    → get_or (dec_at i xs) p 0 ≡ get_or xs p 0 - (if i == p then 1 else 0)
unfolding dec_at
get_or-dec_at xs i p h = ground (arith, get_or-set xs i p (get_or xs i 0 - 1) h)

pub inc_prefix-Sized : (n : IpNet) (s : InMemoryBanStore) → Sized s → Sized (inc_prefix n s)
unfolding inc_prefix inc_at
inc_prefix-Sized (IpNet.v4 a p) s z = record { len4 = length-set _ p _ ∙ z.len4; len6 = z.len6 }
inc_prefix-Sized (IpNet.v6 a p) s z = record { len4 = z.len4; len6 = length-set _ p _ ∙ z.len6 }

pub dec_prefix-Sized : (n : IpNet) (s : InMemoryBanStore) → Sized s → Sized (dec_prefix n s)
unfolding dec_prefix dec_at
dec_prefix-Sized (IpNet.v4 a p) s z = record { len4 = length-set _ p _ ∙ z.len4; len6 = z.len6 }
dec_prefix-Sized (IpNet.v6 a p) s z = record { len4 = z.len4; len6 = length-set _ p _ ∙ z.len6 }

-- One more network of a prefix length, in both arrays at any length `p`.
pub inc_prefix_counts :
    (n : IpNet) (s : InMemoryBanStore) (p : ℕ)
    → IsBlock n
    → Sized s
    → get_or s.v4_prefix_counts p 0 + 1 < 2 ^ 32
    → get_or s.v6_prefix_counts p 0 + 1 < 2 ^ 32
    → (get_or (inc_prefix n s).v4_prefix_counts p 0
        ≡ get_or s.v4_prefix_counts p 0 + (if is_v4 p n then 1 else 0))
      × (get_or (inc_prefix n s).v6_prefix_counts p 0
          ≡ get_or s.v6_prefix_counts p 0 + (if is_v6 p n then 1 else 0))
unfolding inc_prefix
inc_prefix_counts (IpNet.v4 a q) s p b z h k =
    (get_or-inc_at s.v4_prefix_counts q p (omega arith) h, omega arith)
inc_prefix_counts (IpNet.v6 a q) s p b z h k =
    (omega arith, get_or-inc_at s.v6_prefix_counts q p (omega arith) k)

pub dec_prefix_counts :
    (n : IpNet) (s : InMemoryBanStore) (p : ℕ)
    → IsBlock n
    → Sized s
    → (get_or (dec_prefix n s).v4_prefix_counts p 0
        ≡ get_or s.v4_prefix_counts p 0 - (if is_v4 p n then 1 else 0))
      × (get_or (dec_prefix n s).v6_prefix_counts p 0
          ≡ get_or s.v6_prefix_counts p 0 - (if is_v6 p n then 1 else 0))
unfolding dec_prefix
dec_prefix_counts (IpNet.v4 a q) s p b z =
    (get_or-dec_at s.v4_prefix_counts q p (omega arith), omega arith)
dec_prefix_counts (IpNet.v6 a q) s p b z =
    (omega arith, get_or-dec_at s.v6_prefix_counts q p (omega arith))

-- The loop of a rebuild adds to every entry the number of keys of its family and length.
pub count_keys_counts :
    (m : HashMap IpNet BanRecord) (s : InMemoryBanStore)
    → All (λ e. IsBlock e.0) m
    → Sized s
    → (p : ℕ) → get_or s.v4_prefix_counts p 0 + length m < 2 ^ 32
    → get_or s.v6_prefix_counts p 0 + length m < 2 ^ 32
    → (get_or (count_keys m s).v4_prefix_counts p 0
        ≡ get_or s.v4_prefix_counts p 0 + count (λ e. is_v4 p e.0) m)
      × (get_or (count_keys m s).v6_prefix_counts p 0
          ≡ get_or s.v6_prefix_counts p 0 + count (λ e. is_v6 p e.0) m)
unfolding count_keys count
count_keys_counts [] s b z p h k = (omega arith, omega arith)
count_keys_counts ((n, r) ∷ m) s b z p h k =
    let one = inc_prefix_counts n s p b.0 z (omega arith) (omega arith) in
    let le4 : (if is_v4 p n then 1 else 0) ≤ 1 = ground arith in
    let le6 : (if is_v6 p n then 1 else 0) ≤ 1 = ground arith in
    let rest =
      count_keys_counts m (inc_prefix n s) b.1 (inc_prefix-Sized n s z) p (omega arith)
        (omega arith) in
    (omega arith, omega arith)

pub count_keys-Sized :
    (m : HashMap IpNet BanRecord) (s : InMemoryBanStore) → Sized s → Sized (count_keys m s)
unfolding count_keys
count_keys-Sized [] s z = z
count_keys-Sized ((n, r) ∷ m) s z = count_keys-Sized m (inc_prefix n s) (inc_prefix-Sized n s z)

pub bans-inc_prefix : (n : IpNet) (s : InMemoryBanStore) → (inc_prefix n s).bans ≡ s.bans
unfolding inc_prefix
bans-inc_prefix (IpNet.v4 a p) s = refl
bans-inc_prefix (IpNet.v6 a p) s = refl

pub bans-dec_prefix : (n : IpNet) (s : InMemoryBanStore) → (dec_prefix n s).bans ≡ s.bans
unfolding dec_prefix
bans-dec_prefix (IpNet.v4 a p) s = refl
bans-dec_prefix (IpNet.v6 a p) s = refl

pub bans-count_keys :
    (m : HashMap IpNet BanRecord) (s : InMemoryBanStore) → (count_keys m s).bans ≡ s.bans
unfolding count_keys
bans-count_keys [] s = refl
bans-count_keys ((n, r) ∷ m) s = bans-count_keys m (inc_prefix n s) ∙ bans-inc_prefix n s
