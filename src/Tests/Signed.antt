-- ===== src/Tests/Signed.antt =====
-- hiveguard-core/src/hashcash.rs and hiveguard-net/src/signed_record.rs: a stamp that is mined, and
-- records that are signed with a cache.
use Prim.Native.Nat.{max}
use hiveguard.Prelude.{
  In, ℕ, ◌≤◌, ◌<◌, ◌+◌, ◌*◌, ◌^◌, ◌≡◌, ◌↔◌, ◌⊎◌, refl, sym, ap, ◌∙◌, arith, true, false, List, [],
  ◌∷◌, map, none, some, length, count, get_or, inl, inr, some_inj,
}
use hiveguard.Net.{IpNet}
use hiveguard.Models.{BanRecord, BanSource}
use hiveguard.Errors.{Result}
use hiveguard.Crypto.{Bytes, to_le_bytes, as_bytes, encode_utf8, bytes_eq}
use hiveguard.Hashcash.{
  PowStamp, mine, mine_from, verify, has_leading_zeros, all_zero, compute_hash,
}
use hiveguard.Hashcash.Leading
use hiveguard.Hashcash.Leading.{number}
use hiveguard.Hashcash.Mining
use hiveguard.SignedRecord
use hiveguard.SignedRecord.{SignedBanRecord, sign, sign_canonical, cache_key, u64_max, new}
use hiveguard.SignedRecord.Signing
use hiveguard.SignedRecord.Fresh
use hiveguard.SignedRecord.Fresh.{NoCollision, sign_all, fresh, is_ok}
use hiveguard.Tests.Codec.{sum}
use hiveguard.Tests.CratesLib.{crates, blake3, ed25519, hash, hash_bytes, length-hash}

has_leading_zeros_iff_example :
    (has_leading_zeros (hash (3 ∷ [])) 1 2 ≡ true) ↔ (number (hash (3 ∷ [])) * 2 ^ 10 < 2 ^ 256)
has_leading_zeros_iff_example =
    Leading.has_leading_zeros_iff (hash (3 ∷ [])) 10 (hash_bytes (3 ∷ [])) (length-hash (3 ∷ []))
      (omega arith)

mine-verify_example :
    ((stamp : PowStamp)
      → mine blake3 (3 ∷ []) 16 100 ≡ some stamp
      → (verify blake3 stamp (3 ∷ []) ≡ true)
        × (stamp.difficulty ≡ 16)
        × (stamp.nonce < 100)
        × ((n : ℕ) → n < stamp.nonce → verify blake3 (record stamp { nonce = n }) (3 ∷ []) ≡ false))
    × ((mine blake3 (3 ∷ []) 16 100 ≡ none) ↔ (
        (n : ℕ) → n < 100 → verify blake3 (record { nonce = n; difficulty = 16 }) (3 ∷ []) ≡ false))
mine-verify_example = Mining.mine-verify blake3 (3 ∷ []) 16 100 (omega arith)

mined : mine blake3 (3 ∷ []) 16 100 ≡ some (record { nonce = 2; difficulty = 16 })
unfolding mine mine_from has_leading_zeros all_zero compute_hash blake3 hash to_le_bytes sum
mined = refl

abbrev ban : BanRecord
ban = record {
  subject = IpNet.v4 167772160 8;
  created_at = 10;
  expires_at = none;
  severity = 5;
  reason = "test ban";
  evidence_hash = [];
  source = BanSource.manual_admin;
  geo_info = none;
}

abbrev other : BanRecord
other = record ban { severity = 7 }

abbrev signed : SignedBanRecord
signed = record {
  ban = ban;
  signer_id = "n";
  signature = 9 ∷ 5 ∷ [];
  pow = record { nonce = 0; difficulty = 16 };
}

signs : sign crates ban "n" (9 ∷ []) 16 ≡ Result.ok signed
unfolding sign sign_canonical mine mine_from has_leading_zeros all_zero compute_hash crates blake3
    ed25519 hash to_le_bytes sum u64_max
signs = refl

verify-sign_example :
    (signed.ban ≡ ban)
    × (signed.signer_id ≡ "n")
    × (signed.pow.difficulty ≡ 16)
    × (SignedRecord.verify crates (9 ∷ []) signed ≡ Result.ok tt)
unfolding crates ed25519
verify-sign_example =
    Signing.verify-sign crates ban "n" (9 ∷ []) 16 (9 ∷ []) signed refl (omega arith) signs

-- A record that comes twice, with another between.
abbrev stream : List BanRecord
stream = ban ∷ other ∷ ban ∷ []

different : cache_key crates "n" 16 (5 ∷ []) ≡ cache_key crates "n" 16 (7 ∷ []) → ⊥
unfolding cache_key crates blake3 hash as_bytes encode_utf8 sum
different h = absurd (omega (arith, ap (λ (l : Bytes). get_or l 0 0) h))

which : (a : BanRecord) → In a stream → (ban ≡ a) ⊎ (other ≡ a)
which a (inl e) = inl e
which a (inr (inl e)) = inr e
which a (inr (inr (inl e))) = inl e
which a (inr (inr (inr x))) = elim x [ ]

-- The key of the encoding of a record that is known.
known :
    (r a : BanRecord) (x : Bytes)
    → r ≡ a
    → crates.serialize a ≡ some x
    → cache_key crates "n" 16 (r.severity ∷ []) ≡ cache_key crates "n" 16 x
unfolding crates
known r a x e h =
    ap (λ (t : Bytes). cache_key crates "n" 16 t)
      (ap (λ (q : BanRecord). q.severity ∷ []) e ∙ some_inj h)

apart : NoCollision crates "n" (9 ∷ []) 16 stream
unfolding crates
apart a b x y i j ea eb k = elim (which a i) [
  | inl is_a ↦ elim (which b j) [
    | inl is_b ↦ sym is_a ∙ is_b
    | inr is_b ↦ absurd (different (known ban a x is_a ea ∙ k ∙ sym (known other b y is_b eb)))
  ]
  | inr is_a ↦ elim (which b j) [
    | inl is_b ↦ absurd (different (known ban b y is_b eb ∙ sym k ∙ sym (known other a x is_a ea)))
    | inr is_b ↦ sym is_a ∙ is_b
  ]
]

sign_all-fresh_example :
    ((sign_all crates "n" (9 ∷ []) 16 stream (new 1)).1 ≡ map (fresh crates "n" (9 ∷ []) 16) stream)
    × (length (sign_all crates "n" (9 ∷ []) 16 stream (new 1)).0.entries ≤ max 1 1)
    × ((sign_all crates "n" (9 ∷ []) 16 stream (new 1)).0.hits
          + (sign_all crates "n" (9 ∷ []) 16 stream (new 1)).0.misses
        ≡ count is_ok (sign_all crates "n" (9 ∷ []) 16 stream (new 1)).1)
sign_all-fresh_example = Fresh.sign_all-fresh crates "n" (9 ∷ []) 16 1 stream apart
