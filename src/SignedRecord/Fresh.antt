-- ===== src/SignedRecord/Fresh.antt =====
-- The cache of signatures against signing each record anew.
use Prim.Native.Nat.{max}
use Prim.Native.String.{String}
use mathlib.Core.Path.{ap₂}
use hiveguard.Prelude.{
  In, ℕ, ◌+◌, ◌≤◌, ◌≡◌, refl, sym, ap, ◌∙◌, arith, List, [], ◌∷◌, map, some, length, Option-cases,
  inl, inr, Bool, true, false, count,
}
use hiveguard.Prelude.Map.{lookup}
use hiveguard.Models.{BanRecord}
use hiveguard.Errors.{Result, ok, err}
use hiveguard.Errors.{result_cases}
use hiveguard.Crypto.{Bytes, bytes_eq}
use hiveguard.SignedRecord.{
  SignedBanRecord, Crates, SigningCache, new, sign_canonical, sign, cache_key, sign_keyed,
  sign_cached,
}
use hiveguard.SignedRecord.Cache.{IsTidy, remember-Remembered}

abbrev pub is_ok : Result SignedBanRecord → Bool
is_ok (ok s) = true
is_ok (err e) = false

module _ (crates : Crates) (node_id : String) (pkcs8 : Bytes) (difficulty : ℕ) where
  -- One node signs records with its cache, one after the other.
  unfoldable pub sign_all :
      List BanRecord → SigningCache → SigningCache × List (Result SignedBanRecord)
  sign_all [] c = (c, [])
  sign_all (r ∷ rs) c =
      let first = sign_cached crates r node_id pkcs8 difficulty c in
      let rest = sign_all rs first.0 in (rest.0, first.1 ∷ rest.1)

  abbrev pub fresh : BanRecord → Result SignedBanRecord
  fresh r = sign crates r node_id pkcs8 difficulty

  -- No two records of the list that differ have the same key: their encodings differ, and blake3
  -- does not collide on them.
  abbrev pub NoCollision : List BanRecord → Type 0
  NoCollision all =
      (a b : BanRecord) (x y : Bytes)
      → In a all
      → In b all
      → crates.serialize a ≡ some x
      → crates.serialize b ≡ some y
      → cache_key crates node_id difficulty x ≡ cache_key crates node_id difficulty y
      → a ≡ b

  -- An entry is the signature of a record of the list, under that record's key.
  Signs : List BanRecord → Bytes → SignedBanRecord → Type 0
  Signs all k s =
      (a : BanRecord) × (x : Bytes) × In a all
      × (crates.serialize a ≡ some x)
      × (cache_key crates node_id difficulty x ≡ k)
      × (fresh a ≡ Result.ok s)

  record IsFaithful (all : List BanRecord) (c : SigningCache) : Type 0 where
    tidy : IsTidy c
    signed : (k : Bytes) (s : SignedBanRecord) → lookup k c.entries ≡ some s → Signs all k s

  -- What one call gives.
  record Served (all : List BanRecord) (r : BanRecord) (c : SigningCache)
      (out : SigningCache × Result SignedBanRecord) : Type 0 where
    faithful : IsFaithful all out.0
    result : out.1 ≡ fresh r
    same_capacity : out.0.capacity ≡ c.capacity
    counted : out.0.hits + out.0.misses ≡ c.hits + c.misses + count is_ok (out.1 ∷ [])

  keyed-Served :
      (all : List BanRecord) (r : BanRecord) (x : Bytes) (c : SigningCache)
      → NoCollision all
      → In r all
      → crates.serialize r ≡ some x
      → IsFaithful all c
      → Served all r c
          (sign_keyed crates r x (cache_key crates node_id difficulty x) node_id pkcs8 difficulty c)
  unfolding sign_keyed sign Signs count
  keyed-Served all r x c apart among enc f =
      let key = cache_key crates node_id difficulty x in
      let direct : fresh r ≡ sign_canonical crates r x node_id pkcs8 difficulty =
        rw (sign, enc) refl in
      elim (Option-cases (lookup key c.entries)) [
        | inr (s, hit) ↦
            let (a, y, in_all, enc_a, key_a, signed_a) = f.signed key s hit in
            let same : a ≡ r = apart a r y x in_all among enc_a enc key_a in
            rw (sign_keyed, hit)
              (record {
                faithful = record {
                  tidy = record {
                    distinct = f.tidy.distinct;
                    listed = f.tidy.listed;
                    some_room = f.tidy.some_room;
                    within = f.tidy.within;
                  };
                  signed = f.signed;
                };
                result = sym signed_a ∙ ap fresh same;
                same_capacity = refl;
                counted = omega arith;
              })
        | inl miss ↦ elim (result_cases (sign_canonical crates r x node_id pkcs8 difficulty)) [
          | inl (s, done) ↦
              let m = remember-Remembered key s c miss f.tidy in
              rw (sign_keyed, miss)
                (rw (sign_keyed, done)
                  (record {
                    faithful = record {
                      tidy = m.tidy;
                      signed = λ k t h. elim (m.held k t h) [
                        | inl (is_key, is_s) ↦ (
                          r,
                          x,
                          among,
                          enc,
                          sym is_key,
                          direct ∙ done ∙ ap (λ q. Result.ok q) (sym is_s),
                        )
                        | inr old ↦ f.signed k t old
                      ];
                    };
                    result = sym done ∙ sym direct;
                    same_capacity = m.same_capacity;
                    counted = omega (arith, m.same_hits, m.one_miss);
                  }))
          | inr (e, failed) ↦
              rw (sign_keyed, miss)
                (rw (sign_keyed, failed)
                  (record {
                    faithful = f;
                    result = sym failed ∙ sym direct;
                    same_capacity = refl;
                    counted = omega arith;
                  }))
        ]
      ]

  cached-Served :
      (all : List BanRecord) (r : BanRecord) (c : SigningCache)
      → NoCollision all
      → In r all
      → IsFaithful all c
      → Served all r c (sign_cached crates r node_id pkcs8 difficulty c)
  unfolding sign_cached sign count
  cached-Served all r c apart among f = elim (Option-cases (crates.serialize r)) [
    | inl unencoded ↦
        rw (sign_cached, unencoded)
          (record {
            faithful = f;
            result = sym (rw (sign, unencoded) refl);
            same_capacity = refl;
            counted = omega arith;
          })
    | inr (x, enc) ↦ rw (sign_cached, enc) (keyed-Served all r x c apart among enc f)
  ]

  all-Served :
      (all rs : List BanRecord) (c : SigningCache)
      → NoCollision all
      → ((a : BanRecord) → In a rs → In a all)
      → IsFaithful all c
      → IsFaithful all (sign_all rs c).0
        × ((sign_all rs c).1 ≡ map fresh rs)
        × ((sign_all rs c).0.capacity ≡ c.capacity)
        × ((sign_all rs c).0.hits + (sign_all rs c).0.misses
            ≡ c.hits + c.misses + count is_ok (sign_all rs c).1)
  unfolding sign_all count
  all-Served all [] c apart sub f = (f, refl, refl, omega arith)
  all-Served all (r ∷ rs) c apart sub f =
      let s = cached-Served all r c apart (sub r (inl refl)) f in
      let d = (sign_cached crates r node_id pkcs8 difficulty c).0 in
      let (g, same, cap, n) = all-Served all rs d apart (λ a i. sub a (inr i)) s.faithful in
      (g, ap₂ (λ x xs. x ∷ xs) s.result same, cap ∙ s.same_capacity, omega (arith, n, s.counted))

  -- On any list of records on which the keys do not collide, a new cache hands out for each what
  -- signing it anew gives, errors included. It ends with at most its capacity of entries, at least
  -- one, and each success is counted once, as a hit or as a miss.
  pub sign_all-fresh :
      (capacity : ℕ) (rs : List BanRecord)
      → NoCollision rs
      → ((sign_all rs (new capacity)).1 ≡ map fresh rs)
        × (length (sign_all rs (new capacity)).0.entries ≤ max capacity 1)
        × ((sign_all rs (new capacity)).0.hits + (sign_all rs (new capacity)).0.misses
            ≡ count is_ok (sign_all rs (new capacity)).1)
  unfolding new lookup
  sign_all-fresh capacity rs apart =
      let start : IsFaithful rs (new capacity) = record {
        tidy = record {
          distinct = tt;
          listed = refl;
          some_room = omega arith;
          within = omega arith;
        };
        signed = λ k s h. absurd (ground (arith, h));
      } in
      let (g, same, cap, n) = all-Served rs rs (new capacity) apart (λ a i. i) start in
      (same, omega (arith, g.tidy.within, cap), omega (arith, n))
