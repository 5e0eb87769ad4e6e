-- ===== src/BanStore/Invariant.antt =====
-- The invariant of the ban store, and that every operation keeps it.
use hiveguard.Prelude.{
  ℕ, zero, suc, ◌+◌, ◌-◌, ◌^◌, ◌<◌, ◌≡◌, refl, arith, true, false, [], ◌∷◌, length, get_or, count,
  All, if◌then◌else◌, Bool-cases, inl, inr, ◌∙◌, retain, count-le-length, length-retain, retain-All,
  replicate, sym, Option-cases, ltb, retain_all,
}
use hiveguard.Prelude.Map.{
  HashMap, Distinct, lookup, insert, remove, is_some, insert-Distinct, remove-Distinct,
  retain-Distinct, insert-All, remove-All, length-insert, length-remove, count-insert, count-remove,
  All-lookup,
}
use hiveguard.Net.{IpNet, net_eq}
use hiveguard.Models.{BanRecord}
use hiveguard.BanStore.{
  InMemoryBanStore, new, inc_prefix, dec_prefix, rebuild_prefix_counts, add_ban, remove_ban,
  cleanup_expired, is_live,
}
use hiveguard.BanStore.Counts.{
  is_v4, is_v6, IsBlock, Sized, inc_prefix-Sized, dec_prefix-Sized, inc_prefix_counts,
  dec_prefix_counts, count_keys_counts, count_keys-Sized, bans-count_keys, bans-inc_prefix,
  bans-dec_prefix,
}

-- The key of an entry is a block in normal form, and the subject of its record.
abbrev pub IsEntry : IpNet × BanRecord → Type 0
IsEntry e = IsBlock e.0 × (e.1.subject ≡ e.0)

-- No key stands twice, there are fewer than 2 ^ 32 bans, and at every prefix length the two arrays
-- hold the numbers of keys of that length.
pub record IsValid (s : InMemoryBanStore) : Type 0 where
  pub distinct : Distinct s.bans
  pub entries : All IsEntry s.bans
  pub few : length s.bans < 2 ^ 32
  pub sized : Sized s
  pub counts4 : (p : ℕ) → get_or s.v4_prefix_counts p 0 ≡ count (λ e. is_v4 p e.0) s.bans
  pub counts6 : (p : ℕ) → get_or s.v6_prefix_counts p 0 ≡ count (λ e. is_v6 p e.0) s.bans

get_or-replicate : (n p : ℕ) → get_or {A = ℕ} (replicate n 0) p 0 ≡ 0
get_or-replicate zero p = refl
get_or-replicate (suc n) zero = refl
get_or-replicate (suc n) (suc p) = get_or-replicate n p

pub new-IsValid : IsValid new
unfolding new count
new-IsValid = record {
  distinct = tt;
  entries = tt;
  few = omega arith;
  sized = record { len4 = refl; len6 = refl };
  counts4 = λ p. get_or-replicate 33 p;
  counts6 = λ p. get_or-replicate 129 p;
}

-- A store with other bans, one prefix count higher.
inc_prefix-IsValid :
    (n : IpNet) (s : InMemoryBanStore)
    → IsBlock n
    → Distinct s.bans
    → All IsEntry s.bans
    → length s.bans < 2 ^ 32
    → Sized s
    → ((p : ℕ) → get_or s.v4_prefix_counts p 0 + 1 < 2 ^ 32)
    → ((p : ℕ) → get_or s.v6_prefix_counts p 0 + 1 < 2 ^ 32)
    → ((p : ℕ)
        → count (λ e. is_v4 p e.0) s.bans
          ≡ get_or s.v4_prefix_counts p 0 + (if is_v4 p n then 1 else 0))
    → ((p : ℕ)
        → count (λ e. is_v6 p e.0) s.bans
          ≡ get_or s.v6_prefix_counts p 0 + (if is_v6 p n then 1 else 0))
    → IsValid (inc_prefix n s)
inc_prefix-IsValid n s b d es few z r4 r6 c4 c6 =
    let e = bans-inc_prefix n s in
    record {
      distinct = rw e d;
      entries = rw e es;
      few = rw e few;
      sized = inc_prefix-Sized n s z;
      counts4 = λ p. rw e ((inc_prefix_counts n s p b z (r4 p) (r6 p)).0 ∙ sym (c4 p));
      counts6 = λ p. rw e ((inc_prefix_counts n s p b z (r4 p) (r6 p)).1 ∙ sym (c6 p));
    }

module _ (r : BanRecord) (s : InMemoryBanStore) (v : IsValid s) (b : IsBlock r.subject) where
  overwrite-IsValid :
      is_some (lookup r.subject s.bans) ≡ true
      → IsValid (record s { bans = insert r.subject r s.bans })
  overwrite-IsValid old = record {
    distinct = insert-Distinct r.subject r s.bans v.distinct;
    entries = insert-All IsEntry r.subject r s.bans (b, refl) v.entries;
    few = ground (arith, length-insert r.subject r s.bans, v.few);
    sized = record { len4 = v.sized.len4; len6 = v.sized.len6 };
    counts4 = λ p. ground (arith, count-insert (is_v4 p) r.subject r s.bans, v.counts4 p);
    counts6 = λ p. ground (arith, count-insert (is_v6 p) r.subject r s.bans, v.counts6 p);
  }

  fresh-IsValid :
      is_some (lookup r.subject s.bans) ≡ false
      → length s.bans + 1 < 2 ^ 32
      → IsValid (inc_prefix r.subject (record s { bans = insert r.subject r s.bans }))
  fresh-IsValid fresh room =
      inc_prefix-IsValid r.subject (record s { bans = insert r.subject r s.bans }) b
        (insert-Distinct r.subject r s.bans v.distinct)
        (insert-All IsEntry r.subject r s.bans (b, refl) v.entries)
        (ground (arith, length-insert r.subject r s.bans))
        (record { len4 = v.sized.len4; len6 = v.sized.len6 })
        (λ p. omega (arith, v.counts4 p, count-le-length (λ e. is_v4 p e.0) s.bans))
        (λ p. omega (arith, v.counts6 p, count-le-length (λ e. is_v6 p e.0) s.bans))
        (λ p. ground (arith, count-insert (is_v4 p) r.subject r s.bans, v.counts4 p))
        (λ p. ground (arith, count-insert (is_v6 p) r.subject r s.bans, v.counts6 p))

-- Adding a ban whose subject is a block in normal form keeps the invariant, while there is room.
pub add_ban-IsValid :
    (r : BanRecord) (s : InMemoryBanStore)
    → IsValid s
    → IsBlock r.subject
    → length s.bans + 1 < 2 ^ 32
    → IsValid (add_ban r s)
unfolding add_ban
add_ban-IsValid r s v b h = elim (Bool-cases (is_some (lookup r.subject s.bans))) [
  | inl old ↦ rw (old, add_ban) (overwrite-IsValid r s v b old)
  | inr fresh ↦ rw (fresh, add_ban) (fresh-IsValid r s v b fresh h)
]

removed-IsValid :
    (n : IpNet) (s : InMemoryBanStore)
    → IsValid s
    → is_some (lookup n s.bans) ≡ true
    → IsBlock n
    → IsValid (dec_prefix n (record s { bans = remove n s.bans }))
removed-IsValid n s v here b =
    let s' : InMemoryBanStore = record s { bans = remove n s.bans } in
    let e = bans-dec_prefix n s' in
    let z : Sized s' = record { len4 = v.sized.len4; len6 = v.sized.len6 } in
    record {
      distinct = rw e (remove-Distinct n s.bans v.distinct);
      entries = rw e (remove-All IsEntry n s.bans v.entries);
      few = rw e (ground (arith, length-remove n s.bans, v.few));
      sized = dec_prefix-Sized n s' z;
      counts4 = λ p. rw e (
          (dec_prefix_counts n s' p b z).0
          ∙ ground (arith, count-remove (is_v4 p) n s.bans, v.counts4 p));
      counts6 = λ p. rw e (
          (dec_prefix_counts n s' p b z).1
          ∙ ground (arith, count-remove (is_v6 p) n s.bans, v.counts6 p));
    }

IsBlock-of_lookup :
    (n : IpNet) (s : InMemoryBanStore) → IsValid s → is_some (lookup n s.bans) ≡ true → IsBlock n
IsBlock-of_lookup n s v here = elim (Option-cases (lookup n s.bans)) [
  | inl miss ↦ absurd (ground (arith, here, miss))
  | inr (r, hit) ↦ (All-lookup IsEntry n s.bans v.entries hit).0
]

-- Removing a ban, present or not, keeps the invariant.
pub remove_ban-IsValid : (n : IpNet) (s : InMemoryBanStore) → IsValid s → IsValid (remove_ban n s).0
unfolding remove_ban
remove_ban-IsValid n s v = elim (Bool-cases (is_some (lookup n s.bans))) [
  | inl here ↦ rw (here, remove_ban) (removed-IsValid n s v here (IsBlock-of_lookup n s v here))
  | inr gone ↦ rw (gone, remove_ban) v
]

rebuilt-IsValid :
    (m : HashMap IpNet BanRecord) (s : InMemoryBanStore)
    → Distinct m
    → All IsEntry m
    → length m < 2 ^ 32
    → IsValid (rebuild_prefix_counts (record s { bans = m }))
unfolding rebuild_prefix_counts
rebuilt-IsValid m s d es few =
    let zeros : InMemoryBanStore = record {
      bans = m;
      v4_prefix_counts = replicate 33 0;
      v6_prefix_counts = replicate 129 0;
    } in
    let e = bans-count_keys m zeros in
    let z : Sized zeros = record { len4 = refl; len6 = refl } in
    let all = λ (p : ℕ).
      count_keys_counts m zeros (blocks m es) z p (omega (arith, get_or-replicate 33 p))
        (omega (arith, get_or-replicate 129 p)) in
    record {
      distinct = rw e d;
      entries = rw e es;
      few = rw e few;
      sized = count_keys-Sized m zeros z;
      counts4 = λ p. rw e (omega (arith, (all p).0, get_or-replicate 33 p));
      counts6 = λ p. rw e (omega (arith, (all p).1, get_or-replicate 129 p));
    }
  where
    blocks : (m : HashMap IpNet BanRecord) → All IsEntry m → All (λ e. IsBlock e.0) m
    blocks [] h = tt
    blocks (e ∷ m) h = (h.0.0, blocks m h.1)

-- A cleanup at any time keeps the invariant.
pub cleanup_expired-IsValid :
    (now : ℕ) (s : InMemoryBanStore) → IsValid s → IsValid (cleanup_expired now s).0
unfolding cleanup_expired
cleanup_expired-IsValid now s v =
    let live = λ (e : IpNet × BanRecord). is_live now e.1 in
    let kept = retain live s.bans in
    let d = retain-Distinct live s.bans v.distinct in
    let es = retain-All IsEntry live s.bans v.entries in
    let few : length kept < 2 ^ 32 =
      omega (arith, v.few, length-retain live s.bans, count-le-length live s.bans) in
    elim (Bool-cases (ltb 0 (length s.bans - length kept))) [
      | inl some_gone ↦ rw (some_gone, cleanup_expired) (rebuilt-IsValid kept s d es few)
      | inr none_gone ↦
          let same : kept ≡ s.bans =
            retain_all live s.bans
              (ground (arith, none_gone, length-retain live s.bans, count-le-length live s.bans)) in
          rw (none_gone, cleanup_expired) (rw same v)
    ]
