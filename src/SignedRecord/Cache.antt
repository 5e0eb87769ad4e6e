-- ===== src/SignedRecord/Cache.antt =====
-- The cache of signatures holds at most its capacity, and forgets the oldest entry first.
use mathlib.Core.Path.{subst}
use hiveguard.Prelude.{
  ◌⊎◌, suc, ◌+◌, ◌≤◌, ◌≡◌, refl, sym, ap, ◌∙◌, arith, List, [], ◌∷◌, ◌++◌, map, none, some, length,
  leb, leb→le, Option-cases, Bool-cases, inl, inr, if_true, if_false,
}
use hiveguard.Prelude.Map.{
  HashMap, Distinct, lookup, insert, remove, length-insert, insert-Distinct, insert-cases,
}
use hiveguard.Crypto.{Bytes, bytes_eq, bytes_beq, bytes_beq_iff}
use hiveguard.SignedRecord.{SignedBanRecord, SigningCache, evict_oldest, remember}

-- The keys of the entries, as the association list has them.
abbrev pub keys : HashMap Bytes SignedBanRecord → List Bytes
keys m = map (λ e. e.0) m

-- The order lists each key once, and there is room.
pub record IsTidy (c : SigningCache) : Type 0 where
  pub distinct : Distinct c.entries
  pub listed : keys c.entries ≡ c.insertion_order
  pub some_room : 1 ≤ c.capacity
  pub within : length c.entries ≤ c.capacity

keys-insert :
    (k : Bytes) (v : SignedBanRecord) (m : HashMap Bytes SignedBanRecord)
    → lookup k m ≡ none
    → keys (insert k v m) ≡ keys m ++ (k ∷ [])
unfolding lookup insert
keys-insert k v [] h = refl
keys-insert k v ((j, w) ∷ m) h = ground (arith, keys-insert k v m, h)

-- What an eviction leaves: the same entries but one, and a place.
record Evicted (c d : SigningCache) : Type 0 where
  tidy : IsTidy d
  same_capacity : d.capacity ≡ c.capacity
  same_hits : d.hits ≡ c.hits
  same_misses : d.misses ≡ c.misses
  place : suc (length d.entries) ≤ d.capacity
  fewer :
      (k : Bytes) (s : SignedBanRecord) → lookup k d.entries ≡ some s → lookup k c.entries ≡ some s

remove_head :
    (j : Bytes) (w : SignedBanRecord) (m : HashMap Bytes SignedBanRecord)
    → remove j ((j, w) ∷ m) ≡ m
unfolding remove bytes_eq
remove_head j w m = if_true (bytes_beq j j) m _ ((bytes_beq_iff j j).1 refl)

lookup-later :
    (j k : Bytes) (w s : SignedBanRecord) (m : HashMap Bytes SignedBanRecord)
    → lookup j m ≡ none
    → lookup k m ≡ some s
    → lookup k ((j, w) ∷ m) ≡ some s
unfolding lookup bytes_eq
lookup-later j k w s m d h = elim (Bool-cases (bytes_beq j k)) [
  | inl same ↦
      let e = ap (λ n. lookup n m) ((bytes_beq_iff j k).0 same) in absurd (ground (arith, e, d, h))
  | inr other ↦ if_false (bytes_beq j k) (some w) (lookup k m) other ∙ h
]

evicts :
    (entries : HashMap Bytes SignedBanRecord) (c : SigningCache)
    → IsTidy (record c { entries = entries; insertion_order = keys entries })
    → c.capacity ≤ length entries
    → Evicted
        (record c { entries = entries; insertion_order = keys entries })
        (evict_oldest (record c { entries = entries; insertion_order = keys entries }))
unfolding evict_oldest
evicts [] c t full = absurd (omega (arith, t.some_room))
evicts ((j, w) ∷ m) c t full =
    subst
      (λ n.
        Evicted (record c { entries = (j, w) ∷ m; insertion_order = keys ((j, w) ∷ m) })
          (record c { entries = n; insertion_order = keys m }))
      (sym (remove_head j w m))
      (record {
        tidy = record {
          distinct = t.distinct.1;
          listed = refl;
          some_room = t.some_room;
          within = omega (arith, t.within);
        };
        same_capacity = refl;
        same_hits = refl;
        same_misses = refl;
        place = t.within;
        fewer = λ k s h. lookup-later j k w s m t.distinct.0 h;
      })

evict_oldest-Evicted :
    (c : SigningCache) → IsTidy c → c.capacity ≤ length c.entries → Evicted c (evict_oldest c)
evict_oldest-Evicted c t full =
    subst
      (λ o.
        Evicted (record c { insertion_order = o })
          (evict_oldest (record c { insertion_order = o })))
      t.listed
      (evicts c.entries c
        (record {
          distinct = t.distinct;
          listed = refl;
          some_room = t.some_room;
          within = t.within;
        })
        full)

-- What `remember` leaves.
pub record Remembered (key : Bytes) (signed : SignedBanRecord) (c d : SigningCache) : Type 0 where
  pub tidy : IsTidy d
  pub same_capacity : d.capacity ≡ c.capacity
  pub same_hits : d.hits ≡ c.hits
  pub one_miss : d.misses ≡ suc c.misses
  pub held :
      (k : Bytes) (s : SignedBanRecord)
      → lookup k d.entries ≡ some s
      → ((k ≡ key) × (s ≡ signed)) ⊎ (lookup k c.entries ≡ some s)

-- An entry in a cache that has a place for it.
stored :
    (key : Bytes) (signed : SignedBanRecord) (c d : SigningCache)
    → lookup key c.entries ≡ none
    → IsTidy d
    → d.capacity ≡ c.capacity
    → d.hits ≡ c.hits
    → d.misses ≡ suc c.misses
    → suc (length d.entries) ≤ d.capacity
    → ((k : Bytes) (s : SignedBanRecord)
        → lookup k d.entries ≡ some s
        → lookup k c.entries ≡ some s)
    → Remembered key signed c (record d {
      insertion_order = d.insertion_order ++ (key ∷ []);
      entries = insert key signed d.entries;
    })
stored key signed c d new_key t cap hit miss place fewer =
    let absent : lookup key d.entries ≡ none = elim (Option-cases (lookup key d.entries)) [
      | inl gone ↦ gone
      | inr (s, there) ↦ absurd (ground (arith, fewer key s there, new_key))
    ] in
    record {
      tidy = record {
        distinct = insert-Distinct key signed d.entries t.distinct;
        listed = keys-insert key signed d.entries absent ∙ ap (λ o. o ++ (key ∷ [])) t.listed;
        some_room = t.some_room;
        within = ground (arith, length-insert key signed d.entries, absent, place);
      };
      same_capacity = cap;
      same_hits = hit;
      one_miss = miss;
      held = λ k s h. elim (insert-cases key k signed s d.entries h) [
        | inl (same, here) ↦ inl (sym same, sym here)
        | inr (other, there) ↦ inr (fewer k s there)
      ];
    }

pub remember-Remembered :
    (key : Bytes) (signed : SignedBanRecord) (c : SigningCache)
    → lookup key c.entries ≡ none
    → IsTidy c
    → Remembered key signed c (remember key signed c)
unfolding remember
remember-Remembered key signed c new_key t =
    let counted : SigningCache = record c { misses = c.misses + 1 } in
    let t' : IsTidy counted = record {
      distinct = t.distinct;
      listed = t.listed;
      some_room = t.some_room;
      within = t.within;
    } in
    elim (Bool-cases (leb counted.capacity (length counted.entries))) [
      | inl full ↦
          let x = evict_oldest-Evicted counted t' (leb→le _ _ full) in
          rw (remember, full)
            (stored key signed c (evict_oldest counted) new_key x.tidy x.same_capacity x.same_hits
              (x.same_misses ∙ omega arith) x.place x.fewer)
      | inr free ↦
          rw (remember, free)
            (stored key signed c counted new_key t' refl refl (omega arith) (ground (arith, free))
              (λ k s h. h))
    ]
