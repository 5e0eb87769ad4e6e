-- ===== src/CtiCache/Bounds.antt =====
-- The cache's size, and what it answers.
use hiveguard.Prelude.{
  ℕ, zero, suc, ◌+◌, ◌-◌, ◌/◌, ◌≤◌, ◌≡◌, refl, ap, ◌∙◌, arith, Bool, true, List, [], ◌∷◌, map,
  Option, none, some, All, length, take, leb, ltb, Bool-cases, Option-cases, inl, inr,
  if◌then◌else◌,
}
use Prim.Native.Nat.{max}
use hiveguard.Prelude.Map.{
  HashMap, lookup, remove, is_some, length-insert, length-remove, lookup-insert_self,
}
use hiveguard.Net.{IpAddr, addr_eq}
use hiveguard.CtiCache.{
  CtiCache, Entry, AbuseIpReport, is_expired, get, insert, evict_oldest, remove_all, sort_by_time,
  insert_by_time,
}

length-remove_all :
    (ks : List (IpAddr × ℕ)) (m : HashMap IpAddr Entry) → length (remove_all ks m) ≤ length m
unfolding remove_all
length-remove_all [] m = omega arith
length-remove_all (k ∷ ks) m =
    omega (arith, length-remove_all ks (remove k.0 m), length-remove k.0 m)

-- The entry is there.
abbrev IsIn : HashMap IpAddr Entry → IpAddr × ℕ → Type 0
IsIn m k = is_some (lookup k.0 m) ≡ true

insert_by_time-All :
    (m : HashMap IpAddr Entry) (k : IpAddr × ℕ) (ks : List (IpAddr × ℕ))
    → IsIn m k
    → All (IsIn m) ks
    → All (IsIn m) (insert_by_time k ks)
unfolding insert_by_time
insert_by_time-All m k [] h a = (h, tt)
insert_by_time-All m k (j ∷ js) h a = elim (Bool-cases (leb k.1 j.1)) [
  | inl first ↦ rw first (h, a)
  | inr later ↦ rw later (a.0, insert_by_time-All m k js h a.1)
]

sort_by_time-All :
    (m : HashMap IpAddr Entry) (ks : List (IpAddr × ℕ))
    → All (IsIn m) ks
    → All (IsIn m) (sort_by_time ks)
unfolding sort_by_time
sort_by_time-All m [] a = tt
sort_by_time-All m (k ∷ ks) a =
    insert_by_time-All m k (sort_by_time ks) a.0 (sort_by_time-All m ks a.1)

length-insert_by_time :
    (k : IpAddr × ℕ) (ks : List (IpAddr × ℕ)) → length (insert_by_time k ks) ≡ suc (length ks)
unfolding insert_by_time
length-insert_by_time k [] = refl
length-insert_by_time k (j ∷ js) = ground (arith, length-insert_by_time k js)

length-sort_by_time : (ks : List (IpAddr × ℕ)) → length (sort_by_time ks) ≡ length ks
unfolding sort_by_time
length-sort_by_time [] = refl
length-sort_by_time (k ∷ ks) =
    omega (arith, length-insert_by_time k (sort_by_time ks), length-sort_by_time ks)

abbrev times : HashMap IpAddr Entry → List (IpAddr × ℕ)
times m = map (λ e. (e.0, e.1.fetched_at_unix)) m

length-times : (m : HashMap IpAddr Entry) → length (times m) ≡ length m
length-times [] = refl
length-times (e ∷ m) = omega (arith, length-times m)

still_there :
    (j : IpAddr) (e : Entry) (m : HashMap IpAddr Entry) (ks : List (IpAddr × ℕ))
    → All (IsIn m) ks
    → All (IsIn ((j, e) ∷ m)) ks
unfolding lookup
still_there j e m [] a = tt
still_there j e m (k ∷ ks) a = (ground (arith, a.0), still_there j e m ks a.1)

times-All : (m : HashMap IpAddr Entry) → All (IsIn m) (times m)
unfolding lookup
times-All [] = tt
times-All ((j, e) ∷ m) =
    (ground (arith, addr_eq.beq_iff j j), still_there j e m (times m) (times-All m))

-- Removing at least one key that is there makes the map smaller.
remove_first :
    (n : ℕ) (ks : List (IpAddr × ℕ)) (m : HashMap IpAddr Entry)
    → 1 ≤ n
    → 1 ≤ length ks
    → All (IsIn m) ks
    → length (remove_all (take n ks) m) + 1 ≤ length m
unfolding remove_all
remove_first zero ks m h l a = absurd (omega arith)
remove_first (suc n) [] m h l a = absurd (omega arith)
remove_first (suc n) (k ∷ ks) m h l a =
    ground (arith, a.0, length-remove k.0 m, length-remove_all (take n ks) (remove k.0 m))

evict_oldest_smaller :
    (c : CtiCache) → 1 ≤ length c.entries → length (evict_oldest c).entries + 1 ≤ length c.entries
unfolding evict_oldest
evict_oldest_smaller c h =
    remove_first (max (c.max_entries / 10) 1) (sort_by_time (times c.entries)) c.entries
      (omega arith) (omega (arith, length-sort_by_time (times c.entries), length-times c.entries))
      (sort_by_time-All c.entries (times c.entries) (times-All c.entries))

more_or_same : (b : Bool) → (if b then 0 else 1) ≤ 1
more_or_same b = ground arith

-- An insertion never takes a cache past its capacity, if that is not 0.
pub insert_bound :
    (now : ℕ) (ip : IpAddr) (report : AbuseIpReport) (c : CtiCache)
    → 1 ≤ c.max_entries
    → length c.entries ≤ c.max_entries
    → length (insert now ip report c).entries ≤ c.max_entries
unfolding insert
insert_bound now ip report c cap h =
    let e : Entry = record { report = report; fetched_at_unix = now } in
    elim (Bool-cases (leb c.max_entries (length c.entries))) [
      | inl full ↦
          let m = (evict_oldest c).entries in
          rw (insert, full)
            (omega (
              arith,
              length-insert ip e m,
              more_or_same (is_some (lookup ip m)),
              evict_oldest_smaller c (ground (arith, full)),
            ))
      | inr room ↦
          rw (insert, room)
            (ground (
              arith,
              room,
              length-insert ip e c.entries,
              more_or_same (is_some (lookup ip c.entries)),
            ))
    ]

-- What a lookup answers of an entry.
unfoldable pub answer : ℕ → ℕ → Option Entry → Option AbuseIpReport
answer now ttl none = none
answer now ttl (some e) = if ltb (now - e.fetched_at_unix) ttl then some e.report else none

pub get_lem :
    (now : ℕ) (ip : IpAddr) (c : CtiCache)
    → (get now ip c).1 ≡ answer now c.ttl (lookup ip c.entries)
unfolding get answer is_expired
get_lem now ip c = elim (Option-cases (lookup ip c.entries)) [
  | inl miss ↦ rw (get, miss) refl
  | inr (e, hit) ↦ rw (get, hit) (ground arith)
]

lookup-insert_ip :
    (now : ℕ) (ip : IpAddr) (report : AbuseIpReport) (c : CtiCache)
    → lookup ip (insert now ip report c).entries
      ≡ some (record { report = report; fetched_at_unix = now })
unfolding insert
lookup-insert_ip now ip report c = lookup-insert_self ip _ _

ttl-insert :
    (now : ℕ) (ip : IpAddr) (report : AbuseIpReport) (c : CtiCache)
    → (insert now ip report c).ttl ≡ c.ttl
unfolding insert evict_oldest
ttl-insert now ip report c = ground arith

-- After an insertion the cache answers for the address with the new report, for as long as the
-- time to live lasts, and with nothing from then on.
pub get-insert :
    (now later : ℕ) (ip : IpAddr) (report : AbuseIpReport) (c : CtiCache)
    → (get later ip (insert now ip report c)).1
      ≡ (if ltb (later - now) c.ttl then some report else none)
unfolding answer
get-insert now later ip report c =
    get_lem later ip (insert now ip report c)
    ∙ ap (answer later (insert now ip report c).ttl) (lookup-insert_ip now ip report c)
    ∙ ap (λ t. if ltb (later - now) t then some report else none) (ttl-insert now ip report c)
