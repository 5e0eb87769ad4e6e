-- ===== src/Crdt/Votes.antt =====
-- The tombstone quorum: who can lift a ban.
use Prim.Native.String.{String}
use hiveguard.Prelude.{
  Bool, not, any, leb, sym, ap, if_true, if_false, ◌≤◌, ◌∙◌, inl, inr, Bool-cases, ℕ, ◌+◌, ◌<◌, ◌≡◌,
  ◌≢◌, ◌⊎◌, arith, List, [], ◌∷◌, some, true, false, length, ◌||◌,
}
use mathlib.Core.Path.{subst}
use hiveguard.Prelude.Ord.{eqb}
use hiveguard.Prelude.StringOrd.{string_ord}
use hiveguard.Prelude.OrdSet.{
  IsSorted, contains, contains-insert, insert, insert-IsSorted, length-insert, length-insert-le,
  length-union, two_of_contains,
}
use hiveguard.Hlc.{HlcTimestamp, u64_mod}
use hiveguard.Hlc
use hiveguard.Hlc.Order.{hlc_ord}
use hiveguard.Crdt.{
  CrdtBanRecord, merged, merge, is_active, vote_tombstone, extend_ban, tombstone_quorum,
}
use hiveguard.Crdt.Invariant.{IsValid}

-- A quorum of tombstone votes that either replica holds survives every merge: the merged record is
-- tombstoned, and holds a quorum itself. The sets of votes are kept sorted.
pub merge_keeps_quorum :
    (a b : CrdtBanRecord) {m : CrdtBanRecord}
    → IsSorted a.tombstone_reporters
    → IsSorted b.tombstone_reporters
    → merge a b ≡ some m
    → (tombstone_quorum ≤ length a.tombstone_reporters)
      ⊎ (tombstone_quorum ≤ length b.tombstone_reporters)
    → (m.tombstone ≡ true) × (tombstone_quorum ≤ length m.tombstone_reporters)
unfolding merge merged
merge_keeps_quorum a b sa sb e h =
    let larger = length-union a.tombstone_reporters b.tombstone_reporters sa sb in
    (ground (arith, larger), ground (arith, larger))

-- While the merged record has no effective tombstone, the merged ban is active exactly as long as
-- one of the two bans is.
pub is_active-merge :
    (a b : CrdtBanRecord) {m : CrdtBanRecord} (time_ms : ℕ)
    → IsValid a
    → IsValid b
    → merge a b ≡ some m
    → m.tombstone ≡ false
    → is_active m time_ms ≡ (is_active a time_ms || is_active b time_ms)
unfolding merge merged is_active Hlc.cmp
is_active-merge a b time_ms va vb e h = ground (
  arith,
  va.flag,
  vb.flag,
  length-union a.tombstone_reporters b.tombstone_reporters va.votes_sorted vb.votes_sorted,
)

-- `vote_tombstone` by one node, at each of the given times.
pub votes_by : String → List ℕ → CrdtBanRecord → HlcTimestamp → CrdtBanRecord
votes_by node_id [] r hlc = r
votes_by node_id (now_ms ∷ times) r hlc =
    votes_by node_id times (vote_tombstone now_ms node_id r hlc).0
      (vote_tombstone now_ms node_id r hlc).1

insert_self : (node_id : String) → insert node_id (insert node_id []) ≡ insert node_id []
unfolding insert
insert_self node_id = ground (arith, string_ord.cmp_self node_id)

length-insert_nil : (node_id : String) → length (insert node_id []) ≡ 1
unfolding insert
length-insert_nil node_id = omega arith

after_own_vote :
    (node_id : String) (times : List ℕ) (r : CrdtBanRecord) (hlc : HlcTimestamp)
    → r.tombstone_reporters ≡ insert node_id []
    → r.tombstone ≡ false
    → (votes_by node_id times r hlc).tombstone ≡ false
unfolding votes_by vote_tombstone
after_own_vote node_id [] r hlc e f = f
after_own_vote node_id (now_ms ∷ times) r hlc e f =
    after_own_vote node_id times (vote_tombstone now_ms node_id r hlc).0
      (vote_tombstone now_ms node_id r hlc).1 (ground (arith, insert_self node_id))
      (ground (arith, insert_self node_id, length-insert_nil node_id))

-- One node alone, however often and whenever it votes, never gives a ban without earlier votes an
-- effective tombstone.
pub votes_by_one_node :
    (node_id : String) (times : List ℕ) (r : CrdtBanRecord) (hlc : HlcTimestamp)
    → IsValid r
    → r.tombstone_reporters ≡ []
    → (votes_by node_id times r hlc).tombstone ≡ false
unfolding votes_by vote_tombstone
votes_by_one_node node_id [] r hlc v e = ground (arith, v.flag)
votes_by_one_node node_id (now_ms ∷ times) r hlc v e =
    after_own_vote node_id times (vote_tombstone now_ms node_id r hlc).0
      (vote_tombstone now_ms node_id r hlc).1 (ground arith)
      (ground (arith, length-insert_nil node_id))

-- After the votes of two different nodes, at whatever times, a ban has an effective tombstone.
pub votes_by_two_nodes :
    (now_ms later_ms : ℕ) (n m : String) (r : CrdtBanRecord) (hlc : HlcTimestamp)
    → IsValid r
    → n ≢ m
    → (vote_tombstone later_ms m
        (vote_tombstone now_ms n r hlc).0
        (vote_tombstone now_ms n r hlc).1).0.tombstone
      ≡ true
unfolding vote_tombstone
votes_by_two_nodes now_ms later_ms n m r hlc v d =
    let xs = r.tombstone_reporters in
    ground (
      arith,
      two_of_contains n m (insert m (insert n xs)),
      contains-insert m n (insert n xs),
      contains-insert m m (insert n xs),
      contains-insert n n xs,
      string_ord.cmp_self n,
      string_ord.cmp_self m,
      d,
    )

-- A ban extended by some time, with an end that fits the clock's range, is active at a time exactly
-- if it was active that much earlier.
pub is_active-extend_ban :
    (now_ms additional_ms time_ms : ℕ) (r : CrdtBanRecord) (hlc : HlcTimestamp)
    → r.ban_until.wall_time_ms + additional_ms < u64_mod
    → is_active (extend_ban now_ms additional_ms r hlc).0 (time_ms + additional_ms)
      ≡ is_active r time_ms
unfolding is_active extend_ban
is_active-extend_ban now_ms additional_ms time_ms r hlc h = ground arith

-- `vote_tombstone` by each of the given nodes, at the time beside it.
unfoldable pub vote_all : List (ℕ × String) → CrdtBanRecord → HlcTimestamp → CrdtBanRecord
vote_all [] r hlc = r
vote_all (v ∷ votes) r hlc =
    vote_all votes (vote_tombstone v.0 v.1 r hlc).0 (vote_tombstone v.0 v.1 r hlc).1

-- Further votes do not undo a quorum.
vote_all_keeps :
    (votes : List (ℕ × String)) (r : CrdtBanRecord) (hlc : HlcTimestamp)
    → IsSorted r.tombstone_reporters
    → 2 ≤ length r.tombstone_reporters
    → r.tombstone ≡ true
    → (vote_all votes r hlc).tombstone ≡ true
unfolding vote_all vote_tombstone
vote_all_keeps [] r hlc sorted enough t = t
vote_all_keeps (v ∷ votes) r hlc sorted enough t =
    let more = length-insert-le v.1 r.tombstone_reporters sorted in
    vote_all_keeps votes (vote_tombstone v.0 v.1 r hlc).0 (vote_tombstone v.0 v.1 r hlc).1
      (insert-IsSorted v.1 r.tombstone_reporters sorted) (omega (arith, more))
      (ground (arith, more))

insert_same : (n m : String) → eqb n m ≡ true → insert m (n ∷ []) ≡ n ∷ []
unfolding insert
insert_same n m e =
    ground (arith, string_ord.same_of_eq n m, string_ord.cmp_self n, string_ord.cmp_self m)

length-insert_other : (n m : String) → eqb n m ≡ false → length (insert m (n ∷ [])) ≡ 2
unfolding contains
length-insert_other n m e = ground (arith, length-insert m (n ∷ []) (tt, tt))

-- Whether a vote is that of another node.
abbrev pub is_other : String → ℕ × String → Bool
is_other n v = not (eqb n v.1)

vote_all_alone :
    (n : String) (votes : List (ℕ × String)) (r : CrdtBanRecord) (hlc : HlcTimestamp)
    → r.tombstone_reporters ≡ n ∷ []
    → r.tombstone ≡ false
    → (vote_all votes r hlc).tombstone ≡ any (is_other n) votes
unfolding vote_all vote_tombstone any
vote_all_alone n [] r hlc only f = f
vote_all_alone n (v ∷ votes) r hlc only f =
    let r' = (vote_tombstone v.0 v.1 r hlc).0 in
    let hlc' = (vote_tombstone v.0 v.1 r hlc).1 in
    elim (Bool-cases (eqb n v.1)) [
      | inl same ↦
          let still = ap (insert v.1) only ∙ insert_same n v.1 same in
          vote_all_alone n votes r' hlc' still (ap (λ xs. leb 2 (length xs)) still)
          ∙ sym (if_false _ true (any (is_other n) votes) (ap not same))
      | inr other ↦
          let two = ap (λ xs. length (insert v.1 xs)) only ∙ length-insert_other n v.1 other in
          vote_all_keeps votes r' hlc'
            (insert-IsSorted v.1 r.tombstone_reporters (subst IsSorted (sym only) (tt, tt)))
            (omega (arith, two)) (ap (leb 2) two)
          ∙ sym (if_true _ true (any (is_other n) votes) (ap not other))
    ]

-- A ban that nobody voted on has an effective tombstone after a run of votes exactly if they are
-- those of at least two different nodes: one node, however often and whenever it votes, is not
-- enough, and nothing that comes after the vote of a second one undoes it.
pub vote_all_decides :
    (now_ms : ℕ) (n : String) (votes : List (ℕ × String)) (r : CrdtBanRecord) (hlc : HlcTimestamp)
    → r.tombstone_reporters ≡ []
    → (vote_all ((now_ms, n) ∷ votes) r hlc).tombstone ≡ any (is_other n) votes
unfolding vote_all vote_tombstone insert
vote_all_decides now_ms n votes r hlc nobody =
    vote_all_alone n votes (vote_tombstone now_ms n r hlc).0 (vote_tombstone now_ms n r hlc).1
      (ap (insert n) nobody) (ap (λ xs. leb 2 (length (insert n xs))) nobody)
