-- ===== src/Crdt/Merge.antt =====
-- The laws of `merge`: a join of records, up to the two fields that follow the last change.
use Prim.Native.Nat.{max}
use mathlib.Core.Option
use hiveguard.Prelude.{ℕ, ◌≡◌, ◌≢◌, arith, List, [], Option, none, some, ◌>>=◌, refl}
use Prim.Native.String.{String}
use hiveguard.Prelude.Ord
use hiveguard.Prelude.StringOrd.{string_ord}
use hiveguard.Prelude.OrdSet.{union_comm, union_assoc, union_idem}
use hiveguard.Net.{beq_iff}
use hiveguard.Hlc.Order.{hlc_ord}
use hiveguard.Crdt.{CrdtBanRecord, merged, merge, is_later}
use hiveguard.Crdt.Invariant.{IsValid}

-- What a record says, without the reason and the evidence.
unfoldable pub decision : CrdtBanRecord → CrdtBanRecord
decision r = record r { reason = ""; evidence_hash = [] }

-- The larger of two numbers, as the source's `max` on `u8`.
severity_comm : (a b : ℕ) → max a b ≡ max b a
severity_comm a b = omega arith

severity_assoc : (a b c : ℕ) → max (max a b) c ≡ max a (max b c)
severity_assoc a b c = omega arith

pub subject-merged : (a b : CrdtBanRecord) → (merged a b).subject ≡ a.subject
unfolding merged
subject-merged a b = refl

pub decision-merged_comm :
    (a b : CrdtBanRecord)
    → IsValid a
    → IsValid b
    → a.subject ≡ b.subject
    → decision (merged a b) ≡ decision (merged b a)
unfolding decision merged
decision-merged_comm a b va vb s = cc (
  severity_comm a.severity b.severity,
  Ord.max_comm a.ban_until b.ban_until,
  Ord.max_comm a.last_modified b.last_modified,
  Ord.min_comm a.first_seen b.first_seen,
  union_comm a.reporters b.reporters va.reporters_sorted vb.reporters_sorted,
  union_comm a.tombstone_reporters b.tombstone_reporters va.votes_sorted vb.votes_sorted,
)

pub merged_assoc :
    (a b c : CrdtBanRecord) → IsValid b → IsValid c → merged (merged a b) c ≡ merged a (merged b c)
unfolding merged is_later
merged_assoc a b c vb vc = cc (
  severity_assoc a.severity b.severity c.severity,
  Ord.max_assoc a.ban_until b.ban_until c.ban_until,
  Ord.max_assoc a.last_modified b.last_modified c.last_modified,
  Ord.min_assoc a.first_seen b.first_seen c.first_seen,
  Ord.pick_assoc a.last_modified b.last_modified c.last_modified a.reason b.reason c.reason,
  Ord.pick_assoc a.last_modified b.last_modified c.last_modified a.evidence_hash b.evidence_hash
      c.evidence_hash,
  union_assoc a.reporters b.reporters c.reporters vb.reporters_sorted vc.reporters_sorted,
  union_assoc a.tombstone_reporters b.tombstone_reporters c.tombstone_reporters vb.votes_sorted
      vc.votes_sorted,
)

-- Merging in either order gives the same answer in everything but the reason and the evidence;
-- either order refuses records of different subjects.
pub merge_comm :
    (a b : CrdtBanRecord)
    → IsValid a
    → IsValid b
    → Option.map decision (merge a b) ≡ Option.map decision (merge b a)
unfolding merge
merge_comm a b va vb = ground (
  arith,
  beq_iff a.subject b.subject,
  beq_iff b.subject a.subject,
  decision-merged_comm a b va vb,
)

merged_comm_distinct :
    (a b : CrdtBanRecord)
    → IsValid a
    → IsValid b
    → a.subject ≡ b.subject
    → a.last_modified ≢ b.last_modified
    → merged a b ≡ merged b a
unfolding merged is_later
merged_comm_distinct a b va vb s n = ground (
  arith,
  severity_comm a.severity b.severity,
  Ord.max_comm a.ban_until b.ban_until,
  Ord.max_comm a.last_modified b.last_modified,
  Ord.min_comm a.first_seen b.first_seen,
  Ord.gtb_swap a.last_modified b.last_modified n,
  union_comm a.reporters b.reporters va.reporters_sorted vb.reporters_sorted,
  union_comm a.tombstone_reporters b.tombstone_reporters va.votes_sorted vb.votes_sorted,
)

-- Where the two records were last modified at different timestamps, merging is commutative outright.
pub merge_comm_distinct :
    (a b : CrdtBanRecord)
    → IsValid a
    → IsValid b
    → a.last_modified ≢ b.last_modified
    → merge a b ≡ merge b a
unfolding merge
merge_comm_distinct a b va vb n = ground (
  arith,
  beq_iff a.subject b.subject,
  beq_iff b.subject a.subject,
  merged_comm_distinct a b va vb,
)

-- The reason and the evidence of a merged record.
abbrev pub chosen : Option CrdtBanRecord → Option (String × List ℕ)
chosen none = none
chosen (some r) = some (r.reason, r.evidence_hash)

-- Where two records of one subject carry the same modification timestamp and different reasons, the
-- two orders of merging give different records: each has the reason and the evidence of its own
-- first argument.
pub merge_tie :
    (a b : CrdtBanRecord)
    → a.subject ≡ b.subject
    → a.last_modified ≡ b.last_modified
    → a.reason ≢ b.reason
    → (chosen (merge a b) ≡ some (a.reason, a.evidence_hash))
      × (chosen (merge b a) ≡ some (b.reason, b.evidence_hash))
      × (merge a b ≢ merge b a)
unfolding merge merged is_later
merge_tie a b s t n =
    let ties = hlc_ord.cmp_self a.last_modified in
    let there = beq_iff a.subject b.subject in
    let back = beq_iff b.subject a.subject in
    (
      ground (arith, there, ties),
      ground (arith, back, ties),
      λ e. n (ground (arith, there, back, ties)),
    )

-- Merging is associative, in every field, and refuses the same triples.
pub merge_assoc :
    (a b c : CrdtBanRecord)
    → IsValid b
    → IsValid c
    → (merge a b >>= λ ab. merge ab c) ≡ (merge b c >>= λ bc. merge a bc)
unfolding merge
merge_assoc a b c vb vc = ground (
  arith,
  beq_iff a.subject b.subject,
  beq_iff b.subject c.subject,
  beq_iff a.subject c.subject,
  subject-merged a b,
  subject-merged b c,
  merged_assoc a b c vb vc,
)

pub merged_idem : (a : CrdtBanRecord) → IsValid a → merged a a ≡ a
unfolding merged is_later
merged_idem a v = ground (
  arith,
  hlc_ord.cmp_self a.last_modified,
  hlc_ord.cmp_self a.ban_until,
  hlc_ord.cmp_self a.first_seen,
  union_idem a.reporters v.reporters_sorted,
  union_idem a.tombstone_reporters v.votes_sorted,
  v.flag,
)

-- Merging a well-formed record with itself gives it back unchanged.
pub merge_idem : (a : CrdtBanRecord) → IsValid a → merge a a ≡ some a
unfolding merge
merge_idem a v = ground (arith, beq_iff a.subject a.subject, merged_idem a v)
