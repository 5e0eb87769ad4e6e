-- ===== src/Crdt/Invariant.antt =====
-- The well-formedness of a ban record, and that every operation keeps it.
use Prim.Native.String.{String}
use hiveguard.Prelude.{ℕ, ◌≡◌, refl, leb, List, [], length}
use hiveguard.Prelude.OrdSet.{IsSorted, insert-IsSorted, union-IsSorted}
use hiveguard.Prelude.StringOrd.{string_ord}
use hiveguard.Net.{IpNet}
use hiveguard.Hlc.{HlcTimestamp}
use hiveguard.Crdt.{CrdtBanRecord, new, merged, vote_tombstone, extend_ban, tombstone_quorum}

-- The sets are sets, and the tombstone flag says whether the votes reach the quorum.
pub record IsValid (r : CrdtBanRecord) : Type 0 where
  pub reporters_sorted : IsSorted r.reporters
  pub votes_sorted : IsSorted r.tombstone_reporters
  pub flag : r.tombstone ≡ leb tombstone_quorum (length r.tombstone_reporters)

pub new-IsValid :
    (now_ms : ℕ) (subject : IpNet) (severity : ℕ) (reason : String) (evidence : List ℕ)
    (reporter : String) (hlc : HlcTimestamp)
    → IsValid (new now_ms subject severity reason evidence reporter hlc).0
unfolding new
new-IsValid now_ms subject severity reason evidence reporter hlc = record {
  reporters_sorted = insert-IsSorted reporter [] tt;
  votes_sorted = tt;
  flag = refl;
}

pub merged-IsValid : (a b : CrdtBanRecord) → IsValid a → IsValid b → IsValid (merged a b)
unfolding merged
merged-IsValid a b va vb = record {
  reporters_sorted = union-IsSorted a.reporters b.reporters vb.reporters_sorted;
  votes_sorted = union-IsSorted a.tombstone_reporters b.tombstone_reporters vb.votes_sorted;
  flag = refl;
}

pub vote_tombstone-IsValid :
    (now_ms : ℕ) (node_id : String) (r : CrdtBanRecord) (hlc : HlcTimestamp)
    → IsValid r
    → IsValid (vote_tombstone now_ms node_id r hlc).0
unfolding vote_tombstone
vote_tombstone-IsValid now_ms node_id r hlc v = record {
  reporters_sorted = v.reporters_sorted;
  votes_sorted = insert-IsSorted node_id r.tombstone_reporters v.votes_sorted;
  flag = refl;
}

pub extend_ban-IsValid :
    (now_ms additional_ms : ℕ) (r : CrdtBanRecord) (hlc : HlcTimestamp)
    → IsValid r
    → IsValid (extend_ban now_ms additional_ms r hlc).0
unfolding extend_ban
extend_ban-IsValid now_ms additional_ms r hlc v = record {
  reporters_sorted = v.reporters_sorted;
  votes_sorted = v.votes_sorted;
  flag = v.flag;
}
