-- ===== src/Tests/Crdt.antt =====
-- hiveguard-core/src/crdt.rs at concrete records.
use mathlib.Core.List.{Permᴰ}
use text.Mathlib.TextEquality.{eq_iff}
use hiveguard.Prelude.{inl, ◌≤◌, length, any, ◌≢◌, ◌≡◌, refl, arith, true, false, [], ◌∷◌, some}
use hiveguard.Prelude.OrdSet.{insert, union}
use hiveguard.Prelude.StringOrd.{string_ord}
use hiveguard.Net.{IpNet, beq}
use hiveguard.Hlc
use hiveguard.Hlc.{HlcTimestamp}
use hiveguard.Crdt.{tombstone_quorum, CrdtBanRecord, merge, merged, is_later}
use hiveguard.Crdt.Invariant.{IsValid}
use hiveguard.Crdt.Merge
use hiveguard.Crdt.Merge.{decision, chosen}
use hiveguard.Crdt.Votes
use hiveguard.Crdt.Votes.{votes_by, vote_all, is_other}
use hiveguard.Crdt.Converge
use hiveguard.Crdt.Converge.{merge_all}

abbrev clock : HlcTimestamp
clock = record { wall_time_ms = 1000; counter = 0; node_id_hash = 1 }

abbrev net : IpNet
net = IpNet.v4 167772161 32

abbrev rec_a : CrdtBanRecord
rec_a = record {
  subject = net;
  first_seen = record clock { wall_time_ms = 2000 };
  ban_until = record clock { wall_time_ms = 86402000 };
  severity = 100;
  reporters = "node-a" ∷ [];
  evidence_hash = [];
  reason = "a saw it";
  tombstone_reporters = "node-x" ∷ [];
  tombstone = false;
  last_modified = record clock { wall_time_ms = 2000 };
}

abbrev rec_b : CrdtBanRecord
rec_b = record rec_a {
  severity = 150;
  reporters = "node-b" ∷ [];
  reason = "b saw it";
  tombstone_reporters = [];
  last_modified = record clock { wall_time_ms = 3000 };
}

abbrev rec_c : CrdtBanRecord
rec_c = record rec_b { reason = "c saw it"; reporters = "node-c" ∷ [] }

IsValid-a : IsValid rec_a
IsValid-a = record { reporters_sorted = (tt, tt); votes_sorted = (tt, tt); flag = refl }

IsValid-b : IsValid rec_b
IsValid-b = record { reporters_sorted = (tt, tt); votes_sorted = tt; flag = refl }

IsValid-c : IsValid rec_c
IsValid-c = record { reporters_sorted = (tt, tt); votes_sorted = tt; flag = refl }

-- The later record lends its reason, and the reporters are united.
abbrev rec_ab : CrdtBanRecord
rec_ab = record rec_b { reporters = "node-a" ∷ "node-b" ∷ []; tombstone_reporters = "node-x" ∷ [] }

merge_ab : merge rec_a rec_b ≡ some rec_ab
unfolding merge merged union insert is_later Hlc.cmp beq
merge_ab = refl

abbrev lifted : CrdtBanRecord
lifted = record rec_a { tombstone_reporters = "node-x" ∷ "node-y" ∷ []; tombstone = true }

lifted-IsValid : IsValid lifted
lifted-IsValid = record {
  reporters_sorted = (tt, tt);
  votes_sorted = ((refl, tt), (tt, tt));
  flag = refl;
}

abbrev lifted_b : CrdtBanRecord
lifted_b = record rec_b {
  reporters = "node-a" ∷ "node-b" ∷ [];
  tombstone_reporters = "node-x" ∷ "node-y" ∷ [];
  tombstone = true;
}

merge-lifted : merge lifted rec_b ≡ some lifted_b
unfolding merge merged union insert is_later Hlc.cmp beq
merge-lifted = refl

merge_keeps_quorum_example :
    (lifted_b.tombstone ≡ true) × (tombstone_quorum ≤ length lifted_b.tombstone_reporters)
merge_keeps_quorum_example =
    Votes.merge_keeps_quorum lifted rec_b lifted-IsValid.votes_sorted tt merge-lifted
      (inl (omega arith))

vote_all_decides_example :
    (vote_all ((4000, "node-z") ∷ (4500, "node-z") ∷ (5000, "node-y") ∷ []) rec_b clock).tombstone
    ≡ any (is_other "node-z") ((4500, "node-z") ∷ (5000, "node-y") ∷ [])
vote_all_decides_example =
    Votes.vote_all_decides 4000 "node-z" ((4500, "node-z") ∷ (5000, "node-y") ∷ []) rec_b clock refl

merge_all_converge_example :
    (m n : CrdtBanRecord) × (merge_all rec_a (rec_b ∷ rec_c ∷ []) ≡ some m)
    × (merge_all rec_b (rec_a ∷ rec_c ∷ []) ≡ some n)
    × (decision m ≡ decision n)
merge_all_converge_example = Converge.merge_all_converge net rec_a rec_b (Permᴰ.swap refl refl) (
  record { valid = IsValid-a; same_subject = refl },
  (
    record { valid = IsValid-b; same_subject = refl },
    (record { valid = IsValid-c; same_subject = refl }, tt),
  ),
)

other_reason : rec_b.reason ≢ rec_c.reason
other_reason h = absurd (ground (arith, (eq_iff "b saw it" "c saw it").1 h))

merge_tie_example :
    (chosen (merge rec_b rec_c) ≡ some (rec_b.reason, rec_b.evidence_hash))
    × (chosen (merge rec_c rec_b) ≡ some (rec_c.reason, rec_c.evidence_hash))
    × (merge rec_b rec_c ≢ merge rec_c rec_b)
merge_tie_example = Merge.merge_tie rec_b rec_c refl refl other_reason
