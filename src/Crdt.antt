-- ===== src/Crdt.antt =====
-- hiveguard-core/src/crdt.rs: the ban record that nodes replicate, its merge and its updates.
-- A `HashSet` of node ids is the sorted list of its elements.
pub mod Invariant
pub mod Merge
pub mod Votes
pub mod Converge
use Prim.Native.Nat.{max}
use Prim.Native.String.{String}
use hiveguard.Prelude.{
  ℕ, ◌+◌, ◌*◌, ◌%◌, ◌^◌, Bool, true, false, not, ◌&&◌, List, [], ◌∷◌, Option, none, some, length,
  ltb, leb, if◌then◌else◌,
}
use hiveguard.Prelude.Ord
use hiveguard.Prelude.StringOrd.{string_ord}
use hiveguard.Prelude.OrdSet.{insert, union}
use hiveguard.Net.{IpNet, beq}
use hiveguard.Hlc
use hiveguard.Hlc.{HlcTimestamp, u64_mod}
use hiveguard.Hlc.Order.{hlc_ord}

pub record CrdtBanRecord : Type 0 where
  pub subject : IpNet
  pub first_seen : HlcTimestamp
  pub ban_until : HlcTimestamp
  pub severity : ℕ
  pub reporters : List String
  pub evidence_hash : List ℕ
  pub reason : String
  pub tombstone_reporters : List String
  pub tombstone : Bool
  pub last_modified : HlcTimestamp

-- `TOMBSTONE_QUORUM`
abbrev pub tombstone_quorum : ℕ
tombstone_quorum = 2

-- The default duration of a ban: 24 hours.
abbrev pub default_ban_ms : ℕ
default_ban_ms = 24 * 3600 * 1000

-- The record, and the ticked clock.
unfoldable pub new :
    ℕ → IpNet → ℕ → String → List ℕ → String → HlcTimestamp → CrdtBanRecord × HlcTimestamp
new now_ms subject severity reason evidence reporter hlc =
    let now = Hlc.tick now_ms hlc in
    (
      record {
        subject = subject;
        first_seen = now;
        ban_until = Hlc.new ((now.wall_time_ms + default_ban_ms) % u64_mod) 0 now.node_id_hash;
        severity = severity;
        reporters = insert reporter [];
        evidence_hash = evidence;
        reason = reason;
        tombstone_reporters = [];
        tombstone = false;
        last_modified = now;
      },
      now,
    )

-- `other.last_modified > self.last_modified`
unfoldable pub is_later : CrdtBanRecord → CrdtBanRecord → Bool
is_later other self = Ord.gtb other.last_modified self.last_modified

unfoldable pub merged : CrdtBanRecord → CrdtBanRecord → CrdtBanRecord
merged self other =
    let votes = union self.tombstone_reporters other.tombstone_reporters in
    record {
      subject = self.subject;
      first_seen = Ord.min self.first_seen other.first_seen;
      ban_until = Ord.max self.ban_until other.ban_until;
      severity = max self.severity other.severity;
      reporters = union self.reporters other.reporters;
      evidence_hash = if is_later other self then other.evidence_hash else self.evidence_hash;
      reason = if is_later other self then other.reason else self.reason;
      tombstone_reporters = votes;
      tombstone = leb tombstone_quorum (length votes);
      last_modified = Ord.max self.last_modified other.last_modified;
    }

-- `none` where the subjects differ.
unfoldable pub merge : CrdtBanRecord → CrdtBanRecord → Option CrdtBanRecord
merge self other = if not (beq self.subject other.subject) then none else some (merged self other)

unfoldable pub is_active : CrdtBanRecord → ℕ → Bool
is_active r current_time_ms = not r.tombstone && ltb current_time_ms r.ban_until.wall_time_ms

-- `tombstone`: the new record, and the ticked clock.
unfoldable pub vote_tombstone :
    ℕ → String → CrdtBanRecord → HlcTimestamp → CrdtBanRecord × HlcTimestamp
vote_tombstone now_ms node_id r hlc =
    let votes = insert node_id r.tombstone_reporters in
    let now = Hlc.tick now_ms hlc in
    (
      record r {
        tombstone_reporters = votes;
        tombstone = leb tombstone_quorum (length votes);
        last_modified = now;
      },
      now,
    )

-- `+=` on a `u64`, in a build without overflow checks.
unfoldable pub extend_ban : ℕ → ℕ → CrdtBanRecord → HlcTimestamp → CrdtBanRecord × HlcTimestamp
extend_ban now_ms additional_ms r hlc =
    let until = r.ban_until in
    let now = Hlc.tick now_ms hlc in
    (
      record r {
        ban_until = record until { wall_time_ms = (until.wall_time_ms + additional_ms) % u64_mod };
        last_modified = now;
      },
      now,
    )
