-- ===== src/Tests/Gossip.antt =====
-- hiveguard-net/src/gossip.rs: two nodes whose bans of a network make a quorum, and an exchange.
use hiveguard.Prelude.{ℕ, ◌≡◌, ◌⊎◌, inl, inr, refl, true, [], ◌∷◌, Option, none, some, In, All}
use hiveguard.Net.{IpNet}
use hiveguard.Models.{BanRecord, BanSource}
use hiveguard.Crypto.{Bytes, to_le_bytes, bytes_eq, bytes_beq, as_bytes, encode_utf8}
use hiveguard.Hashcash
use hiveguard.Hashcash.{has_leading_zeros, all_zero, compute_hash, high_mask}
use hiveguard.Prelude.{retain, any}
use hiveguard.Prelude.Map.{lookup, insert, remove}
use hiveguard.SignedRecord
use hiveguard.SignedRecord.{SignedBanRecord}
use hiveguard.AntiPoison.{RateLimiter, check_and_record, record_at, times_of, is_recent}
use hiveguard.Trust.{TrustManager, with_join_time, should_enforce, scores_of, sum_from}
use hiveguard.Gossip
use hiveguard.Gossip.{
  GossipAction, GossipConfig, handle_digest_exchange, handle_diff_request, compute_digest,
  record_key, take_inventory, join,
}
use hiveguard.Gossip.Digest
use hiveguard.Prelude.Sort.{sort, insert_sorted}
use hiveguard.Gossip.Filter.{
  handle_ban_sync_filtered_with_policy, is_quarantined, start, prune_reports, total, handle_each,
  handle_record, is_stale, admit_key, is_authentic, count_vote, vote, votes_on, is_newer, decision,
  minimum, min_from, expiries, charge, make_room, oldest,
}
use hiveguard.Gossip.Filter.Loop.{Call, receive, run}
use hiveguard.Gossip.Filter.Sizes
use hiveguard.Gossip.Filter.Sizes.{IsSmall}
use hiveguard.Gossip.Filter.Quorum
use hiveguard.Gossip.Filter.Quorum.{IsDecision}
use hiveguard.Tests.Codec.{sum}
use hiveguard.Tests.CratesLib.{crates, blake3, ed25519, hash}
use hiveguard.Tests.TextsLib.{texts, to_string, to_hex, strokes}
use hiveguard.Tests.Trust.{float}

abbrev pub ban : ℕ → Option ℕ → BanRecord
ban created expires = record {
  subject = IpNet.v4 5 8;
  created_at = created;
  expires_at = expires;
  severity = 5;
  reason = "test ban";
  evidence_hash = [];
  source = BanSource.manual_admin;
  geo_info = none;
}

abbrev pub signed : Bytes → BanRecord → SignedBanRecord
signed signature r = record {
  ban = r;
  signer_id = "n";
  signature = signature;
  pow = record { nonce = 0; difficulty = 16 };
}

abbrev pub first : SignedBanRecord
first = signed (9 ∷ 5 ∷ []) (ban 10 none)

abbrev second : SignedBanRecord
second = record (signed (8 ∷ 5 ∷ []) (ban 12 (some 90))) { signer_id = "m" }

abbrev manager : TrustManager ℕ
manager = record {
  trust_scores = ("n", with_join_time float 0) ∷ ("m", with_join_time float 0) ∷ [];
  ban_threshold = 8;
  ip_reports = [];
}

abbrev call : ℕ → SignedBanRecord → Call ℕ
call now s = record {
  now = now;
  records = s ∷ [];
  sender_id = s.signer_id;
  trust_manager = manager;
  ban_counts = [];
  peer_public_keys = ("n", 9 ∷ []) ∷ ("m", 8 ∷ []) ∷ [];
  eligible = λ _. true;
}

abbrev pub config : GossipConfig
config = record { fanout = 3; pow_difficulty = 16 }

abbrev limiter : RateLimiter
limiter = record { max_per_window = 4; window = 60000; entries = []; max_keys = 10 }

-- The second vote brings the decision, with the earlier creation and the expiry that one asks for.
applied :
    (receive float crates texts
      (call 20 second)
      (run float crates texts (call 15 first ∷ []) (Gossip.new "self" config, limiter))).1
    ≡ some (
        GossipAction.apply_bans
          (record (ban 10 (some 90)) { source = BanSource.cluster_peer "m" } ∷ []))
unfolding handle_ban_sync_filtered_with_policy is_quarantined start prune_reports total handle_each
    handle_record is_stale admit_key is_authentic count_vote vote votes_on is_newer decision minimum
    min_from expiries charge make_room oldest run Gossip.new sum crates blake3 ed25519 hash texts
    to_string strokes float lookup insert remove retain any with_join_time should_enforce scores_of
    sum_from check_and_record record_at times_of is_recent SignedRecord.verify Hashcash.verify
    has_leading_zeros all_zero compute_hash high_mask to_le_bytes bytes_eq bytes_beq
applied = refl

run_decides_example :
    All
      (IsDecision float crates texts (call 20 second) (call 20 second ∷ call 15 first ∷ []))
      (record (ban 10 (some 90)) { source = BanSource.cluster_peer "m" } ∷ [])
run_decides_example =
    Quorum.run_decides float crates texts "self" config limiter (call 15 first ∷ [])
      (call 20 second) (record (ban 10 (some 90)) { source = BanSource.cluster_peer "m" } ∷ [])
      applied

run-IsSmall_example :
    IsSmall
      (run float crates texts
        (call 20 second ∷ call 15 first ∷ [])
        (Gossip.new "self" config, limiter)).0.reports
      (run float crates texts
        (call 20 second ∷ call 15 first ∷ [])
        (Gossip.new "self" config, limiter)).0.accepted
run-IsSmall_example =
    Sizes.run-IsSmall float crates texts "self" config limiter (call 20 second ∷ call 15 first ∷ [])

abbrev elsewhere : BanRecord
elsewhere = record (ban 10 none) { subject = IpNet.v4 6 8 }

asked :
    handle_digest_exchange blake3 texts [] (ban 10 none ∷ []) "n"
    ≡ some (GossipAction.send_diff_request "n" (record_key blake3 texts (ban 10 none) ∷ []))
unfolding handle_digest_exchange compute_digest record_key take_inventory join sort insert_sorted
    blake3 hash sum texts to_string to_hex strokes as_bytes encode_utf8 bytes_beq
asked = refl

exchange_complete_example :
    In elsewhere (
      handle_diff_request blake3 texts
        (record_key blake3 texts (ban 10 none) ∷ [])
        (ban 10 none ∷ elsewhere ∷ []))
    ⊎ ((a : BanRecord) × In a (ban 10 none ∷ [])
        × (record_key blake3 texts a ≡ record_key blake3 texts elsewhere))
exchange_complete_example =
    Digest.exchange_complete blake3 texts (ban 10 none ∷ []) (ban 10 none ∷ elsewhere ∷ []) [] "n"
      (record_key blake3 texts (ban 10 none) ∷ []) asked elsewhere (inr (inl refl))
