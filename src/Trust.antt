-- ===== src/Trust.antt =====
-- hiveguard-core/src/trust.rs: the trust scores of the nodes. An `f64` is a type with the operations
-- that the source uses. Times are milliseconds; `now - joined_at >= d` is written
-- `joined_at + d <= now`.
pub mod Reports
pub mod Penalized
use Prim.Native.Nat.{min}
use Prim.Native.String.{String}
use hiveguard.Prelude.{
  ℕ, ◌+◌, ◌-◌, ◌*◌, ◌^◌, ◌≡◌, Bool, true, false, not, List, [], ◌∷◌, ◌++◌, map, Option, none, some,
  length, leb, ltb, if◌then◌else◌,
}
use hiveguard.Prelude.Eq.{string_eq}
use hiveguard.Prelude.Map.{HashMap, lookup, insert, remove}
use hiveguard.Prelude.OrdSet
use hiveguard.Prelude.StringOrd.{string_ord}

-- What is used of `f64`.
pub record Float (F : Type 0) : Type 0 where
  pub of_u64 : ℕ → F
  pub of_tenths : ℕ → F
  pub add : F → F → F
  pub mul : F → F → F
  pub div : F → F → F
  pub min_f : F → F → F
  pub max_f : F → F → F
  pub gt : F → F → Bool
  pub ge : F → F → Bool

pub record TrustScore (F : Type 0) : Type 0 where
  pub score : F
  pub true_positives : ℕ
  pub false_positives : ℕ
  pub joined_at : ℕ
  pub minority_penalties : ℕ

pub record BanReport (F : Type 0) : Type 0 where
  pub reporter_id : String
  pub event_weight : F

pub record TrustManager (F : Type 0) : Type 0 where
  pub trust_scores : HashMap String (TrustScore F)
  pub ban_threshold : F
  pub ip_reports : HashMap String (List (BanReport F))

abbrev pub day : ℕ
day = 24 * 3600 * 1000

-- The orders in which the maps of weights are gone through: one that the source makes anew for each
-- address that it asks for, and that a `HashMap` leaves open.
abbrev pub Order : Type 0 → Type 0
Order F = String → HashMap String F → HashMap String F

module _ {F : Type 0} (f : Float F) where
  unfoldable pub with_join_time : ℕ → TrustScore F
  with_join_time joined_at = record {
    score = f.of_tenths 5;
    true_positives = 0;
    false_positives = 0;
    joined_at = joined_at;
    minority_penalties = 0;
  }

  unfoldable pub founder : ℕ → TrustScore F
  founder now = record {
    score = f.of_tenths 10;
    true_positives = 100;
    false_positives = 0;
    joined_at = now - 30 * day;
    minority_penalties = 0;
  }

  unfoldable pub new : F → TrustManager F
  new ban_threshold = record { trust_scores = []; ban_threshold = ban_threshold; ip_reports = [] }

  -- `entry(node_id).or_insert_with(..)`
  unfoldable pub or_insert : String → TrustScore F → TrustManager F → TrustManager F
  or_insert node_id ts tm = elim (lookup node_id tm.trust_scores) [
    | some _ ↦ tm
    | none ↦ record tm { trust_scores = insert node_id ts tm.trust_scores }
  ]

  -- `register_node` and `register_node_with_time`; the first takes the present time.
  unfoldable pub register_node : String → ℕ → TrustManager F → TrustManager F
  register_node node_id joined_at = or_insert node_id (with_join_time joined_at)

  unfoldable pub register_founder_node : String → ℕ → TrustManager F → TrustManager F
  register_founder_node node_id now = or_insert node_id (founder now)

  unfoldable pub calculate_score : ℕ → ℕ → ℕ → ℕ → F
  calculate_score now tp fp joined_at =
      let base = f.div (f.of_u64 tp) (f.add (f.add (f.of_u64 tp) (f.of_u64 fp)) (f.of_tenths 10)) in
      let seniority_bonus =
        if leb (joined_at + 7 * day) now
        then f.of_tenths 2
        else if leb (joined_at + day) now
        then f.of_tenths 1
        else f.of_tenths 0 in
      f.min_f (f.add base seniority_bonus) (f.of_tenths 10)

  -- `get_mut`, and a change of what is there.
  unfoldable pub modify : String → (TrustScore F → TrustScore F) → TrustManager F → TrustManager F
  modify node_id change tm = elim (lookup node_id tm.trust_scores) [
    | none ↦ tm
    | some ts ↦ record tm { trust_scores = insert node_id (change ts) tm.trust_scores }
  ]

  unfoldable pub record_true_positive : ℕ → String → TrustManager F → TrustManager F
  record_true_positive now node_id = modify node_id (λ ts.
      let tp = ts.true_positives + 1 in
      record ts {
        true_positives = tp;
        score = calculate_score now tp ts.false_positives ts.joined_at;
      })

  unfoldable pub record_false_positive : ℕ → String → TrustManager F → TrustManager F
  record_false_positive now node_id = modify node_id (λ ts.
      let fp = ts.false_positives + 1 in
      record ts {
        false_positives = fp;
        score = calculate_score now ts.true_positives fp ts.joined_at;
      })

  unfoldable pub penalize_minority_reporter : String → TrustManager F → TrustManager F
  penalize_minority_reporter node_id = modify node_id (λ ts. record ts {
    minority_penalties = min (ts.minority_penalties + 1) (2 ^ 32 - 1);
    score = f.max_f (f.mul ts.score (f.of_tenths 9)) (f.of_tenths 1);
  })

  unfoldable pub sum_from : F → List F → F
  sum_from acc [] = acc
  sum_from acc (x ∷ xs) = sum_from (f.add acc x) xs

  -- The scores of the reporters that are known.
  unfoldable pub scores_of : TrustManager F → List String → List F
  scores_of tm [] = []
  scores_of tm (r ∷ rs) =
      let rest = scores_of tm rs in
      elim (lookup r tm.trust_scores) [ none ↦ rest | some ts ↦ ts.score ∷ rest ]

  unfoldable pub should_enforce : TrustManager F → List String → Bool
  should_enforce tm reporters =
      f.ge (sum_from (f.of_tenths 0) (scores_of tm reporters)) tm.ban_threshold

  unfoldable pub reports_on : TrustManager F → String → List (BanReport F)
  reports_on tm ip = elim (lookup ip tm.ip_reports) [ none ↦ [] | some reports ↦ reports ]

  unfoldable pub record_ban_report : String → String → F → TrustManager F → TrustManager F
  record_ban_report target_ip reporter_id event_weight tm =
      let report : BanReport F = record {
        reporter_id = reporter_id;
        event_weight = event_weight;
      } in
      record tm {
        ip_reports = insert target_ip (reports_on tm target_ip ++ (report ∷ [])) tm.ip_reports;
      }

  -- `entry(reporter).or_insert(0.0)`, raised to the report's weight.
  unfoldable pub raise_weight : BanReport F → HashMap String F → HashMap String F
  raise_weight report weights =
      let entry : F = elim (lookup report.reporter_id weights) [
        | none ↦ f.of_tenths 0
        | some w ↦ w
      ] in
      if f.gt report.event_weight entry
      then insert report.reporter_id report.event_weight weights
      else insert report.reporter_id entry weights

  unfoldable pub max_weight_per_reporter : List (BanReport F) → HashMap String F → HashMap String F
  max_weight_per_reporter [] weights = weights
  max_weight_per_reporter (report ∷ reports) weights =
      max_weight_per_reporter reports (raise_weight report weights)

  unfoldable pub weigh : HashMap String (TrustScore F) → String × F → F
  weigh scores (reporter, v) = elim (lookup reporter scores) [
    | none ↦ f.mul (f.of_tenths 0) v
    | some ts ↦ f.mul ts.score v
  ]

  -- What the sum over a map of weights adds up, in the order in which the map is gone through.
  unfoldable pub summands : Order F → TrustManager F → String → List F
  summands order tm target_ip =
      map (weigh tm.trust_scores)
        (order target_ip (max_weight_per_reporter (reports_on tm target_ip) []))

  unfoldable pub weighted_suspicion_score : Order F → TrustManager F → String → F
  weighted_suspicion_score order tm target_ip = elim (lookup target_ip tm.ip_reports) [
    | none ↦ f.of_tenths 0
    | some reports ↦ sum_from (f.of_tenths 0) (summands order tm target_ip)
  ]

  unfoldable pub should_global_ban : Order F → TrustManager F → String → Bool
  should_global_ban order tm target_ip =
      f.ge (weighted_suspicion_score order tm target_ip) tm.ban_threshold

  unfoldable pub clear_reports : String → TrustManager F → TrustManager F
  clear_reports target_ip tm = record tm { ip_reports = remove target_ip tm.ip_reports }

  -- `sort_unstable` and `dedup` of the reporters.
  unfoldable pub distinct_reporters : List (BanReport F) → List String
  distinct_reporters [] = []
  distinct_reporters (r ∷ rs) = OrdSet.insert r.reporter_id (distinct_reporters rs)

  unfoldable pub is_isolated : Order F → TrustManager F → ℕ → String × List (BanReport F) → Bool
  is_isolated order tm min_corroboration (ip, reports) =
      if should_global_ban order tm ip
      then false
      else ltb (length (distinct_reporters reports)) min_corroboration

  unfoldable pub to_penalize :
      Order F → TrustManager F → ℕ → HashMap String (List (BanReport F)) → List String
  to_penalize order tm min_corroboration [] = []
  to_penalize order tm min_corroboration (e ∷ m) =
      let rest = to_penalize order tm min_corroboration m in
      if is_isolated order tm min_corroboration e then e.0 ∷ rest else rest

  unfoldable pub penalize_all : List String → TrustManager F → TrustManager F
  penalize_all [] tm = tm
  penalize_all (r ∷ rs) tm = penalize_all rs (penalize_minority_reporter r tm)

  -- The loop over the IPs: their reports go, and every reporter of them is penalized.
  unfoldable pub drain_each : List String → TrustManager F → TrustManager F × List String
  drain_each [] tm = (tm, [])
  drain_each (ip ∷ ips) tm = elim (lookup ip tm.ip_reports) [
    | none ↦ drain_each ips tm
    | some reports ↦
        let distinct = distinct_reporters reports in
        let rest = drain_each ips (penalize_all distinct (clear_reports ip tm)) in
        (rest.0, distinct ++ rest.1)
  ]

  unfoldable pub drain_isolated_reports :
      Order F → ℕ → TrustManager F → TrustManager F × List String
  drain_isolated_reports order min_corroboration tm =
      drain_each (to_penalize order tm min_corroboration tm.ip_reports) tm

  -- An unknown node is in its grace period.
  unfoldable pub is_in_grace_period : ℕ → String → TrustManager F → Bool
  is_in_grace_period now node_id tm = elim (lookup node_id tm.trust_scores) [
    | none ↦ true
    | some ts ↦ ltb now (ts.joined_at + day)
  ]

  unfoldable pub effective_threshold : ℕ → String → TrustManager F → F
  effective_threshold now node_id tm =
      if is_in_grace_period now node_id tm
      then f.mul tm.ban_threshold (f.of_tenths 20)
      else tm.ban_threshold
