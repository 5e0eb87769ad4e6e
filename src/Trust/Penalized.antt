-- ===== src/Trust/Penalized.antt =====
-- Whom the scan for isolated reports penalizes.
use Prim.Native.String.{String}
use hiveguard.Prelude.{ℕ, Bool, false, ◌||◌, List, Option, none, some, any, length, leb}
use hiveguard.Prelude.Ord.{eqb}
use hiveguard.Prelude.StringOrd.{string_ord}
use hiveguard.Trust.{
  Float, Order, TrustManager, BanReport, weighted_suspicion_score, distinct_reporters,
}

module _ {F : Type 0} (f : Float F) where
  -- The node is the reporter of one of the reports.
  abbrev pub reported : String → List (BanReport F) → Bool
  reported node reports = any (λ (r : BanReport F). eqb r.reporter_id node) reports

  abbrev reported_in : String → Option (List (BanReport F)) → Bool
  reported_in node none = false
  reported_in node (some reports) = reported node reports

  -- An address stays if its score reaches the threshold or enough nodes reported it.
  abbrev pub stays : Order F → TrustManager F → ℕ → String → List (BanReport F) → Bool
  stays order tm k ip reports =
      f.ge (weighted_suspicion_score f order tm ip) tm.ban_threshold
      || leb k (length (distinct_reporters f reports))
