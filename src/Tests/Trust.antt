-- ===== src/Tests/Trust.antt =====
-- hiveguard-core/src/trust.rs: trust scores, with tenths in place of floating-point numbers.
use Prim.Native.Nat.{min, max}
use mathlib.Core.List.{Permᴰ, reverse}
use mathlib.Core.List.Permᴰ
use hiveguard.Prelude.{ℕ, ◌+◌, ◌*◌, ◌/◌, List, [], ◌∷◌, ◌++◌, leb, ltb}
use hiveguard.Prelude.Eq.{string_eq}
use hiveguard.Trust
use hiveguard.Trust.{
  Float, Order, TrustManager, BanReport, weighted_suspicion_score, distinct_reporters,
}
use hiveguard.Trust.Reports
use hiveguard.Trust.Penalized
use hiveguard.Prelude.StringOrd.{string_ord}
use Prim.Native.String.{String}

unfoldable pub float : Float ℕ
float = record {
  of_u64 = λ n. n * 10;
  of_tenths = λ n. n;
  add = λ a b. a + b;
  mul = λ a b. (a * b) / 10;
  div = λ a b. (a * 10) / b;
  min_f = min;
  max_f = max;
  gt = λ a b. ltb b a;
  ge = λ a b. leb b a;
}

abbrev report : ℕ → BanReport ℕ
report w = record { reporter_id = "one"; event_weight = w }

abbrev reports : List (BanReport ℕ)
reports = report 8 ∷ []

abbrev manager : TrustManager ℕ
manager = record {
  trust_scores = ("one", Trust.with_join_time float 0) ∷ [];
  ban_threshold = 20;
  ip_reports = ("10.0.0.1", reports) ∷ ("10.0.0.2", reports ++ reports) ∷ [];
}

-- One pass in the order of insertion, the other one backwards.
abbrev forwards : Order ℕ
forwards ip m = m

abbrev backwards : Order ℕ
backwards ip m = reverse m
