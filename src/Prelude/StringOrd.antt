-- ===== src/Prelude/StringOrd.antt =====
-- The order of `String`: by code points, which agrees with the order of the UTF-8 bytes.
use Prim.Native.Nat.{compare as compare_ℕ}
use Prim.Native.Nat.Ordering.{lt, gt}
use Prim.Native.Char.{Char, code}
use Prim.Native.String.compare as text_compare
use Prim.Native.String.{String, compare}
use mathlib.Core.Path.{◌≡◌}
use native.Mathlib.Omega.{arith}
use text.Mathlib.TextEquality.{path_by_compare}
use text.Mathlib.TextPositions.{compare_refl}
use hiveguard.Prelude.Ord.{Ord, IsTotalOrder, then_with}

compare-cons :
    (c d : Char) (s t : String)
    → compare (String.◌∷◌ c s) (String.◌∷◌ d t)
      ≡ then_with (compare_ℕ (code c) (code d)) (compare s t)
compare-cons c d s t = text_compare.cons-cons c d s t

compare-nil : (c : Char) (s : String) → compare String.[] (String.◌∷◌ c s) ≡ lt
compare-nil c s = text_compare.nil-cons c s

compare-nil_right : (c : Char) (s : String) → compare (String.◌∷◌ c s) String.[] ≡ gt
compare-nil_right c s = text_compare.cons-nil c s

flip_gt : (s t : String) → compare s t ≡ gt → compare t s ≡ lt
flip_gt String.[] String.[] h = ground (arith, compare_refl String.[])
flip_gt String.[] (String.◌∷◌ d t) h = ground (arith, compare-nil d t)
flip_gt (String.◌∷◌ c s) String.[] h = compare-nil c s
flip_gt (String.◌∷◌ c s) (String.◌∷◌ d t) h =
    ground (arith, compare-cons c d s t, compare-cons d c t s, flip_gt s t)

flip_lt : (s t : String) → compare s t ≡ lt → compare t s ≡ gt
flip_lt String.[] String.[] h = ground (arith, compare_refl String.[])
flip_lt String.[] (String.◌∷◌ d t) h = compare-nil_right d t
flip_lt (String.◌∷◌ c s) String.[] h = ground (arith, compare-nil_right c s)
flip_lt (String.◌∷◌ c s) (String.◌∷◌ d t) h =
    ground (arith, compare-cons c d s t, compare-cons d c t s, flip_lt s t)

lt_chain : (s t u : String) → compare s t ≡ lt → compare t u ≡ lt → compare s u ≡ lt
lt_chain s String.[] String.[] h k = h
lt_chain String.[] (String.◌∷◌ d t) String.[] h k = ground (arith, compare-nil_right d t)
lt_chain (String.◌∷◌ c s) (String.◌∷◌ d t) String.[] h k = ground (arith, compare-nil_right d t)
lt_chain String.[] t (String.◌∷◌ e u) h k = compare-nil e u
lt_chain (String.◌∷◌ c s) String.[] (String.◌∷◌ e u) h k = ground (arith, compare-nil_right c s)
lt_chain (String.◌∷◌ c s) (String.◌∷◌ d t) (String.◌∷◌ e u) h k =
    ground (arith, compare-cons c d s t, compare-cons d e t u, compare-cons c e s u, lt_chain s t u)

pub compare-IsTotalOrder : IsTotalOrder compare
compare-IsTotalOrder = record {
  cmp_self = compare_refl;
  same_of_eq = path_by_compare;
  flip_gt = flip_gt;
  flip_lt = flip_lt;
  lt_chain = lt_chain;
}

instance abbrev pub string_ord : Ord String
string_ord = record { cmp = compare; laws = compare-IsTotalOrder }
