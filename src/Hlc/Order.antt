-- ===== src/Hlc/Order.antt =====
-- The order of timestamps (`impl Ord for HlcTimestamp`).
use hiveguard.Prelude.{arith}
use hiveguard.Prelude.Ord.{Ord, IsTotalOrder, nat_ord}
use hiveguard.Hlc.{HlcTimestamp, cmp}

-- The comparison of timestamps is a lawful total order: reflexive, antisymmetric (equal timestamps
-- have equal fields), reversed by swapping the arguments, and transitive.
pub cmp-IsTotalOrder : IsTotalOrder cmp
unfolding cmp
cmp-IsTotalOrder = record {
  cmp_self = λ a. ground arith;
  same_of_eq = λ a b h. ground arith;
  flip_gt = λ a b h. ground arith;
  flip_lt = λ a b h. ground arith;
  lt_chain = λ a b c h k. ground arith;
}

instance abbrev pub hlc_ord : Ord HlcTimestamp
hlc_ord = record { cmp = cmp; laws = cmp-IsTotalOrder }
