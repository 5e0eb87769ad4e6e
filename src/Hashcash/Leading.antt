-- ===== src/Hashcash/Leading.antt =====
-- What the test for leading zero bits means for the number that a hash spells.
use Prim.Native.Nat.{bit_and}
use native.Mathlib.Numerals.{towards_suc}
use native.Mathlib.Nat.{
  mul-le-mul_right, mul-le-mul, mul-lt-mul_of_pos_right, pow-suc, suc-mul, mul_comm, mul_assoc,
  mul_right_comm, mul-zero, zero-mul, one-mul, mul-pos, one-le-pow,
}
use mathlib.Core.Path.{subst}
use hiveguard.Prelude.{
  if◌then◌else◌, ltb→lt, lt→ltb, ltb-false→le, Bool-cases, inl, inr, ℕ, zero, suc, ◌+◌, ◌-◌, ◌*◌,
  ◌/◌, ◌%◌, ◌^◌, ◌≤◌, ◌<◌, ◌≡◌, ◌↔◌, refl, sym, ap, ◌∙◌, arith, Bool, true, false, ◌&&◌, [], ◌∷◌,
  length, ltb, ◌==◌, ==_iff, All,
}
use hiveguard.Crypto.{Bytes}
use hiveguard.Hashcash.{all_zero, high_mask, has_leading_zeros}

-- The number with these digits to the base 256, the highest first.
unfoldable pub number : Bytes → ℕ
number [] = 0
number (b ∷ bs) = b * 256 ^ length bs + number bs

-- A test passes at each number below a bound, found out by trying.
tried : (ℕ → Bool) → ℕ → Bool
tried test zero = true
tried test (suc k) = if test k then tried test k else false

tried_all : (test : ℕ → Bool) (k i : ℕ) → i < k → tried test k ≡ true → test i ≡ true
unfolding tried
tried_all test zero i l h = absurd (omega arith)
tried_all test (suc k) i l h = ground (arith, tried_all test k i)

same : Bool → Bool → Bool
same true b = b
same false true = false
same false false = true

same_iff : (a b : Bool) → same a b ≡ true → a ≡ b
unfolding same
same_iff a b h = ground arith

mask_table :
    tried (λ r. tried (λ b. same (bit_and b (high_mask r) == 0) (ltb b (2 ^ (8 - r)))) 256) 8 ≡ true
unfolding tried high_mask same
mask_table = refl

-- The high bits of a byte are zero exactly if it is small.
masked_iff : (r b : ℕ) → r < 8 → b < 256 → (bit_and b (high_mask r) == 0) ≡ ltb b (2 ^ (8 - r))
masked_iff r b hr hb =
    same_iff (bit_and b (high_mask r) == 0) (ltb b (2 ^ (8 - r)))
      (tried_all _ 256 b hb (tried_all _ 8 r hr mask_table))

-- One digit more.
digit_bound : (b m w : ℕ) → b < 256 → m < w → b * w + m < w * 256
digit_bound b m w hb hm = omega (arith, mul-le-mul_right {m = b} {n = 255} w (omega arith))

number-lt : (bs : Bytes) → All (λ b. b < 256) bs → number bs < 256 ^ length bs
unfolding number
number-lt [] h = omega arith
number-lt (b ∷ bs) h = omega (
  arith,
  digit_bound b (number bs) (256 ^ length bs) h.0 (number-lt bs h.1),
  pow-suc 256 (length bs),
)

high_table : tried (λ r. 2 ^ (8 - r) * 2 ^ r == 256) 8 ≡ true
unfolding tried
high_table = refl

high_mul : (r : ℕ) → r < 8 → 2 ^ (8 - r) * 2 ^ r ≡ 256
high_mul r h = (==_iff _ 256).0 (tried_all _ 8 r h high_table)

-- The first digit is below `q` exactly if the number is.
first_digit_lt : (b m w q : ℕ) → m < w → b < q → b * w + m < q * w
first_digit_lt b m w q hm hb = omega (arith, mul-le-mul_right {m = suc b} {n = q} w hb, suc-mul b w)

pos_of_mul : (q k : ℕ) → q * k ≡ 256 → 0 < k
pos_of_mul q zero h = absurd (omega (arith, mul-zero q))
pos_of_mul q (suc k) h = omega arith

first_digit : (b m w q k : ℕ) → m < w → q * k ≡ 256 → ltb b q ≡ ltb ((b * w + m) * k) (w * 256)
first_digit b m w q k hm hk =
    let e : q * w * k ≡ w * 256 =
      mul_right_comm q w k ∙ ap (λ (t : ℕ). t * w) hk ∙ mul_comm 256 w in
    elim (Bool-cases (ltb b q)) [
      | inl small ↦
          small
          ∙ sym (
              lt→ltb _ _ (
                omega (
                  arith,
                  e,
                  mul-lt-mul_of_pos_right {m = b * w + m} {n = q * w} {k = k}
                      (first_digit_lt b m w q hm (ltb→lt b q small)) (pos_of_mul q k hk),
                )))
      | inr large ↦
          let le : q * w ≤ b * w = mul-le-mul_right {m = q} {n = b} w (ltb-false→le b q large) in
          let le2 : q * w * k ≤ (b * w + m) * k =
            mul-le-mul_right {m = q * w} {n = b * w + m} k (omega (arith, le)) in
          ground (arith, large, e, le2)
    ]

-- A digit before the others adds nothing if it is zero, and too much if it is not.
next_digit :
    (b m w p : ℕ)
    → m < w
    → 0 < p
    → ((b == 0) && ltb (m * p) w) ≡ ltb ((b * w + m) * (p * 256)) (w * 256)
next_digit zero m w p h pos =
    let e : (0 * w + m) * (p * 256) ≡ m * p * 256 =
      ap (λ (t : ℕ). t * (p * 256)) (omega (arith, zero-mul w)) ∙ sym (mul_assoc m p 256) in
    ground (arith, e)
next_digit (suc c) m w p h pos =
    let large : w * 256 ≤ (suc c * w + m) * (p * 256) =
      mul-le-mul {n₁ = w} {m₁ = 256} {n₂ = suc c * w + m} {m₂ = p * 256}
        (omega (arith, suc-mul c w)) (omega arith) in
    ground (arith, large)

power_pos : (full rest : ℕ) → 0 < 256 ^ full * 2 ^ rest
power_pos full rest = mul-pos (one-le-pow full 256 (omega arith)) (one-le-pow rest 2 (omega arith))

power_step : (full rest : ℕ) → 256 ^ suc full * 2 ^ rest ≡ 256 ^ full * 2 ^ rest * 256
power_step full rest =
    ap (λ (t : ℕ). t * 2 ^ rest) (pow-suc 256 full) ∙ mul_right_comm (256 ^ full) 256 (2 ^ rest)

-- The first `8 * full + rest` bits of a hash are zero exactly if its number, moved up by that many
-- bits, still fits.
leading_iff :
    (bs : Bytes) (full rest : ℕ)
    → All (λ b. b < 256) bs
    → rest < 8
    → full < length bs
    → has_leading_zeros bs full rest ≡ ltb (number bs * (256 ^ full * 2 ^ rest)) (256 ^ length bs)
unfolding has_leading_zeros all_zero number
leading_iff [] full rest a r l = absurd (omega arith)
leading_iff (b ∷ bs) zero zero a r l = ground (arith, number-lt (b ∷ bs) a)
leading_iff (b ∷ bs) zero (suc rest) a r l =
    let q = 2 ^ (8 - suc rest) in
    let d =
      first_digit b (number bs) (256 ^ length bs) q (2 ^ suc rest) (number-lt bs a.1)
        (high_mul (suc rest) r) in
    ground
      (arith, masked_iff (suc rest) b r a.0, d, pow-suc 256 (length bs), one-mul (2 ^ suc rest))
leading_iff (b ∷ bs) (suc full) rest a r l =
    let ih = leading_iff bs full rest a.1 r (omega arith) in
    let d =
      next_digit b (number bs) (256 ^ length bs) (256 ^ full * 2 ^ rest) (number-lt bs a.1)
        (power_pos full rest) in
    ground (arith, ih, d, pow-suc 256 (length bs), power_step full rest)

two_pow_byte : (n : ℕ) → 2 ^ (n + 8) ≡ 256 * 2 ^ n
two_pow_byte n = simp towards_suc (omega arith)

pow_bytes : (full rest : ℕ) → 256 ^ full * 2 ^ rest ≡ 2 ^ (8 * full + rest)
pow_bytes zero rest = one-mul (2 ^ rest) ∙ ap (λ (k : ℕ). 2 ^ k) (omega arith)
pow_bytes (suc full) rest =
    power_step full rest
    ∙ ap (λ (t : ℕ). t * 256) (pow_bytes full rest)
    ∙ mul_comm (2 ^ (8 * full + rest)) 256
    ∙ sym (two_pow_byte (8 * full + rest))
    ∙ ap (λ (k : ℕ). 2 ^ k) (omega arith)

-- The test for `d` zero bits at the front of a 32-byte hash says that the hash, as a number of 256
-- bits, is below `2 ^ (256 - d)`, for every `d` that a `u8` holds.
pub has_leading_zeros_iff :
    (hash : Bytes) (difficulty : ℕ)
    → All (λ b. b < 256) hash
    → length hash ≡ 32
    → difficulty < 256
    → (has_leading_zeros hash (difficulty / 8) (difficulty % 8) ≡ true)
      ↔ (number hash * 2 ^ difficulty < 2 ^ 256)
has_leading_zeros_iff hash d a l h =
    let full = d / 8 in
    let rest = d % 8 in
    let p : 256 ^ full * 2 ^ rest ≡ 2 ^ d =
      pow_bytes full rest ∙ ap (λ (k : ℕ). 2 ^ k) (omega arith) in
    let w : 256 ^ length hash ≡ 2 ^ 256 = ap (λ (k : ℕ). 256 ^ k) l in
    let e = leading_iff hash full rest a (omega arith) (omega (arith, l)) in
    (
      λ k.
          subst (λ t. number hash * t < 2 ^ 256) p
            (subst (λ t. number hash * (256 ^ full * 2 ^ rest) < t) w (ltb→lt _ _ (sym e ∙ k))),
      λ k.
          e
          ∙ lt→ltb _ _ (
              subst (λ t. number hash * (256 ^ full * 2 ^ rest) < t) (sym w)
                (subst (λ t. number hash * t < 2 ^ 256) (sym p) k)),
    )
