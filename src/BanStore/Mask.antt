-- ===== src/BanStore/Mask.antt =====
-- `ip & (MAX << (w - p))` clears the low `w - p` bits of an address of width `w`.
use Prim.Native.Nat.{bit_and, min, digits, bit_and-bitwise}
use native.Mathlib.Nat.{
  pow-suc, pow-zero, one-le-pow, div-div-eq-div-mul, mul-add-mod_self_right, mul_comm, add-zero,
  add-suc, mod-eq_of_lt,
}
use hiveguard.Prelude.{
  ℕ, zero, suc, ◌+◌, ◌-◌, ◌*◌, ◌/◌, ◌%◌, ◌^◌, ◌≤◌, ◌<◌, ◌≡◌, refl, arith, ◌∙◌, ap, sym,
}
use mathlib.Core.Path.{ap₂}
use hiveguard.Net.{clear_low}
use hiveguard.BanStore.{mask}

-- `bit_and` by its definition: the fuel only has to reach the first number.
fuelled : ℕ → ℕ → ℕ → ℕ
fuelled = digits (λ b. zero) min

fuelled_enough : (n x y m : ℕ) → x ≤ n → x ≤ m → fuelled n x y ≡ fuelled m x y
unfolding fuelled
fuelled_enough zero zero y zero h k = refl
fuelled_enough zero zero y (suc m) h k = refl
fuelled_enough (suc n) zero y zero h k = refl
fuelled_enough (suc n) zero y (suc m) h k = refl
fuelled_enough (suc n) (suc x) y (suc m) h k =
    let rest = fuelled_enough n (suc x / 2) (y / 2) m (omega arith) (omega arith) in
    ap (λ t. t * 2 + min (suc x % 2) (y % 2)) rest
fuelled_enough n x y m h k = absurd (omega arith)

bit_and-fuelled : (x y : ℕ) → bit_and x y ≡ fuelled x x y
unfolding fuelled
bit_and-fuelled x y = bit_and-bitwise x y

bit_and-zero_left : (y : ℕ) → bit_and 0 y ≡ 0
bit_and-zero_left y = bit_and-bitwise 0 y

fuelled-suc :
    (x y : ℕ)
    → fuelled (suc x) (suc x) y ≡ fuelled x (suc x / 2) (y / 2) * 2 + min (suc x % 2) (y % 2)
unfolding fuelled
fuelled-suc x y = refl

bit_and_step : (x y : ℕ) → bit_and x y ≡ bit_and (x / 2) (y / 2) * 2 + min (x % 2) (y % 2)
bit_and_step zero y = omega (arith, bit_and-zero_left y, bit_and-zero_left (y / 2))
bit_and_step (suc x) y = omega (
  arith,
  bit_and-fuelled (suc x) y,
  fuelled-suc x y,
  bit_and-fuelled (suc x / 2) (y / 2),
  fuelled_enough x (suc x / 2) (y / 2) (suc x / 2) (omega arith) (omega arith),
)

bit_and-zero_below : (n x : ℕ) → x ≤ n → bit_and x 0 ≡ 0
bit_and-zero_below n zero h = bit_and-zero_left 0
bit_and-zero_below (suc n) (suc x) h =
    let rest = bit_and-zero_below n (suc x / 2) (omega arith) in
    omega (arith, bit_and_step (suc x) 0, rest)
bit_and-zero_below zero (suc x) h = absurd (omega arith)

two_pow_pos : (m : ℕ) → 1 ≤ 2 ^ m
two_pow_pos m = one-le-pow m 2 (omega arith)

-- A mask of ones keeps a number below it.
bit_and-ones : (m x : ℕ) → x < 2 ^ m → bit_and x (2 ^ m - 1) ≡ x
bit_and-ones zero x h = omega (arith, pow-zero 2, bit_and-zero_below x x (omega arith))
bit_and-ones (suc m) x h =
    let q = 2 ^ m in
    let e : 2 ^ suc m ≡ q * 2 = pow-suc 2 m in
    let half : (2 ^ suc m - 1) / 2 ≡ q - 1 = omega (arith, e, two_pow_pos m) in
    omega (
      arith,
      bit_and_step x (2 ^ suc m - 1),
      ap (bit_and (x / 2)) half,
      bit_and-ones m (x / 2) (omega (arith, e)),
      e,
      two_pow_pos m,
    )

-- Ones above `k` zeros clear the low `k` bits.
bit_and_high : (k m x : ℕ) → x < 2 ^ m * 2 ^ k → bit_and x ((2 ^ m - 1) * 2 ^ k) ≡ clear_low k x
bit_and_high zero m x h =
    let one : (2 ^ m - 1) * 2 ^ 0 ≡ 2 ^ m - 1 = omega arith in
    rw one (omega (arith, bit_and-ones m x (omega arith)))
bit_and_high (suc k) m x h =
    let e : 2 ^ suc k ≡ 2 ^ k * 2 = pow-suc 2 k in
    let ones : (2 ^ m - 1) * 2 ^ suc k ≡ (2 ^ m - 1) * 2 ^ k * 2 =
      omega (arith, ap (λ t. (2 ^ m - 1) * t) e) in
    let bound : x / 2 < 2 ^ m * 2 ^ k = omega (arith, ap (λ t. 2 ^ m * t) e) in
    let quotient : x / 2 ^ suc k ≡ x / 2 / 2 ^ k =
      ap (λ t. x / t) (e ∙ mul_comm (2 ^ k) 2) ∙ sym (div-div-eq-div-mul x 2 (2 ^ k)) in
    let half : (2 ^ m - 1) * 2 ^ suc k / 2 ≡ (2 ^ m - 1) * 2 ^ k = omega (arith, ones) in
    omega (
      arith,
      bit_and_step x ((2 ^ m - 1) * 2 ^ suc k),
      ap (bit_and (x / 2)) half,
      bit_and_high k m (x / 2) bound,
      ones,
      ap (λ t. t * 2 ^ suc k) quotient,
      ap (λ t. x / 2 / 2 ^ k * t) e,
    )

pub pow_split : (d p : ℕ) → 2 ^ (p + d) ≡ 2 ^ p * 2 ^ d
pow_split zero p = rw add-zero (omega arith)
pow_split (suc d) p =
    ap (λ t. 2 ^ t) (add-suc p d)
    ∙ omega (
      arith,
      pow-suc 2 (p + d),
      ap (λ t. t * 2) (pow_split d p),
      ap (λ t. 2 ^ p * t) (pow-suc 2 d),
    )

-- The part of `(W - 1) * K` below `W`, where `K` divides `W`.
mod_ones : (w p k : ℕ) → suc w ≡ suc p * suc k → w * suc k % suc w ≡ p * suc k
mod_ones w p k e =
    let below : k ≤ w = grind arith in
    let parts : w * suc k ≡ k * suc w + (suc w - suc k) = omega arith in
    ap (λ t. t % suc w) parts
    ∙ mul-add-mod_self_right k (suc w) (suc w - suc k)
    ∙ mod-eq_of_lt (omega arith)
    ∙ omega arith

pow_width : (w p : ℕ) → p ≤ w → 2 ^ w ≡ 2 ^ p * 2 ^ (w - p)
pow_width w p h = ap (λ t. 2 ^ t) (let e : w ≡ p + (w - p) = omega arith in e) ∙ pow_split (w - p) p

mask_ones : (w p : ℕ) → p ≤ w → mask w p ≡ (2 ^ p - 1) * 2 ^ (w - p)
unfolding mask
mask_ones w zero h = omega arith
mask_ones w (suc p) h =
    let W = 2 ^ w in
    let P = 2 ^ suc p in
    let K = 2 ^ (w - suc p) in
    let ew : W ≡ suc (W - 1) = omega (arith, two_pow_pos w) in
    let ep : P ≡ suc (P - 1) = omega (arith, two_pow_pos (suc p)) in
    let ek : K ≡ suc (K - 1) = omega (arith, two_pow_pos (w - suc p)) in
    let e : suc (W - 1) ≡ suc (P - 1) * suc (K - 1) =
      sym ew ∙ pow_width w (suc p) h ∙ ap₂ ◌*◌ ep ek in
    let main : (W - 1) * K % W ≡ (P - 1) * K =
      ap₂ (λ k v. (W - 1) * k % v) ek ew
      ∙ mod_ones (W - 1) (P - 1) (K - 1) e
      ∙ ap (λ k. (P - 1) * k) (sym ek) in
    ground (arith, main)

pub bit_and-mask : (w p x : ℕ) → p ≤ w → x < 2 ^ w → bit_and x (mask w p) ≡ clear_low (w - p) x
bit_and-mask w p x h k =
    rw (mask_ones w p h) (bit_and_high (w - p) p x (omega (arith, pow_width w p h)))
