-- ===== src/Persistence/Wal/Bytes.antt =====
-- Numbers and records as bytes.
use hiveguard.Prelude.{
  ℕ, zero, suc, ◌+◌, ◌^◌, ◌<◌, ◌≤◌, ◌≡◌, refl, arith, List, [], ◌∷◌, ◌++◌, none, some, length, take,
  Option-cases, inl, inr, ap, ◌∙◌,
}
use hiveguard.Persistence.Wal.{to_le_bytes, from_le_bytes, read_exact}

pub from_le_bytes-to_le_bytes : (n : ℕ) → n < 2 ^ 32 → from_le_bytes (to_le_bytes n) ≡ n
unfolding to_le_bytes from_le_bytes
from_le_bytes-to_le_bytes n h = omega arith

pub length-to_le_bytes : (n : ℕ) → length (to_le_bytes n) ≡ 4
unfolding to_le_bytes
length-to_le_bytes n = refl

-- A part that was written is read back, whatever follows it.
pub read_exact-append :
    (n : ℕ) (xs ys : List ℕ) → length xs ≡ n → read_exact n (xs ++ ys) ≡ some (xs, ys)
unfolding read_exact
read_exact-append zero [] ys h = refl
read_exact-append zero (x ∷ xs) ys h = absurd (omega arith)
read_exact-append (suc n) [] ys h = absurd (omega arith)
read_exact-append (suc n) (x ∷ xs) ys h = rw (read_exact-append n xs ys (omega arith)) refl

-- A file that ends too early.
pub read_exact_short : (n : ℕ) (xs : List ℕ) → length xs < n → read_exact n xs ≡ none
unfolding read_exact
read_exact_short zero xs h = absurd (omega arith)
read_exact_short (suc n) [] h = refl
read_exact_short (suc n) (x ∷ xs) h = rw (read_exact_short n xs (omega arith)) refl

pub take-append_short : (n : ℕ) (xs ys : List ℕ) → n ≤ length xs → take n (xs ++ ys) ≡ take n xs
take-append_short zero xs ys h = refl
take-append_short (suc n) [] ys h = absurd (omega arith)
take-append_short (suc n) (x ∷ xs) ys h = ground (arith, take-append_short n xs ys)

pub take-append_long :
    (n m : ℕ) (xs ys : List ℕ) → n ≡ length xs + m → take n (xs ++ ys) ≡ xs ++ take m ys
take-append_long n m [] ys e = ap (λ t. take t ys) (omega (arith, e))
take-append_long zero m (x ∷ xs) ys e = absurd (omega arith)
take-append_long (suc n) m (x ∷ xs) ys e =
    ap (λ t. x ∷ t) (take-append_long n m xs ys (omega arith))

pub length-take : (n : ℕ) (xs : List ℕ) → n ≤ length xs → length (take n xs) ≡ n
length-take zero xs h = refl
length-take (suc n) [] h = absurd (omega arith)
length-take (suc n) (x ∷ xs) h = omega (arith, length-take n xs)

-- What `read_exact` returns is a prefix, and the read does not depend on what follows it.
pub read_exact_prefix :
    (n : ℕ) (bs : List ℕ) {r : List ℕ × List ℕ}
    → read_exact n bs ≡ some r
    → (bs ≡ r.0 ++ r.1) × (length r.0 ≡ n)
unfolding read_exact
read_exact_prefix zero bs {r} h =
    let e : ([], bs) ≡ r = ground (arith, h) in
    (ground (arith, ap (λ t. t.0 ++ t.1) e), ground (arith, ap (λ t. length t.0) e))
read_exact_prefix (suc n) [] h = absurd (ground arith)
read_exact_prefix (suc n) (b ∷ bs) {r} h = elim (Option-cases (read_exact n bs)) [
  | inl short ↦ absurd (ground (arith, h, short))
  | inr (q, full) ↦
      let rest = read_exact_prefix n bs full in
      let e : (b ∷ q.0, q.1) ≡ r = ground (arith, h, full) in
      (
        ap (λ t. b ∷ t) rest.0 ∙ ap (λ t. t.0 ++ t.1) e,
        ground (arith, rest.1, ap (λ t. length t.0) e),
      )
]
