-- ===== src/Hashcash/Mining.antt =====
-- Mining a stamp, and verifying it.
use mathlib.Core.Path.{subst}
use hiveguard.Prelude.{
  some_inj, if_true, if_false, ◌==◌, ==_iff, ℕ, zero, suc, ◌+◌, ◌/◌, ◌%◌, ◌≤◌, ◌<◌, ◌≡◌, ◌↔◌, refl,
  sym, ap, ◌∙◌, arith, Bool, true, false, none, some, ltb, Bool-cases, Option-cases, inl, inr,
}
use hiveguard.Crypto.{Bytes, Blake3}
use hiveguard.Hashcash.{
  PowStamp, min_difficulty, has_leading_zeros, compute_hash, mine_from, mine, verify,
}

module _ (b3 : Blake3) (text : Bytes) (difficulty : ℕ) where
  abbrev solves : ℕ → Bool
  solves n = has_leading_zeros (compute_hash b3 n text) (difficulty / 8) (difficulty % 8)

  -- The first nonce from `start` on that solves, among `attempts` of them.
  record Finds (attempts start : ℕ) (stamp : PowStamp) : Type 0 where
    level : stamp.difficulty ≡ difficulty
    from : start ≤ stamp.nonce
    within : stamp.nonce < start + attempts
    solved : solves stamp.nonce ≡ true
    first : (n : ℕ) → start ≤ n → n < stamp.nonce → solves n ≡ false

  -- A nonce from `start` on is `start` or a later one.
  from_start :
      (start n : ℕ) {P : Type 0}
      → start ≤ n
      → solves start ≡ false
      → (start + 1 ≤ n → P → solves n ≡ false)
      → P
      → solves n ≡ false
  from_start start n l miss later p = elim (Bool-cases (n == start)) [
    | inl same ↦ ap solves ((==_iff n start).0 same) ∙ miss
    | inr other ↦ later (ground (arith, other, l)) p
  ]

  mine_from-Finds :
      (attempts start : ℕ) {stamp : PowStamp}
      → mine_from b3 text difficulty attempts start ≡ some stamp
      → Finds attempts start stamp
  unfolding mine_from
  mine_from-Finds zero start h = absurd (ground (arith, h))
  mine_from-Finds (suc attempts) start {stamp} h = elim (Bool-cases (solves start)) [
    | inl hit ↦
        let found : PowStamp = record { nonce = start; difficulty = difficulty } in
        let e : found ≡ stamp = some_inj (sym (if_true (solves start) (some found) _ hit) ∙ h) in
        subst (Finds (suc attempts) start) e (record {
          level = refl;
          from = omega arith;
          within = omega arith;
          solved = hit;
          first = λ n p q. absurd (omega arith);
        })
    | inr miss ↦
        let f = mine_from-Finds attempts (start + 1) {stamp = stamp} (ground (arith, h, miss)) in
        record {
          level = f.level;
          from = omega (arith, f.from);
          within = omega (arith, f.within);
          solved = f.solved;
          first = λ n p q. from_start start n p miss (f.first n) q;
        }
  ]

  mine_from_misses :
      (attempts start : ℕ)
      → mine_from b3 text difficulty attempts start ≡ none
      → (n : ℕ) → start ≤ n
      → n < start + attempts
      → solves n ≡ false
  unfolding mine_from
  mine_from_misses zero start h n p q = absurd (omega arith)
  mine_from_misses (suc attempts) start h n p q = elim (Bool-cases (solves start)) [
    | inl hit ↦ absurd (ground (arith, h, hit))
    | inr miss ↦
        from_start start n p miss
          (mine_from_misses attempts (start + 1) (ground (arith, h, miss)) n) (omega (arith, q))
  ]

  verify-solves :
      (n level : ℕ)
      → level ≡ difficulty
      → min_difficulty ≤ difficulty
      → verify b3 (record { nonce = n; difficulty = level }) text ≡ solves n
  unfolding verify
  verify-solves n level e l =
      if_false (ltb level min_difficulty) _ _ (ground (arith, e, l))
      ∙ ap (λ k. has_leading_zeros (compute_hash b3 n text) (k / 8) (k % 8)) e

-- A stamp that `mine` finds at a difficulty that is accepted verifies, has that difficulty, and its
-- nonce is the first one that does: no smaller nonce verifies. `mine` finds none exactly if no
-- nonce below `max_attempts` verifies.
pub mine-verify :
    (b3 : Blake3) (text : Bytes) (difficulty max_attempts : ℕ)
    → min_difficulty ≤ difficulty
    → ((stamp : PowStamp)
        → mine b3 text difficulty max_attempts ≡ some stamp
        → (verify b3 stamp text ≡ true)
          × (stamp.difficulty ≡ difficulty)
          × (stamp.nonce < max_attempts)
          × ((n : ℕ) → n < stamp.nonce → verify b3 (record stamp { nonce = n }) text ≡ false))
      × ((mine b3 text difficulty max_attempts ≡ none) ↔ (
          (n : ℕ)
          → n < max_attempts
          → verify b3 (record { nonce = n; difficulty = difficulty }) text ≡ false))
unfolding mine
mine-verify b3 text d max l = (
  λ stamp h.
      let f = mine_from-Finds b3 text d max 0 {stamp = stamp} h in
      let v = λ (n : ℕ). verify-solves b3 text d n stamp.difficulty f.level l in
      (
        v stamp.nonce ∙ f.solved,
        f.level,
        omega (arith, f.within),
        λ n q. v n ∙ f.first n (omega arith) q,
      ),
  (
    λ h n q.
        verify-solves b3 text d n d refl l
        ∙ mine_from_misses b3 text d max 0 h n (omega arith) (omega (arith, q)),
    λ h. elim (Option-cases (mine_from b3 text d max 0)) [
      | inl nothing ↦ nothing
      | inr (stamp, found) ↦
          let f = mine_from-Finds b3 text d max 0 {stamp = stamp} found in
          let no =
            sym (verify-solves b3 text d stamp.nonce d refl l)
            ∙ h stamp.nonce (omega (arith, f.within)) in
          absurd (ground (arith, no, f.solved))
    ],
  ),
)
