-- ===== src/Errors.antt =====
-- hiveguard-core/src/errors.rs: the errors, without their texts, and Rust's `Result`.
use hiveguard.Prelude.{◌≡◌, ◌⊎◌, refl, arith, inl, inr}

pub data HiveGuardError : Type 0 where
  config : HiveGuardError
  io : HiveGuardError
  parse : HiveGuardError
  enforcement : HiveGuardError
  storage : HiveGuardError
  protocol : HiveGuardError

pub data Result {ℓ} (A : Type ℓ) : Type ℓ where
  ok : A → Result A
  err : HiveGuardError → Result A

pub ok_inj {ℓ} : {A : Type ℓ} (a b : A) → Result.ok a ≡ Result.ok b → a ≡ b
ok_inj a b h = ground (arith, h)

pub result_cases {ℓ} :
    {A : Type ℓ} (r : Result A)
    → ((a : A) × (r ≡ Result.ok a)) ⊎ ((x : HiveGuardError) × (r ≡ Result.err x))
result_cases (ok a) = inl (a, refl)
result_cases (err x) = inr (x, refl)
