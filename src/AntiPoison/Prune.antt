-- ===== src/AntiPoison/Prune.antt =====
-- What pruning keeps of the recorded times.
use Prim.Native.String.{String}
use hiveguard.Prelude.{
  ℕ, ◌≤◌, ◌≡◌, refl, arith, true, List, [], ◌∷◌, none, retain, count, is_empty, if◌then◌else◌,
  Bool-cases, inl, inr,
}
use hiveguard.Prelude.Eq.{string_eq}
use hiveguard.Prelude.Map.{HashMap, Distinct, lookup, insert, lookup-insert}
use hiveguard.AntiPoison.{is_recent, prune, times_of}

-- A text that survives pruning at a later time survived it at an earlier one.
pub count-retain_later :
    (now at window : ℕ) (ts : List ℕ)
    → now ≤ at
    → count (is_recent at window) (retain (is_recent now window) ts)
      ≡ count (is_recent at window) ts
unfolding count retain is_recent
count-retain_later now at window [] h = refl
count-retain_later now at window (t ∷ ts) h = ground (arith, count-retain_later now at window ts h)

pub count_later :
    (now at window : ℕ) (ts : List ℕ)
    → now ≤ at
    → count (is_recent at window) ts ≤ count (is_recent now window) ts
unfolding count is_recent
count_later now at window [] h = omega arith
count_later now at window (t ∷ ts) h = ground (arith, count_later now at window ts h)

prune_absent :
    (now window : ℕ) (k : String) (m : HashMap String (List ℕ))
    → lookup k m ≡ none
    → lookup k (prune now window m) ≡ none
unfolding prune lookup
prune_absent now window k [] h = refl
prune_absent now window k ((j, ts) ∷ m) h = ground (arith, prune_absent now window k m)

pub prune-Distinct :
    (now window : ℕ) (m : HashMap String (List ℕ)) → Distinct m → Distinct (prune now window m)
unfolding prune
prune-Distinct now window [] d = tt
prune-Distinct now window ((j, ts) ∷ m) d =
    ground (arith, prune_absent now window j m, prune-Distinct now window m)

empty_of : (ts : List ℕ) → is_empty ts ≡ true → ts ≡ []
empty_of [] h = refl
empty_of (t ∷ ts) h = absurd (ground (arith, h))

pub times_of-prune :
    (now window : ℕ) (k : String) (m : HashMap String (List ℕ))
    → Distinct m
    → times_of k (prune now window m) ≡ retain (is_recent now window) (times_of k m)
unfolding times_of prune lookup retain
times_of-prune now window k [] d = refl
times_of-prune now window k ((j, ts) ∷ m) d = ground (
  arith,
  string_eq.beq_iff j k,
  prune_absent now window k m,
  times_of-prune now window k m,
  empty_of (retain (is_recent now window) ts),
)

pub times_of-insert :
    (j k : String) (ts : List ℕ) (m : HashMap String (List ℕ))
    → times_of k (insert j ts m) ≡ (if string_eq.beq j k then ts else times_of k m)
unfolding times_of
times_of-insert j k ts m = elim (Bool-cases (string_eq.beq j k)) [
  | inl same ↦ rw same (rw (times_of, lookup-insert j k ts m) (rw same refl))
  | inr other ↦ rw other (rw (times_of, lookup-insert j k ts m) (rw other refl))
]
