-- ===== src/AntiPoison.antt =====
-- hiveguard-core/src/anti_poison.rs: the sliding-window rate limiter, the quarantine test and the
-- median. Times are milliseconds; `t > now - window` is written `now < t + window`, which also holds
-- for a window longer than the time since the epoch.
pub mod Prune
pub mod Exact
pub mod Window
use Prim.Native.String.{String}
use hiveguard.Prelude.{
  ℕ, zero, suc, ◌+◌, ◌-◌, ◌*◌, ◌/◌, ◌%◌, Bool, true, false, not, ◌&&◌, List, [], ◌∷◌, ◌++◌, Option,
  none, some, length, get_or, retain, filter, ltb, leb, ◌==◌, is_empty, if◌then◌else◌,
}
use hiveguard.Prelude.Eq.{string_eq}
use hiveguard.Prelude.Map.{HashMap, lookup, insert, is_some}

pub record RateLimiter : Type 0 where
  pub max_per_window : ℕ
  pub window : ℕ
  pub entries : HashMap String (List ℕ)
  pub max_keys : ℕ

abbrev pub default_max_keys : ℕ
default_max_keys = 10000

unfoldable pub new : ℕ → ℕ → RateLimiter
new max_per_window window = record {
  max_per_window = max_per_window;
  window = window;
  entries = [];
  max_keys = default_max_keys;
}

-- `t > now - window`
unfoldable pub is_recent : ℕ → ℕ → ℕ → Bool
is_recent now window t = ltb now (t + window)

-- The loop of `cleanup`: expired times go, and then the keys without times.
unfoldable pub prune : ℕ → ℕ → HashMap String (List ℕ) → HashMap String (List ℕ)
prune now window [] = []
prune now window ((k, times) ∷ m) =
    let kept = retain (is_recent now window) times in
    let rest = prune now window m in if not (is_empty kept) then (k, kept) ∷ rest else rest

unfoldable pub cleanup : ℕ → RateLimiter → RateLimiter
cleanup now rl = record rl { entries = prune now rl.window rl.entries }

-- The times of a key, none for a key without an entry.
unfoldable pub times_of : String → HashMap String (List ℕ) → List ℕ
times_of key m = elim (lookup key m) [ none ↦ [] | some times ↦ times ]

-- What is done with a key for which there is room. A refused call leaves the pruned entry too.
unfoldable pub record_at : ℕ → String → RateLimiter → RateLimiter × Bool
record_at now key rl =
    let kept = retain (is_recent now rl.window) (times_of key rl.entries) in
    if leb rl.max_per_window (length kept)
    then (record rl { entries = insert key kept rl.entries }, false)
    else (record rl { entries = insert key (kept ++ (now ∷ [])) rl.entries }, true)

unfoldable pub check_and_record : ℕ → String → RateLimiter → RateLimiter × Bool
check_and_record now key rl =
    if not (is_some (lookup key rl.entries)) && leb rl.max_keys (length rl.entries)
    then (let cleaned = cleanup now rl in
        if leb rl.max_keys (length cleaned.entries)
        then (cleaned, false)
        else record_at now key cleaned)
    else record_at now key rl

unfoldable pub would_allow : ℕ → String → RateLimiter → Bool
would_allow now key rl = elim (lookup key rl.entries) [
  | some times ↦ ltb (length (filter (is_recent now rl.window) times)) rl.max_per_window
  | none ↦ true
]

unfoldable pub current_count : ℕ → String → RateLimiter → ℕ
current_count now key rl = elim (lookup key rl.entries) [
  | some times ↦ length (filter (is_recent now rl.window) times)
  | none ↦ 0
]

unfoldable pub check_quarantine : ℕ → ℕ → Bool
check_quarantine node_ban_count median_ban_count =
    let threshold = if median_ban_count == 0 then 10 else median_ban_count * 10 in
    ltb threshold node_ban_count

-- `sort`, by insertion.
unfoldable pub insert_sorted : ℕ → List ℕ → List ℕ
insert_sorted v [] = v ∷ []
insert_sorted v (x ∷ xs) = let rest = insert_sorted v xs in if leb v x then v ∷ x ∷ xs else x ∷ rest

unfoldable pub sort : List ℕ → List ℕ
sort [] = []
sort (x ∷ xs) = insert_sorted x (sort xs)

-- An index out of range would panic in the source; here it reads 0.
unfoldable pub median : List ℕ → ℕ
median values =
    if is_empty values
    then 0
    else (let sorted = sort values in
        let mid = length sorted / 2 in
        if length sorted % 2 == 0
        then (get_or sorted (mid - 1) 0 + get_or sorted mid 0) / 2
        else get_or sorted mid 0)
