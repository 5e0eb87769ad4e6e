-- ===== src/Trust/Reports.antt =====
-- Repeated reports, and the reports that nobody confirms.
use Prim.Native.String.{String}
use mathlib.Core.Path.{subst}
use hiveguard.Prelude.{
  not, Bool, ◌||◌, leb, length, Option, ℕ, ◌≡◌, refl, sym, ap, ◌∙◌, arith, false, List, [], ◌∷◌,
  none, some, any, Option-cases, Bool-cases, inl, inr, if◌then◌else◌,
}
use mathlib.Core.List.{Permᴰ}
use hiveguard.Prelude.Eq.{string_eq}
use hiveguard.Prelude.Map.{
  HashMap, Distinct, lookup, remove, lookup-remove, remove-Distinct, keep_if,
}
use hiveguard.Trust.{
  Order, should_global_ban, Float, TrustManager, BanReport, modify, penalize_minority_reporter,
  weighted_suspicion_score, clear_reports, distinct_reporters, is_isolated, to_penalize,
  penalize_all, drain_each, drain_isolated_reports,
}

keep_if_same :
    {A : Type 0} (p q : A → Bool)
    → ((a : A) → p a ≡ q a)
    → (o : Option A) → keep_if p o ≡ keep_if q o
keep_if_same p q e none = refl
keep_if_same p q e (some a) = ap (λ (t : Bool). if t then some a else none) (e a)

module _ {F : Type 0} (f : Float F) where
  ip_reports-penalize :
      (r : String) (tm : TrustManager F)
      → (penalize_minority_reporter f r tm).ip_reports ≡ tm.ip_reports
  unfolding penalize_minority_reporter modify
  ip_reports-penalize r tm = elim (Option-cases (lookup r tm.trust_scores)) [
    | inl unknown ↦ rw (modify, unknown) refl
    | inr (ts, known) ↦ rw (modify, known) refl
  ]

  pub ip_reports-penalize_all :
      (rs : List String) (tm : TrustManager F) → (penalize_all f rs tm).ip_reports ≡ tm.ip_reports
  unfolding penalize_all
  ip_reports-penalize_all [] tm = refl
  ip_reports-penalize_all (r ∷ rs) tm =
      ip_reports-penalize_all rs (penalize_minority_reporter f r tm) ∙ ip_reports-penalize r tm

  lookup-drain_each :
      (ips : List String) (tm : TrustManager F) (ip : String)
      → Distinct tm.ip_reports
      → lookup ip (drain_each f ips tm).0.ip_reports
        ≡ (if any (λ i. string_eq.beq i ip) ips then none else lookup ip tm.ip_reports)
  unfolding drain_each any clear_reports
  lookup-drain_each [] tm ip d = refl
  lookup-drain_each (i ∷ ips) tm ip d = elim (Option-cases (lookup i tm.ip_reports)) [
    | inl gone ↦
        rw (drain_each, gone)
          (ground (arith, lookup-drain_each ips tm ip d, gone, string_eq.beq_iff i ip))
    | inr (reports, there) ↦
        let next = penalize_all f (distinct_reporters f reports) (clear_reports f i tm) in
        let e : next.ip_reports ≡ remove i tm.ip_reports =
          ip_reports-penalize_all (distinct_reporters f reports) (clear_reports f i tm) in
        let ih =
          lookup-drain_each ips next ip
            (subst Distinct (sym e) (remove-Distinct i tm.ip_reports d)) in
        rw (drain_each, there)
          (ground (arith, ih, ap (lookup ip) e, lookup-remove i ip tm.ip_reports d))
  ]

  absent-to_penalize :
      (order : Order F) (tm : TrustManager F) (k : ℕ) (m : HashMap String (List (BanReport F)))
      (ip : String)
      → lookup ip m ≡ none
      → any (λ i. string_eq.beq i ip) (to_penalize f order tm k m) ≡ false
  unfolding to_penalize any lookup
  absent-to_penalize order tm k [] ip h = refl
  absent-to_penalize order tm k ((j, r) ∷ m) ip h =
      ground (arith, h, absent-to_penalize order tm k m ip)

  any-to_penalize :
      (order : Order F) (tm : TrustManager F) (k : ℕ) (m : HashMap String (List (BanReport F)))
      (ip : String)
      → Distinct m
      → (if any (λ i. string_eq.beq i ip) (to_penalize f order tm k m) then none else lookup ip m)
        ≡ keep_if (λ reports. not (is_isolated f order tm k (ip, reports))) (lookup ip m)
  unfolding to_penalize any lookup
  any-to_penalize order tm k [] ip d = refl
  any-to_penalize order tm k ((j, r) ∷ m) ip d = elim (Bool-cases (string_eq.beq j ip)) [
    | inl same ↦
        let e : j ≡ ip = (string_eq.beq_iff j ip).0 same in
        let none_later = absent-to_penalize order tm k m ip (sym (ap (λ i. lookup i m) e) ∙ d.0) in
        ground (arith, same, none_later, ap (λ i. is_isolated f order tm k (i, r)) e)
    | inr other ↦ ground (arith, other, any-to_penalize order tm k m ip d.1)
  ]

  -- An address stays if its score reaches the threshold or enough nodes reported it.
  pub kept-eq :
      (order : Order F) (tm : TrustManager F) (k : ℕ) (ip : String) (reports : List (BanReport F))
      → not (is_isolated f order tm k (ip, reports)) ≡ (
          f.ge (weighted_suspicion_score f order tm ip) tm.ban_threshold
          || leb k (length (distinct_reporters f reports)))
  unfolding is_isolated should_global_ban
  kept-eq order tm k ip reports = ground arith

  -- The scan for isolated reports keeps the reports on an address exactly if its score reaches the
  -- ban threshold or at least as many distinct nodes reported it as are asked for; those on any
  -- other address are cleared. No address has two entries.
  pub lookup-drain_isolated_reports :
      (order : Order F) (tm : TrustManager F) (k : ℕ) (ip : String)
      → Distinct tm.ip_reports
      → lookup ip (drain_isolated_reports f order k tm).0.ip_reports
        ≡ keep_if
            (λ reports.
              f.ge (weighted_suspicion_score f order tm ip) tm.ban_threshold
              || leb k (length (distinct_reporters f reports)))
            (lookup ip tm.ip_reports)
  unfolding drain_isolated_reports
  lookup-drain_isolated_reports order tm k ip d =
      lookup-drain_each (to_penalize f order tm k tm.ip_reports) tm ip d
      ∙ any-to_penalize order tm k tm.ip_reports ip d
      ∙ keep_if_same _ _ (kept-eq order tm k ip) (lookup ip tm.ip_reports)
