-- ===== src/Detectors/Signals.antt =====
-- When the detector of SSH brute force raises its signal.
use mathlib.Core.Path.{subst}
use hiveguard.Prelude.{
  ℕ, suc, ◌≤◌, ◌≡◌, inl, inr, refl, sym, ap, ◌∙◌, arith, Bool, true, false, List, [], ◌∷◌, Option,
  none, some, leb, ◌==◌, count, All-weaken, Bool-cases, Option-cases, if◌then◌else◌, if_true,
  if_false,
}
use hiveguard.Prelude.Map.{is_some, lookup}
use hiveguard.Net.{IpAddr, IpNet, NetLib, addr}
use hiveguard.Models.{DetectionSignal, NormalizedEvent}
use hiveguard.Crypto.{Blake3}
use hiveguard.Detectors.{
  Failures, Display, SshBruteforceDetector, source_key, hit, failures_of, is_auth_failure,
  is_invalid_user, signal, bruteforce_signal, enumeration_signal, enumerate, process,
}
use hiveguard.Detectors.Window.{History, is_live, since, Exact, hit-fires, hit-Exact}

-- The signal of the first tier.
abbrev pub is_bruteforce : Option DetectionSignal → Bool
is_bruteforce none = false
is_bruteforce (some s) = s.severity == 150

-- The events come in the order of their times, the latest first.
abbrev pub last_time : List NormalizedEvent → ℕ
last_time [] = 0
last_time (e ∷ es) = e.timestamp

abbrev pub InOrder : List NormalizedEvent → Type 0
InOrder [] = Unit
InOrder (e ∷ es) = (last_time es ≤ e.timestamp) × InOrder es

module _ (lib : NetLib) (blake3 : Blake3) (d : Display) where
  -- The source that an event counts for.
  abbrev pub key_of : SshBruteforceDetector → NormalizedEvent → IpAddr
  key_of s e = addr (source_key lib e.source_ip s.ipv6_prefix)

  -- The detector after a run of events, and what it did with the failures among them.
  unfoldable pub watch :
      SshBruteforceDetector → List NormalizedEvent → SshBruteforceDetector × History
  watch start [] = (start, [])
  watch start (e ∷ es) =
      let r = watch start es in
      let q = process lib blake3 d e r.0 in
      (
        q.0,
        if is_auth_failure e.event_type
            then (key_of start e, (e.timestamp, is_bruteforce q.1)) ∷ r.1
            else r.1,
      )

  -- What the first tier does with a failure.
  abbrev noted : NormalizedEvent → SshBruteforceDetector → Failures × Option ℕ
  noted e s = hit s.window s.threshold (key_of s e) e.timestamp s.failures

  record Same (s t : SshBruteforceDetector) : Type 0 where
    threshold : t.threshold ≡ s.threshold
    window : t.window ≡ s.window
    ipv6_prefix : t.ipv6_prefix ≡ s.ipv6_prefix

  record Effect (e : NormalizedEvent) (s : SshBruteforceDetector)
      (q : SshBruteforceDetector × Option DetectionSignal) : Type 0 where
    same : Same s q.0
    failures : q.0.failures ≡ (noted e s).0
    raised : is_bruteforce q.1 ≡ is_some (noted e s).1

  enumerate-quiet :
      (key : IpNet) (now : ℕ) (s : SshBruteforceDetector)
      → is_bruteforce (enumerate lib blake3 d key now s).1 ≡ false
  unfolding enumerate enumeration_signal signal
  enumerate-quiet key now s =
      elim (Option-cases (hit s.enum_window s.enum_threshold (addr key) now s.enum_failures).1) [
        | inl silent ↦ rw (enumerate, silent) refl
        | inr (n, loud) ↦ rw (enumerate, loud) refl
      ]

  process-Effect :
      (e : NormalizedEvent) (s : SshBruteforceDetector)
      → is_auth_failure e.event_type ≡ true
      → Effect e s (process lib blake3 d e s)
  unfolding process bruteforce_signal signal enumerate
  process-Effect e s failure =
      let key = source_key lib e.source_ip s.ipv6_prefix in
      subst (Effect e s) (sym (if_true (is_auth_failure e.event_type) _ _ failure))
        (elim (Option-cases (noted e s).1) [
          | inr (n, fired) ↦ rw (fired) (record {
            same = record { threshold = refl; window = refl; ipv6_prefix = refl };
            failures = refl;
            raised = sym (ap is_some fired);
          })
          | inl quiet ↦ rw (quiet) (elim (Bool-cases (is_invalid_user e)) [
            | inl invalid ↦ rw (invalid) (record {
              same = record { threshold = refl; window = refl; ipv6_prefix = refl };
              failures = refl;
              raised =
                  enumerate-quiet key e.timestamp (record s { failures = (noted e s).0 })
                  ∙ sym (ap is_some quiet);
            })
            | inr valid ↦ rw (valid) (record {
              same = record { threshold = refl; window = refl; ipv6_prefix = refl };
              failures = refl;
              raised = sym (ap is_some quiet);
            })
          ])
        ])

  Exact-later :
      (w before now : ℕ) (m : Failures) (h : History)
      → before ≤ now
      → Exact w before m h
      → Exact w now m h
  Exact-later w before now m h le x = record {
    counts = λ ip at later. x.counts ip at (omega (arith, le, later));
    ascending = x.ascending;
    past = λ ip. All-weaken _ _ (failures_of ip m) (λ t i. omega (arith, i, le)) (x.past ip);
  }

  -- The detector after a run: its settings are the first ones, and what it holds agrees with the
  -- history.
  record Watching (start : SshBruteforceDetector) (es : List NormalizedEvent) : Type 0 where
    same : Same start (watch start es).0
    exact : Exact start.window (last_time es) (watch start es).0.failures (watch start es).1

  -- After a failure.
  failure-Exact :
      (start s : SshBruteforceDetector) (e : NormalizedEvent) (before : ℕ) (h : History)
      → Same start s
      → before ≤ e.timestamp
      → Exact start.window before s.failures h
      → is_auth_failure e.event_type ≡ true
      → (let q = process lib blake3 d e s in
          Exact start.window e.timestamp q.0.failures
            ((key_of start e, (e.timestamp, is_bruteforce q.1)) ∷ h))
  failure-Exact start s e before h same le x failure =
      let q = process lib blake3 d e s in
      let eff = process-Effect e s failure in
      let x' : Exact s.window before s.failures h =
        subst (λ w. Exact w before s.failures h) (sym same.window) x in
      let y = hit-Exact s.window s.threshold before e.timestamp (key_of s e) s.failures h x' le in
      let y1 =
        subst
          (λ m.
            Exact s.window e.timestamp m ((key_of s e, (e.timestamp, is_some (noted e s).1)) ∷ h))
          (sym eff.failures) y in
      let y2 =
        subst (λ b. Exact s.window e.timestamp q.0.failures ((key_of s e, (e.timestamp, b)) ∷ h))
          (sym eff.raised) y1 in
      let y3 =
        subst
          (λ p.
            Exact s.window e.timestamp q.0.failures
              ((addr (source_key lib e.source_ip p), (e.timestamp, is_bruteforce q.1)) ∷ h))
          same.ipv6_prefix y2 in
      subst
        (λ w.
          Exact w e.timestamp q.0.failures ((key_of start e, (e.timestamp, is_bruteforce q.1)) ∷ h))
        same.window y3

  Same-trans : (a b c : SshBruteforceDetector) → Same a b → Same b c → Same a c
  Same-trans a b c x y = record {
    threshold = y.threshold ∙ x.threshold;
    window = y.window ∙ x.window;
    ipv6_prefix = y.ipv6_prefix ∙ x.ipv6_prefix;
  }

  process_other :
      (e : NormalizedEvent) (s : SshBruteforceDetector)
      → is_auth_failure e.event_type ≡ false
      → process lib blake3 d e s ≡ (s, none)
  unfolding process
  process_other e s other = if_false (is_auth_failure e.event_type) _ _ other

  watch-Watching :
      (start : SshBruteforceDetector) (es : List NormalizedEvent)
      → start.failures ≡ []
      → InOrder es
      → Watching start es
  unfolding watch since failures_of lookup
  watch-Watching start [] fresh o = record {
    same = record { threshold = refl; window = refl; ipv6_prefix = refl };
    exact =
        subst (λ m. Exact start.window 0 m []) (sym fresh)
          (record { counts = λ ip at later. refl; ascending = λ ip. tt; past = λ ip. tt });
  }
  watch-Watching start (e ∷ es) fresh o =
      let ih = watch-Watching start es fresh o.1 in
      let s = (watch start es).0 in
      let h = (watch start es).1 in
      elim (Bool-cases (is_auth_failure e.event_type)) [
        | inl failure ↦ record {
          same = Same-trans start s _ ih.same (process-Effect e s failure).same;
          exact =
              subst (Exact start.window e.timestamp _)
                (sym (if_true (is_auth_failure e.event_type) _ h failure))
                (failure-Exact start s e (last_time es) h ih.same o.0 ih.exact failure);
        }
        | inr other ↦ record {
          same = subst (λ q. Same start q.0) (sym (process_other e s other)) ih.same;
          exact =
              subst (Exact start.window e.timestamp _)
                (sym (if_false (is_auth_failure e.event_type) _ h other))
                (subst (λ q. Exact start.window e.timestamp q.0.failures h)
                  (sym (process_other e s other))
                  (Exact-later start.window (last_time es) e.timestamp s.failures h o.0 ih.exact));
        }
      ]

  -- A detector that starts empty watches events of any kinds and sources in the order of their
  -- times. A failed login then raises the brute-force signal exactly if, with it, the failures from
  -- its source that lie within the window and came after the last such signal reach the threshold.
  pub process-fires :
      (start : SshBruteforceDetector) (es : List NormalizedEvent) (e : NormalizedEvent)
      → start.failures ≡ []
      → InOrder (e ∷ es)
      → is_auth_failure e.event_type ≡ true
      → is_bruteforce (process lib blake3 d e (watch start es).0).1
        ≡ leb start.threshold (
            suc (
              count (is_live start.window e.timestamp) (since (key_of start e) (watch start es).1)))
  process-fires start es e fresh o failure =
      let w = watch-Watching start es fresh o.1 in
      let s = (watch start es).0 in
      let h = (watch start es).1 in
      let x : Exact s.window (last_time es) s.failures h =
        subst (λ v. Exact v (last_time es) s.failures h) (sym w.same.window) w.exact in
      (process-Effect e s failure).raised
      ∙ hit-fires s.window s.threshold (last_time es) e.timestamp (key_of s e) s.failures h x o.0
      ∙ ap (λ t. leb t (suc (count (is_live s.window e.timestamp) (since (key_of s e) h))))
          w.same.threshold
      ∙ ap (λ v. leb start.threshold (suc (count (is_live v e.timestamp) (since (key_of s e) h))))
          w.same.window
      ∙ ap
          (λ p. leb start.threshold (
            suc (
              count (is_live start.window e.timestamp)
                (since (addr (source_key lib e.source_ip p)) h))))
          w.same.ipv6_prefix
