-- ===== src/Scoring/Decisions.antt =====
-- What the scoring engine decides, over any run of signals, evaluations and decays.
use mathlib.Core.Path.{subst}
use hiveguard.Prelude.{
  ℕ, ◌≤◌, ◌≡◌, inl, inr, refl, sym, ap, ◌∙◌, arith, List, [], ◌∷◌, ◌++◌, Option, none, some, retain,
  Bool-cases, Option-cases, if_true, if_false,
}
use hiveguard.Prelude.Map.{Distinct, lookup, insert, insert-Distinct}
use hiveguard.Net.{IpAddr, addr, addr_eq}
use hiveguard.Models.{DetectionSignal}
use hiveguard.Detectors.{Display}
use hiveguard.Scoring.{
  Config, BanDecision, DefaultScoringPlugin, is_current, prune_signals, bucket_of, record_signal,
  decide, evaluate, prune_each, decay,
}
use hiveguard.Scoring.History.{
  Entry, since, retain-append, bucket_of-insert, bucket_of-prune, prune-kept, Exact, prune-Exact,
}

pub data Op : Type 0 where
  record_op : DetectionSignal → Op
  evaluate_op : IpAddr → ℕ → Op
  decay_op : ℕ → Op

-- The time of the last evaluation or decay.
abbrev pub last_time : List Op → ℕ
last_time [] = 0
last_time (Op.record_op _ ∷ ops) = last_time ops
last_time (Op.evaluate_op _ now ∷ ops) = now
last_time (Op.decay_op now ∷ ops) = now

-- The times of evaluations and decays do not go back; the latest comes first.
abbrev pub InOrder : List Op → Type 0
InOrder [] = Unit
InOrder (op ∷ ops) = (last_time ops ≤ last_time (op ∷ ops)) × InOrder ops

abbrev pub note : IpAddr → Option BanDecision → List Entry → List Entry
note ip none h = h
note ip (some _) h = Entry.decided ip ∷ h

-- What an evaluation comes to, by what is decided on the signals that pruning left.
abbrev settled :
    IpAddr → DefaultScoringPlugin → Option BanDecision → DefaultScoringPlugin × Option BanDecision
settled ip p none = (p, none)
settled ip p (some decision) = (record p { signals = insert ip [] p.signals }, some decision)

settled-decision :
    (ip : IpAddr) (p : DefaultScoringPlugin) (o : Option BanDecision) → (settled ip p o).1 ≡ o
settled-decision ip p none = refl
settled-decision ip p (some x) = refl

settled-Exact :
    (c : Config) (now : ℕ) (ip : IpAddr) (p : DefaultScoringPlugin) (o : Option BanDecision)
    (h : List Entry)
    → Exact c now p h
    → Exact c now (settled ip p o).0 (note ip o h)
unfolding since
settled-Exact c now ip p none h x = x
settled-Exact c now ip p (some decision) h x = record {
  config = x.config;
  distinct = insert-Distinct ip [] p.signals x.distinct;
  agrees = λ j at later.
      let keep = retain (is_current c.accumulation_window at) in
      ap keep (bucket_of-insert ip j [] p.signals) ∙ elim (Bool-cases (addr_eq.beq ip j)) [
        | inl same ↦ ap keep (if_true _ _ _ same) ∙ ap keep (sym (if_true _ _ _ same))
        | inr other ↦
            ap keep (if_false _ _ _ other)
            ∙ x.agrees j at later
            ∙ ap keep (sym (if_false _ _ _ other))
      ];
}

record-Exact :
    (c : Config) (now : ℕ) (s : DetectionSignal) (p : DefaultScoringPlugin) (h : List Entry)
    → Exact c now p h
    → Exact c now (record_signal s p) (Entry.recorded s ∷ h)
unfolding record_signal since
record-Exact c now s p h x =
    let ip = addr s.source_ip in
    record {
      config = x.config;
      distinct = insert-Distinct ip (bucket_of ip p.signals ++ (s ∷ [])) p.signals x.distinct;
      agrees = λ j at later.
          let keep = retain (is_current c.accumulation_window at) in
          let old = bucket_of ip p.signals in
          ap keep (bucket_of-insert ip j (old ++ (s ∷ [])) p.signals)
          ∙ elim (Bool-cases (addr_eq.beq ip j)) [
            | inl same ↦
                ap keep (if_true _ _ _ same)
                ∙ retain-append _ old (s ∷ [])
                ∙ ap (λ l. l ++ keep (s ∷ []))
                    (x.agrees ip at later
                      ∙ ap (λ k. keep (since k h)) ((addr_eq.beq_iff ip j).0 same))
                ∙ sym (retain-append _ (since j h) (s ∷ []))
                ∙ ap keep (sym (if_true _ _ _ same))
            | inr other ↦
                ap keep (if_false _ _ _ other)
                ∙ x.agrees j at later
                ∙ ap keep (sym (if_false _ _ _ other))
          ];
    }

prune_each-Exact :
    (c : Config) (before now : ℕ) (keys : List IpAddr) (p : DefaultScoringPlugin) (h : List Entry)
    → before ≤ now
    → Exact c before p h
    → Exact c now (prune_each now keys p) h
unfolding prune_each
prune_each-Exact c before now [] p h le x = record {
  config = x.config;
  distinct = x.distinct;
  agrees = λ j at later. x.agrees j at (omega (arith, le, later));
}
prune_each-Exact c before now (ip ∷ keys) p h le x =
    prune_each-Exact c now now keys (prune_signals ip now p) h (omega arith)
      (prune-Exact c before now ip p h le x)

module _ (d : Display) where
  evaluate-settled :
      (ip : IpAddr) (now : ℕ) (p : DefaultScoringPlugin)
      → (let pruned = prune_signals ip now p in
          evaluate d ip now p
          ≡ settled ip pruned (decide d pruned.config now (bucket_of ip pruned.signals)))
  unfolding evaluate bucket_of decide
  evaluate-settled ip now p =
      let pruned = prune_signals ip now p in
      elim (Option-cases (lookup ip pruned.signals)) [
        | inl absent ↦ rw (evaluate, bucket_of, absent) refl
        | inr (bucket, there) ↦ elim (Option-cases (decide d pruned.config now bucket)) [
          | inl silent ↦ rw (evaluate, bucket_of, there, silent) refl
          | inr (decision, made) ↦ rw (evaluate, bucket_of, there, made) refl
        ]
      ]

  unfoldable pub step : Op → DefaultScoringPlugin × List Entry → DefaultScoringPlugin × List Entry
  step (Op.record_op s) (p, h) = (record_signal s p, Entry.recorded s ∷ h)
  step (Op.evaluate_op ip now) (p, h) = let r = evaluate d ip now p in (r.0, note ip r.1 h)
  step (Op.decay_op now) (p, h) = (decay now p, h)

  unfoldable pub run : List Op → DefaultScoringPlugin → DefaultScoringPlugin × List Entry
  run [] start = (start, [])
  run (op ∷ ops) start = step op (run ops start)

  left_is :
      (c : Config) (before now : ℕ) (ip : IpAddr) (p : DefaultScoringPlugin) (h : List Entry)
      → before ≤ now
      → Exact c before p h
      → decide d (prune_signals ip now p).config now (bucket_of ip (prune_signals ip now p).signals)
        ≡ decide d c now (retain (is_current c.accumulation_window now) (since ip h))
  left_is c before now ip p h le x =
      let pruned = prune_signals ip now p in
      ap (λ q. decide d q now (bucket_of ip pruned.signals))
        ((prune-kept ip now p x.distinct).1 ∙ x.config)
      ∙ ap (decide d c now) (
          bucket_of-prune ip ip now p x.distinct
          ∙ if_true _ _ _ ((addr_eq.beq_iff ip ip).1 refl)
          ∙ ap
              (λ (q : Config).
                retain (is_current q.accumulation_window now) (bucket_of ip p.signals))
              x.config
          ∙ x.agrees ip now le)

  run-Exact :
      (start : DefaultScoringPlugin) (ops : List Op)
      → start.signals ≡ []
      → InOrder ops
      → Exact start.config (last_time ops) (run ops start).0 (run ops start).1
  unfolding run step decay bucket_of lookup since
  run-Exact start [] fresh o = record {
    config = refl;
    distinct = subst Distinct (sym fresh) tt;
    agrees = λ ip at later.
        ap (λ m. retain (is_current start.config.accumulation_window at) (bucket_of ip m)) fresh;
  }
  run-Exact start (Op.record_op s ∷ ops) fresh o =
      record-Exact start.config (last_time ops) s (run ops start).0 (run ops start).1
        (run-Exact start ops fresh o.1)
  run-Exact start (Op.decay_op now ∷ ops) fresh o =
      prune_each-Exact start.config (last_time ops) now _ (run ops start).0 (run ops start).1 o.0
        (run-Exact start ops fresh o.1)
  run-Exact start (Op.evaluate_op ip now ∷ ops) fresh o =
      let p = (run ops start).0 in
      let h = (run ops start).1 in
      let pruned = prune_signals ip now p in
      let made = decide d pruned.config now (bucket_of ip pruned.signals) in
      subst (λ r. Exact start.config now r.0 (note ip r.1 h)) (sym (evaluate-settled ip now p))
        (subst (λ q. Exact start.config now (settled ip pruned made).0 (note ip q h))
          (sym (settled-decision ip pruned made))
          (settled-Exact start.config now ip pruned made h (
            prune-Exact start.config (last_time ops) now ip p h o.0
              (run-Exact start ops fresh o.1))))

  -- After any run that starts without signals and in which the clock that evaluations and decays read
  -- does not go back, an evaluation of an address at no earlier time decides on exactly the signals
  -- that were recorded on it since the last decision on it and lie within the window: what was
  -- pruned, and what happened on other addresses, makes no difference. Signals may bear any times.
  pub evaluate-decide :
      (start : DefaultScoringPlugin) (ops : List Op) (ip : IpAddr) (now : ℕ)
      → start.signals ≡ []
      → InOrder (Op.evaluate_op ip now ∷ ops)
      → (evaluate d ip now (run ops start).0).1
        ≡ decide d start.config now
            (retain (is_current start.config.accumulation_window now) (since ip (run ops start).1))
  evaluate-decide start ops ip now fresh o =
      let p = (run ops start).0 in
      ap (λ r. r.1) (evaluate-settled ip now p)
      ∙ settled-decision ip (prune_signals ip now p) _
      ∙ left_is start.config (last_time ops) now ip p (run ops start).1 o.0
          (run-Exact start ops fresh o.1)
