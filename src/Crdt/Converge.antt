-- ===== src/Crdt/Converge.antt =====
-- Convergence: replicas that have merged the same records agree, whatever the order of arrival.
use mathlib.Core.List.{Permᴰ}
use mathlib.Core.Path.{ap₂, subst}
use hiveguard.Prelude.{◌≡◌, refl, sym, ap, ◌∙◌, arith, List, [], ◌∷◌, Option, some, ◌>>=◌, All}
use hiveguard.Net.{IpNet, beq_iff}
use hiveguard.Crdt.{CrdtBanRecord, merged, merge}
use hiveguard.Crdt.Invariant.{IsValid, merged-IsValid}
use hiveguard.Crdt.Merge.{decision, decision-merged_comm, merged_assoc, subject-merged, merged_idem}

-- A replica's record after the records of a list have arrived, in their order.
pub merge_all : CrdtBanRecord → List CrdtBanRecord → Option CrdtBanRecord
merge_all a [] = some a
merge_all a (r ∷ rs) = do m ← merge a r; merge_all m rs

folded : CrdtBanRecord → List CrdtBanRecord → CrdtBanRecord
folded a [] = a
folded a (r ∷ rs) = folded (merged a r) rs

-- A well-formed record about the subject.
pub record About (s : IpNet) (r : CrdtBanRecord) : Type 0 where
  pub valid : IsValid r
  pub same_subject : r.subject ≡ s

merged-About : (s : IpNet) (a b : CrdtBanRecord) → About s a → About s b → About s (merged a b)
merged-About s a b ha hb = record {
  valid = merged-IsValid a b ha.valid hb.valid;
  same_subject = subject-merged a b ∙ ha.same_subject;
}

merge_all-folded :
    (s : IpNet) (a : CrdtBanRecord) (rs : List CrdtBanRecord)
    → About s a
    → All (About s) rs
    → merge_all a rs ≡ some (folded a rs)
unfolding merge_all folded merge
merge_all-folded s a [] ha hs = refl
merge_all-folded s a (r ∷ rs) ha hs = ground (
  arith,
  beq_iff a.subject r.subject,
  ha.same_subject,
  hs.0.same_subject,
  merge_all-folded s (merged a r) rs (merged-About s a r ha hs.0) hs.1,
)

decision-merged_through :
    (a b : CrdtBanRecord) → decision (merged a b) ≡ decision (merged (decision a) (decision b))
unfolding decision merged
decision-merged_through a b = cc

decision-merged_cong :
    (a b c d : CrdtBanRecord)
    → decision a ≡ decision b
    → decision c ≡ decision d
    → decision (merged a c) ≡ decision (merged b d)
decision-merged_cong a b c d e f =
    decision-merged_through a c
    ∙ ap₂ (λ x y. decision (merged x y)) e f
    ∙ sym (decision-merged_through b d)

decision-folded_cong :
    (a b : CrdtBanRecord) (rs : List CrdtBanRecord)
    → decision a ≡ decision b
    → decision (folded a rs) ≡ decision (folded b rs)
unfolding folded
decision-folded_cong a b [] e = e
decision-folded_cong a b (r ∷ rs) e =
    decision-folded_cong (merged a r) (merged b r) rs (decision-merged_cong a b r r e refl)

-- Two records may arrive in either order.
decision-merged_swap :
    (s : IpNet) (a x y : CrdtBanRecord)
    → About s x
    → About s y
    → decision (merged (merged a x) y) ≡ decision (merged (merged a y) x)
decision-merged_swap s a x y hx hy =
    ap decision (merged_assoc a x y hx.valid hy.valid)
    ∙ decision-merged_cong a a (merged x y) (merged y x) refl
        (decision-merged_comm x y hx.valid hy.valid (hx.same_subject ∙ sym hy.same_subject))
    ∙ sym (ap decision (merged_assoc a y x hy.valid hx.valid))

All-perm :
    (s : IpNet) {rs ss : List CrdtBanRecord} → Permᴰ rs ss → All (About s) rs → All (About s) ss
All-perm s Permᴰ.nil h = tt
All-perm s (Permᴰ.cons e p) h = (subst (About s) e h.0, All-perm s p h.1)
All-perm s (Permᴰ.swap e f) h = (subst (About s) f h.1.0, (subst (About s) e h.0, h.1.1))
All-perm s (Permᴰ.trans p q) h = All-perm s q (All-perm s p h)

decision-folded_perm :
    (s : IpNet) (a : CrdtBanRecord) {rs ss : List CrdtBanRecord}
    → Permᴰ rs ss
    → All (About s) rs
    → decision (folded a rs) ≡ decision (folded a ss)
unfolding folded
decision-folded_perm s a Permᴰ.nil h = refl
decision-folded_perm s a (Permᴰ.cons {a = x} {b = y} {l₂ = ss} e p) h =
    decision-folded_perm s (merged a x) p h.1
    ∙ decision-folded_cong (merged a x) (merged a y) ss (ap (λ r. decision (merged a r)) e)
decision-folded_perm s a (Permᴰ.swap {a = x} {b = y} {l = rs} e f) h =
    decision-folded_cong _ _ rs
      (decision-merged_swap s a x y h.0 h.1.0 ∙ ap₂ (λ u v. decision (merged (merged a u) v)) f e)
decision-folded_perm s a (Permᴰ.trans p q) h =
    decision-folded_perm s a p h ∙ decision-folded_perm s a q (All-perm s p h)

-- A record that was merged in already changes nothing.
absorb_left :
    (s : IpNet) (a b : CrdtBanRecord)
    → About s a
    → About s b
    → decision (merged (merged a b) a) ≡ decision (merged a b)
absorb_left s a b ha hb =
    decision-merged_swap s a b a hb ha ∙ ap (λ r. decision (merged r b)) (merged_idem a ha.valid)

absorb_right :
    (s : IpNet) (a b : CrdtBanRecord)
    → About s b
    → decision (merged (merged a b) b) ≡ decision (merged a b)
absorb_right s a b hb =
    ap decision (merged_assoc a b b hb.valid hb.valid)
    ∙ ap (λ r. decision (merged a r)) (merged_idem b hb.valid)

folded_self :
    (s : IpNet) (a : CrdtBanRecord) (rs : List CrdtBanRecord)
    → About s a
    → folded a (a ∷ rs) ≡ folded a rs
unfolding folded
folded_self s a rs ha = ap (λ r. folded r rs) (merged_idem a ha.valid)

converge :
    (s : IpNet) (a b : CrdtBanRecord) {rs ss : List CrdtBanRecord}
    → Permᴰ (a ∷ rs) (b ∷ ss)
    → All (About s) (a ∷ rs)
    → decision (folded a rs) ≡ decision (folded b ss)
unfolding folded
converge s a b {rs} {ss} p h =
    let hb = All-perm s p h in
    let ab = merged a b in
    sym (ap decision (folded_self s a rs h.0))
    ∙ decision-folded_perm s a p h
    ∙ sym (decision-folded_cong (merged ab b) ab ss (absorb_right s a b hb.0))
    ∙ sym (decision-folded_perm s ab p h)
    ∙ decision-folded_cong (merged ab a) ab rs (absorb_left s a b h.0 hb.0)
    ∙ decision-folded_cong ab (merged b a) rs
        (decision-merged_comm a b h.0.valid hb.0.valid (h.0.same_subject ∙ sym hb.0.same_subject))
    ∙ decision-folded_perm s b p h
    ∙ ap decision (folded_self s b ss hb.0)

-- If two replicas hold, in whatever order of arrival, the same well-formed records of one subject,
-- then merging them in that order succeeds at both, and both end with the same record, reason and
-- evidence aside.
pub merge_all_converge :
    (s : IpNet) (a b : CrdtBanRecord) {rs ss : List CrdtBanRecord}
    → Permᴰ (a ∷ rs) (b ∷ ss)
    → All (About s) (a ∷ rs)
    → (m n : CrdtBanRecord) × (merge_all a rs ≡ some m)
      × (merge_all b ss ≡ some n)
      × (decision m ≡ decision n)
merge_all_converge s a b {rs} {ss} p h =
    let hb = All-perm s p h in
    (
      folded a rs,
      folded b ss,
      merge_all-folded s a rs h.0 h.1,
      merge_all-folded s b ss hb.0 hb.1,
      converge s a b p h,
    )
