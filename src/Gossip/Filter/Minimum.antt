-- ===== src/Gossip/Filter/Minimum.antt =====
-- The least creation time, severity and expiry of votes.
use Prim.Native.String.{String}
use mathlib.Core.Path.{subst}
use hiveguard.Prelude.{
  ℕ, ◌≤◌, ◌≡◌, inl, inr, refl, sym, arith, List, [], ◌∷◌, Option, none, some, leb, map, All,
  Option-cases, if◌then◌else◌, some_inj,
}
use hiveguard.Models.{BanRecord}
use hiveguard.Gossip.Filter.{Votes, min_from, minimum, expiries, or_else}

-- A ban that ends at the first time, or never, is over when the other one is.
abbrev pub Within : Option ℕ → Option ℕ → Type 0
Within o none = Unit
Within none (some e) = ⊥
Within (some m) (some e) = m ≤ e

min_from-le :
    (g : BanRecord → ℕ) (a : ℕ) (votes : Votes)
    → (min_from a (map (λ (x : String × BanRecord). g x.1) votes) ≤ a)
      × All (λ x. min_from a (map (λ (x : String × BanRecord). g x.1) votes) ≤ g x.1) votes
unfolding min_from
min_from-le g a [] = (omega arith, tt)
min_from-le g a ((k, r) ∷ votes) =
    let ih = min_from-le g (if leb a (g r) then a else g r) votes in
    (ground (arith, ih.0), (ground (arith, ih.0), ih.1))

pub minimum-le :
    (g : BanRecord → ℕ) (d : ℕ) (votes : Votes)
    → All (λ x. or_else (minimum (map (λ (x : String × BanRecord). g x.1) votes)) d ≤ g x.1) votes
unfolding minimum
minimum-le g d [] = tt
minimum-le g d ((k, r) ∷ votes) = min_from-le g (g r) votes

min_from-lower : (a : ℕ) (bs : List ℕ) → (min_from a bs ≤ a) × All (λ b. min_from a bs ≤ b) bs
unfolding min_from
min_from-lower a [] = (omega arith, tt)
min_from-lower a (b ∷ bs) =
    let ih = min_from-lower (if leb a b then a else b) bs in
    (ground (arith, ih.0), (ground (arith, ih.0), ih.1))

Within-bound :
    (m : ℕ) (votes : Votes)
    → All (λ e. m ≤ e) (expiries votes)
    → All (λ x. Within (some m) x.1.expires_at) votes
unfolding expiries
Within-bound m [] h = tt
Within-bound m ((k, r) ∷ votes) h = (
  (head r.expires_at (expiries votes) h).0,
  Within-bound m votes (head r.expires_at (expiries votes) h).1,
)
  where
    head :
        (o : Option ℕ) (es : List ℕ)
        → All (λ e. m ≤ e) (elim o [ none ↦ es | some e ↦ e ∷ es ])
        → Within (some m) o × All (λ e. m ≤ e) es
    head none es h = (tt, h)
    head (some e) es h = h

Within-none : (votes : Votes) → expiries votes ≡ [] → All (λ x. Within none x.1.expires_at) votes
unfolding expiries
Within-none [] h = tt
Within-none ((k, r) ∷ votes) h = (
  (head r.expires_at (expiries votes) h).0,
  Within-none votes (head r.expires_at (expiries votes) h).1,
)
  where
    head :
        (o : Option ℕ) (es : List ℕ)
        → elim o [ none ↦ es | some e ↦ e ∷ es ] ≡ []
        → Within none o × (es ≡ [])
    head none es h = (tt, h)
    head (some e) es h = absurd (ground (arith, h))

minimum-none : (l : List ℕ) → minimum l ≡ none → l ≡ []
unfolding minimum
minimum-none [] h = refl
minimum-none (a ∷ l) h = absurd (ground (arith, h))

minimum-some : (l : List ℕ) (m : ℕ) → minimum l ≡ some m → All (λ e. m ≤ e) l
unfolding minimum
minimum-some [] m h = absurd (ground (arith, h))
minimum-some (a ∷ l) m h =
    let e : min_from a l ≡ m = some_inj h in
    subst (λ n. All (λ b. n ≤ b) (a ∷ l)) e (min_from-lower a l)

pub minimum-Within :
    (votes : Votes) → All (λ x. Within (minimum (expiries votes)) x.1.expires_at) votes
minimum-Within votes = elim (Option-cases (minimum (expiries votes))) [
  | inl never ↦
      subst (λ o. All (λ x. Within o x.1.expires_at) votes) (sym never)
        (Within-none votes (minimum-none (expiries votes) never))
  | inr (m, ends) ↦
      subst (λ o. All (λ x. Within o x.1.expires_at) votes) (sym ends)
        (Within-bound m votes (minimum-some (expiries votes) m ends))
]
