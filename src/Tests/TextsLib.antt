-- ===== src/Tests/TextsLib.antt =====
-- Stand-ins for the texts of networks and digests, for the runs of the other tests: a number is
-- written in strokes.
use Prim.Native.Char.{code}
use Prim.Native.String as Str
use Prim.Native.String.append
use Prim.Native.String.{String, ◌++◌ as ◌+++◌}
use hiveguard.Prelude.{
  ℕ, zero, suc, ◌≡◌, refl, sym, ap, ◌∙◌, arith, Bool, true, false, [], ◌∷◌, ◌==◌, if◌then◌else◌,
}
use hiveguard.Net.{IpNet}
use hiveguard.Crypto.{Bytes}
use hiveguard.Gossip.{Texts}
use hiveguard.Tests.Codec.{sum}

unfoldable pub strokes : ℕ → String → String
strokes zero s = s
strokes (suc n) s = Str.◌∷◌ "x" (strokes n s)

unfoldable pub to_string : IpNet → String
to_string (IpNet.v4 a p) = Str.◌∷◌ "4" (strokes a (Str.◌∷◌ "/" (strokes p (Str.◌∷◌ "." Str.[]))))
to_string (IpNet.v6 a p) = Str.◌∷◌ "6" (strokes a (Str.◌∷◌ "/" (strokes p (Str.◌∷◌ "." Str.[]))))

-- The leading strokes, and what comes after them and one more character.
leading : String → ℕ × String
leading Str.[] = (0, Str.[])
leading (Str.◌∷◌ c s) =
    let rest = leading s in if code c == b'x' then (suc rest.0, rest.1) else (0, s)

leading-strokes :
    (n : ℕ) (c : Prim.Native.Char.Char) (s : String)
    → (code c == b'x') ≡ false
    → leading (strokes n (Str.◌∷◌ c s)) ≡ (n, s)
unfolding leading strokes
leading-strokes zero c s h = rw (h) refl
leading-strokes (suc n) c s h = ap (λ (r : ℕ × String). (suc r.0, r.1)) (leading-strokes n c s h)

read : String → IpNet
read Str.[] = IpNet.v4 0 0
read (Str.◌∷◌ c s) =
    let a = leading s in
    let p = leading a.1 in if code c == b'4' then IpNet.v4 a.0 p.0 else IpNet.v6 a.0 p.0

read-to_string : (n : IpNet) → read (to_string n) ≡ n
unfolding read to_string
read-to_string (IpNet.v4 a p) =
    let e = leading-strokes a "/" (strokes p (Str.◌∷◌ "." Str.[])) refl in
    let g = leading-strokes p "." Str.[] refl in
    ap (λ (r : ℕ × String). IpNet.v4 r.0 (leading r.1).0) e
    ∙ ap (λ (r : ℕ × String). IpNet.v4 a r.0) g
read-to_string (IpNet.v6 a p) =
    let e = leading-strokes a "/" (strokes p (Str.◌∷◌ "." Str.[])) refl in
    let g = leading-strokes p "." Str.[] refl in
    ap (λ (r : ℕ × String). IpNet.v6 r.0 (leading r.1).0) e
    ∙ ap (λ (r : ℕ × String). IpNet.v6 a r.0) g

unfoldable has_hash : String → Bool
has_hash Str.[] = false
has_hash (Str.◌∷◌ c s) = if code c == b'#' then true else has_hash s

has_hash-strokes : (n : ℕ) (s : String) → has_hash (strokes n s) ≡ has_hash s
unfolding strokes has_hash
has_hash-strokes zero s = refl
has_hash-strokes (suc n) s = has_hash-strokes n s

has_hash-append : (s t : String) → has_hash (s +++ Str.◌∷◌ "#" t) ≡ true
unfolding has_hash
has_hash-append Str.[] t = ap has_hash (append.nil (Str.◌∷◌ "#" t))
has_hash-append (Str.◌∷◌ c s) t =
    ap has_hash (append.cons c s (Str.◌∷◌ "#" t))
    ∙ rw (has_hash-append s t) (either (code c == b'#'))
  where
    either : (b : Bool) → (if b then true else true) ≡ true
    either true = refl
    either false = refl

has_hash-to_string : (n : IpNet) → has_hash (to_string n) ≡ false
unfolding has_hash to_string
has_hash-to_string (IpNet.v4 a p) = has_hash-strokes a _ ∙ has_hash-strokes p _
has_hash-to_string (IpNet.v6 a p) = has_hash-strokes a _ ∙ has_hash-strokes p _

pub to_string-inj : (m n : IpNet) → to_string m ≡ to_string n → m ≡ n
to_string-inj m n h = sym (read-to_string m) ∙ ap read h ∙ read-to_string n

unfoldable pub to_hex : Bytes → String
to_hex b = strokes (sum b) Str.[]

pub to_string-apart :
    (m n : IpNet) (digest : Bytes) → to_string m ≡ to_string n +++ ("#" +++ to_hex digest) → ⊥
to_string-apart m n digest h =
    let after : has_hash (to_string n +++ ("#" +++ to_hex digest)) ≡ true =
      ap (λ (t : String). has_hash (to_string n +++ t)) (append.cons "#" Str.[] (to_hex digest))
      ∙ has_hash-append (to_string n) (Str.[] +++ to_hex digest) in
    absurd (ground (arith, has_hash-to_string m, ap has_hash h, after))

unfoldable pub texts : Texts
texts = record {
  to_string = to_string;
  to_string-inj = to_string-inj;
  to_hex = to_hex;
  to_string-apart = to_string-apart;
  serialize_version = λ n c e s r h. c ∷ s ∷ [];
}
