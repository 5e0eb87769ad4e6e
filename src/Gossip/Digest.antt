-- ===== src/Gossip/Digest.antt =====
-- The exchange of digests and inventories: peers with the same records need none, and after it a
-- node lacks nothing that its peer had.
use Prim.Native.String.{String}
use mathlib.Core.Path.{subst}
use hiveguard.Prelude.{
  ℕ, ◌+◌, ◌*◌, ◌≡◌, ◌⊎◌, inl, inr, refl, sym, ap, ◌∙◌, arith, Bool, true, false, List, [], ◌∷◌, map,
  Option, none, some, leb, any, filter, In, Bool-cases, if◌then◌else◌, if_true, if_false,
}
use hiveguard.Prelude.Eq.{string_eq}
use hiveguard.Prelude.StringOrd.{string_ord}
use mathlib.Core.List.{Permᴰ}
use hiveguard.Prelude.Sort.{sort-Perm, map-Perm}
use hiveguard.Net.{IpNet}
use hiveguard.Models.{BanRecord}
use hiveguard.Crypto.{Bytes, Blake3, bytes_beq_iff, as_bytes}
use hiveguard.Gossip.{
  GossipAction, Texts, join, len, take_inventory, record_key, compute_digest,
  handle_digest_exchange, handle_diff_request,
}

-- The keys of a request that is made.
requested :
    (same : Bool) (inventory keys : List String) (sender : String)
    → (if same then none else some (GossipAction.send_diff_request sender inventory))
      ≡ some (GossipAction.send_diff_request sender keys)
    → inventory ≡ keys
requested true inventory keys sender h = absurd (ground (arith, h))
requested false inventory keys sender h = ap list_of h
  where
    list_of : Option GossipAction → List String
    list_of (some (GossipAction.send_diff_request _ l)) = l
    list_of _ = []

module _ (blake3 : Blake3) (texts : Texts) where
  -- A key is not the text of a network.
  key-apart : (a : BanRecord) (m : IpNet) → record_key blake3 texts a ≡ texts.to_string m → ⊥
  unfolding record_key
  key-apart a m h = texts.to_string-apart m a.subject (blake3.hash _) (sym h)

  compute_digest-Perm :
      (xs ys : List BanRecord)
      → Permᴰ xs ys
      → compute_digest blake3 texts xs ≡ compute_digest blake3 texts ys
  unfolding compute_digest
  compute_digest-Perm xs ys p =
      ap (λ (l : List String). blake3.hash (as_bytes (join "," l)))
        (sort-Perm (map-Perm (record_key blake3 texts) p))

  -- A node does not ask a peer that has the same records, in whatever order the two list them.
  pub handle_digest_exchange-Perm :
      (xs ys : List BanRecord) (sender : String)
      → Permᴰ xs ys
      → handle_digest_exchange blake3 texts (compute_digest blake3 texts ys) xs sender ≡ none
  unfolding handle_digest_exchange
  handle_digest_exchange-Perm xs ys sender p =
      if_true _ none _ ((bytes_beq_iff _ _).1 (compute_digest-Perm xs ys p))

  -- A listed key is the key of a record of the list.
  inventory-keys :
      (n : ℕ) (bans : List BanRecord) (k : String)
      → In k (take_inventory n (map (record_key blake3 texts) bans))
      → (a : BanRecord) × In a bans × (record_key blake3 texts a ≡ k)
  unfolding take_inventory
  inventory-keys n [] k i = elim i [ ]
  inventory-keys n (b ∷ bans) k i =
      let size = n + len (record_key blake3 texts b) + 8 in
      elim (Bool-cases (leb size (2 * 1024 * 1024))) [
        | inl fits ↦ elim (subst (In k) (if_true _ _ [] fits) i) [
          | inl here ↦ (b, inl refl, here)
          | inr later ↦ let r = inventory-keys size bans k later in (r.0, inr r.1, r.2)
        ]
        | inr full ↦ absurd (subst (In k) (if_false _ _ [] full) i)
      ]

  In-of_any : (k : String) (ks : List String) → any (λ j. string_eq.beq j k) ks ≡ true → In k ks
  unfolding any
  In-of_any k [] h = absurd (ground (arith, h))
  In-of_any k (j ∷ ks) h = elim (Bool-cases (string_eq.beq j k)) [
    | inl same ↦ inl ((string_eq.beq_iff j k).0 same)
    | inr other ↦ inr (In-of_any k ks (sym (if_false _ true _ other) ∙ h))
  ]

  In-filter :
      (p : BanRecord → Bool) (b : BanRecord) (bs : List BanRecord)
      → In b bs
      → p b ≡ true
      → In b (filter p bs)
  In-filter p b [] i h = elim i [ ]
  In-filter p b (c ∷ bs) (inl e) h = subst (In b) (sym (if_true (p c) _ _ (ap p e ∙ h))) (inl e)
  In-filter p b (c ∷ bs) (inr i) h = elim (Bool-cases (p c)) [
    | inl kept ↦ subst (In b) (sym (if_true (p c) _ _ kept)) (inr (In-filter p b bs i h))
    | inr gone ↦ subst (In b) (sym (if_false (p c) _ _ gone)) (In-filter p b bs i h)
  ]

  -- A record is in the answer, or the other node has listed its version or its network.
  answer-cases :
      (keys : List String) (bans : List BanRecord) (b : BanRecord)
      → In b bans
      → In b (handle_diff_request blake3 texts keys bans)
        ⊎ In (record_key blake3 texts b) keys
        ⊎ In (texts.to_string b.subject) keys
  unfolding handle_diff_request
  answer-cases keys bans b i =
      elim (Bool-cases (any (λ k. string_eq.beq k (record_key blake3 texts b)) keys)) [
        | inl listed ↦ inr (inl (In-of_any (record_key blake3 texts b) keys listed))
        | inr unlisted ↦
            elim (Bool-cases (any (λ k. string_eq.beq k (texts.to_string b.subject)) keys)) [
              | inl named ↦ inr (inr (In-of_any (texts.to_string b.subject) keys named))
              | inr unnamed ↦ inl (In-filter _ b bans i (rw (unlisted, unnamed) refl))
            ]
      ]

  -- A node that asks its peer for what differs lists keys with which the peer's answer makes it
  -- complete: every record of the peer is in the answer, or the node had a record with its version
  -- key.
  pub exchange_complete :
      (local peer : List BanRecord) (digest : Bytes) (sender : String) (keys : List String)
      → handle_digest_exchange blake3 texts digest local sender
        ≡ some (GossipAction.send_diff_request sender keys)
      → (b : BanRecord) → In b peer
      → In b (handle_diff_request blake3 texts keys peer)
        ⊎ ((a : BanRecord) × In a local × (record_key blake3 texts a ≡ record_key blake3 texts b))
  unfolding handle_digest_exchange
  exchange_complete local peer digest sender keys h b i =
      let listed : take_inventory 0 (map (record_key blake3 texts) local) ≡ keys =
        requested _ _ keys sender h in
      elim (answer-cases keys peer b i) [
        | inl there ↦ inl there
        | inr (inl key) ↦
            inr (inventory-keys 0 local (record_key blake3 texts b) (subst (In _) (sym listed) key))
        | inr (inr name) ↦
            let r =
              inventory-keys 0 local (texts.to_string b.subject) (subst (In _) (sym listed) name) in
            absurd (key-apart r.0 b.subject r.2)
      ]
