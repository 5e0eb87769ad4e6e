-- ===== src/Tests/Format.antt =====
-- An encoding of snapshots that hold nothing but a whitelist of IPv4 networks.
use hiveguard.Prelude.{
  ◌≡◌, refl, ap, arith, List, [], ◌∷◌, Option, none, some, ◌>>=◌, Option-cases, inl, inr, some_inj,
  sym, ◌∙◌, ℕ,
}
use hiveguard.Net.{IpNet}
use hiveguard.Models.{BanRecord}
use hiveguard.Crdt.{CrdtBanRecord}
use hiveguard.Crypto.{Bytes}
use hiveguard.Persistence.Snapshot.{SnapshotDataV4, SnapshotCodec}

unfoldable pub encode_nets : List IpNet → Option Bytes
encode_nets [] = some []
encode_nets (IpNet.v4 a p ∷ nets) = encode_nets nets >>= λ rest. some (a ∷ p ∷ rest)
encode_nets (IpNet.v6 a p ∷ nets) = none

unfoldable pub decode_nets : Bytes → Option (List IpNet)
decode_nets [] = some []
decode_nets (a ∷ []) = none
decode_nets (a ∷ p ∷ bytes) = decode_nets bytes >>= λ nets. some (IpNet.v4 a p ∷ nets)

decode_nets-encode_nets :
    (nets : List IpNet) (payload : Bytes)
    → encode_nets nets ≡ some payload
    → decode_nets payload ≡ some nets
unfolding encode_nets decode_nets
decode_nets-encode_nets [] payload h = ground (arith, h)
decode_nets-encode_nets (IpNet.v4 a p ∷ nets) payload h = elim (Option-cases (encode_nets nets)) [
  | inl fails ↦ absurd (ground (arith, h, fails))
  | inr (rest, done) ↦
      let tail : payload ≡ a ∷ p ∷ rest =
        some_inj (sym h ∙ ap (λ (o : Option Bytes). o >>= λ r. some (a ∷ p ∷ r)) done) in
      ap decode_nets tail
      ∙ ap (λ (o : Option (List IpNet)). o >>= λ l. some (IpNet.v4 a p ∷ l))
          (decode_nets-encode_nets nets rest done)
]
decode_nets-encode_nets (IpNet.v6 a p ∷ nets) payload h = absurd (ground (arith, h))

unfoldable pub encode :
    List BanRecord → List IpNet → List CrdtBanRecord → List (IpNet × ℕ) → Option Bytes
encode [] nets [] [] = encode_nets nets
encode _ _ _ _ = none

abbrev pub of_nets : List IpNet → SnapshotDataV4
of_nets nets = record { bans = []; whitelist = nets; crdt_bans = []; revocations = [] }

unfoldable pub take_v4 : Bytes → Option (SnapshotDataV4 × Bytes)
take_v4 bytes = decode_nets bytes >>= λ nets. some (of_nets nets, [])

pub decode_encode :
    (bans : List BanRecord) (nets : List IpNet) (records : List CrdtBanRecord)
    (cutoffs : List (IpNet × ℕ)) (payload : Bytes)
    → encode bans nets records cutoffs ≡ some payload
    → take_v4 payload
      ≡ some
          (record { bans = bans; whitelist = nets; crdt_bans = records; revocations = cutoffs }, [])
unfolding encode take_v4
decode_encode [] nets [] [] payload h = rw (decode_nets-encode_nets nets payload h, take_v4) refl
decode_encode [] nets [] (c ∷ cutoffs) payload h = absurd (ground (arith, h))
decode_encode [] nets (r ∷ records) cutoffs payload h = absurd (ground (arith, h))
decode_encode (b ∷ bans) nets records cutoffs payload h = absurd (ground (arith, h))

unfoldable pub format : SnapshotCodec
format = record {
  to_allocvec = λ c. encode c.bans c.whitelist c.crdt_bans c.revocations;
  take_v4 = take_v4;
  take_v2 = λ bytes. none;
  deserialize_v2 = λ bytes. none;
  deserialize_v1 = λ bytes. none;
  decode_encode =
      λ c payload h. decode_encode c.bans c.whitelist c.crdt_bans c.revocations payload h;
}
