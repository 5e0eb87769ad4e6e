-- ===== src/Persistence/Wal/Replay.antt =====
-- One iteration of the replay: what it reads of a record, and that it looks no further.
use hiveguard.Prelude.{
  ℕ, ◌+◌, ◌^◌, ◌<◌, ◌≡◌, refl, sym, ap, ◌∙◌, arith, true, false, not, List, ◌++◌, some, length, ltb,
  ◌==◌, is_empty, bind-some, guard-some, some_inj, length-append, ==_iff,
}
use mathlib.Core.Path.{subst}
use mathlib.Core.List.{append_assoc}
use hiveguard.Persistence.Wal.{
  WalEntry, Codec, wal_max_record_size, to_le_bytes, from_le_bytes, read_exact, record_bytes,
  read_payload, read_record,
}
use hiveguard.Persistence.Wal.Bytes.{
  from_le_bytes-to_le_bytes, length-to_le_bytes, read_exact-append, read_exact_prefix,
}

module _ (codec : Codec) where
  -- The bytes are read as one record that holds the entry, whatever follows them.
  abbrev pub IsRecord : List ℕ → WalEntry → Type 0
  IsRecord pre e = (rest : List ℕ) → read_record codec (pre ++ rest) ≡ some (e, (length pre, rest))

  -- The bytes are read as one payload.
  IsFrame : List ℕ → List ℕ → Type 0
  IsFrame pre payload = (rest : List ℕ) → read_payload codec (pre ++ rest) ≡ some (payload, rest)

  parts-IsFrame :
      (head body tail : List ℕ)
      → length head ≡ 4
      → ltb wal_max_record_size (from_le_bytes head) ≡ false
      → length body ≡ from_le_bytes head
      → length tail ≡ 4
      → (from_le_bytes tail == codec.hash body) ≡ true
      → IsFrame (head ++ (body ++ tail)) body
  unfolding IsFrame read_payload
  parts-IsFrame head body tail h small b t sum rest =
      let e1 : (head ++ (body ++ tail)) ++ rest ≡ head ++ (body ++ (tail ++ rest)) =
        append_assoc head (body ++ tail) rest ∙ ap (λ l. head ++ l) (append_assoc body tail rest) in
      rw e1 (
        rw (read_exact-append 4 head (body ++ (tail ++ rest)) h) (
          rw small (
            rw (read_exact-append (from_le_bytes head) body (tail ++ rest) b)
              (rw (read_exact-append 4 tail rest t) (rw sum refl)))))

  -- What a successful read found: the length, the payload, the checksum and the rest.
  IsFrame-of_parts :
      (bytes : List ℕ) (head body tail : List ℕ × List ℕ)
      → read_exact 4 bytes ≡ some head
      → not (ltb wal_max_record_size (from_le_bytes head.0)) ≡ true
      → read_exact (from_le_bytes head.0) head.1 ≡ some body
      → read_exact 4 body.1 ≡ some tail
      → (from_le_bytes tail.0 == codec.hash body.0) ≡ true
      → (pre : List ℕ) × (bytes ≡ pre ++ tail.1)
        × IsFrame pre body.0
        × (length pre ≡ 4 + length body.0 + 4)
  IsFrame-of_parts bytes head body tail e1 small e2 e3 sum =
      let p1 = read_exact_prefix 4 bytes e1 in
      let p2 = read_exact_prefix (from_le_bytes head.0) head.1 e2 in
      let p3 = read_exact_prefix 4 body.1 e3 in
      (
        head.0 ++ (body.0 ++ tail.0),
        p1.0
            ∙ ap (λ l. head.0 ++ l)
                (p2.0 ∙ ap (λ l. body.0 ++ l) p3.0 ∙ sym (append_assoc body.0 tail.0 tail.1))
            ∙ sym (append_assoc head.0 (body.0 ++ tail.0) tail.1),
        parts-IsFrame head.0 body.0 tail.0 p1.1 (ground (arith, small)) p2.1 p3.1 sum,
        omega (
          arith,
          length-append head.0 (body.0 ++ tail.0),
          length-append body.0 tail.0,
          p1.1,
          p3.1,
        ),
      )

  read_payload-IsFrame :
      (bytes : List ℕ) {r : List ℕ × List ℕ}
      → read_payload codec bytes ≡ some r
      → (pre : List ℕ) × (bytes ≡ pre ++ r.1) × IsFrame pre r.0 × (length pre ≡ 4 + length r.0 + 4)
  unfolding read_payload
  read_payload-IsFrame bytes {r} h =
      let (head, e1, h1) = bind-some (read_exact 4 bytes) _ h in
      let (small, h2) = guard-some _ _ h1 in
      let (body, e2, h3) = bind-some (read_exact (from_le_bytes head.0) head.1) _ h2 in
      let (tail, e3, h4) = bind-some (read_exact 4 body.1) _ h3 in
      let (sum, h5) = guard-some _ _ h4 in
      subst
        (λ t.
          (pre : List ℕ) × (bytes ≡ pre ++ t.1)
          × IsFrame pre t.0
          × (length pre ≡ 4 + length t.0 + 4))
        (some_inj h5) (IsFrame-of_parts bytes head body tail e1 small e2 e3 sum)

  pub frame_size : (payload : List ℕ) → 4 + length payload + 4 ≡ length (record_bytes codec payload)
  unfolding record_bytes
  frame_size payload = omega (
    arith,
    length-append (to_le_bytes (length payload)) (payload ++ to_le_bytes (codec.hash payload)),
    length-append payload (to_le_bytes (codec.hash payload)),
    length-to_le_bytes (length payload),
    length-to_le_bytes (codec.hash payload),
  )

  pub size_fits :
      (payload : List ℕ)
      → ltb wal_max_record_size (length payload) ≡ false
      → length payload < 2 ^ 32
  unfolding wal_max_record_size
  size_fits payload h = ground (arith, h)

  -- A record as it is written.
  pub record_bytes-IsRecord :
      (e : WalEntry) (payload : List ℕ)
      → codec.to_allocvec e ≡ some payload
      → ltb wal_max_record_size (length payload) ≡ false
      → IsRecord (record_bytes codec payload) e
  unfolding record_bytes read_record IsFrame
  record_bytes-IsRecord e payload enc small =
      let n : from_le_bytes (to_le_bytes (length payload)) ≡ length payload =
        from_le_bytes-to_le_bytes (length payload) (size_fits payload small) in
      let sum = from_le_bytes-to_le_bytes (codec.hash payload) (codec.hash_below payload) in
      let frame =
        parts-IsFrame (to_le_bytes (length payload)) payload (to_le_bytes (codec.hash payload))
          (length-to_le_bytes (length payload)) (rw n small) (sym n)
          (length-to_le_bytes (codec.hash payload)) ((==_iff _ _).1 sum) in
      λ rest. rw (frame rest) (
        rw (codec.decode_encode e payload enc) (ap (λ k. some (e, (k, rest))) (frame_size payload)))

  IsRecord-of_parts :
      (bytes : List ℕ) (frame : List ℕ × List ℕ) (decoded : WalEntry × List ℕ)
      → codec.take_from_bytes frame.0 ≡ some decoded
      → is_empty decoded.1 ≡ true
      → (pre : List ℕ) × (bytes ≡ pre ++ frame.1)
        × IsFrame pre frame.0
        × (length pre ≡ 4 + length frame.0 + 4)
      → (pre : List ℕ) × (bytes ≡ pre ++ frame.1)
        × IsRecord pre decoded.0
        × (length pre ≡ 4 + length frame.0 + 4)
  unfolding read_record IsFrame
  IsRecord-of_parts bytes frame decoded e no_rest (pre, split, is_frame, size) = (
    pre,
    split,
    λ rest.
        rw (is_frame rest) (rw e (rw no_rest (ap (λ k. some (decoded.0, (k, rest))) (sym size)))),
    size,
  )

  -- Every record that is read is a prefix of the bytes, and the rest is returned.
  pub read_record-IsRecord :
      (bytes : List ℕ) {r : WalEntry × (ℕ × List ℕ)}
      → read_record codec bytes ≡ some r
      → (pre : List ℕ) × (bytes ≡ pre ++ r.1.1) × IsRecord pre r.0 × (length pre ≡ r.1.0)
  unfolding read_record
  read_record-IsRecord bytes {r} h =
      let (frame, e1, h1) = bind-some (read_payload codec bytes) _ h in
      let (decoded, e2, h2) = bind-some (codec.take_from_bytes frame.0) _ h1 in
      let (no_rest, h3) = guard-some _ _ h2 in
      subst (λ t. (pre : List ℕ) × (bytes ≡ pre ++ t.1.1) × IsRecord pre t.0 × (length pre ≡ t.1.0))
        (some_inj h3)
        (IsRecord-of_parts bytes frame decoded e2 no_rest (read_payload-IsFrame bytes e1))
