-- ===== src/Persistence/Wal/Torn.antt =====
-- A record of which only a part reached the file.
use hiveguard.Prelude.{
  ℕ, ◌+◌, ◌-◌, ◌≤◌, ◌<◌, ◌≡◌, refl, arith, false, List, ◌++◌, none, some, length, take, ltb,
}
use native.Mathlib.Decide.{dec_lt}
use hiveguard.Persistence.Wal.{
  Codec, wal_max_record_size, to_le_bytes, from_le_bytes, read_exact, record_bytes, read_payload,
  read_record,
}
use hiveguard.Persistence.Wal.Bytes.{
  from_le_bytes-to_le_bytes, length-to_le_bytes, read_exact-append, read_exact_short,
  take-append_short, take-append_long, length-take,
}
use hiveguard.Persistence.Wal.Replay.{size_fits}

-- A cut inside the first part of a text leaves too little to read that part.
cut_first :
    (n k : ℕ) (xs ys : List ℕ) → length xs ≡ n → k < n → read_exact n (take k (xs ++ ys)) ≡ none
cut_first n k xs ys e h =
    read_exact_short n (take k (xs ++ ys))
      (rw (take-append_short k xs ys (omega arith)) (omega (arith, length-take k xs (omega arith))))

-- A cut after the first part leaves that part readable.
cut_later :
    (n k : ℕ) (xs ys : List ℕ)
    → length xs ≡ n
    → n ≤ k
    → read_exact n (take k (xs ++ ys)) ≡ some (xs, take (k - n) ys)
cut_later n k xs ys e h =
    rw (take-append_long k (k - n) xs ys (omega arith)) (read_exact-append n xs (take (k - n) ys) e)

module _ (codec : Codec) where
  torn_payload :
      (k : ℕ) (payload : List ℕ)
      → ltb wal_max_record_size (length payload) ≡ false
      → k < 4 + length payload + 4
      → read_payload codec (take k (record_bytes codec payload)) ≡ none
  unfolding read_payload record_bytes to_le_bytes
  torn_payload k payload small h =
      let n = length payload in
      let crc = to_le_bytes (codec.hash payload) in
      let len : from_le_bytes (to_le_bytes n) ≡ n =
        from_le_bytes-to_le_bytes n (size_fits codec payload small) in
      elim (dec_lt k 4) [
        | yes early ↦ rw (cut_first 4 k (to_le_bytes n) (payload ++ crc) refl early) refl
        | no later ↦ rw (cut_later 4 k (to_le_bytes n) (payload ++ crc) refl (omega arith)) (
            rw len (
              rw small (elim (dec_lt (k - 4) n) [
                | yes inside ↦ rw (cut_first n (k - 4) payload crc refl inside) refl
                | no after ↦ rw (cut_later n (k - 4) payload crc refl (omega arith)) (
                    rw
                      (read_exact_short 4 (take (k - 4 - n) crc) (
                        omega (
                          arith,
                          length-take (k - 4 - n) crc (omega arith),
                          length-to_le_bytes (codec.hash payload),
                        )))
                      refl)
              ])))
      ]

  -- A record that is cut short is not read.
  pub read_record_torn :
      (k : ℕ) (payload : List ℕ)
      → ltb wal_max_record_size (length payload) ≡ false
      → k < 4 + length payload + 4
      → read_record codec (take k (record_bytes codec payload)) ≡ none
  unfolding read_record
  read_record_torn k payload small h = rw (torn_payload k payload small h) refl
