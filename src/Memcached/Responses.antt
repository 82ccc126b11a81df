-- ===== src/Memcached/Responses.antt =====
-- ikernels/hls/memcached.cpp: the response to a get request that the ikernel generates, and the
-- parser of the responses of the server. Texts are arrays of bytes.
pub mod Roundtrip
use nica.Base.{
  ℕ, zero, suc, ◌+◌, ◌-◌, ◌*◌, ◌/◌, ◌%◌, ◌^◌, Bool, true, false, not, ◌==◌, ◌&&◌, ◌||◌, ltb, leb,
  store, range, if◌then◌else◌,
}
use nica.Flit.{Flit}

-- `hls_helpers::memcpy<Size>(&dest[at], &src[0])`
unfoldable pub copy : (ℕ → ℕ) → ℕ → (ℕ → ℕ) → ℕ → ℕ → ℕ
copy dest at src zero = dest
copy dest at src (suc n) = store (copy dest at src n) (at + n) (src n)

-- The byte `i` of a word, from its top.
abbrev pub byte : Flit → ℕ → ℕ
byte d i = range d.bits (255 - 8 * i) (255 - (8 * (i + 1) - 1))

-- The sizes of keys, of values and of the text of the size of a value, which is `ascii`.
module _ (key_size value_bytes value_size : ℕ) (ascii : ℕ → ℕ) where
  abbrev pub value_pos : ℕ
  value_pos = 19 + key_size + value_bytes

  -- `memcached_response()` on an uninitialised array.
  unfoldable pub new_response : (ℕ → ℕ) → ℕ → ℕ
  unfolding copy
  new_response a =
      let a = store (store (store a 8 86) 9 65) 10 76 in
      let a = store (store (store a 11 85) 12 69) 13 32 in
      let a = store (store a (14 + key_size) 32) (15 + key_size) 48 in
      let a = copy (store a (16 + key_size) 32) (17 + key_size) ascii value_bytes in
      let a = store (store a (17 + key_size + value_bytes) 13) (18 + key_size + value_bytes) 10 in
      let e = 19 + key_size + value_bytes + value_size in
      let a = store (store (store a e 13) (e + 1) 10) (e + 2) 69 in
      store (store (store (store a (e + 3) 78) (e + 4) 68) (e + 5) 13) (e + 6) 10

  -- `generate_response` of the request's header and key.
  unfoldable pub generate_response : (ℕ → ℕ) → (ℕ → ℕ) → (ℕ → ℕ) → (ℕ → ℕ) → ℕ → ℕ
  unfolding copy new_response
  generate_response a udp_header key value =
      copy (copy (copy (new_response a) 0 udp_header 8) 14 key key_size) value_pos value value_size

  -- The index of a byte of the second word in the value; with the value at 32, where the code's
  -- index of byte 0 is -1, it is not that of the code.
  abbrev pub value_index : ℕ → ℕ
  value_index i = if ltb 32 value_pos then 32 + i - value_pos else 32 + i + 31 - 2 * value_pos

  -- The loop of `parse_out_payload` over the first `n` bytes: the key.
  unfoldable pub parse_key : Flit → ℕ → (ℕ → ℕ) → ℕ → ℕ → ℕ
  parse_key d word_offset key zero = key
  parse_key d word_offset key (suc i) =
      let rest = parse_key d word_offset key i in
      if word_offset == 0 && (leb 14 i && leb i (14 + key_size - 1))
      then store rest (i - 14) (byte d i)
      else rest

  -- The same loop: the value.
  unfoldable pub parse_value : Flit → ℕ → (ℕ → ℕ) → ℕ → ℕ → ℕ
  parse_value d word_offset value zero = value
  parse_value d word_offset value (suc i) =
      let rest = parse_value d word_offset value i in
      let first =
        if word_offset == 0 && leb value_pos i
        then store rest (i - value_pos) (byte d i)
        else rest in
      if word_offset == 1 && (leb value_pos (i + 32) && leb (i + 33) (value_pos + value_size))
      then store first (value_index i) (byte d i)
      else first

  -- `parse_out_payload`: the key and the value.
  unfoldable pub parse_out_payload : Flit → ℕ → (ℕ → ℕ) × (ℕ → ℕ) → (ℕ → ℕ) × (ℕ → ℕ)
  unfolding parse_key parse_value
  parse_out_payload d word_offset (key, value) =
      (parse_key d word_offset key 32, parse_value d word_offset value 32)
