-- ===== src/Memcached.antt =====
-- ikernels/hls/memcached_cache.hpp: the cache of keys and values in the memory of the board, one
-- entry for each hash value of each ikernel.
pub mod Finds
pub mod Latest
pub mod Registers
pub mod Responses
mod Tests
use nica.Base.{
  ℕ, zero, suc, ◌+◌, ◌-◌, ◌*◌, ◌/◌, ◌%◌, ◌^◌, ◌<◌, ◌≡◌, Bool, true, false, ◌==◌, ◌&&◌, ltb, Option,
  none, some, range, cat, if◌then◌else◌, not, List, [], ◌∷◌, ◌++◌,
}
use nica.Stream.{Stream, full, empty, read, write}

-- `operator ap_uint<128>` of a byte array, whose bytes are the low ones: the bytes above them are
-- left uninitialised, and are what this function says.
pub record Widen (size : ℕ) : Type 0 where
  pub widen : ℕ → ℕ
  pub widen-low : (x : ℕ) → x < 2 ^ (8 * size) → widen x % 2 ^ (8 * size) ≡ x
  pub widen-bound : (x : ℕ) → x < 2 ^ (8 * size) → widen x < 2 ^ 128

-- `entry`; a byte array is the number of its bytes.
pub record Entry : Type 0 where
  pub valid : Bool
  pub key : ℕ
  pub value : ℕ

-- The interface of the board's memory, of a submodule: writes and reads are served in the order in
-- which they are issued, and the responses of the reads come back in that order, each when it is
-- ready.
pub record Memory : Type 1 where
  pub State : Type 0
  pub word : State → ℕ → ℕ
  -- The responses on their way, the first to come first.
  pub pending : State → List ℕ
  pub store_word : State → ℕ → ℕ → State
  pub post_read : State → ℕ → State
  pub has_read_response : State → Bool
  pub get_read_response : State → ℕ × State
  pub word-store_word :
      (m : State) (i j x : ℕ) → word (store_word m i x) j ≡ (if i == j then x else word m j)
  pub pending-store_word : (m : State) (i x : ℕ) → pending (store_word m i x) ≡ pending m
  pub word-post_read : (m : State) (i j : ℕ) → word (post_read m i) j ≡ word m j
  pub pending-post_read : (m : State) (i : ℕ) → pending (post_read m i) ≡ pending m ++ word m i ∷ []
  pub word-get_read_response :
      (m : State) (j : ℕ) → has_read_response m ≡ true → word (get_read_response m).1 j ≡ word m j
  pub pending-get_read_response :
      (m : State)
      → has_read_response m ≡ true
      → pending m ≡ (get_read_response m).0 ∷ pending (get_read_response m).1

-- A `char` added to 64 bits: bytes from 128 on are negative.
unfoldable pub signed_char : ℕ → ℕ
signed_char b = if ltb b 128 then b else 2 ^ 64 + b - 256

-- One round of `h_a` and `h_b`, with the byte `i` of the key.
unfoldable pub hash_byte : ℕ → ℕ → ℕ → ℕ
unfolding signed_char
hash_byte seed tag i = (seed * 32 + seed + signed_char (range tag (8 * i + 7) (8 * i))) % 2 ^ 64

-- The loop over `n` bytes from byte `start` on.
unfoldable pub hash_bytes : ℕ → ℕ → ℕ → ℕ → ℕ
unfolding hash_byte
hash_bytes seed tag start zero = seed
hash_bytes seed tag start (suc n) = hash_byte (hash_bytes seed tag start n) tag (start + n)

module _ (key_size value_size : ℕ) (key_bits : Widen key_size) (value_bits : Widen value_size) where
  unfoldable pub entry_of_bits : ℕ → Entry
  entry_of_bits d = record {
    valid = range d 511 511 == 1;
    key = range d 255 128 % 2 ^ (8 * key_size);
    value = range d 127 0 % 2 ^ (8 * value_size);
  }

  -- `entry::operator ap_uint<512>`
  unfoldable pub entry_bits : Entry → ℕ
  entry_bits e =
      cat (cat (cat (if e.valid then 1 else 0) 255 0) 128 (key_bits.widen e.key)) 128
        (value_bits.widen e.value)

  unfoldable pub h_a : ℕ → ℕ
  unfolding hash_bytes
  h_a tag = hash_bytes 5381 tag 0 (key_size / 2)

  unfoldable pub h_b : ℕ → ℕ → ℕ
  unfolding hash_bytes
  h_b seed tag = hash_bytes seed tag (key_size / 2) (key_size - key_size / 2)

  -- `h`: 10 bits of the ikernel and 25 of the hash value.
  unfoldable pub h : ℕ → ℕ → ℕ → ℕ
  unfolding h_a h_b
  h tag log_size ikernel_id =
      let hash = h_b (h_a tag) tag % 2 ^ log_size % 2 ^ 25 in cat (ikernel_id % 2 ^ 10) 25 hash

  -- The answer of `get_find_result` for a response of the memory and its key.
  unfoldable pub find_result : ℕ → ℕ → Option ℕ
  unfolding entry_of_bits
  find_result d key =
      let e = entry_of_bits d in if e.valid && e.key == key then some e.value else none

  module _ (mem : Memory) where
    unfoldable pub insert : mem.State → ℕ → ℕ → ℕ → ℕ → mem.State
    unfolding h entry_bits
    insert m key value log_size ikernel_id =
        mem.store_word m (h key log_size ikernel_id)
          (entry_bits (record { valid = true; key = key; value = value }))

    -- The key and the value of an erased entry are 0, the default of `byte_array`.
    unfoldable pub erase : mem.State → ℕ → ℕ → ℕ → mem.State
    unfolding h entry_bits
    erase m key log_size ikernel_id =
        mem.store_word m (h key log_size ikernel_id)
          (entry_bits (record { valid = false; key = 0; value = 0 }))

    -- The keys are those of `outstanding_reads`.
    unfoldable pub can_post_find : Stream ℕ → Bool
    can_post_find keys = not (full keys)

    unfoldable pub find : mem.State → Stream ℕ → ℕ → ℕ → ℕ → mem.State × Stream ℕ
    unfolding h can_post_find
    find m keys key log_size ikernel_id =
        if can_post_find keys
        then (mem.post_read m (h key log_size ikernel_id), write keys key)
        else (m, keys)

    unfoldable pub has_find_result : mem.State → Stream ℕ → Bool
    has_find_result m keys = not (empty keys) && mem.has_read_response m

    -- `get_find_result`; with no key waiting the comparison is with an uninitialised one, `none`
    -- here, and the caller tests `has_find_result` first.
    unfoldable pub get_find_result : mem.State → Stream ℕ → Option ℕ × mem.State × Stream ℕ
    unfolding find_result
    get_find_result m keys =
        let (d, m') = mem.get_read_response m in
        elim (read keys) [
          | none ↦ (none, m', keys)
          | some (key, rest) ↦ (find_result d key, m', rest)
        ]
