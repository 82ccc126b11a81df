-- ===== src/Memcached/Responses/Roundtrip.antt =====
-- What the ikernel generates, the parser reads back.
use nica.Base.{
  ℕ, zero, suc, ◌+◌, ◌-◌, ◌<◌, ◌≤◌, ◌≡◌, ◌⊎◌, refl, Bool, true, false, ◌==◌, ◌&&◌, ltb, leb, store,
  if◌then◌else◌, ap, ◌∙◌, arith, inl, inr, Bool-cases,
}
use nica.Flit.{Flit}
use nica.Memcached.Responses.{
  copy, byte, value_pos, value_index, new_response, generate_response, parse_key, parse_value,
  parse_out_payload,
}

-- A copied range.
copy-inside :
    (dest : ℕ → ℕ) (at : ℕ) (src : ℕ → ℕ) (n j : ℕ) → j < n → copy dest at src n (at + j) ≡ src j
unfolding copy
copy-inside dest at src zero j h = absurd (omega arith)
copy-inside dest at src (suc n) j h = ground (arith, copy-inside dest at src n j)

copy-outside :
    (dest : ℕ → ℕ) (at : ℕ) (src : ℕ → ℕ) (n i : ℕ)
    → (i < at) ⊎ (at + n ≤ i)
    → copy dest at src n i ≡ dest i
unfolding copy
copy-outside dest at src zero i h = refl
copy-outside dest at src (suc n) i h = ground (arith, copy-outside dest at src n i)

-- A store under a test, read at an index.
store_if :
    (b : Bool) (a : ℕ → ℕ) (i v j : ℕ)
    → (if b then store a i v else a) j ≡ (if b && i == j then v else a j)
store_if true a i v j = refl
store_if false a i v j = refl

key_case :
    (k n j x y z : ℕ)
    → j < k
    → (n ≡ 14 + j → x ≡ y)
    → (if (leb 14 n && leb n (14 + k - 1)) && n - 14 == j
        then x
        else if ltb (14 + j) n
        then y
        else z)
      ≡ (if ltb (14 + j) (suc n) then y else z)
key_case k n j x y z h e = ground arith

value_case :
    (p n j x y z : ℕ)
    → (n ≡ p + j → x ≡ y)
    → (if leb p n && n - p == j then x else if ltb (p + j) n then y else z)
      ≡ (if ltb (p + j) (suc n) then y else z)
value_case p n j x y z e = ground arith

rest_case :
    (p v n j x y z : ℕ)
    → (n + 32 ≡ p + j → x ≡ y)
    → j < v
    → (if (leb p (n + 32) && leb (n + 33) (p + v)) && n + 32 - p == j
        then x
        else if leb 32 (p + j) && ltb (p + j) (n + 32)
        then y
        else z)
      ≡ (if leb 32 (p + j) && ltb (p + j) (suc n + 32) then y else z)
rest_case p v n j x y z e h = ground arith

module _ (key_size value_bytes value_size : ℕ) (ascii : ℕ → ℕ) where
  key_parsed :
      (d : Flit) (key : ℕ → ℕ) (n j : ℕ)
      → j < key_size
      → parse_key key_size value_bytes value_size ascii d 0 key n j
        ≡ (if ltb (14 + j) n then byte d (14 + j) else key j)
  unfolding parse_key
  key_parsed d key zero j h = ground arith
  key_parsed d key (suc n) j h =
      let rest = parse_key key_size value_bytes value_size ascii d 0 key n in
      store_if (leb 14 n && leb n (14 + key_size - 1)) rest (n - 14) (byte d n) j
      ∙ rw (key_parsed d key n j h)
          (key_case key_size n j (byte d n) (byte d (14 + j)) (key j) h (ap (byte d)))

  abbrev pos : ℕ
  pos = value_pos key_size value_bytes value_size ascii

  value_parsed :
      (d : Flit) (value : ℕ → ℕ) (n j : ℕ)
      → parse_value key_size value_bytes value_size ascii d 0 value n j
        ≡ (if ltb (pos + j) n then byte d (pos + j) else value j)
  unfolding parse_value
  value_parsed d value zero j = ground arith
  value_parsed d value (suc n) j =
      let rest = parse_value key_size value_bytes value_size ascii d 0 value n in
      store_if (leb pos n) rest (n - pos) (byte d n) j
      ∙ rw (value_parsed d value n j)
          (value_case pos n j (byte d n) (byte d (pos + j)) (value j) (ap (byte d)))

  rest_parsed :
      (d : Flit) (value : ℕ → ℕ) (n j : ℕ)
      → (pos ≡ 31) ⊎ (32 < pos)
      → j < value_size
      → parse_value key_size value_bytes value_size ascii d 1 value n j
        ≡ (if leb 32 (pos + j) && ltb (pos + j) (n + 32) then byte d (pos + j - 32) else value j)
  unfolding parse_value
  rest_parsed d value zero j p h = ground arith
  rest_parsed d value (suc n) j p h =
      let rest = parse_value key_size value_bytes value_size ascii d 1 value n in
      let c = leb pos (n + 32) && leb (n + 33) (pos + value_size) in
      let index : value_index key_size value_bytes value_size ascii n ≡ n + 32 - pos =
        ground arith in
      store_if c rest (value_index key_size value_bytes value_size ascii n) (byte d n) j
      ∙ rw (index, rest_parsed d value n j p h)
          (rest_case pos value_size n j (byte d n) (byte d (pos + j - 32)) (value j)
            (λ e. ap (byte d) (omega arith)) h)

  key_kept :
      (d : Flit) (key : ℕ → ℕ) (n : ℕ)
      → parse_key key_size value_bytes value_size ascii d 1 key n ≡ key
  unfolding parse_key
  key_kept d key zero = refl
  key_kept d key (suc n) = key_kept d key n

  abbrev parse : Flit → ℕ → (ℕ → ℕ) × (ℕ → ℕ) → (ℕ → ℕ) × (ℕ → ℕ)
  parse = parse_out_payload key_size value_bytes value_size ascii

  -- The parser of the server's responses, given the two words of a response that the ikernel has
  -- generated, reads back its key and its value, whatever the arrays held before: for keys of at
  -- most 18 bytes and values that end in the second word, when the value starts at byte 31 or
  -- after byte 32.
  pub parse_out_payload-generate_response :
      (a udp_header key value k0 v0 : ℕ → ℕ) (w0 w1 : Flit)
      → let r = generate_response key_size value_bytes value_size ascii a udp_header key value in
        ((i : ℕ) → i < 32 → byte w0 i ≡ r i)
        → ((i : ℕ) → i < 32 → byte w1 i ≡ r (32 + i))
        → 14 + key_size ≤ 32
        → (pos ≡ 31) ⊎ (32 < pos)
        → pos + value_size ≤ 64
        → ((j : ℕ) → j < key_size → (parse w1 1 (parse w0 0 (k0, v0))).0 j ≡ key j)
          × ((j : ℕ) → j < value_size → (parse w1 1 (parse w0 0 (k0, v0))).1 j ≡ value j)
  unfolding parse_out_payload generate_response
  parse_out_payload-generate_response a u key value k0 v0 w0 w1 h0 h1 hk p hv = (keys, values)
    where
      before : ℕ → ℕ
      before =
          copy (copy (new_response key_size value_bytes value_size ascii a) 0 u 8) 14 key key_size

      keys : (j : ℕ) → j < key_size → (parse w1 1 (parse w0 0 (k0, v0))).0 j ≡ key j
      keys j h =
          let inside : ltb (14 + j) 32 ≡ true = ground arith in
          ap (λ (f : ℕ → ℕ). f j) (key_kept w1 (parse w0 0 (k0, v0)).0 32)
          ∙ key_parsed w0 k0 32 j h
          ∙ rw inside (
              h0 (14 + j) (omega arith)
              ∙ copy-outside before pos value value_size (14 + j) (inl (omega arith))
              ∙ copy-inside (copy (new_response key_size value_bytes value_size ascii a) 0 u 8) 14
                  key key_size j h)

      values : (j : ℕ) → j < value_size → (parse w1 1 (parse w0 0 (k0, v0))).1 j ≡ value j
      values j h =
          rest_parsed w1 (parse w0 0 (k0, v0)).1 32 j p h ∙ elim (Bool-cases (leb 32 (pos + j))) [
            | inl t ↦
                let inside : ltb (pos + j) 64 ≡ true = ground arith in
                let place : 32 + (pos + j - 32) ≡ pos + j = ground arith in
                rw (t, inside)
                  (h1 (pos + j - 32) (ground arith)
                    ∙ rw place (copy-inside before pos value value_size j h))
            | inr t ↦
                let inside : ltb (pos + j) 32 ≡ true = ground arith in
                rw t (
                  value_parsed w0 v0 32 j
                  ∙ rw inside
                      (h0 (pos + j) (ground arith) ∙ copy-inside before pos value value_size j h))
          ]
