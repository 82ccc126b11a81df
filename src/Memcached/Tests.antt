-- ===== src/Memcached/Tests.antt =====
-- The cache on an array.
use nica.Base.{
  ℕ, zero, suc, ◌+◌, ◌-◌, ◌*◌, ◌^◌, ◌<◌, ◌≡◌, ◌==◌, ◌&&◌, Bool, true, false, refl, inl, inr, both,
  Bool-cases, Option, some, [], ◌∷◌, ◌++◌, store, List, arith,
}
use nica.Flit.{Flit}
use nica.Memcached.Responses.{byte, copy, new_response, generate_response, parse_out_payload}
use nica.Memcached.Responses.Roundtrip.{parse_out_payload-generate_response}
use nica.Memcached.{Widen, Memory}
use nica.Memcached.Latest.{Request, put, delete, ask, take}
use nica.Memcached.Finds.{answers}

abbrev ten_bytes : Widen 10
ten_bytes = record {
  widen = λ (x : ℕ). x;
  widen-low = λ (x : ℕ) (h : x < 2 ^ (8 * 10)). omega arith;
  widen-bound = λ (x : ℕ) (h : x < 2 ^ (8 * 10)). omega arith;
}

-- An array, and the responses that wait.
abbrev take_first : (ℕ → ℕ) → List ℕ → ℕ × (ℕ → ℕ) × List ℕ
take_first w [] = (0, w, [])
take_first w (d ∷ ds) = (d, w, ds)

abbrev waiting : List ℕ → Bool
waiting [] = false
waiting (d ∷ ds) = true

take_first-pending :
    (w : ℕ → ℕ) (ds : List ℕ) → waiting ds ≡ true → ds ≡ (take_first w ds).0 ∷ (take_first w ds).2
take_first-pending w [] e = cc
take_first-pending w (d ∷ ds) e = refl

take_first-words : (w : ℕ → ℕ) (ds : List ℕ) (j : ℕ) → (take_first w ds).1 j ≡ w j
take_first-words w [] j = refl
take_first-words w (d ∷ ds) j = refl

abbrev array_memory : Memory
array_memory = record {
  State = (ℕ → ℕ) × List ℕ;
  word = λ m. m.0;
  pending = λ m. m.1;
  store_word = λ m i x. (store m.0 i x, m.1);
  post_read = λ m i. (m.0, m.1 ++ m.0 i ∷ []);
  has_read_response = λ m. waiting m.1;
  get_read_response = λ m. let (d, w, ds) = take_first m.0 m.1 in (d, (w, ds));
  word-store_word = λ m i j x. refl;
  pending-store_word = λ m i x. refl;
  word-post_read = λ m i j. refl;
  pending-post_read = λ m i. refl;
  word-get_read_response = λ m j e. take_first-words m.0 m.1 j;
  pending-get_read_response = λ m e. take_first-pending m.0 m.1 e;
}

-- The newest call first: key 5 is stored, asked for, stored again and asked for, and both answers
-- are taken.
abbrev requests : List Request
requests = take ∷ take ∷ ask 5 3 ∷ put 5 7 3 ∷ ask 5 3 ∷ delete 6 3 ∷ put 5 9 4 ∷ put 5 8 3 ∷ []

abbrev no_words : (ℕ → ℕ) × List ℕ
no_words = (λ i. 0, [])

abbrev given : List (Option ℕ)
given = answers 10 10 ten_bytes ten_bytes array_memory (λ ik. 20) no_words 510 requests

given_test : given ≡ some 8 ∷ some 7 ∷ []
unfolding nica.Memcached.insert nica.Memcached.erase nica.Memcached.find
    nica.Memcached.can_post_find nica.Memcached.has_find_result nica.Memcached.get_find_result
    nica.Stream.read
given_test = refl

abbrev pack : (ℕ → ℕ) → ℕ → ℕ
pack f zero = 0
pack f (suc n) = pack f n * 256 + f n

abbrev agree : ℕ → (ℕ → ℕ) → (ℕ → ℕ) → Bool
agree zero f g = true
agree (suc n) f g = f n == g n && agree n f g

agreed : (n : ℕ) (f g : ℕ → ℕ) → agree n f g ≡ true → (i : ℕ) → i < n → f i ≡ g i
agreed zero f g e i h = absurd (omega arith)
agreed (suc n) f g e i h =
    let (here, rest) = both (f n == g n) (agree n f g) e in
    elim (Bool-cases (i == n)) [
      | inl t ↦
          let last : i ≡ n = ground arith in let same : f n ≡ g n = ground arith in rw last same
      | inr t ↦ agreed n f g rest i (ground arith)
    ]

-- A response for a key and a value of ten bytes each, and its two words.
abbrev response : ℕ → ℕ
response = generate_response 10 2 10 (λ i. 49 - i) (λ i. 0) (λ i. i) (λ i. 97 + i) (λ i. 48 + i)

abbrev word0 : Flit
word0 = record { bits = pack response 32; keep = 2 ^ 32 - 1; last = false }

abbrev word1 : Flit
word1 = record { bits = pack (λ i. response (32 + i)) 32; keep = 2 ^ 32 - 1; last = true }

word0_bytes : agree 32 (byte word0) response ≡ true
unfolding generate_response new_response copy
word0_bytes = refl

word1_bytes : agree 32 (byte word1) (λ i. response (32 + i)) ≡ true
unfolding generate_response new_response copy
word1_bytes = refl

parse_out_payload-generate_response_example :
    ((j : ℕ)
      → j < 10
      → (parse_out_payload 10 2 10
            (λ i. 49 - i)
            word1
            1
            (parse_out_payload 10 2 10 (λ i. 49 - i) word0 0 (λ i. 0, λ i. 0))).0
          j
        ≡ 97 + j)
    × ((j : ℕ)
        → j < 10
        → (parse_out_payload 10 2 10
              (λ i. 49 - i)
              word1
              1
              (parse_out_payload 10 2 10 (λ i. 49 - i) word0 0 (λ i. 0, λ i. 0))).1
            j
          ≡ 48 + j)
parse_out_payload-generate_response_example =
    parse_out_payload-generate_response 10 2 10 (λ i. 49 - i) (λ i. 0) (λ i. i) (λ i. 97 + i)
      (λ i. 48 + i) (λ i. 0) (λ i. 0) word0 word1 (agreed 32 (byte word0) response word0_bytes)
      (agreed 32 (byte word1) (λ i. response (32 + i)) word1_bytes) (omega arith) (inl refl)
      (omega arith)
