-- ===== src/Memcached/Latest.antt =====
-- What the memory holds for a key is what was stored last.
use nica.Base.{
  ℕ, ◌*◌, ◌%◌, ◌^◌, ◌<◌, ◌≡◌, refl, sym, ap, ◌∙◌, Bool, true, false, ◌==◌, ◌&&◌, Option, none, some,
  List, [], ◌∷◌, range, cat, if◌then◌else◌, inl, inr, Bool-cases, Option-cases, both, not, arith,
}
use native.Mathlib.Nat.{one-le-pow}
use nica.Stream.{Stream, read, empty}
use nica.Memcached.{
  Widen, Entry, Memory, entry_of_bits, entry_bits, h, insert, erase, find, has_find_result,
  can_post_find, get_find_result, find_result,
}

-- A call of the cache: a key and a value, or a key, with its ikernel; or the test for an answer,
-- which takes it if there is one.
pub data Request : Type 0 where
  put : ℕ → ℕ → ℕ → Request
  delete : ℕ → ℕ → Request
  ask : ℕ → ℕ → Request
  take : Request

-- The value stored last for a key of an ikernel, if it is not deleted; the newest request first.
abbrev pub latest : List Request → ℕ → ℕ → Option ℕ
latest [] k ik = none
latest (put k' v ik' ∷ rs) k ik = if k' == k && ik' == ik then some v else latest rs k ik
latest (delete k' ik' ∷ rs) k ik = if k' == k && ik' == ik then none else latest rs k ik
latest (ask k' ik' ∷ rs) k ik = latest rs k ik
latest (take ∷ rs) k ik = latest rs k ik

and_true : (a b : Bool) → b ≡ true → (a && b) ≡ a
and_true true b e = e
and_true false b e = refl

none_ne_some : {A : Type 0} {x : A} → ¬ (none ≡ some x)
none_ne_some e = cc

-- A request at the index of the key (`c`), of the key itself (`q`): the answer after a put, and
-- after a delete.
settle_put :
    (c q p : Bool) (hit ans older last : Option ℕ) (v : ℕ)
    → p ≡ (if c then q else false)
    → ans ≡ (if c then (if q then hit else none) else older)
    → (older ≡ some v → last ≡ some v)
    → ans ≡ some v
    → (if p then hit else last) ≡ some v
settle_put true true p hit ans older last v ep ea f e = rw ep (sym ea ∙ e)
settle_put true false p hit ans older last v ep ea f e = absurd (none_ne_some (sym ea ∙ e))
settle_put false q p hit ans older last v ep ea f e = rw ep (f (sym ea ∙ e))

settle_delete :
    (c q p : Bool) (ans older last : Option ℕ) (v : ℕ)
    → p ≡ (if c then q else false)
    → ans ≡ (if c then none else older)
    → (older ≡ some v → last ≡ some v)
    → ans ≡ some v
    → (if p then none else last) ≡ some v
settle_delete true q p ans older last v ep ea f e = absurd (none_ne_some (sym ea ∙ e))
settle_delete false q p ans older last v ep ea f e = rw ep (f (sym ea ∙ e))

not-true : (b : Bool) → not b ≡ true → b ≡ false
not-true true e = cc
not-true false e = refl

module _ (key_size value_size : ℕ) (key_bits : Widen key_size) (value_bits : Widen value_size) where
  abbrev pub EntryFits : Entry → Type 0
  EntryFits e = (e.key < 2 ^ (8 * key_size)) × (e.value < 2 ^ (8 * value_size))

  entry_roundtrip :
      (e : Entry)
      → EntryFits e
      → entry_of_bits key_size value_size key_bits value_bits
          (entry_bits key_size value_size key_bits value_bits e)
        ≡ e
  unfolding entry_of_bits entry_bits
  entry_roundtrip e (hk, hv) =
      let k = key_bits.widen e.key in
      let v = value_bits.widen e.value in
      let k_small = key_bits.widen-bound e.key hk in
      let v_small = value_bits.widen-bound e.value hv in
      let d = entry_bits key_size value_size key_bits value_bits e in
      let valid : (range d 511 511 == 1) ≡ e.valid = valid_bit e.valid k v k_small v_small in
      let key : range d 255 128 ≡ k = omega arith in
      let value : range d 127 0 ≡ v = omega arith in
      λ i. record {
        valid = valid i;
        key = (ap (λ (n : ℕ). n % 2 ^ (8 * key_size)) key ∙ key_bits.widen-low e.key hk) i;
        value =
            (ap (λ (n : ℕ). n % 2 ^ (8 * value_size)) value ∙ value_bits.widen-low e.value hv) i;
      }
    where
      valid_bit :
          (b : Bool) (k v : ℕ)
          → k < 2 ^ 128
          → v < 2 ^ 128
          → (range (cat (cat (cat (if b then 1 else 0) 255 0) 128 k) 128 v) 511 511 == 1) ≡ b
      valid_bit true k v hk hv = ground arith
      valid_bit false k v hk hv = ground arith

  find_result-entry_bits :
      (e : Entry) (k : ℕ)
      → EntryFits e
      → find_result key_size value_size key_bits value_bits
          (entry_bits key_size value_size key_bits value_bits e)
          k
        ≡ (if e.valid && e.key == k then some e.value else none)
  unfolding find_result
  find_result-entry_bits e k f =
      ap (λ (x : Entry). if x.valid && x.key == k then some x.value else none) (entry_roundtrip e f)

  find_result_invalid :
      (d k : ℕ)
      → range d 511 511 ≡ 0
      → find_result key_size value_size key_bits value_bits d k ≡ none
  unfolding find_result entry_of_bits
  find_result_invalid d k z = rw z refl

  -- Entries of different ikernels have different indices.
  h-ikernel :
      (k l ik k' l' ik' : ℕ)
      → ik < 2 ^ 10
      → ik' < 2 ^ 10
      → h key_size value_size key_bits value_bits k l ik
        ≡ h key_size value_size key_bits value_bits k' l' ik'
      → ik ≡ ik'
  unfolding h
  h-ikernel k l ik k' l' ik' b b' e = omega arith

  zero_fits : (0 < 2 ^ (8 * key_size)) × (0 < 2 ^ (8 * value_size))
  zero_fits = (
    omega (arith, one-le-pow (8 * key_size) 2 (omega arith)),
    omega (arith, one-le-pow (8 * value_size) 2 (omega arith)),
  )

  module _ (mem : Memory) (log_size : ℕ → ℕ) (start : mem.State) (depth : ℕ) where
    abbrev pub index : ℕ → ℕ → ℕ
    index k ik = h key_size value_size key_bits value_bits k (log_size ik) ik

    abbrev pub State : Type 0
    State = mem.State × Stream ℕ

    -- The answer, if there is one, and the state after it is taken.
    abbrev pub taken : State → List (Option ℕ) × State
    taken (m, keys) =
        let (x, m', keys') = get_find_result key_size value_size key_bits value_bits mem m keys in
        if has_find_result key_size value_size key_bits value_bits mem m keys
        then (x ∷ [], (m', keys'))
        else ([], (m, keys))

    -- One call.
    abbrev pub serve : Request → State → State
    serve (put k v ik) (m, keys) =
        (insert key_size value_size key_bits value_bits mem m k v (log_size ik) ik, keys)
    serve (delete k ik) (m, keys) =
        (erase key_size value_size key_bits value_bits mem m k (log_size ik) ik, keys)
    serve (ask k ik) (m, keys) =
        find key_size value_size key_bits value_bits mem m keys k (log_size ik) ik
    serve take s = (taken s).1

    -- The memory and the waiting keys after the requests.
    abbrev pub served : List Request → State
    served [] = (start, record { items = []; depth = depth })
    served (r ∷ rs) = serve r (served rs)

    -- The entry in memory, as a find reads it.
    abbrev pub answer : List Request → ℕ → ℕ → Option ℕ
    answer rs k ik =
        find_result key_size value_size key_bits value_bits (mem.word (served rs).0 (index k ik)) k

    -- Keys and values have their sizes, and ikernels are below 1024.
    abbrev pub Fits : List Request → Type 0
    Fits [] = Unit {0}
    Fits (put k v ik ∷ rs) =
        (k < 2 ^ (8 * key_size)) × (v < 2 ^ (8 * value_size)) × (ik < 2 ^ 10) × Fits rs
    Fits (delete k ik ∷ rs) = (ik < 2 ^ 10) × Fits rs
    Fits (ask k ik ∷ rs) = (ik < 2 ^ 10) × Fits rs
    Fits (take ∷ rs) = Fits rs

    -- An entry over the one of another index, or over this index.
    answer_after :
        (e : Entry) (i k ik : ℕ) (m : mem.State)
        → EntryFits e
        → find_result key_size value_size key_bits value_bits
            (mem.word
              (mem.store_word m i (entry_bits key_size value_size key_bits value_bits e))
              (index k ik))
            k
          ≡ (if i == index k ik
              then if e.valid && e.key == k then some e.value else none
              else find_result key_size value_size key_bits value_bits (mem.word m (index k ik)) k)
    answer_after e i k ik m f =
        let w = entry_bits key_size value_size key_bits value_bits e in
        rw (mem.word-store_word m i (index k ik) w) (elim (Bool-cases (i == index k ik)) [
          | inl t ↦ rw t (find_result-entry_bits e k f)
          | inr t ↦ rw t refl
        ])

    fresh :
        (b : Bool) (k ik k' ik' : ℕ)
        → ik < 2 ^ 10
        → ik' < 2 ^ 10
        → (index k' ik' == index k ik) ≡ b
        → (k' == k && ik' == ik) ≡ (if b then k' == k else false)
    fresh true k ik k' ik' f f' e =
        let same : index k' ik' ≡ index k ik = ground arith in
        let ikernel = h-ikernel k' (log_size ik') ik' k (log_size ik) ik f' f same in
        let agree : (ik' == ik) ≡ true = ground arith in and_true (k' == k) (ik' == ik) agree
    fresh false k ik k' ik' f f' e = elim (Bool-cases (k' == k && ik' == ik)) [
      | inl t ↦
          let (a, b) = both (k' == k) (ik' == ik) t in
          let keys : k' ≡ k = ground arith in
          let ikernels : ik' ≡ ik = ground arith in
          let same : index k' ik' ≡ index k ik = rw (keys, ikernels) refl in
          absurd (ground (arith, e, same))
      | inr t ↦ t
    ]

    -- The calls that read leave the words of the memory.
    word-find : (s : State) (k ik j : ℕ) → mem.word (serve (ask k ik) s).0 j ≡ mem.word s.0 j
    unfolding find
    word-find (m, keys) k ik j =
        elim (Bool-cases (can_post_find key_size value_size key_bits value_bits mem keys)) [
          | inl t ↦ rw t (mem.word-post_read m (index k ik) j)
          | inr t ↦ rw t refl
        ]

    -- `has_find_result`: a key waits and the memory has a response, which is taken.
    pub result_ready :
        (m : mem.State) (keys : Stream ℕ)
        → has_find_result key_size value_size key_bits value_bits mem m keys ≡ true
        → (mem.has_read_response m ≡ true) × (empty keys ≡ false)
    unfolding has_find_result
    result_ready m keys e =
        let (a, b) = both (not (empty keys)) (mem.has_read_response m) e in
        (b, not-true (empty keys) a)

    word-get_find_result :
        (m : mem.State) (keys : Stream ℕ) (j : ℕ)
        → mem.word (get_find_result key_size value_size key_bits value_bits mem m keys).1 j
          ≡ mem.word (mem.get_read_response m).1 j
    unfolding get_find_result
    word-get_find_result m keys j = elim (Option-cases (read keys)) [
      | inl e ↦ rw (get_find_result, e) refl
      | inr (x, e) ↦ rw (get_find_result, e) refl
    ]

    word-taken : (s : State) (j : ℕ) → mem.word (taken s).1.0 j ≡ mem.word s.0 j
    word-taken (m, keys) j =
        let ready = has_find_result key_size value_size key_bits value_bits mem m keys in
        elim (Bool-cases ready) [
          | inl t ↦ rw t (
              word-get_find_result m keys j
              ∙ mem.word-get_read_response m j (result_ready m keys t).0)
          | inr t ↦ rw t refl
        ]

    -- If every word of the memory is invalid at first, a find reads at most the value that was
    -- stored last for that key and that ikernel and is not deleted since.
    pub answer-latest :
        (rs : List Request) (k ik v : ℕ)
        → ((i : ℕ) → range (mem.word start i) 511 511 ≡ 0)
        → Fits rs
        → ik < 2 ^ 10
        → answer rs k ik ≡ some v
        → latest rs k ik ≡ some v
    unfolding insert erase
    answer-latest [] k ik v invalid f b e = absurd (
        none_ne_some
          (sym (find_result_invalid (mem.word start (index k ik)) k (invalid (index k ik))) ∙ e))
    answer-latest (put k' v' ik' ∷ rs) k ik v invalid (fk, fv, fi, f) b e =
        let entry : Entry = record { valid = true; key = k'; value = v' } in
        let c = index k' ik' == index k ik in
        settle_put c (k' == k) (k' == k && ik' == ik) (some v') (answer (put k' v' ik' ∷ rs) k ik)
          (answer rs k ik) (latest rs k ik) v (fresh c k ik k' ik' b fi refl)
          (answer_after entry (index k' ik') k ik (served rs).0 (fk, fv))
          (answer-latest rs k ik v invalid f b) e
    answer-latest (delete k' ik' ∷ rs) k ik v invalid (fi, f) b e =
        let entry : Entry = record { valid = false; key = 0; value = 0 } in
        let c = index k' ik' == index k ik in
        settle_delete c (k' == k) (k' == k && ik' == ik) (answer (delete k' ik' ∷ rs) k ik)
          (answer rs k ik) (latest rs k ik) v (fresh c k ik k' ik' b fi refl)
          (answer_after entry (index k' ik') k ik (served rs).0 zero_fits)
          (answer-latest rs k ik v invalid f b) e
    answer-latest (ask k' ik' ∷ rs) k ik v invalid (fi, f) b e =
        answer-latest rs k ik v invalid f b (
          ap (λ (d : ℕ). find_result key_size value_size key_bits value_bits d k)
            (sym (word-find (served rs) k' ik' (index k ik)))
          ∙ e)
    answer-latest (take ∷ rs) k ik v invalid f b e = answer-latest rs k ik v invalid f b (
        ap (λ (d : ℕ). find_result key_size value_size key_bits value_bits d k)
          (sym (word-taken (served rs) (index k ik)))
        ∙ e)

    -- A value that has just been stored is found.
    pub answer_put :
        (rs : List Request) (k v ik : ℕ)
        → (k < 2 ^ (8 * key_size)) × (v < 2 ^ (8 * value_size))
        → answer (put k v ik ∷ rs) k ik ≡ some v
    unfolding insert
    answer_put rs k v ik f =
        let entry : Entry = record { valid = true; key = k; value = v } in
        let c : (index k ik == index k ik) ≡ true = ground arith in
        let q : (k == k) ≡ true = ground arith in
        answer_after entry (index k ik) k ik (served rs).0 f ∙ rw (c, q) refl
