-- ===== src/Udp/Builder/Padding.antt =====
-- The padding on whole packets.
use Prim.Native.Nat.{min, max}
use nica.Base.{
  ℕ, zero, suc, ◌+◌, ◌-◌, ◌*◌, ◌%◌, ◌^◌, ◌≤◌, ◌<◌, ◌≡◌, Bool, true, false, ◌==◌, ◌&&◌, List, [],
  ◌∷◌, ◌++◌, map, length, length-append, leb, ltb, if◌then◌else◌, refl, sym, ap, ◌∙◌, inl, inr,
  Bool-cases, arith,
}
use mathlib.Core.List.{append_assoc, append-nil}
use native.Mathlib.Nat.{mod-eq_of_lt}
use nica.Stream.{read}
use nica.Mlx.{Axi4s}
use nica.Udp.Bytes.{mod-suc_byte, keep_bit, keep_fill}
use nica.Udp.Builder.{PadPorts, pad_loop, pad_one, padded, pad, pad_run}

-- A word whose first bytes, `valid` many, are valid; the first byte is the highest.
pub record Beat : Type 0 where
  pub bits : ℕ
  pub valid : ℕ
  pub last : Bool
  pub user : ℕ
  pub id : ℕ

abbrev pub to_axi4s : Beat → Axi4s
to_axi4s b = record {
  bits = b.bits;
  keep = 2 ^ 32 - 2 ^ (32 - b.valid);
  last = b.last;
  user = b.user;
  id = b.id;
}

-- The bytes after the valid ones become 0, and at least 28 bytes are valid.
abbrev pub filled : Beat → Beat
filled b = record b { bits = b.bits - b.bits % 2 ^ (8 * (32 - b.valid)); valid = max b.valid 28 }

-- The words with the last one of each packet filled if it is its second word; `n` words of the
-- packet are past.
abbrev pub fill_packets : ℕ → List Beat → List Beat
fill_packets n [] = []
fill_packets n (b ∷ bs) =
    (if b.last && n == 1 then filled b else b) ∷ fill_packets (if b.last then 0 else n + 1) bs

-- Words are of 256 bits. No packet has more than 64 of them; the counter of the code, of 6 bits,
-- takes the 66th word of a longer one for a second word.
abbrev pub AreShort : ℕ → List Beat → Type 0
AreShort n [] = Unit {0}
AreShort n (b ∷ bs) =
    (n < 64) × (b.bits < 2 ^ 256) × (b.valid ≤ 32) × AreShort (if b.last then 0 else n + 1) bs

-- The loop over the `n` low bytes leaves out the `z` lowest.
pad_loop_clears :
    (d z n : ℕ)
    → z ≤ 32
    → n ≤ 32
    → pad_loop d (2 ^ 32 - 2 ^ z) n + d % 2 ^ (8 * min n z) ≡ d % 2 ^ (8 * n)
unfolding pad_loop
pad_loop_clears d z zero hz hn = let e : min 0 z ≡ 0 = omega arith in rw e (omega arith)
pad_loop_clears d z (suc n) hz hn =
    let bit = keep_bit z n hz (omega arith) in
    let rest = pad_loop_clears d z n hz (omega arith) in
    let byte = mod-suc_byte d n in
    elim (Bool-cases (ltb n z)) [
      | inl t ↦
          let below : min n z ≡ n = ground arith in
          let below' : min (suc n) z ≡ suc n = ground arith in
          let rest' : pad_loop d (2 ^ 32 - 2 ^ z) n + d % 2 ^ (8 * n) ≡ d % 2 ^ (8 * n) =
            rw below at rest in
          rw (bit, t, below') (omega (arith, rest'))
      | inr t ↦
          let above : min n z ≡ z = ground arith in
          let above' : min (suc n) z ≡ z = ground arith in
          let rest' : pad_loop d (2 ^ 32 - 2 ^ z) n + d % 2 ^ (8 * z) ≡ d % 2 ^ (8 * n) =
            rw above at rest in
          rw (bit, t, above') (omega (arith, rest', byte))
    ]

padded-to_axi4s :
    (b : Beat) → b.bits < 2 ^ 256 → b.valid ≤ 32 → padded (to_axi4s b) ≡ to_axi4s (filled b)
unfolding padded pad_one
padded-to_axi4s b small valid =
    let z = 32 - b.valid in
    let gap : z ≤ 32 = omega arith in
    let cleared = pad_loop_clears b.bits z 32 gap (omega arith) in
    let all : min 32 z ≡ z = omega arith in
    let cleared' : pad_loop b.bits (2 ^ 32 - 2 ^ z) 32 + b.bits % 2 ^ (8 * z) ≡ b.bits % 2 ^ 256 =
      rw all at cleared in
    let whole = mod-eq_of_lt small in
    let bits : pad_loop b.bits (2 ^ 32 - 2 ^ z) 32 ≡ b.bits - b.bits % 2 ^ (8 * z) =
      omega (arith, cleared', whole) in
    let least : min z 4 ≡ 32 - max b.valid 28 = omega arith in
    let keep : 2 ^ 32 - 16 + (2 ^ 32 - 2 ^ z) % 16 ≡ 2 ^ 32 - 2 ^ (32 - max b.valid 28) =
      keep_fill z gap ∙ ap (λ (n : ℕ). 2 ^ 32 - 2 ^ n) least in
    λ i. record { bits = bits i; keep = keep i; last = b.last; user = b.user; id = b.id }

-- The word that a call puts out.
written :
    (b : Beat) (n : ℕ)
    → b.bits < 2 ^ 256
    → b.valid ≤ 32
    → (if b.last && n == 1 then padded (to_axi4s b) else to_axi4s b)
      ≡ to_axi4s (if b.last && n == 1 then filled b else b)
written b n small valid = elim (Bool-cases (b.last && n == 1)) [
  | inl t ↦ rw t (padded-to_axi4s b small valid)
  | inr t ↦ rw t refl
]

next_count :
    (l : Bool) (n : ℕ) (bs : List Beat)
    → n < 64
    → AreShort (if l then 0 else n + 1) bs
    → AreShort (if l then 0 else (n + 1) % 2 ^ 6) bs
      × (fill_packets (if l then 0 else (n + 1) % 2 ^ 6) bs
          ≡ fill_packets (if l then 0 else n + 1) bs)
next_count true n bs h f = (f, refl)
next_count false n [] h f = (tt, refl)
next_count false n (b ∷ bs) h f =
    let small : (n + 1) % 2 ^ 6 ≡ n + 1 = omega (arith, f.0) in rw small (f, refl)

module _ (wd od : ℕ) where
  abbrev pub at : ℕ → List Axi4s → List Axi4s → PadPorts
  at n ws out = record {
    beat_count = n;
    words_in = record { items = ws; depth = wd };
    words_out = record { items = out; depth = od };
  }

  -- Where the output has room, and no packet has more than 64 words, as many calls as there are
  -- words put them all out in order. A packet that ends with its second word is filled with zero
  -- bytes to 60 bytes, or kept whole if it is longer; every other packet stays as it is, also one
  -- of a single word, which stays shorter than 60 bytes.
  pub pad_run-fill_packets :
      (bs : List Beat) (n : ℕ) (out : List Axi4s)
      → AreShort n bs
      → length out + length bs ≤ od
      → (pad_run (length bs) (at n (map to_axi4s bs) out)).words_out.items
        ≡ out ++ map to_axi4s (fill_packets n bs)
  unfolding pad_run pad read
  pad_run-fill_packets [] n out short room = sym (append-nil out)
  pad_run-fill_packets (b ∷ bs) n out (count, small, valid, short) room =
      let free : leb od (length out) ≡ false = ground arith in
      let w = to_axi4s (if b.last && n == 1 then filled b else b) in
      let (short', same) = next_count b.last n bs count short in
      rw (pad_run, free, written b n small valid)
        (pad_run-fill_packets bs (if b.last then 0 else (n + 1) % 2 ^ 6) (out ++ w ∷ []) short'
            (omega (arith, length-append out (w ∷ [])))
          ∙ append_assoc out (w ∷ [])
              (map to_axi4s (fill_packets (if b.last then 0 else (n + 1) % 2 ^ 6) bs))
          ∙ ap (λ (l : List Beat). out ++ w ∷ map to_axi4s l) same)
