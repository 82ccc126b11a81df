-- ===== src/Udp/Lengths/Valid.antt =====
-- Every operation keeps the state valid.
use nica.Base.{
  ℕ, ◌^◌, ◌<◌, Bool, true, false, not, ◌||◌, ◌==◌, List, [], ◌∷◌, ◌++◌, if◌then◌else◌, sym, inl,
  inr, Bool-cases, Option-cases, if-same, arith,
}
use nica.Stream.{full, read, read-some}
use nica.Udp.{HeaderBuffer}
use nica.Udp.Lengths.{
  Mode, idle, counting, consume, PacketLengths, LengthAdjust, lengths_of, find_length, start_packet,
  decrement, count_word, consume_word, fetch_word,
}
use mathlib.Core.Path.{subst}
use nica.Udp.Lengths.Wanted.{Counted, Small, IsValid}

Small-append :
    (ps : List PacketLengths) (p : PacketLengths)
    → Small ps
    → p.word_count < 2 ^ 11
    → Small (ps ++ p ∷ [])
Small-append [] p h h' = (h', tt)
Small-append (q ∷ ps) p (a, b) h' = (a, Small-append ps p b h')

lengths_of-Small : (buf : HeaderBuffer) → (lengths_of buf).word_count < 2 ^ 11
unfolding lengths_of
lengths_of-Small buf = omega arith

pub IsValid-find_length : (s : LengthAdjust) → IsValid s → IsValid (find_length s)
unfolding find_length
IsValid-find_length s v = elim (Bool-cases (full s.packets)) [
  | inl e ↦ rw e v
  | inr e ↦ elim (Option-cases (read s.hdr_in)) [
    | inl f ↦ rw (e, f) v
    | inr ((h, hs), f) ↦
        rw (find_length, e, f)
          (v.0, Small-append s.packets.items (lengths_of h) v.1 (lengths_of-Small h))
  ]
]

Counted-idle : (z : Bool) (m : Mode) (n : ℕ) → Counted m n → Counted (if z then idle else m) n
Counted-idle true m n c = tt
Counted-idle false m n c = c

Counted-rest : (n : ℕ) → n < 2 ^ 11 → Counted (if n == 0 then consume else counting) n
Counted-rest n h = elim (Bool-cases (n == 0)) [
  | inl e ↦ rw e tt
  | inr e ↦ let some_left : 0 < n = ground arith in rw e (some_left, h)
]

Counted-start : (n : ℕ) → n < 2 ^ 11 → Counted (if n == 0 then idle else counting) n
Counted-start n h = elim (Bool-cases (n == 0)) [
  | inl e ↦ rw e tt
  | inr e ↦ let some_left : 0 < n = ground arith in rw e (some_left, h)
]

pub IsValid-start_packet : (s : LengthAdjust) → IsValid s → IsValid (start_packet s)
unfolding start_packet
IsValid-start_packet s v = elim (Option-cases (read s.packets)) [
  | inl f ↦ rw (start_packet, f) v
  | inr ((p, ps), f) ↦
      let (h, hs) = subst (λ (l : List PacketLengths). Small l) (read-some s.packets f).0 v.1 in
      rw (start_packet, f) (Counted-start p.word_count h, hs)
]

pub IsValid-count_word : (s : LengthAdjust) → IsValid s → IsValid (count_word s)
unfolding count_word
IsValid-count_word s v = elim (Bool-cases (not s.data_buf_valid || full s.data_out)) [
  | inl e ↦ rw e v
  | inr e ↦
      let n = decrement s.pkt.word_count in
      let small : n < 2 ^ 11 = omega arith in
      rw e (
        Counted-idle s.data_buf.last (if n == 0 then consume else counting) n
            (Counted-rest n small),
        v.1,
      )
]

pub IsValid-consume_word : (s : LengthAdjust) → IsValid s → IsValid (consume_word s)
unfolding consume_word
IsValid-consume_word s v = elim (Bool-cases s.data_buf_valid) [
  | inl e ↦ rw (consume_word, e) (Counted-idle s.data_buf.last consume s.pkt.word_count tt, v.1)
  | inr e ↦ rw e v
]

pub IsValid-fetch_word : (s : LengthAdjust) → IsValid s → IsValid (fetch_word s)
unfolding fetch_word
IsValid-fetch_word s v = elim (Bool-cases s.data_buf_valid) [
  | inl e ↦ rw e v
  | inr e ↦ elim (Option-cases (read s.data_in)) [
    | inl f ↦ rw f (subst IsValid (sym (if-same s.data_buf_valid s)) v)
    | inr ((d, rest), f) ↦ rw (fetch_word, e, f) v
  ]
]
