-- ===== src/Udp/Lengths/Cuts.antt =====
-- The words that come out are those that the lengths ask for.
use nica.Base.{
  ℕ, zero, suc, ◌-◌, ◌^◌, ◌<◌, ◌≡◌, Bool, true, false, ◌==◌, List, [], ◌∷◌, ◌++◌, if◌then◌else◌,
  arith,
}
use nica.Stream.{Stream, write}
use nica.Flit.{Flit}
use nica.Udp.Lengths.{idle, counting, consume, PacketLengths, decrement, trimmed}
use mathlib.Core.List.{append_assoc}
use nica.Udp.Lengths.Wanted.{Wanted, emit, next, cut, open_entry}

counted :
    (l : Bool) (p : PacketLengths) (w : Flit) (out : Stream Flit) (es : List Wanted)
    (ws : List Flit)
    → 0 < p.word_count
    → p.word_count < 2 ^ 11
    → let n = decrement p.word_count in
      (write out (if n == 0 then trimmed p.last_word_data w else w)).items
        ++ cut
            (open_entry
                (if l then idle else if n == 0 then consume else counting)
                (record p { word_count = n })
              ++ es)
            ws
      ≡ out.items
        ++ (emit (p.word_count, p.last_word_data) w
            ++ cut (if l then es else next (p.word_count, p.last_word_data) w ∷ es) ws)
counted l p w out es ws h h' = go l p.word_count h h'
  where
    go :
        (l : Bool) (k : ℕ)
        → 0 < k
        → k < 2 ^ 11
        → let n = decrement k in
          (write out (if n == 0 then trimmed p.last_word_data w else w)).items
            ++ cut
                (open_entry
                    (if l then idle else if n == 0 then consume else counting)
                    (record p { word_count = n })
                  ++ es)
                ws
          ≡ out.items
            ++ (emit (k, p.last_word_data) w
                ++ cut (if l then es else next (k, p.last_word_data) w ∷ es) ws)
    go l zero h h' = absurd (omega arith)
    go true (suc zero) h h' = append_assoc out.items (trimmed p.last_word_data w ∷ []) (cut es ws)
    go false (suc zero) h h' =
        append_assoc out.items (trimmed p.last_word_data w ∷ [])
          (cut ((0, p.last_word_data) ∷ es) ws)
    go true (suc (suc n)) h h' =
        let less : decrement (suc (suc n)) ≡ suc n = omega arith in
        let some_left : (suc n == 0) ≡ false = ground arith in
        rw (less, some_left) (append_assoc out.items (w ∷ []) (cut es ws))
    go false (suc (suc n)) h h' =
        let less : decrement (suc (suc n)) ≡ suc n = omega arith in
        let some_left : (suc n == 0) ≡ false = ground arith in
        let one_less : suc (suc n) - 1 ≡ suc n = omega arith in
        rw (less, some_left, one_less)
          (append_assoc out.items (w ∷ []) (cut ((suc n, p.last_word_data) ∷ es) ws))
