-- ===== src/Udp/Split/Words.antt =====
-- The header and the data of a packet are its bits, in order.
use nica.Base.{
  ℕ, ◌+◌, ◌-◌, ◌*◌, ◌^◌, ◌<◌, ◌≡◌, ap, ◌∙◌, false, List, [], ◌∷◌, ◌++◌, range, cat, arith,
}
use nica.Flit.{Flit}
use nica.Udp.Split.{data_start, shifted, final_word}

abbrev pub data_word : ℕ → ℕ → Flit
data_word buffer b = record { bits = shifted buffer b; keep = 2 ^ 32 - 1; last = false }

-- The words before the last one that come out of the words `body` and `tail`, and the last buffer.
abbrev pub data_words : ℕ → List (ℕ × ℕ) → ℕ × ℕ → List Flit
data_words buffer [] tail = data_word buffer tail.0 ∷ []
data_words buffer (w ∷ body) tail = data_word buffer w.0 ∷ data_words w.0 body tail

-- A number with words of 256 bits appended.
abbrev pub joined : ℕ → List (ℕ × ℕ) → ℕ × ℕ → ℕ
joined n [] tail = n * 2 ^ 256 + tail.0
joined n (w ∷ body) tail = joined (n * 2 ^ 256 + w.0) body tail

abbrev pub joined_flits : ℕ → List Flit → ℕ
joined_flits n [] = n
joined_flits n (w ∷ ws) = joined_flits (n * 2 ^ 256 + w.bits) ws

abbrev pub WordsFit : List (ℕ × ℕ) → Type 0
WordsFit [] = Unit {0}
WordsFit (w ∷ ws) = (w.0 < 2 ^ 256) × WordsFit ws

module _ (keep_bytes : ℕ → ℕ) where
  -- The rest of a packet after a word `b`: what comes out continues the bits of what came in.
  joined-data_words :
      (body : List (ℕ × ℕ)) (tail : ℕ × ℕ) (h b : ℕ)
      → WordsFit body
      → tail.0 < 2 ^ 256
      → joined_flits h (data_words b body tail ++ final_word keep_bytes tail.0 ∷ [])
        ≡ joined (h * 2 ^ 176 + range b 175 0) body tail * 2 ^ 80
  unfolding final_word shifted
  joined-data_words [] tail h b f t = omega arith
  joined-data_words (w ∷ body) tail h b (g, f) t =
      let next : (h * 2 ^ 256 + shifted b w.0) * 2 ^ 176 + range w.0 175 0
          ≡ (h * 2 ^ 176 + range b 175 0) * 2 ^ 256 + w.0 =
        omega arith in
      joined-data_words body tail (h * 2 ^ 256 + shifted b w.0) w.0 f t
      ∙ ap (λ (n : ℕ). joined n body tail * 2 ^ 80) next

  -- The header of a packet's first two words and the data of the rest are the bits of the packet,
  -- in order, with 80 zero bits behind them: what the code puts together from words `first`,
  -- `second` and the others, all of 256 bits, loses and moves nothing.
  pub joined-final_word :
      (first second : ℕ) (body : List (ℕ × ℕ)) (tail : ℕ × ℕ)
      → second < 2 ^ 256
      → WordsFit body
      → tail.0 < 2 ^ 256
      → joined_flits
          (cat first (256 - data_start) (range second 255 data_start))
          (data_words second body tail ++ final_word keep_bytes tail.0 ∷ [])
        ≡ joined (first * 2 ^ 256 + second) body tail * 2 ^ 80
  joined-final_word first second body tail s f t =
      joined-data_words body tail (cat first (256 - data_start) (range second 255 data_start))
        second f t
      ∙ ap (λ (n : ℕ). joined n body tail * 2 ^ 80) (omega arith)
