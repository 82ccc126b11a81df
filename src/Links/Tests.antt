-- ===== src/Links/Tests.antt =====
-- The stream elements at small inputs.
use nica.Base.{ℕ, ◌≡◌, [], ◌∷◌, arith}
use nica.Stream.{Stream}
use nica.Links.{Four}
use nica.Links.Order.{dup_run, dup_run-delivers}

abbrev three : Stream ℕ
three = record { items = 1 ∷ 2 ∷ 3 ∷ []; depth = 8 }

abbrev one_word : Stream ℕ
one_word = record { items = 0 ∷ []; depth = 4 }

abbrev no_words : Stream ℕ
no_words = record { items = []; depth = 4 }

dup_run-delivers_example :
    let r = dup_run 3 (three, one_word, no_words) in
    (r.1.items ≡ 0 ∷ 1 ∷ 2 ∷ 3 ∷ []) × (r.2.items ≡ 1 ∷ 2 ∷ 3 ∷ [])
dup_run-delivers_example = dup_run-delivers three one_word no_words (omega arith) (omega arith)

abbrev four : Four ℕ
four = record {
  input = three;
  intermediate1 = one_word;
  intermediate2 = one_word;
  out1 = no_words;
  out2 = no_words;
  out3 = no_words;
  out4 = no_words;
}
