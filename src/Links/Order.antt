-- ===== src/Links/Order.antt =====
-- Copying loses, adds and reorders nothing.
use nica.Base.{
  ℕ, zero, suc, ◌+◌, ◌≤◌, ◌≡◌, refl, sym, ap, ◌∙◌, List, [], ◌∷◌, ◌++◌, some, inl, inr, Bool-cases,
  Option-cases, arith, length, length-append, nil_of_length, zero_ne_suc, false,
}
use mathlib.Core.List.{append_assoc, append-nil}
use nica.Stream.{Stream, full, read, write, read-write, read-some, read-none}
use nica.Links.{dup, any_full, dup4, Four}

module _ {A : Type 0} where
  -- A number of calls of `dup`, while nobody else touches the streams.
  unfoldable pub dup_run : ℕ → Stream A × Stream A × Stream A → Stream A × Stream A × Stream A
  dup_run zero s = s
  dup_run (suc n) s = dup_run n (dup s.0 s.1 s.2)

  -- Each output holds what it held, then the words that left the input.
  abbrev pub DupFrom : Stream A × Stream A × Stream A → Stream A × Stream A × Stream A → Type 0
  DupFrom s t =
      (t.1.items ++ t.0.items ≡ s.1.items ++ s.0.items)
      × (t.2.items ++ t.0.items ≡ s.2.items ++ s.0.items)

  dup-DupFrom : (s : Stream A × Stream A × Stream A) → DupFrom s (dup s.0 s.1 s.2)
  unfolding dup
  dup-DupFrom (in1, out1, out2) = elim (Bool-cases (any_full out1 out2)) [
    | inl stop ↦ rw (stop, dup) (refl, refl)
    | inr go ↦ elim (Option-cases (read in1)) [
      | inl e ↦ rw (go, e, dup) (refl, refl)
      | inr ((x, t), e) ↦ rw (go, e, dup) (read-write in1 out1 e, read-write in1 out2 e)
    ]
  ]

  DupFrom-trans : (s t u : Stream A × Stream A × Stream A) → DupFrom s t → DupFrom t u → DupFrom s u
  DupFrom-trans s t u p q = (q.0 ∙ p.0, q.1 ∙ p.1)

  -- After any number of calls of `dup`, each output holds what it held and then the words that
  -- left the input, in their order.
  pub dup_run-DupFrom : (n : ℕ) (s : Stream A × Stream A × Stream A) → DupFrom s (dup_run n s)
  unfolding dup_run
  dup_run-DupFrom zero s = (refl, refl)
  dup_run-DupFrom (suc n) s =
      DupFrom-trans s (dup s.0 s.1 s.2) (dup_run n (dup s.0 s.1 s.2)) (dup-DupFrom s)
        (dup_run-DupFrom n (dup s.0 s.1 s.2))

  -- There is room in the stream for `n` words more.
  abbrev pub HasRoom : ℕ → Stream A → Type 0
  HasRoom n s = length s.items + n ≤ s.depth

  write-HasRoom : (n : ℕ) (s : Stream A) (x : A) → HasRoom (suc n) s → HasRoom n (write s x)
  write-HasRoom n s x h = omega (arith, length-append s.items (x ∷ []))

  dup_room :
      (n : ℕ) (s out1 out2 : Stream A) {x : A} {t : Stream A}
      → read s ≡ some (x, t)
      → HasRoom (suc n) out1
      → HasRoom (suc n) out2
      → dup s out1 out2 ≡ (t, write out1 x, write out2 x)
  unfolding dup any_full
  dup_room n s out1 out2 e h1 h2 =
      let f1 : full out1 ≡ false = ground arith in
      let f2 : full out2 ≡ false = ground arith in rw (f1, f2, e, dup)

  dup_empties :
      (n : ℕ) (s out1 out2 : Stream A)
      → length s.items ≡ n
      → HasRoom n out1
      → HasRoom n out2
      → (dup_run n (s, out1, out2)).0.items ≡ []
  unfolding dup_run
  dup_empties zero s out1 out2 l h1 h2 = nil_of_length s.items l
  dup_empties (suc n) s out1 out2 l h1 h2 = elim (Option-cases (read s)) [
    | inl e ↦ absurd (zero_ne_suc n (sym (ap length (read-none s e)) ∙ l))
    | inr ((x, t), e) ↦
        let l' : length t.items ≡ n = omega (arith, ap length (read-some s e).0) in
        rw (dup_room n s out1 out2 e h1 h2, dup_run)
          (dup_empties n t (write out1 x) (write out2 x) l' (write-HasRoom n out1 x h1)
            (write-HasRoom n out2 x h2))
  ]

  -- Where both outputs have room for the whole input, after as many calls of `dup` as it has words
  -- both outputs hold what they held and then all of it.
  pub dup_run-delivers :
      (s out1 out2 : Stream A)
      → HasRoom (length s.items) out1
      → HasRoom (length s.items) out2
      → let r = dup_run (length s.items) (s, out1, out2) in
        (r.1.items ≡ out1.items ++ s.items) × (r.2.items ≡ out2.items ++ s.items)
  dup_run-delivers s out1 out2 h1 h2 =
      let r = dup_run (length s.items) (s, out1, out2) in
      let done = dup_empties (length s.items) s out1 out2 refl h1 h2 in
      let (p, q) = dup_run-DupFrom (length s.items) (s, out1, out2) in
      (sym (append-nil r.1.items) ∙ rw done at p, sym (append-nil r.2.items) ∙ rw done at q)

  through :
      (out mid input out' mid' between rest : List A)
      → out' ++ mid' ≡ out ++ between
      → between ++ rest ≡ mid ++ input
      → out' ++ mid' ++ rest ≡ out ++ mid ++ input
  through out mid input out' mid' between rest p q =
      ap (λ (l : List A). l ++ rest) p
      ∙ append_assoc out between rest
      ∙ ap (λ (l : List A). out ++ l) q
      ∙ sym (append_assoc out mid input)

  -- A call of `dup4` keeps, for each of the four outputs, the words on the way to it: those that
  -- it holds, those in the stream between, and those in the input.
  pub dup4_order :
      (s : Four A)
      → let t = dup4 s in
        (t.out1.items ++ t.intermediate1.items ++ t.input.items
          ≡ s.out1.items ++ s.intermediate1.items ++ s.input.items)
        × (t.out2.items ++ t.intermediate1.items ++ t.input.items
            ≡ s.out2.items ++ s.intermediate1.items ++ s.input.items)
        × (t.out3.items ++ t.intermediate2.items ++ t.input.items
            ≡ s.out3.items ++ s.intermediate2.items ++ s.input.items)
        × (t.out4.items ++ t.intermediate2.items ++ t.input.items
            ≡ s.out4.items ++ s.intermediate2.items ++ s.input.items)
  unfolding dup4
  dup4_order s =
      let d = dup s.input s.intermediate1 s.intermediate2 in
      let first = dup-DupFrom (s.input, s.intermediate1, s.intermediate2) in
      let a = dup d.1 s.out1 s.out2 in
      let b = dup d.2 s.out3 s.out4 in
      let left = dup-DupFrom (d.1, s.out1, s.out2) in
      let right = dup-DupFrom (d.2, s.out3, s.out4) in
      let via1 = through s.out1.items s.intermediate1.items s.input.items in
      let via2 = through s.out2.items s.intermediate1.items s.input.items in
      let via3 = through s.out3.items s.intermediate2.items s.input.items in
      let via4 = through s.out4.items s.intermediate2.items s.input.items in
      (
        via1 a.1.items a.0.items d.1.items d.0.items left.0 first.0,
        via2 a.2.items a.0.items d.1.items d.0.items left.1 first.0,
        via3 b.1.items b.0.items d.2.items d.0.items right.0 first.1,
        via4 b.2.items b.0.items d.2.items d.0.items right.1 first.1,
      )
