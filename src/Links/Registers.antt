-- ===== src/Links/Registers.antt =====
-- `link_with_reg`, `link_fifo`, `unary_stream`: one word at a time, in order.
use nica.Base.{
  ◌≡◌, refl, sym, ap, ◌∙◌, Bool, not, ◌||◌, List, [], ◌∷◌, ◌++◌, Option, none, some, map, inl, inr,
  Bool-cases, Option-cases,
}
use mathlib.Core.List.{append_assoc, append-nil}
use nica.Stream.{Stream, full, read, read-some}
use nica.Links.{push_reg, fill_reg, link_with_reg, unary_stream}

module _ {A : Type 0} where
  -- The word in the register, if it is valid.
  abbrev pub held : Option A → List A
  held none = []
  held (some r) = r ∷ []

  push_reg-order :
      (check : Bool) (reg : Option A) (out : Stream A)
      → let (reg', out') = push_reg check reg out in out'.items ++ held reg' ≡ out.items ++ held reg
  unfolding push_reg
  push_reg-order check none out = refl
  push_reg-order check (some r) out = elim (Bool-cases (not check || not (full out))) [
    | inl go ↦ rw (go, push_reg) (append-nil (out.items ++ r ∷ []))
    | inr stop ↦ rw (stop, push_reg)
  ]

  fill_reg-order :
      (reg : Option A) (in1 : Stream A)
      → let (reg', in2) = fill_reg reg in1 in held reg' ++ in2.items ≡ held reg ++ in1.items
  unfolding fill_reg
  fill_reg-order (some r) in1 = refl
  fill_reg-order none in1 = elim (Option-cases (read in1)) [
    | inl e ↦ rw (e, fill_reg)
    | inr ((x, t), e) ↦ rw (e, fill_reg) (sym (read-some in1 e).0)
  ]

  -- A call of `link_with_reg` keeps the sequence of the words in the output, the register and the
  -- input, with or without the test of a full output.
  pub link_with_reg_order :
      (check : Bool) (reg : Option A) (in1 out : Stream A)
      → let (reg', in2, out') = link_with_reg check reg in1 out in
        out'.items ++ held reg' ++ in2.items ≡ out.items ++ held reg ++ in1.items
  unfolding link_with_reg
  link_with_reg_order check reg in1 out =
      let (reg1, out1) = push_reg check reg out in
      let (reg2, in2) = fill_reg reg1 in1 in
      append_assoc out1.items (held reg2) in2.items
      ∙ ap (λ (l : List A). out1.items ++ l) (fill_reg-order reg1 in1)
      ∙ sym (append_assoc out1.items (held reg1) in1.items)
      ∙ ap (λ (l : List A). l ++ in1.items) (push_reg-order check reg out)

module _ {A B : Type 0} where
  -- A call of `unary_stream` keeps the output followed by the image of the input.
  pub unary_stream_order :
      (f : A → B) (in1 : Stream A) (out : Stream B)
      → let (in2, out') = unary_stream f in1 out in
        out'.items ++ map f in2.items ≡ out.items ++ map f in1.items
  unfolding unary_stream
  unary_stream_order f in1 out = elim (Bool-cases (full out)) [
    | inl stop ↦ rw (stop, unary_stream)
    | inr go ↦ elim (Option-cases (read in1)) [
      | inl e ↦ rw (go, e, unary_stream)
      | inr ((x, t), e) ↦
          rw (go, e, unary_stream, (read-some in1 e).0)
            (append_assoc out.items (f x ∷ []) (map f t.items))
    ]
  ]
