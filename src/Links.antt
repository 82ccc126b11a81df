-- ===== src/Links.antt =====
-- nica/hls/hls_helper.h and link_with_reg.hpp: the elements that copy words from stream to stream,
-- one call a clock. Blocking writes to an AXI stream append whatever the depth.
pub mod Order
pub mod Registers
mod Tests
use nica.Base.{
  ℕ, zero, suc, Bool, true, false, not, ◌&&◌, ◌||◌, Option, none, some, List, [], ◌∷◌,
  if◌then◌else◌,
}
use nica.Stream.{Stream, empty, full, read, write}

-- The duplicator's inner streams and the ports of `dup4`.
pub record Four (A : Type 0) : Type 0 where
  pub input : Stream A
  pub intermediate1 : Stream A
  pub intermediate2 : Stream A
  pub out1 : Stream A
  pub out2 : Stream A
  pub out3 : Stream A
  pub out4 : Stream A

module _ {A : Type 0} where
  unfoldable pub any_full : Stream A → Stream A → Bool
  any_full out1 out2 = full out1 || full out2

  -- `dup` and `duplicator::dup2`: the input and the two outputs.
  unfoldable pub dup : Stream A → Stream A → Stream A → Stream A × Stream A × Stream A
  unfolding any_full
  dup in1 out1 out2 = if any_full out1 out2 then (in1, out1, out2) else elim (read in1) [
    | none ↦ (in1, out1, out2)
    | some (word, in2) ↦ (in2, write out1 word, write out2 word)
  ]

  unfoldable pub dup3 :
      Stream A → Stream A → Stream A → Stream A → Stream A × Stream A × Stream A × Stream A
  dup3 in1 out1 out2 out3 =
      if full out1 || (full out2 || full out3) then (in1, out1, out2, out3) else elim (read in1) [
        | none ↦ (in1, out1, out2, out3)
        | some (word, in2) ↦ (in2, write out1 word, write out2 word, write out3 word)
      ]

  unfoldable pub dup4 : Four A → Four A
  dup4 s =
      let (i, a, b) = dup s.input s.intermediate1 s.intermediate2 in
      let (a', o1, o2) = dup a s.out1 s.out2 in
      let (b', o3, o4) = dup b s.out3 s.out4 in
      record {
        input = i;
        intermediate1 = a';
        intermediate2 = b';
        out1 = o1;
        out2 = o2;
        out3 = o3;
        out4 = o4;
      }

  -- `dup_array`, over the list of the outputs.
  unfoldable pub any_full_of : List (Stream A) → Bool
  any_full_of [] = false
  any_full_of (o ∷ os) = full o || any_full_of os

  unfoldable pub write_all : List (Stream A) → A → List (Stream A)
  write_all [] word = []
  write_all (o ∷ os) word = write o word ∷ write_all os word

  unfoldable pub dup_array : Stream A → List (Stream A) → Stream A × List (Stream A)
  dup_array in1 outs =
      if any_full_of outs
      then (in1, outs)
      else elim (read in1) [ none ↦ (in1, outs) | some (word, in2) ↦ (in2, write_all outs word) ]

  -- `link_fifo`, and `link_axi_to_fifo`, which differs in how the port is synthesised.
  unfoldable pub link_fifo : Stream A → Stream A → Stream A × Stream A
  link_fifo in1 out =
      if full out
      then (in1, out)
      else elim (read in1) [ none ↦ (in1, out) | some (flit, in2) ↦ (in2, write out flit) ]

  unfoldable pub link_axi_stream : Stream A → Stream A → Stream A × Stream A
  link_axi_stream in1 out = elim (read in1) [
    | none ↦ (in1, out)
    | some (flit, in2) ↦ (in2, write out flit)
  ]

  unfoldable pub consume : Stream A → Bool → Stream A
  consume in1 enabled =
      if enabled then elim (read in1) [ none ↦ in1 | some (_, in2) ↦ in2 ] else in1

  -- `link_with_reg`: `none` is `valid == false`. `check` is the template's `check_full`.
  unfoldable pub push_reg : Bool → Option A → Stream A → Option A × Stream A
  push_reg check none out = (none, out)
  push_reg check (some r) out =
      if not check || not (full out) then (none, write out r) else (some r, out)

  unfoldable pub fill_reg : Option A → Stream A → Option A × Stream A
  fill_reg (some r) in1 = (some r, in1)
  fill_reg none in1 = elim (read in1) [ none ↦ (none, in1) | some (r, in2) ↦ (some r, in2) ]

  unfoldable pub link_with_reg :
      Bool → Option A → Stream A → Stream A → Option A × Stream A × Stream A
  link_with_reg check reg in1 out =
      let (reg1, out1) = push_reg check reg out in
      let (reg2, in2) = fill_reg reg1 in1 in (reg2, in2, out1)

module _ {A B : Type 0} where
  unfoldable pub unary_stream : (A → B) → Stream A → Stream B → Stream A × Stream B
  unary_stream f in1 out =
      if full out
      then (in1, out)
      else elim (read in1) [ none ↦ (in1, out) | some (x, in2) ↦ (in2, write out (f x)) ]

module _ {A B C : Type 0} where
  unfoldable pub binary_stream :
      (A → B → C) → Stream A → Stream B → Stream C → Stream A × Stream B × Stream C
  binary_stream f in1 in2 out = if full out then (in1, in2, out) else elim (read in1) [
    | none ↦ (in1, in2, out)
    | some (x, in1') ↦ elim (read in2) [
      | none ↦ (in1, in2, out)
      | some (y, in2') ↦ (in1', in2', write out (f x y))
    ]
  ]
