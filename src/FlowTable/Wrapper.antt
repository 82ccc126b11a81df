-- ===== src/FlowTable/Wrapper.antt =====
-- The wrapper keeps the order of lookups and answers, and the registers do what the host asks.
use nica.Base.{
  ℕ, ◌^◌, ◌%◌, ◌<◌, ◌≡◌, refl, Option, none, some, List, [], ◌∷◌, ◌++◌, map, inl, inr, Option-cases,
  Bool-cases, ap, ◌∙◌, sym, arith,
}
use mathlib.Core.List.{append_assoc}
use mathlib.Core.Path.{subst}
use nica.Stream.{Stream, full, read, write, read-some}
use nica.FlowTable.Masks.{FlowFits}
use nica.FlowTable.Keys.{Flow, Value, flow_and, mask}
use nica.FlowTable.{
  HashTable, Codes, FlowTable, Result, register, reg_write, reg_read, write_register, read_register,
  send_lookup, take_result, result_of, gateway_call, move_words, ft_wrapper,
}

module _ {A B : Type 0} (f : A → B) where
  -- Moving one word through a function keeps the output followed by the image of the input.
  read-write-map :
      (s : Stream A) (out : Stream B) {x : A} {t : Stream A}
      → read s ≡ some (x, t)
      → (write out (f x)).items ++ map f t.items ≡ out.items ++ map f s.items
  read-write-map s out {x} {t} e =
      append_assoc out.items (f x ∷ []) (map f t.items)
      ∙ ap (λ (l : List A). out.items ++ map f l) (sym (read-some s e).0)

module _ (lib : HashTable) (codes : Codes) where
  abbrev State : Type 0
  State = FlowTable lib

  -- The key that a header is looked up by.
  abbrev pub lookup_key : State → Flow → Flow
  lookup_key s h = flow_and h (mask s.fields)

  send_lookup_order :
      (s : State) (header : Stream Flow)
      → let (s', header') = send_lookup lib codes s header in
        (s'.lookups.items ++ map (lookup_key s) header'.items
          ≡ s.lookups.items ++ map (lookup_key s) header.items)
        × (s'.results ≡ s.results)
  unfolding send_lookup
  send_lookup_order s header = elim (Bool-cases (full s.lookups)) [
    | inl t ↦ rw t (refl, refl)
    | inr f ↦ elim (Option-cases (read header)) [
      | inl e ↦ rw (f, e, send_lookup) (refl, refl)
      | inr ((h, rest), e) ↦
          rw (f, e, send_lookup) (read-write-map (lookup_key s) header s.lookups e, refl)
    ]
  ]

  -- What is given out for an answer of the table: a miss is action 0 (passthrough) of engine 0 and
  -- ikernel 0, as flow 0.
  abbrev pub answer_of : Option (ℕ × Value) → Result
  answer_of none = record { v = record { action = 0; engine_id = 0; ikernel_id = 0 }; flow_id = 0 }
  answer_of (some (id, value)) = record { v = value; flow_id = id }

  result_of-answer_of : (r : Option (ℕ × Value)) → result_of lib codes r ≡ answer_of r
  unfolding result_of
  result_of-answer_of none = refl
  result_of-answer_of (some (id, value)) = refl

  take_result_order :
      (s : State) (result : Stream Result)
      → let (s', result') = take_result lib codes s result in
        (result'.items ++ map answer_of s'.results.items
          ≡ result.items ++ map answer_of s.results.items)
        × (s'.lookups ≡ s.lookups)
  unfolding take_result
  take_result_order s result = elim (Bool-cases (full result)) [
    | inl t ↦ rw t (refl, refl)
    | inr f ↦ elim (Option-cases (read s.results)) [
      | inl e ↦ rw (f, e, take_result) (refl, refl)
      | inr ((r, rest), e) ↦
          rw (f, e, take_result, result_of-answer_of r)
            (read-write-map answer_of s.results result e, refl)
    ]
  ]

  -- What was sent, or given out, followed by what is still to come.
  abbrev pub InOrder :
      State → Stream Flow → Stream Result → State × Stream Flow × Stream Result → Type 0
  InOrder s header result (s', header', result') =
      (s'.lookups.items ++ map (lookup_key s) header'.items
        ≡ s.lookups.items ++ map (lookup_key s) header.items)
      × (result'.items ++ map answer_of s'.results.items
          ≡ result.items ++ map answer_of s.results.items)

  move_words-InOrder :
      (s : State) (header : Stream Flow) (result : Stream Result)
      → InOrder s header result (move_words lib codes s header result)
  unfolding move_words
  move_words-InOrder s header result =
      let (sent, kept) = send_lookup_order s header in
      let (s1, header1) = send_lookup lib codes s header in
      let (taken, kept') = take_result_order s1 result in
      (
        ap (λ (l : Stream Flow). l.items ++ map (lookup_key s) header1.items) kept' ∙ sent,
        taken
            ∙ ap (λ (l : Stream (Option (ℕ × Value))). result.items ++ map answer_of l.items) kept,
      )

  -- A call of `ft_wrapper` in which the gateway has no command keeps the masked keys of the
  -- headers in their order, those sent to the table followed by those still to come, and the
  -- answers in theirs: those given out, each with its flow and value and a miss as a passthrough of flow 0,
  -- followed by those still waiting.
  pub ft_wrapper-InOrder :
      (gateway : (State → ℕ → ℕ → State × ℕ × ℕ) → State → State) (s : State) (header : Stream Flow)
      (result : Stream Result)
      → gateway (gateway_call lib codes) s ≡ s
      → InOrder s header result (ft_wrapper lib codes gateway s header result)
  unfolding ft_wrapper
  ft_wrapper-InOrder gateway s header result idle =
      subst (λ (t : State). InOrder s header result (move_words lib codes t header result))
        (sym idle) (move_words-InOrder s header result)

  -- A number of register writes.
  abbrev pub writes : List (ℕ × ℕ) → State → State
  writes [] s = s
  writes ((a, v) ∷ ws) s = writes ws (reg_write lib codes s a v).0

  -- What the host writes for a flow and its value.
  abbrev pub registers_of : Flow → Value → List (ℕ × ℕ)
  registers_of f v =
      (16, f.saddr)
      ∷ (17, f.daddr)
      ∷ (18, f.source_port)
      ∷ (19, f.dest_port)
      ∷ (24, v.action)
      ∷ (25, v.engine_id)
      ∷ (26, v.ikernel_id)
      ∷ []

  -- After the writes of a flow and a value that fit the registers, a read of `FT_ADD_FLOW` adds
  -- that flow, with the VM that the registers held, and that value to the table, and gives back
  -- what the table's command does.
  pub reg_read-writes :
      (s : State) (f : Flow) (v : Value)
      → FlowFits f
      → f.vm_id ≡ s.gateway_flow.vm_id
      → v.engine_id < 2
      → v.ikernel_id < 2 ^ 6
      → let (s', value, code) = reg_read lib codes (writes (registers_of f v) s) 1 in
        (s'.table, value, code) ≡ lib.add_entry s.table f v
  unfolding reg_read reg_write register write_register read_register
  reg_read-writes s f v h vm engine ikernel =
      let p1 : f.source_port % 2 ^ 16 ≡ f.source_port = omega (arith, h.source_port) in
      let p2 : f.dest_port % 2 ^ 16 ≡ f.dest_port = omega (arith, h.dest_port) in
      let p3 : f.saddr % 2 ^ 32 ≡ f.saddr = omega (arith, h.saddr) in
      let p4 : f.daddr % 2 ^ 32 ≡ f.daddr = omega (arith, h.daddr) in
      let p5 : v.engine_id % 2 ≡ v.engine_id = omega arith in
      let held = sym vm in
      let p6 : v.ikernel_id % 2 ^ 6 ≡ v.ikernel_id = omega arith in
      λ i.
        lib.add_entry s.table
          record {
            source_port = p1 i;
            dest_port = p2 i;
            saddr = p3 i;
            daddr = p4 i;
            vm_id = held i;
          }
          record { action = v.action; engine_id = p5 i; ikernel_id = p6 i }
