-- ===== src/FlowTable/Tests.antt =====
-- The flow table at small inputs, over a hash table that holds one entry.
use nica.Base.{ℕ, ◌^◌, ◌≡◌, ◌↔◌, refl, true, false, Option, none, some, [], ◌∷◌, arith}
use nica.Stream.{Stream}
use nica.FlowTable.Keys.{Flow, Value, mask, flow_and, flow_eq}
use nica.FlowTable.Masks.{FlowFits, Agree, flow_eq-flow_and}
use nica.FlowTable.{HashTable, Codes, FlowTable, Result, reg_read, ft_wrapper}
use nica.FlowTable.Wrapper.{InOrder, writes, registers_of, ft_wrapper-InOrder, reg_read-writes}

abbrev one_entry : HashTable
one_entry = record {
  Table = Option (Flow × Value);
  add_entry = λ (t : Option (Flow × Value)) (f : Flow) (v : Value). (some (f, v), 1, 0);
  delete_entry = λ (t : Option (Flow × Value)) (f : Flow). (none, 1, 0);
  set_entry = λ (t : Option (Flow × Value)) (i : ℕ) (e : Option (Flow × Value)). (e, 0);
  read_entry = λ (t : Option (Flow × Value)) (i : ℕ). (t, t, 0);
}

abbrev codes : Codes
codes = record { done = 0; fail = 1 }

abbrev flow : Flow
flow = record { source_port = 53; dest_port = 1000; saddr = 2 ^ 31; daddr = 7; vm_id = 0 }

abbrev other_flow : Flow
other_flow = record { source_port = 54; dest_port = 1000; saddr = 2 ^ 31; daddr = 7; vm_id = 3 }

abbrev value : Value
value = record { action = 2; engine_id = 1; ikernel_id = 9 }

flow-FlowFits : FlowFits flow
flow-FlowFits = omega arith

other_flow-FlowFits : FlowFits other_flow
other_flow-FlowFits = omega arith

flow_eq-flow_and_example :
    (flow_eq (flow_and flow (mask 27)) (flow_and other_flow (mask 27)) ≡ true)
    ↔ Agree 27 flow other_flow
flow_eq-flow_and_example = flow_eq-flow_and 27 flow other_flow flow-FlowFits other_flow-FlowFits

abbrev start : FlowTable one_entry
start = record {
  lookups = record { items = []; depth = 2 };
  results = record { items = some (4, value) ∷ none ∷ []; depth = 2 };
  table = none;
  gateway_flow = record { source_port = 0; dest_port = 0; saddr = 0; daddr = 0; vm_id = 0 };
  gateway_result = record { action = 0; engine_id = 0; ikernel_id = 0 };
  gateway_valid = false;
  fields = 8;
}

abbrev headers : Stream Flow
headers = record { items = flow ∷ other_flow ∷ []; depth = 2 }

abbrev results : Stream Result
results = record { items = []; depth = 2 }

-- A gateway without a command.
abbrev Callback : Type 0
Callback = FlowTable one_entry → ℕ → ℕ → FlowTable one_entry × ℕ × ℕ

abbrev idle : Callback → FlowTable one_entry → FlowTable one_entry
idle call s = s

ft_wrapper-InOrder_example :
    InOrder one_entry codes start headers results
      (ft_wrapper one_entry codes idle start headers results)
ft_wrapper-InOrder_example = ft_wrapper-InOrder one_entry codes idle start headers results refl

reg_read-writes_example :
    let (s', v, code) =
      reg_read one_entry codes
        (writes one_entry codes (registers_of one_entry codes flow value) start)
        1 in
    (s'.table, v, code) ≡ one_entry.add_entry none flow value
reg_read-writes_example =
    reg_read-writes one_entry codes start flow value flow-FlowFits refl (omega arith) (omega arith)
