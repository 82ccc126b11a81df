-- ===== src/Udp/Steering/Steer.antt =====
-- One call of `steer` of nica/hls/udp.cpp: the elements of the class around the flow table.
use nica.Base.{ℕ, zero, suc, ◌-◌, Bool, List, [], ◌∷◌, map, length}
use nica.Stream.{Stream}
use nica.Udp.{HeaderBuffer, header_of_bits}
use nica.FlowTable.Keys.{Flow}
use nica.FlowTable.{HashTable, Codes, FlowTable, ft_wrapper}
use nica.Links.{dup3}
use nica.Udp.Dropper.{dropper_step}
use nica.Udp.Steering.{Steering, hdr_checks, steer_decisions}

-- `flow::from_header` of nica/hls/flow_table.cpp, with the VM that `ft_wrapper` leaves out.
unfoldable pub from_header : HeaderBuffer → Flow
unfolding header_of_bits
from_header buf =
    let hdr = header_of_bits buf.hdr in
    record {
      source_port = hdr.udp.source;
      dest_port = hdr.udp.dest;
      saddr = hdr.ip.saddr;
      daddr = hdr.ip.daddr;
      vm_id = 0;
    }

abbrev pub drop_items : {A : Type 0} → ℕ → List A → List A
drop_items zero xs = xs
drop_items (suc n) [] = []
drop_items (suc n) (x ∷ xs) = drop_items n xs

-- The three copies of each header.
unfoldable pub dup_headers : Steering → Steering
dup_headers s =
    let (i, a, b, c) =
      dup3 s.hdr_in s.hdr_dup_to_dropper s.hdr_dup_to_checks s.hdr_dup_to_flow_table in
    record s {
      hdr_in = i;
      hdr_dup_to_dropper = a;
      hdr_dup_to_checks = b;
      hdr_dup_to_flow_table = c;
    }

unfoldable pub drop_matched : Steering → Steering
unfolding dropper_step
drop_matched s =
    let p = dropper_step record {
      dropper = s.dropper;
      pass = s.matched;
      header_in = s.hdr_dup_to_dropper;
      data_in = s.data_in;
      header_out = s.hdr_out;
      data_out = s.data_out;
    } in
    record s {
      dropper = p.dropper;
      matched = p.pass;
      hdr_dup_to_dropper = p.header_in;
      data_in = p.data_in;
      hdr_out = p.header_out;
      data_out = p.data_out;
    }

module _ (lib : HashTable) (codes : Codes) where
  -- `ft_step` before the hash table's own step: the wrapper reads the flow of the header at the
  -- front, and the stream of headers loses as many as the wrapper has read.
  unfoldable pub ft_step :
      ((FlowTable lib → ℕ → ℕ → FlowTable lib × ℕ × ℕ) → FlowTable lib → FlowTable lib)
      → FlowTable lib
      → Steering
      → FlowTable lib × Steering
  unfolding ft_wrapper from_header
  ft_step gateway ft s =
      let headers = s.hdr_dup_to_flow_table in
      let flows : Stream Flow = record {
        items = map from_header headers.items;
        depth = headers.depth;
      } in
      let (ft', flows', results) = ft_wrapper lib codes gateway ft flows s.ft_to_action in
      let rest = drop_items (length headers.items - length flows'.items) headers.items in
      (
        ft',
        record s {
          hdr_dup_to_flow_table = record headers { items = rest };
          ft_to_action = results;
        },
      )

  -- `steer`, where `hash_table` is the step of the hash table of a submodule.
  unfoldable pub steer :
      ((FlowTable lib → ℕ → ℕ → FlowTable lib × ℕ × ℕ) → FlowTable lib → FlowTable lib)
      → (FlowTable lib → FlowTable lib)
      → Bool
      → FlowTable lib
      → Steering
      → FlowTable lib × Steering
  unfolding hdr_checks ft_step steer_decisions dup_headers drop_matched
  steer gateway hash_table enable ft s =
      let (ft', s') = ft_step gateway ft (hdr_checks enable (dup_headers s)) in
      (hash_table ft', drop_matched (steer_decisions s'))
