-- ===== src/CmsIkernel.antt =====
-- ikernels/hls/cms-ikernel.cpp and cms-impl.hpp: the ikernel around the count-min sketch.
pub mod Ingress
mod Tests
use nica.Base.{
  ℕ, ◌+◌, ◌-◌, ◌*◌, ◌%◌, ◌^◌, Bool, true, false, ◌&&◌, ◌||◌, not, ◌==◌, ltb, leb, none, some, range,
  if◌then◌else◌,
}
use nica.Stream.{Stream, empty, full, read, write}
use nica.Flit.{Flit}
use nica.Pipeline.{PipelinePorts, pass_packets}
use nica.Sketch.{CountMinSketch, update, update_by_address, estimate, depth}

pub record ValueAndFrequency : Type 0 where
  pub entity : ℕ
  pub frequency : ℕ

pub data State : Type 0 where
  metadata first_word other_words : State

pub data ReadState : Type 0 where
  initial entity frequency : ReadState

pub record Cms : Type 0 where
  pub state : State
  pub read_state : ReadState
  pub values_stream : Stream ℕ
  pub hashes_addresses : Stream ℕ
  pub hashes_values : Stream ℕ
  pub topk_read_request : Stream Bool
  pub topk_values : Stream ValueAndFrequency
  pub reading_heap : Bool
  pub reading_index : ℕ
  pub k : ℕ
  pub next_topk_pair : ValueAndFrequency
  pub sketch : CountMinSketch

-- -1 in 32 bits.
abbrev pub minus_one : ℕ
minus_one = 2 ^ 32 - 1

-- `GW_DONE`, `GW_FAIL` and `GW_BUSY` are named in a submodule.
pub data Code : Type 0 where
  done busy failed : Code

unfoldable pub reg_write : Cms → ℕ → ℕ → Cms × Code
reg_write s address value =
    if address == 0
    then (record s { topk_read_request = write s.topk_read_request true }, done)
    else if ltb address 3 || leb (2 * depth) (address - 3)
    then (s, failed)
    else (
      record s {
        hashes_addresses = write s.hashes_addresses (address - 3);
        hashes_values = write s.hashes_values value;
      },
      done,
    )

-- `case ENTITY`, which `case INITIAL` falls through to.
unfoldable pub read_entity : Cms → Cms × ℕ × Code
read_entity s = (record s { read_state = frequency }, s.next_topk_pair.entity, done)

-- `*value` keeps what the caller had in it where the code does not set it.
unfoldable pub read_next : ReadState → Cms → ℕ → Cms × ℕ × Code
unfolding read_entity
read_next initial s value = elim (read s.topk_values) [
  | none ↦ (s, value, busy)
  | some (pair, rest) ↦ read_entity (record s { topk_values = rest; next_topk_pair = pair })
]
read_next entity s value = read_entity s
read_next frequency s value = (record s { read_state = initial }, s.next_topk_pair.frequency, done)

unfoldable pub reg_read : Cms → ℕ → ℕ → Cms × ℕ × Code
unfolding read_next
reg_read s address value =
    if address == 2
    then (s, s.k, done)
    else if not (address == 1)
    then (s, minus_one, failed)
    else read_next s.read_state s value

-- `d.data(255 - 14 * 8, 256 - value::width - 14 * 8)`
abbrev pub value_of : Flit → ℕ
value_of d = range d.bits 143 112

unfoldable pub ingress_in : State → Cms → PipelinePorts → Cms × PipelinePorts
ingress_in metadata s p = elim (read p.metadata_input) [
  | none ↦ (s, p)
  | some (m, rest) ↦ (record s { state = first_word }, record p { metadata_input = rest })
]
ingress_in first_word s p = if full s.values_stream then (s, p) else elim (read p.data_input) [
  | none ↦ (s, p)
  | some (d, rest) ↦ (
    record s {
      values_stream = write s.values_stream (value_of d);
      state = if d.last then metadata else other_words;
    },
    record p { data_input = rest },
  )
]
ingress_in other_words s p = elim (read p.data_input) [
  | none ↦ (s, p)
  | some (d, rest) ↦ (
    record s { state = if d.last then metadata else other_words },
    record p { data_input = rest },
  )
]

unfoldable pub net_ingress : Cms → PipelinePorts → Cms × PipelinePorts
unfolding ingress_in
net_ingress s p = ingress_in s.state s p

-- The first block of `write_to_heap`.
unfoldable pub take_hash : Cms → Cms
take_hash s = elim (read s.hashes_addresses) [
  | none ↦ s
  | some (address, addresses) ↦ elim (read s.hashes_values) [
    | none ↦ s
    | some (v, values) ↦ record s {
      hashes_addresses = addresses;
      hashes_values = values;
      sketch = update_by_address s.sketch address v;
    }
  ]
]

-- The second block, with the output port `kv`.
unfoldable pub take_value : Cms → ValueAndFrequency → Cms × ValueAndFrequency
take_value s kv = elim (read s.values_stream) [
  | none ↦ (s, kv)
  | some (val, rest) ↦
      let sketch = update s.sketch val 1 in
      (
        record s { values_stream = rest; sketch = sketch },
        record { entity = val; frequency = estimate sketch val },
      )
]

unfoldable pub write_to_heap : Cms → ValueAndFrequency → Cms × ValueAndFrequency
unfolding take_hash take_value
write_to_heap s kv = take_value (take_hash s) kv

-- The parts of `read_heap`.
unfoldable pub start_read : Cms → ℕ → Cms
start_read s k_value = if s.reading_heap then s else elim (read s.topk_read_request) [
  | none ↦ record s { k = k_value }
  | some (_, rest) ↦ record s {
    k = k_value;
    topk_read_request = rest;
    reading_heap = true;
    reading_index = 0;
  }
]

unfoldable pub move_pair : Cms → Stream ValueAndFrequency → Cms × Stream ValueAndFrequency
move_pair s heap_out =
    if s.reading_heap && not (full s.topk_values)
    then elim (read heap_out) [
      | none ↦ (s, heap_out)
      | some (pair, rest) ↦ (
        record s {
          topk_values = write s.topk_values pair;
          reading_index = (s.reading_index + 1) % 2 ^ 32;
        },
        rest,
      )
    ]
    else (s, heap_out)

unfoldable pub read_heap : Cms → Stream ValueAndFrequency → ℕ → Cms × Stream ValueAndFrequency
unfolding start_read move_pair
read_heap s heap_out k_value =
    let s1 = start_read s k_value in
    if s1.reading_index == k_value
    then (record s1 { reading_heap = false }, heap_out)
    else move_pair s1 heap_out

-- `step`: on the host side the packets pass. `ntl::produce`, of a submodule, gets the net outputs.
unfoldable pub step :
    (PipelinePorts → PipelinePorts)
    → Cms
    → PipelinePorts
    → PipelinePorts
    → Cms × PipelinePorts × PipelinePorts
unfolding net_ingress
step produce s host net =
    let (s', net') = net_ingress s net in (s', pass_packets host, produce net')
