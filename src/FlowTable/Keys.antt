-- ===== src/FlowTable/Keys.antt =====
-- `flow`, `flow_table_value` and their packed forms (nica/hls/flow_table_impl.hpp), and the masks
-- of nica/hls/flow_table.cpp.
use nica.Base.{
  ℕ, zero, suc, ◌+◌, ◌-◌, ◌*◌, ◌/◌, ◌%◌, ◌^◌, Bool, ◌==◌, ◌&&◌, ◌||◌, not, range, cat,
  if◌then◌else◌,
}

pub record Flow : Type 0 where
  pub source_port : ℕ
  pub dest_port : ℕ
  pub saddr : ℕ
  pub daddr : ℕ
  pub vm_id : ℕ

-- The bit of `fields` of weight `2 ^ k`, as a number.
abbrev pub bit : ℕ → ℕ → ℕ
bit fields k = fields / 2 ^ k % 2

-- `flow::mask`; the VM's 32 ones are stored in 6 bits.
unfoldable pub mask : ℕ → Flow
mask fields = record {
  source_port = if bit fields 2 == 0 then 0 else 2 ^ 16 - 1;
  dest_port = if bit fields 3 == 0 then 0 else 2 ^ 16 - 1;
  saddr = if bit fields 0 == 0 then 0 else 2 ^ 32 - 1;
  daddr = if bit fields 1 == 0 then 0 else 2 ^ 32 - 1;
  vm_id = if bit fields 4 == 0 then 0 else (2 ^ 32 - 1) % 2 ^ 6;
}

-- The bitwise and of the low `w` bits.
unfoldable pub band : ℕ → ℕ → ℕ → ℕ
band zero a b = 0
band (suc w) a b = a % 2 * (b % 2) + 2 * band w (a / 2) (b / 2)

-- `operator &`, which leaves the VM of the result at its default.
unfoldable pub flow_and : Flow → Flow → Flow
unfolding band
flow_and f m = record {
  source_port = band 16 f.source_port m.source_port;
  dest_port = band 16 f.dest_port m.dest_port;
  saddr = band 32 f.saddr m.saddr;
  daddr = band 32 f.daddr m.daddr;
  vm_id = 0;
}

unfoldable pub flow_eq : Flow → Flow → Bool
flow_eq a b =
    a.source_port == b.source_port
    && (a.dest_port == b.dest_port
        && (a.saddr == b.saddr && (a.daddr == b.daddr && a.vm_id == b.vm_id)))

unfoldable pub flow_ne : Flow → Flow → Bool
flow_ne a b =
    not (a.source_port == b.source_port)
    || (not (a.dest_port == b.dest_port)
        || (not (a.saddr == b.saddr) || (not (a.daddr == b.daddr) || not (a.vm_id == b.vm_id))))

abbrev pub vm_width : ℕ
vm_width = 6

-- `pack<flow>::to_int`
unfoldable pub flow_bits : Flow → ℕ
flow_bits e =
    cat (cat (cat (cat e.source_port 16 e.dest_port) 32 e.saddr) 32 e.daddr) vm_width e.vm_id

-- `pack<flow>::from_int`
unfoldable pub flow_of_bits : ℕ → Flow
flow_of_bits d = record {
  source_port = range d (vm_width + 96 - 1) (vm_width + 80);
  dest_port = range d (vm_width + 80 - 1) (vm_width + 64);
  saddr = range d (vm_width + 64 - 1) (vm_width + 32);
  daddr = range d (vm_width + 32 - 1) vm_width;
  vm_id = range d (vm_width - 1) 0;
}

-- `flow_table_value`; the enumeration `flow_table_action` as its number, which a cast keeps.
pub record Value : Type 0 where
  pub action : ℕ
  pub engine_id : ℕ
  pub ikernel_id : ℕ

abbrev pub passthrough : Value
passthrough = record { action = 0; engine_id = 0; ikernel_id = 0 }

unfoldable pub value_eq : Value → Value → Bool
value_eq a b = a.action == b.action && (a.engine_id == b.engine_id && a.ikernel_id == b.ikernel_id)

-- `pack<flow_table_value>`, of 2 + 1 + 6 bits.
unfoldable pub value_bits : Value → ℕ
value_bits e = cat (cat (e.action % 2 ^ 2) 1 e.engine_id) 6 e.ikernel_id

unfoldable pub value_of_bits : ℕ → Value
value_of_bits d = record { action = range d 8 7; engine_id = range d 6 6; ikernel_id = range d 5 0 }
