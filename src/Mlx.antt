-- ===== src/Mlx.antt =====
-- nica/hls/mlx.h and mlx.cpp: the words of the network port, the metadata that travel with them, and
-- the elements that split, join and drop. A stream of metadata or data carries their values.
pub mod Keep
pub mod Flags
pub mod Packets
mod Tests
use nica.Base.{
  ℕ, zero, suc, ◌+◌, ◌-◌, ◌*◌, ◌/◌, ◌%◌, ◌^◌, Bool, true, false, not, ◌==◌, Option, none, some,
  range, cat, if◌then◌else◌,
}
use nica.Stream.{Stream, full, read, write}
use nica.Flit.{Flit}

-- `axi4s`
pub record Axi4s : Type 0 where
  pub bits : ℕ
  pub keep : ℕ
  pub last : Bool
  pub user : ℕ
  pub id : ℕ

-- `mlx::metadata`
pub record MlxMetadata : Type 0 where
  pub user : ℕ
  pub id : ℕ

unfoldable pub mlx_of_bits : ℕ → MlxMetadata
mlx_of_bits d = record { user = range d 14 3; id = range d 2 0 }

unfoldable pub mlx_bits : MlxMetadata → ℕ
mlx_bits m = cat m.user 3 m.id

-- `USER_DROP` is bit 0 of `user`.
unfoldable pub set_drop : MlxMetadata → Bool → MlxMetadata
set_drop m drop = record m { user = cat (m.user / 2) 1 (if drop then 1 else 0) }

unfoldable pub get_drop : MlxMetadata → Bool
get_drop m = not (m.user % 2 == 0)

-- `tmp(0, w - 1)`: the `w` low bits in reverse.
unfoldable pub reversed : ℕ → ℕ → ℕ
reversed zero d = 0
reversed (suc w) d = d % 2 * 2 ^ w + reversed w (d / 2)

unfoldable pub last_word_keep_num_bytes_valid : ℕ → ℕ
unfolding reversed
last_word_keep_num_bytes_valid num_valid =
    if num_valid == 0 then 2 ^ 32 - 1 else reversed 32 (2 ^ num_valid - 1)

unfoldable pub split_metadata : Axi4s → MlxMetadata × Flit
split_metadata w =
    (record { user = w.user; id = w.id }, record { bits = w.bits; keep = w.keep; last = w.last })

unfoldable pub join_metadata : MlxMetadata → Flit → Axi4s
join_metadata m d = record { bits = d.bits; keep = d.keep; last = d.last; user = m.user; id = m.id }

pub data Mode : Type 0 where
  idle stream : Mode

pub record Dropper : Type 0 where
  pub mode : Mode
  pub drop : Bool

-- `mlx::dropper` with the streams of a call.
pub record DropperPorts : Type 0 where
  pub dropper : Dropper
  pub words : Stream Axi4s
  pub pass : Stream Bool
  pub out : Stream Axi4s

-- What both cases do with the word read.
unfoldable pub drop_word : DropperPorts → Bool → Axi4s → DropperPorts
drop_word s drop word = record s {
  dropper = record { mode = if word.last then idle else stream; drop = drop };
  out = if drop then s.out else write s.out word;
}

unfoldable pub drop_in : Mode → DropperPorts → DropperPorts
unfolding drop_word
drop_in idle s = if full s.out then s else elim (read s.pass) [
  | none ↦ s
  | some (p, passes) ↦ elim (read s.words) [
    | none ↦ s
    | some (w, rest) ↦ drop_word (record s { words = rest; pass = passes }) (not p) w
  ]
]
drop_in stream s = if full s.out then s else elim (read s.words) [
  | none ↦ s
  | some (w, rest) ↦ drop_word (record s { words = rest }) s.dropper.drop w
]

-- `dropper::step`
unfoldable pub drop_step : DropperPorts → DropperPorts
unfolding drop_in
drop_step s = drop_in s.dropper.mode s

unfoldable pub drop_run : ℕ → DropperPorts → DropperPorts
unfolding drop_step
drop_run zero s = s
drop_run (suc n) s = drop_run n (drop_step s)

-- `join_packet_metadata` with the streams of a call.
pub record JoinPorts : Type 0 where
  pub mode : Mode
  pub m : MlxMetadata
  pub meta_in : Stream MlxMetadata
  pub data_in : Stream Flit
  pub out : Stream Axi4s

unfoldable pub join_in : Mode → JoinPorts → JoinPorts
unfolding join_metadata
join_in idle s = elim (read s.meta_in) [
  | none ↦ s
  | some (m, rest) ↦ record s { mode = stream; m = m; meta_in = rest }
]
join_in stream s = if full s.out then s else elim (read s.data_in) [
  | none ↦ s
  | some (d, rest) ↦ record s {
    mode = if d.last then idle else stream;
    data_in = rest;
    out = write s.out (join_metadata s.m d);
  }
]

-- `join_packet_metadata::operator()`
unfoldable pub join_step : JoinPorts → JoinPorts
unfolding join_in
join_step s = join_in s.mode s

unfoldable pub join_run : ℕ → JoinPorts → JoinPorts
unfolding join_step
join_run zero s = s
join_run (suc n) s = join_run n (join_step s)

-- The words of a packet with their positions, as the elements of a submodule number them, and the
-- outputs of `extract_metadata`.
pub record ExtractPorts : Type 0 where
  pub numbered : Stream (ℕ × Axi4s)
  pub out_metadata : Stream MlxMetadata
  pub out_data : Stream Flit

-- `extract_metadata::mlx_metadata` after the link: `peek`, the writes, then `read`.
unfoldable pub extract_step : ExtractPorts → ExtractPorts
unfolding split_metadata
extract_step s = if full s.out_data then s else elim (read s.numbered) [
  | none ↦ s
  | some ((count, flit), rest) ↦
      let (m, d) = split_metadata flit in
      if count == 0
      then if full s.out_metadata then s else record s {
        numbered = rest;
        out_metadata = write s.out_metadata m;
        out_data = write s.out_data d;
      }
      else record s { numbered = rest; out_data = write s.out_data d }
]

unfoldable pub extract_run : ℕ → ExtractPorts → ExtractPorts
unfolding extract_step
extract_run zero s = s
extract_run (suc n) s = extract_run n (extract_step s)
