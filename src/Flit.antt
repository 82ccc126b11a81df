-- ===== src/Flit.antt =====
-- The words of a packet on a data stream (nica/hls/axi_data.hpp), and packets as such words.
-- `axi_data` is declared in a submodule; the sources use its three fields. A stream carries the
-- bits of a word; the conversions between the two are the submodule's.
use nica.Base.{ℕ, Bool, true, false, List, [], ◌∷◌, ◌++◌}

pub record Flit : Type 0 where
  pub bits : ℕ
  pub keep : ℕ
  pub last : Bool

-- The words before the last one, and the last one: the values of `data` and `keep`.
pub record Packet : Type 0 where
  pub body : List (ℕ × ℕ)
  pub tail : ℕ × ℕ

abbrev pub to_flits : List (ℕ × ℕ) → ℕ × ℕ → List Flit
to_flits [] t = record { bits = t.0; keep = t.1; last = true } ∷ []
to_flits (w ∷ ws) t = record { bits = w.0; keep = w.1; last = false } ∷ to_flits ws t

-- The words of a packet: `last` is set on the last one and on no other.
abbrev pub flits : Packet → List Flit
flits p = to_flits p.body p.tail

abbrev pub all_flits : List Packet → List Flit
all_flits [] = []
all_flits (p ∷ ps) = flits p ++ all_flits ps
