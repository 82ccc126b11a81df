-- ===== src/Udp/Lengths/Wanted.antt =====
-- The words that the lengths of the packets ask for, and the valid states.
use nica.Base.{ℕ, zero, suc, ◌-◌, ◌^◌, ◌<◌, Bool, ◌==◌, List, [], ◌∷◌, ◌++◌, map, if◌then◌else◌}
use nica.Flit.{Flit}
use nica.PerPacket.{per_packet}
use nica.Udp.Lengths.{
  Mode, idle, counting, consume, PacketLengths, LengthAdjust, lengths_of, trimmed,
}

-- The words of a packet that are still wanted, and the bytes of the last one.
abbrev pub Wanted : Type 0
Wanted = ℕ × ℕ

abbrev pub wanted : PacketLengths → List Wanted
wanted p = if p.word_count == 0 then [] else (p.word_count, p.last_word_data) ∷ []

abbrev pub wanted_of : List PacketLengths → List Wanted
wanted_of [] = []
wanted_of (p ∷ ps) = wanted p ++ wanted_of ps

abbrev pub emit : Wanted → Flit → List Flit
emit (zero, b) w = []
emit (suc zero, b) w = trimmed b w ∷ []
emit (suc (suc n), b) w = w ∷ []

abbrev pub next : Wanted → Flit → Wanted
next (n, b) w = (n - 1, b)

abbrev pub cut : List Wanted → List Flit → List Flit
cut = per_packet (λ (w : Flit). w.last) emit next

abbrev pub open_entry : Mode → PacketLengths → List Wanted
open_entry idle p = []
open_entry counting p = (p.word_count, p.last_word_data) ∷ []
open_entry consume p = (0, p.last_word_data) ∷ []

abbrev pub buffered : Bool → Flit → List Flit
buffered v w = if v then w ∷ [] else []

-- The words out, and those still to come.
abbrev pub result : LengthAdjust → List Flit
result s =
    s.data_out.items
    ++ cut (open_entry s.mode s.pkt ++ wanted_of (s.packets.items ++ map lengths_of s.hdr_in.items))
        (buffered s.data_buf_valid s.data_buf ++ s.data_in.items)

abbrev pub Counted : Mode → ℕ → Type 0
Counted counting n = (0 < n) × (n < 2 ^ 11)
Counted idle n = Unit {0}
Counted consume n = Unit {0}

abbrev pub Small : List PacketLengths → Type 0
Small [] = Unit {0}
Small (p ∷ ps) = (p.word_count < 2 ^ 11) × Small ps

-- The counts fit, and a packet that is counted has words to come.
abbrev pub IsValid : LengthAdjust → Type 0
IsValid s = Counted s.mode s.pkt.word_count × Small s.packets.items
