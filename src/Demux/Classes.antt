-- ===== src/Demux/Classes.antt =====
-- The port of a packet and the traffic class of its ikernel.
use nica.Base.{◌≡◌, ◌<◌, arith}
use nica.Metadata.{Metadata}
use nica.Credits.{traffic_class}
use nica.Demux.{select_port, num_ports}

-- The port that a packet goes to is one of the 7, and is the traffic class for which `can_transmit`
-- of its ikernel tests the room.
pub select_port_lem :
    (m : Metadata) → (select_port m ≡ traffic_class m.ikernel_id) × (select_port m < num_ports)
unfolding select_port traffic_class
select_port_lem m = ground arith
