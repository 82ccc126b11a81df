-- ===== src/Echo/Tests.antt =====
-- The echo ikernel at small inputs.
use nica.Base.{ℕ, ◌≡◌, refl, false, true, [], ◌∷◌, ◌++◌, suc, length}
use nica.Credits.{TcCounts}
use nica.Credits.Tests.{credited}
use nica.Contexts.Tests.{codes}
use nica.Flit.{Packet, flits}
use nica.Metadata.Tests.{packet}
use nica.Pipeline.Tests.{ports}
use nica.Echo.{Echo, Ports, meta, reg_write, reg_read}
use nica.Echo.Replies.{at, replies, echo_run, echo_run-flits}

abbrev start : Echo
start = record {
  credits = credited;
  state = meta;
  first = false;
  respond = false;
  metadata = packet;
  respond_to_sockperf = false;
  respond_to_sockperf_cache = false;
  respond_to_sockperf_update = record { items = []; depth = 2 };
}

register_runs : reg_read codes (reg_write codes start 0 7).0 0 ≡ (1, 0)
unfolding reg_read reg_write
register_runs = refl

abbrev both : Ports
both = record { host_ports = ports; net_ports = ports }

-- No traffic class has room.
abbrev crowded : TcCounts
crowded = record { meta_counts = λ (c : ℕ). 256; data_counts = λ (c : ℕ). 0 }

abbrev two_words : Packet
two_words = record { body = (1, 15) ∷ []; tail = (2, 7) }

-- The words go out without a reply's metadata.
no_reply : replies start both crowded 4 4 4 4 2 packet ≡ []
unfolding nica.Credits.can_transmit nica.Credits.tc_has_room nica.Credits.traffic_class
no_reply = refl

echo_run-flits_example :
    echo_run
      (suc (length (flits two_words)))
      (at start both crowded 4 4 4 4 2 meta false false packet
        (packet ∷ [])
        (flits two_words ++ [])
        []
        [])
      crowded
    ≡ at start both crowded 4 4 4 4 2 meta false true packet [] []
        ([] ++ replies start both crowded 4 4 4 4 2 packet)
        ([] ++ flits two_words)
echo_run-flits_example =
    echo_run-flits start both crowded 4 4 4 4 2 two_words false false packet packet [] [] [] []
