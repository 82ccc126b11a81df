-- ===== src/Demux/Tests.antt =====
-- The demultiplexor at small inputs.
use nica.Base.{ℕ, ◌≡◌, refl, [], ◌∷◌}
use nica.Stream.{Stream}
use nica.Metadata.{Metadata}
use nica.Metadata.Tests.{packet}
use nica.Flit.{Flit}
use nica.Demux.{Demux, TcPorts, demux, meta_idle, idle, select_port}
use nica.Demux.Routing.{Routed, demux-Routed}

abbrev last_class : Metadata
last_class = record packet { ikernel_id = 15 }

select_port_runs : select_port last_class ≡ 0
unfolding select_port
select_port_runs = refl

abbrev start : Demux
start = record {
  meta_state = meta_idle;
  meta_port = 0;
  meta_to_select_port = record { items = []; depth = 2 };
  meta_to_output = record { items = []; depth = 2 };
  empty_stream = record { items = []; depth = 2 };
  selected_ports = record { items = []; depth = 2 };
  port_to_meta_output = record { items = []; depth = 2 };
  port_to_data_output = record { items = []; depth = 2 };
  state = idle;
  data_port = 0;
}

abbrev metas : Stream Metadata
metas = record { items = packet ∷ last_class ∷ []; depth = 4 }

abbrev words : Stream Flit
words = record { items = []; depth = 4 }

abbrev outputs : TcPorts
outputs = record {
  meta = λ (k : ℕ). record { items = []; depth = 4 };
  words = λ (k : ℕ). record { items = []; depth = 4 };
}

demux-Routed_example : Routed start metas outputs (demux start metas words outputs)
demux-Routed_example = demux-Routed start metas words outputs refl
