-- ===== src/Pipeline/Tests.antt =====
-- `pass_packets` at a small input.
use nica.Base.{true, [], ◌∷◌}
use nica.Pipeline.{PipelinePorts}
use nica.Metadata.Tests.{packet}

abbrev pub ports : PipelinePorts
ports = record {
  metadata_input = record { items = packet ∷ []; depth = 4 };
  data_input = record { items = record { bits = 1; keep = 2; last = true } ∷ []; depth = 4 };
  metadata_output = record { items = []; depth = 4 };
  data_output = record { items = record { bits = 3; keep = 2; last = true } ∷ []; depth = 4 };
}
