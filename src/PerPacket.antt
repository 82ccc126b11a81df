-- ===== src/PerPacket.antt =====
-- What the elements that handle a stream of packets word by word do with it, as one function of
-- their inputs: each entry of a queue of decisions rules over the words up to the next last one.
use nica.Base.{Bool, List, [], ◌∷◌, ◌++◌, if◌then◌else◌}

-- `emit` is what a word puts out, and `next` the entry for the rest of the packet.
module _ {E W V : Type 0} (last : W → Bool) (emit : E → W → List V) (next : E → W → E) where
  abbrev pub per_packet : List E → List W → List V
  per_packet [] ws = []
  per_packet (e ∷ es) [] = []
  per_packet (e ∷ es) (w ∷ ws) = emit e w ++ per_packet (if last w then es else next e w ∷ es) ws
