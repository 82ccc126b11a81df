-- ===== src/Pipeline/Pass.antt =====
-- `pass_packets` keeps both streams of words.
use nica.Base.{◌++◌, ◌≡◌, refl, inl, inr, Option-cases, ◌∙◌}
use nica.Stream.{read, read-write}
use nica.Pipeline.{PipelinePorts, pass_packets, pass_metadata, pass_data}

-- The metadata, and the data words, of the output and then the input are the same.
abbrev pub SameWords : PipelinePorts → PipelinePorts → Type 0
SameWords q p =
    (q.metadata_output.items ++ q.metadata_input.items
      ≡ p.metadata_output.items ++ p.metadata_input.items)
    × (q.data_output.items ++ q.data_input.items ≡ p.data_output.items ++ p.data_input.items)

pass_metadata-SameWords : (p : PipelinePorts) → SameWords (pass_metadata p) p
unfolding pass_metadata
pass_metadata-SameWords p = elim (Option-cases (read p.metadata_input)) [
  | inl e ↦ rw (e, pass_metadata) (refl, refl)
  | inr ((m, t), e) ↦ rw (e, pass_metadata) (read-write p.metadata_input p.metadata_output e, refl)
]

pass_data-SameWords : (p : PipelinePorts) → SameWords (pass_data p) p
unfolding pass_data
pass_data-SameWords p = elim (Option-cases (read p.data_input)) [
  | inl e ↦ rw (e, pass_data) (refl, refl)
  | inr ((d, t), e) ↦ rw (e, pass_data) (refl, read-write p.data_input p.data_output e)
]

-- A call of `pass_packets` keeps the sequence of the metadata in the output and the input, and
-- that of the data words.
pub SameWords-pass_packets : (p : PipelinePorts) → SameWords (pass_packets p) p
unfolding pass_packets
SameWords-pass_packets p =
    let (m, d) = pass_metadata-SameWords p in
    let (m', d') = pass_data-SameWords (pass_metadata p) in (m' ∙ m, d' ∙ d)
