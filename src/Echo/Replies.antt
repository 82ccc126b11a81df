-- ===== src/Echo/Replies.antt =====
-- What the echo ikernel sends for a packet.
use nica.Base.{
  ℕ, zero, suc, ◌≡◌, refl, ap, ◌∙◌, Bool, false, true, List, [], ◌∷◌, ◌++◌, length, inl, inr,
  Bool-cases, if◌then◌else◌,
}
use mathlib.Core.List.{append_assoc, append-nil}
use nica.Stream.{read}
use nica.Flit.{Flit, Packet, flits, to_flits}
use nica.Metadata.{Metadata, reply}
use nica.Credits.{TcCounts, can_transmit, net}
use nica.Echo.{Echo, Ports, State, meta, data_words, echo_pipeline, take_word}

-- A number of calls.
unfoldable pub echo_run : ℕ → Echo × Ports → TcCounts → Echo × Ports
unfolding echo_pipeline
echo_run zero s tc = s
echo_run (suc n) (s, p) tc = echo_run n (echo_pipeline s p tc) tc

module _ (s : Echo) (p : Ports) (tc : TcCounts) (md dd mo wo ud : ℕ) where
  -- The state in the default mode, with the streams that the pipeline reads and writes.
  abbrev pub at :
      State
      → Bool
      → Bool
      → Metadata
      → List Metadata
      → List Flit
      → List Metadata
      → List Flit
      → Echo × Ports
  at st first respond m ms ws metas words = (
    record s {
      state = st;
      first = first;
      respond = respond;
      metadata = m;
      respond_to_sockperf = false;
      respond_to_sockperf_update = record { items = []; depth = ud };
    },
    record {
      host_ports = record (p.host_ports) {
        metadata_output = record { items = metas; depth = mo };
        data_output = record { items = words; depth = wo };
      };
      net_ports = record (p.net_ports) {
        metadata_input = record { items = ms; depth = md };
        data_input = record { items = ws; depth = dd };
      };
    },
  )

  -- The reply, if there is room in the traffic class.
  abbrev pub replies : Metadata → List Metadata
  replies m =
      if can_transmit s.credits tc m.ikernel_id 0 m.length net then reply m m.length ∷ [] else []

  rest_run :
      (body : List (ℕ × ℕ)) (tail : ℕ × ℕ) (m : Metadata) (ms : List Metadata) (ws : List Flit)
      (metas : List Metadata) (words : List Flit)
      → echo_run
          (length (to_flits body tail))
          (at data_words false true m ms (to_flits body tail ++ ws) metas words)
          tc
        ≡ at meta false true m ms ws metas (words ++ to_flits body tail)
  unfolding echo_run read
  rest_run [] tail m ms ws metas words = refl
  rest_run (w ∷ body) tail m ms ws metas words =
      let d : Flit = record { bits = w.0; keep = w.1; last = false } in
      rest_run body tail m ms ws metas (words ++ d ∷ [])
      ∙ ap (at meta false true m ms ws metas) (append_assoc words (d ∷ []) (to_flits body tail))

  first_step :
      (respond : Bool) (d : Flit) (m : Metadata) (ms : List Metadata) (ws : List Flit)
      (metas : List Metadata) (words : List Flit)
      → take_word
          (at data_words true respond m ms ws metas words).0
          (at data_words true respond m ms ws metas words).1
          tc
          d
        ≡ at
            (if d.last then meta else data_words)
            false
            true
            m
            ms
            ws
            (metas ++ replies m)
            (words ++ d ∷ [])
  unfolding take_word
  first_step respond d m ms ws metas words =
      elim (Bool-cases (can_transmit s.credits tc m.ikernel_id 0 m.length net)) [
        | inl t ↦ rw t refl
        | inr f ↦ rw (f, append-nil metas) refl
      ]

  -- By default, a call for the metadata of a packet and one for each of its words send all its
  -- words to the host's data stream, in order and as they are; the reply's metadata goes out
  -- before only if `can_transmit` allows it, while the words go out in any case.
  pub echo_run-flits :
      (q : Packet) (respond first : Bool) (old m : Metadata) (ms : List Metadata) (ws : List Flit)
      (metas : List Metadata) (words : List Flit)
      → echo_run
          (suc (length (flits q)))
          (at meta first respond old (m ∷ ms) (flits q ++ ws) metas words)
          tc
        ≡ at meta false true m ms ws (metas ++ replies m) (words ++ flits q)
  unfolding echo_run read
  echo_run-flits q respond first old m ms ws metas words = go q.body q.tail
    where
      go :
          (body : List (ℕ × ℕ)) (tail : ℕ × ℕ)
          → echo_run
              (length (to_flits body tail))
              (at data_words true respond m ms (to_flits body tail ++ ws) metas words)
              tc
            ≡ at meta false true m ms ws (metas ++ replies m) (words ++ to_flits body tail)
      go [] tail =
          first_step respond (record { bits = tail.0; keep = tail.1; last = true }) m ms ws metas
            words
      go (w ∷ body) tail =
          let d : Flit = record { bits = w.0; keep = w.1; last = false } in
          ap (λ (t : Echo × Ports). echo_run (length (to_flits body tail)) t tc)
            (first_step respond d m ms (to_flits body tail ++ ws) metas words)
          ∙ rest_run body tail m ms ws (metas ++ replies m) (words ++ d ∷ [])
          ∙ ap (at meta false true m ms ws (metas ++ replies m))
              (append_assoc words (d ∷ []) (to_flits body tail))
