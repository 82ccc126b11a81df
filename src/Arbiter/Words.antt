-- ===== src/Arbiter/Words.antt =====
-- The data of a packet leave the arbiter as a whole.
use nica.Base.{
  ℕ, zero, suc, ◌+◌, ◌%◌, ◌^◌, ◌<◌, ◌≡◌, ◌≢◌, refl, sym, ap, ◌∙◌, false, true, List, [], ◌∷◌, ◌++◌,
  length, length-append, leb, store, store-same, store-other, arith, if◌then◌else◌,
}
use mathlib.Core.List.{append_assoc}
use mathlib.Core.Path.{subst}
use nica.Stream.{Stream, read}
use nica.Flit.{Flit, Packet, flits, to_flits}
use nica.Arbiter.{DataSide, data_idle, data_stream, tx_data, tx_data_in, TxStats, count_word}

-- A number of calls.
unfoldable pub tx_run : ℕ → DataSide → DataSide
unfolding tx_data
tx_run zero s = s
tx_run (suc n) s = tx_run n (tx_data s)

-- What the calls for a packet leave: its words in the output, after what was there, none of another
-- port in between, and one packet counted, with its words.
pub record Forwarded (s : DataSide) (port : ℕ) (ports : List ℕ) (ws rest : List Flit) (t : DataSide)
    : Type 0 where
  pub data_state : t.data_state ≡ data_idle
  pub out : t.out.items ≡ s.out.items ++ ws
  pub own : (t.inputs port).items ≡ rest
  pub others : (k : ℕ) → port ≢ k → t.inputs k ≡ s.inputs k
  pub waiting : t.meta_to_data.items ≡ ports
  pub words : (t.tx_port port).words ≡ ((s.tx_port port).words + length ws) % 2 ^ 64
  pub packets : (t.tx_port port).packets ≡ ((s.tx_port port).packets + 1) % 2 ^ 64

-- The state after a word.
abbrev after_word : DataSide → Flit → List Flit → DataSide
after_word s d rest =
    let port = s.data_selected_port in
    record s {
      inputs = store s.inputs port (record (s.inputs port) { items = rest });
      out = record (s.out) { items = s.out.items ++ d ∷ [] };
      tx_port = store s.tx_port port (count_word (s.tx_port port) d.last);
      data_state = if d.last then data_idle else data_stream;
    }

word_step :
    (s : DataSide) (d : Flit) (rest : List Flit)
    → s.data_state ≡ data_stream
    → length s.out.items < s.out.depth
    → (s.inputs s.data_selected_port).items ≡ d ∷ rest
    → tx_data s ≡ after_word s d rest
unfolding tx_data tx_data_in read
word_step s d rest streaming room held =
    let free : leb s.out.depth (length s.out.items) ≡ false = ground arith in
    rw (streaming, tx_data_in, free, held, read) refl

-- What `after_word` says of the selected port.
counted_words :
    (s : DataSide) (d : Flit) (rest : List Flit)
    → ((after_word s d rest).tx_port s.data_selected_port).words
      ≡ ((s.tx_port s.data_selected_port).words + 1) % 2 ^ 64
unfolding count_word
counted_words s d rest =
    let port = s.data_selected_port in
    ap (λ (p : TxStats). p.words) (store-same s.tx_port port (count_word (s.tx_port port) d.last))

counted_packets :
    (s : DataSide) (d : Flit) (rest : List Flit)
    → ((after_word s d rest).tx_port s.data_selected_port).packets ≡ (
        if d.last
        then ((s.tx_port s.data_selected_port).packets + 1) % 2 ^ 64
        else (s.tx_port s.data_selected_port).packets)
unfolding count_word
counted_packets s d rest =
    let port = s.data_selected_port in
    ap (λ (p : TxStats). p.packets) (store-same s.tx_port port (count_word (s.tx_port port) d.last))

kept_items :
    (s : DataSide) (d : Flit) (rest : List Flit)
    → ((after_word s d rest).inputs s.data_selected_port).items ≡ rest
kept_items s d rest =
    let port = s.data_selected_port in
    ap (λ (q : Stream Flit). q.items)
      (store-same s.inputs port (record (s.inputs port) { items = rest }))

other_inputs :
    (s : DataSide) (d : Flit) (rest : List Flit) (k : ℕ)
    → s.data_selected_port ≢ k
    → (after_word s d rest).inputs k ≡ s.inputs k
other_inputs s d rest k ne =
    let port = s.data_selected_port in
    store-other s.inputs port k (record (s.inputs port) { items = rest }) ne

stream_run :
    (body : List (ℕ × ℕ)) (tail : ℕ × ℕ) (ws : List Flit) (s : DataSide)
    → s.data_state ≡ data_stream
    → length s.out.items + length (to_flits body tail) < s.out.depth + 1
    → (s.inputs s.data_selected_port).items ≡ to_flits body tail ++ ws
    → Forwarded s s.data_selected_port s.meta_to_data.items
        (to_flits body tail)
        ws
        (tx_run (length (to_flits body tail)) s)
unfolding tx_run
stream_run [] tail ws s streaming room held =
    let d : Flit = record { bits = tail.0; keep = tail.1; last = true } in
    let w = counted_words s d ws in
    subst (λ (t : DataSide). Forwarded s s.data_selected_port s.meta_to_data.items (d ∷ []) ws t)
      (sym (word_step s d ws streaming (omega arith) held))
      record {
        data_state = refl;
        out = refl;
        own = kept_items s d ws;
        others = other_inputs s d ws;
        waiting = refl;
        words = omega (arith, w);
        packets = counted_packets s d ws;
      }
stream_run (x ∷ body) tail ws s streaming room held =
    let d : Flit = record { bits = x.0; keep = x.1; last = false } in
    let later = to_flits body tail ++ ws in
    let s1 = after_word s d later in
    let longer = length-append s.out.items (d ∷ []) in
    let h = stream_run body tail ws s1 refl (omega arith) (kept_items s d later) in
    let w = counted_words s d later in
    let w' = h.words in
    let p = counted_packets s d later in
    let p' = h.packets in
    subst
      (λ (t : DataSide).
        Forwarded s s.data_selected_port s.meta_to_data.items (d ∷ to_flits body tail) ws
          (tx_run (length (to_flits body tail)) t))
      (sym (word_step s d later streaming (omega arith) held))
      record {
        data_state = h.data_state;
        out = h.out ∙ append_assoc s.out.items (d ∷ []) (to_flits body tail);
        own = h.own;
        others =
            λ (k : ℕ) (ne : s.data_selected_port ≢ k). h.others k ne ∙ other_inputs s d later k ne;
        waiting = h.waiting;
        words = omega (arith, w, w');
        packets = p' ∙ ap (λ (n : ℕ). (n + 1) % 2 ^ 64) p;
      }

-- The state after the port of a packet was taken.
abbrev started : DataSide → ℕ → List ℕ → DataSide
started s port ports = record s {
  meta_to_data = record (s.meta_to_data) { items = ports };
  data_selected_port = port;
  data_state = data_stream;
}

start_step :
    (s : DataSide) (port : ℕ) (ports : List ℕ)
    → s.data_state ≡ data_idle
    → s.meta_to_data.items ≡ port ∷ ports
    → tx_data s ≡ started s port ports
unfolding tx_data tx_data_in read
start_step s port ports still next = rw (still, tx_data_in, next, read) refl

-- Where the next packet to send is one of `port`, its data stand first in that port's input, and
-- the output has room for them, one call and one for each word put all of its words into the
-- output in a row, take them from that input and no other, and count them and the packet.
pub tx_run-Forwarded :
    (s : DataSide) (port : ℕ) (ports : List ℕ) (p : Packet) (ws : List Flit)
    → s.data_state ≡ data_idle
    → s.meta_to_data.items ≡ port ∷ ports
    → (s.inputs port).items ≡ flits p ++ ws
    → length s.out.items + length (flits p) < s.out.depth + 1
    → Forwarded s port ports (flits p) ws (tx_run (suc (length (flits p))) s)
unfolding tx_run
tx_run-Forwarded s port ports p ws still next held room =
    let t = started s port ports in
    let h = stream_run p.body p.tail ws t refl room held in
    subst (λ (u : DataSide). Forwarded s port ports (flits p) ws (tx_run (length (flits p)) u))
      (sym (start_step s port ports still next))
      record {
        data_state = h.data_state;
        out = h.out;
        own = h.own;
        others = h.others;
        waiting = h.waiting;
        words = h.words;
        packets = h.packets;
      }
