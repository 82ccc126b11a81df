-- ===== src/Arbiter/Quota.antt =====
-- The arbiter sends no more words than the scheduler granted.
use nica.Base.{
  ℕ, zero, suc, ◌+◌, ◌-◌, ◌*◌, ◌/◌, ◌%◌, ◌^◌, ◌≤◌, ◌≡◌, refl, sym, ap, ◌∙◌, true, false, List, [],
  ◌∷◌, ◌++◌, leb, leb→le, not, ◌&&◌, inl, inr, Bool-cases, Option-cases, arith,
}
use mathlib.Core.List.{append_assoc, append-nil}
use nica.Stream.{Stream, full, read, read-some}
use nica.Metadata.{Metadata}
use nica.Arbiter.{
  Scheduler, SchedulerCmd, Arbiter, MetaState, meta_idle, new_packet, serve, send, evict, words_of,
  take_decision, tx_meta_in, tx_meta, schedule_ports, update_peek, is_some,
}

-- The words of 32 bytes that a packet takes, the last one counted whole, as a number of 27 bits;
-- lengths have 16 bits.
abbrev pub packet_words : Metadata → ℕ
packet_words m = (m.length + 31) / 32 % 2 ^ 27

abbrev pub total : List Metadata → ℕ
total [] = 0
total (m ∷ ms) = packet_words m + total ms

-- The words that the decisions grant.
abbrev pub granted : List SchedulerCmd → ℕ
granted [] = 0
granted (c ∷ cs) = c.quantum + granted cs

total-append : (ms ns : List Metadata) → total (ms ++ ns) ≡ total ms + total ns
total-append [] ns = omega arith
total-append (m ∷ ms) ns = let rest = total-append ms ns in omega (arith, rest)

granted-append : (cs ds : List SchedulerCmd) → granted (cs ++ ds) ≡ granted cs + granted ds
granted-append [] ds = omega arith
granted-append (c ∷ cs) ds = let rest = granted-append cs ds in omega (arith, rest)

-- What may still be sent without a new decision: an evicted port has lost the rest of its quota.
abbrev pub budget_in : MetaState → ℕ → ℕ
budget_in meta_idle quota = 0
budget_in new_packet quota = quota

module _ (lib : Scheduler) (align : ℕ → ℕ → ℕ) where
  abbrev State : Type 0
  State = Arbiter lib

  abbrev pub budget : State → ℕ
  budget s = budget_in s.meta_state s.quota

  -- Calls of `tx_meta`, with the metadata streams of the ports and the output.
  unfoldable pub tx_meta_run :
      ℕ
      → State
      → (ℕ → Stream Metadata)
      → Stream Metadata
      → State × (ℕ → Stream Metadata) × Stream Metadata
  unfolding tx_meta
  tx_meta_run zero s meta out = (s, meta, out)
  tx_meta_run (suc n) s meta out =
      let (s1, meta1, out1) = tx_meta lib align s meta out in tx_meta_run n s1 meta1 out1

  -- From a state with the budget `b` and the decisions `ds` waiting: the metadata sent, the
  -- decisions taken, and what they allow.
  pub record Spent (b : ℕ) (ds : List SchedulerCmd) (out : Stream Metadata) (t : State)
      (out' : Stream Metadata) : Type 0 where
    pub sent : List Metadata
    pub taken : List SchedulerCmd
    pub items : out'.items ≡ out.items ++ sent
    pub decisions : ds ≡ taken ++ t.scheduler_decision.items
    pub quota : total sent + budget t ≤ b + granted taken

  nothing-Spent :
      (b : ℕ) (ds : List SchedulerCmd) (t : State) (out : Stream Metadata)
      → ds ≡ t.scheduler_decision.items
      → budget t ≤ b
      → Spent b ds out t out
  nothing-Spent b ds t out e le = record {
    sent = [];
    taken = [];
    items = sym (append-nil out.items);
    decisions = e;
    quota = omega (arith, le);
  }

  Spent-trans :
      (b : ℕ) (ds : List SchedulerCmd) (a : Stream Metadata) (t : State) (a' : Stream Metadata)
      (u : State) (a'' : Stream Metadata)
      → Spent b ds a t a'
      → Spent (budget t) t.scheduler_decision.items a' u a''
      → Spent b ds a u a''
  Spent-trans b ds a t a' u a'' x y =
      let words = total-append x.sent y.sent in
      let quanta = granted-append x.taken y.taken in
      let p = x.quota in
      let q = y.quota in
      record {
        sent = x.sent ++ y.sent;
        taken = x.taken ++ y.taken;
        items =
            y.items
            ∙ ap (λ (l : List Metadata). l ++ y.sent) x.items
            ∙ append_assoc a.items x.sent y.sent;
        decisions =
            x.decisions
            ∙ ap (λ (l : List SchedulerCmd). x.taken ++ l) y.decisions
            ∙ sym (append_assoc x.taken y.taken u.scheduler_decision.items);
        quota = omega (arith, words, quanta, p, q);
      }

  take_decision-Spent :
      (s : State) (out : Stream Metadata)
      → s.meta_state ≡ meta_idle
      → Spent 0 s.scheduler_decision.items out (take_decision lib align s) out
  unfolding take_decision
  take_decision-Spent s out idle = elim (Option-cases (read s.scheduler_decision)) [
    | inl e ↦
        let none_left : budget s ≡ 0 = rw idle refl in
        rw (take_decision, e)
          (nothing-Spent 0 s.scheduler_decision.items s out refl (omega (arith, none_left)))
    | inr ((cmd, rest), e) ↦
        rw (take_decision, e)
          record {
            sent = [];
            taken = cmd ∷ [];
            items = sym (append-nil out.items);
            decisions = (read-some s.scheduler_decision e).0;
            quota = omega arith;
          }
  ]

  -- Before the state machine the budget and the decisions stay.
  kept-schedule_ports :
      (s : State)
      → (budget (schedule_ports lib align s) ≡ budget s)
        × ((schedule_ports lib align s).scheduler_decision ≡ s.scheduler_decision)
  unfolding schedule_ports
  kept-schedule_ports s = elim (Bool-cases (full s.tx_requests)) [
    | inl t ↦ rw t (refl, refl)
    | inr f ↦
        let port = s.schedule_ports_last in
        elim (Bool-cases (is_some lib align (s.peek port) && not (s.interrupt_sent port))) [
          | inl t ↦ rw (f, t) (refl, refl)
          | inr g ↦ rw (f, g) (refl, refl)
        ]
  ]

  module _ (rounds : (n : ℕ) → align n 32 ≡ (n + 31) / 32 * 32) where
    words_of-packet_words : (m : Metadata) → words_of lib align m ≡ packet_words m
    unfolding words_of
    words_of-packet_words m = rw (rounds m.length) (omega arith)

    serve-Spent :
        (s : State) (out : Stream Metadata)
        → s.meta_state ≡ new_packet
        → let (t, out') = serve lib align s out in
          Spent s.quota s.scheduler_decision.items out t out'
    unfolding serve evict send
    serve-Spent s out serving =
        let ds = s.scheduler_decision.items in
        let all : budget s ≡ s.quota = rw serving refl in
        let stay = nothing-Spent s.quota ds s out refl (omega (arith, all)) in
        elim (Bool-cases (full out)) [
          | inl t ↦ rw (t, serve) stay
          | inr f ↦ elim (Bool-cases (full s.data_side.meta_to_data)) [
            | inl t ↦ rw (f, t, serve) stay
            | inr g ↦ elim (Option-cases (s.peek s.meta_selected_port)) [
              | inl e ↦
                  rw (f, g, e, serve)
                    (nothing-Spent s.quota ds (evict lib align s false) out refl (omega arith))
              | inr (m, e) ↦ elim (Bool-cases (leb (words_of lib align m) s.quota)) [
                | inl fits ↦
                    let le = leb→le (words_of lib align m) s.quota fits in
                    let words = words_of-packet_words m in
                    let t = (send lib align s m out).0 in
                    let left : budget t ≡ s.quota - words_of lib align m = rw serving refl in
                    rw (f, g, e, serve)
                      (rw fits record {
                        sent = m ∷ [];
                        taken = [];
                        items = refl;
                        decisions = refl;
                        quota = omega (arith, le, words, left);
                      })
                | inr over ↦
                    rw (f, g, e, serve)
                      (rw over
                        (nothing-Spent s.quota ds (evict lib align s true) out refl (omega arith)))
              ]
            ]
          ]
        ]

    tx_meta_in-Spent :
        (st : MetaState) (s : State) (out : Stream Metadata)
        → s.meta_state ≡ st
        → let (t, out') = tx_meta_in lib align st s out in
          Spent (budget_in st s.quota) s.scheduler_decision.items out t out'
    unfolding tx_meta_in
    tx_meta_in-Spent meta_idle s out e = take_decision-Spent s out e
    tx_meta_in-Spent new_packet s out e = serve-Spent s out e

    tx_meta-Spent :
        (s : State) (meta : ℕ → Stream Metadata) (out : Stream Metadata)
        → let (t, meta', out') = tx_meta lib align s meta out in
          Spent (budget s) s.scheduler_decision.items out t out'
    unfolding tx_meta update_peek
    tx_meta-Spent s meta out =
        let (same, decisions) = kept-schedule_ports s in
        let s1 = (update_peek lib align (schedule_ports lib align s) meta).0 in
        let step = tx_meta_in-Spent s1.meta_state s1 out refl in
        let le = step.quota in
        record {
          sent = step.sent;
          taken = step.taken;
          items = step.items;
          decisions = ap (λ (q : Stream SchedulerCmd). q.items) (sym decisions) ∙ step.decisions;
          quota = omega (arith, le, same);
        }

    -- Where `ALIGN` rounds up to a multiple of 32: however often `tx_meta` is called, whatever the
    -- ports have waiting, the packets whose metadata it sends have together at most the words that
    -- were left of the quota of the port being served and that the decisions taken since grant;
    -- decisions are taken in their order, and an evicted port loses the rest of its quota.
    pub tx_meta_run-Spent :
        (n : ℕ) (s : State) (meta : ℕ → Stream Metadata) (out : Stream Metadata)
        → let (t, meta', out') = tx_meta_run n s meta out in
          Spent (budget s) s.scheduler_decision.items out t out'
    unfolding tx_meta_run
    tx_meta_run-Spent zero s meta out =
        nothing-Spent (budget s) s.scheduler_decision.items s out refl (omega arith)
    tx_meta_run-Spent (suc n) s meta out =
        let (s1, meta1, out1) = tx_meta lib align s meta out in
        let (t, meta2, out2) = tx_meta_run n s1 meta1 out1 in
        Spent-trans (budget s) s.scheduler_decision.items out s1 out1 t out2
          (tx_meta-Spent s meta out) (tx_meta_run-Spent n s1 meta1 out1)
