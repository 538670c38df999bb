-- ===== src/Sampling/Processor/Ledger.antt =====
-- What the loop over a batch adds to the counters, and which events it leaves.
use apm_server.Prelude.{
  ℕ, zero, suc, ◌+◌, ◌≤◌, ◌≡◌, refl, ap, subst, Option, none, some, Bool, true, false, not, ◌&&◌,
  List, ◌∷◌, inl, inr, length, get_elem?, bit, count, take, drop, arith, Bool-cases, Option-cases,
  OnSome, OnSome-some, count-take-suc, count-take_all, length-none, count-take-drop,
}
use apm_server.Model.Float64.{Float64}
use apm_server.Model.Event.{ApmEvent}
use apm_server.ModelProcessor.DropUnsampled.{swap_remove}
use apm_server.ModelProcessor.DropUnsampled.Kept.{swap_remove_lem}
use apm_server.Sampling.Processor.{
  EventStore, ProcessError, Verdict, update_processor_metrics, count_processed, process_event,
  Looped, process_loop,
}
use apm_server.Sampling.Processor.Accounting.{is_trace_event, State, Accounted, Stepped, step_of}

module _ (fl : Float64) (store : EventStore fl.F) (random : ℕ → fl.F) where
  open fl use {F}

  -- The loop from `i` on, from the state `p`: trace events are counted, reported ones stay and the others
  -- leave, as stored or as dropped, and nothing else leaves.
  pub record Ledger (i : ℕ) (p : State fl store random) (events removed : List (ApmEvent F))
      (r : Looped fl store random) : Type 0 where
    pub processed :
        r.state.metrics.processed ≡ p.metrics.processed + count is_trace_event (drop i events)
    pub gone :
        r.state.metrics.stored + r.state.metrics.dropped + length r.events
        ≡ p.metrics.stored + p.metrics.dropped + length events
    pub reported :
        r.state.metrics.sampled
          + r.state.metrics.head_unsampled
          + count is_trace_event (take i events)
        ≡ p.metrics.sampled + p.metrics.head_unsampled + count is_trace_event r.events
    pub others :
        (c : ApmEvent F → Bool)
        → count (λ e. c e && not (is_trace_event e)) r.events
          ≡ count (λ e. c e && not (is_trace_event e)) events
    pub conserved :
        (c : ApmEvent F → Bool)
        → count c r.events + count c r.removed ≡ count c events + count c removed

  ended :
      (i : ℕ) (p : State fl store random) (events removed : List (ApmEvent F))
      (error : Option ProcessError)
      → length events ≤ i
      → Ledger i p events removed
          (record { state = p; events = events; removed = removed; error = error })
  ended i p events removed error h =
      let (all, nothing) = count-take_all is_trace_event events i h in
      record {
        processed = omega (arith, nothing);
        gone = refl;
        reported = omega (arith, all);
        others = λ c. refl;
        conserved = λ c. refl;
      }

  -- An event that is not a trace event is passed over.
  passed :
      (i : ℕ) (p : State fl store random) (events removed : List (ApmEvent F)) (event : ApmEvent F)
      (r : Looped fl store random)
      → get_elem? events i ≡ some event
      → is_trace_event event ≡ false
      → Ledger (suc i) p events removed r
      → Ledger i p events removed r
  passed i p events removed event r at other l =
      let (before, after) = count-take-suc is_trace_event events i event at in
      let off : bit (is_trace_event event) ≡ 0 = ap bit other in
      record {
        processed = omega (arith, l.processed, after, off);
        gone = l.gone;
        reported = omega (arith, l.reported, before, off);
        others = l.others;
        conserved = l.conserved;
      }

  pub swap_remove-count :
      (c : ApmEvent F → Bool) (events : List (ApmEvent F)) (i : ℕ) (event : ApmEvent F)
      → get_elem? events i ≡ some event
      → count c (swap_remove i events) + bit (c event) ≡ count c events
  swap_remove-count c events i event at =
      let (_, before, after) = swap_remove_lem c events i event at in
      omega (
        arith,
        before,
        after,
        count-take-drop c i events,
        count-take-drop c i (swap_remove i events),
      )

  module _ (p p' : State fl store random) (v : Verdict) where
    abbrev updated : State fl store random
    updated = update_processor_metrics fl store random p' v.report v.stored

    update_stays :
        Accounted fl store random (count_processed fl store random p).metrics (p', v)
        → v.report ≡ true
        → updated ≡ p'
    unfolding update_processor_metrics
    update_stays a e =
        let off : v.stored ≡ false = ground (arith, a.exclusive) in
        rw (off, e, update_processor_metrics) refl

    -- A reported event stays.
    stays :
        (i : ℕ) (events removed : List (ApmEvent F)) (event : ApmEvent F)
        (r : Looped fl store random)
        → get_elem? events i ≡ some event
        → is_trace_event event ≡ true
        → v.report ≡ true
        → Accounted fl store random (count_processed fl store random p).metrics (p', v)
        → Ledger (suc i) updated events removed r
        → Ledger i p events removed r
    stays i events removed event r at trace e a l0 =
        let l : Ledger (suc i) p' events removed r =
          subst (λ q. Ledger (suc i) q events removed r) (update_stays a e) l0 in
        let (before, after) = count-take-suc is_trace_event events i event at in
        let on : bit (is_trace_event event) ≡ 1 = ap bit trace in
        let one : bit v.report ≡ 1 = ap bit e in
        record {
          processed = omega (arith, l.processed, a.processed, after, on);
          gone = omega (arith, l.gone, a.stored, a.dropped);
          reported = omega (arith, l.reported, a.reported, before, on, one);
          others = l.others;
          conserved = l.conserved;
        }

    update_leaves :
        v.report ≡ false
        → (updated.metrics.stored + updated.metrics.dropped
            ≡ p'.metrics.stored + p'.metrics.dropped + 1)
          × (updated.metrics.processed ≡ p'.metrics.processed)
          × (updated.metrics.sampled ≡ p'.metrics.sampled)
          × (updated.metrics.head_unsampled ≡ p'.metrics.head_unsampled)
    unfolding update_processor_metrics
    update_leaves e = elim (Bool-cases v.stored) [
      | inl s ↦ rw (s, update_processor_metrics) (omega arith, refl, refl, refl)
      | inr s ↦ rw (s, e, update_processor_metrics) (omega arith, refl, refl, refl)
    ]

    -- An event that is not reported leaves, and is counted as stored or as dropped.
    leaves :
        (i : ℕ) (events removed : List (ApmEvent F)) (event : ApmEvent F)
        (r : Looped fl store random)
        → get_elem? events i ≡ some event
        → is_trace_event event ≡ true
        → v.report ≡ false
        → Accounted fl store random (count_processed fl store random p).metrics (p', v)
        → Ledger i updated (swap_remove i events) (event ∷ removed) r
        → Ledger i p events removed r
    leaves i events removed event r at trace e a l =
        let (size, before, after) = swap_remove_lem is_trace_event events i event at in
        let (moved, same_processed, same_sampled, same_head) = update_leaves e in
        let on : bit (is_trace_event event) ≡ 1 = ap bit trace in
        let none_reported : bit v.report ≡ 0 = ap bit e in
        record {
          processed = omega (arith, l.processed, a.processed, same_processed, after, on);
          gone = omega (arith, l.gone, moved, a.stored, a.dropped, size);
          reported =
              omega (arith, l.reported, a.reported, same_sampled, same_head, before, none_reported);
          others = λ c.
              let swapped =
                swap_remove-count (λ e. c e && not (is_trace_event e)) events i event at in
              let off : bit (c event && not (is_trace_event event)) ≡ 0 = ground arith in
              omega (arith, l.others c, swapped, off);
          conserved = λ c. omega (arith, l.conserved c, swap_remove-count c events i event at);
        }

  looped-injective : {r r' : Looped fl store random} → some r ≡ some r' → r ≡ r'
  looped-injective e = cc

  pub process_loop-Ledger :
      (fuel i : ℕ) (p : State fl store random) (events removed : List (ApmEvent F))
      (r : Looped fl store random)
      → length events ≤ i + fuel
      → process_loop fl store random fuel i p events removed ≡ some r
      → r.error ≡ none
      → Ledger i p events removed r
  unfolding process_loop
  process_loop-Ledger zero i p events removed r h e ok =
      subst (Ledger i p events removed) (looped-injective e)
        (ended i p events removed none (omega arith))
  process_loop-Ledger (suc fuel) i p events removed r h e ok =
      elim (Option-cases (get_elem? events i)) [
        | inl f ↦
            subst (Ledger i p events removed) (looped-injective (rw (f, process_loop) at e))
              (ended i p events removed none (length-none events i f))
        | inr (event, at) ↦
            let step = step_of fl store random p event event.processor refl in
            elim (Option-cases (process_event fl store random p event event.processor)) [
              | inl f ↦ let bad = rw (at, f, process_loop) at e in cc
              | inr ((p', o), f) ↦
                  let stepped = OnSome-some (Stepped fl store random p event) _ (p', o) step f in
                  elim (Option-cases o) [
                    | inl n ↦
                        let (other, same) =
                          subst (λ o. Stepped fl store random p event (p', o)) n stepped in
                        let rest =
                          process_loop-Ledger fuel (suc i) p' events removed r (omega arith)
                            (rw (at, f, n, process_loop) at e) ok in
                        passed i p events removed event r at other
                          (subst (λ q. Ledger (suc i) q events removed r) same rest)
                    | inr (v, n) ↦
                        let (trace, a) =
                          subst (λ o. Stepped fl store random p event (p', o)) n stepped in
                        elim (Option-cases v.error) [
                          | inr (err, g) ↦
                              let bad = looped-injective (rw (at, f, n, g, process_loop) at e) in cc
                          | inl g ↦ elim (Bool-cases v.report) [
                            | inl report ↦ stays p p' v i events removed event r at trace report a (
                                process_loop-Ledger fuel (suc i) (updated p p' v) events removed r
                                  (omega arith) (rw (at, f, n, g, report, process_loop) at e) ok)
                            | inr hidden ↦
                                let (size, _, _) =
                                  swap_remove_lem is_trace_event events i event at in
                                leaves p p' v i events removed event r at trace hidden a (
                                  process_loop-Ledger fuel i (updated p p' v) (swap_remove i events)
                                    (event ∷ removed) r (omega (arith, size))
                                    (rw (at, f, n, g, hidden, process_loop) at e) ok)
                          ]
                        ]
                  ]
            ]
      ]

  -- The array of the batch keeps its events, also when the loop ends in an error.
  pub process_loop-count :
      (c : ApmEvent F → Bool) (fuel i : ℕ) (p : State fl store random)
      (events removed : List (ApmEvent F))
      → OnSome
          (λ r. count c r.events + count c r.removed ≡ count c events + count c removed)
          (process_loop fl store random fuel i p events removed)
  unfolding process_loop
  process_loop-count c zero i p events removed = refl
  process_loop-count c (suc fuel) i p events removed = elim (Option-cases (get_elem? events i)) [
    | inl f ↦ rw (f, process_loop) refl
    | inr (event, at) ↦
        elim (Option-cases (process_event fl store random p event event.processor)) [
          | inl f ↦ rw (at, f, process_loop) tt
          | inr ((p', o), f) ↦ elim (Option-cases o) [
            | inl n ↦
                rw (at, f, n, process_loop) (process_loop-count c fuel (suc i) p' events removed)
            | inr (v, n) ↦ elim (Option-cases v.error) [
              | inr (err, g) ↦ rw (at, f, n, g, process_loop) refl
              | inl g ↦ elim (Bool-cases v.report) [
                | inl report ↦
                    rw (at, f, n, g, report, process_loop)
                      (process_loop-count c fuel (suc i) (updated p p' v) events removed)
                | inr hidden ↦
                    let swapped = swap_remove-count c events i event at in
                    rw (at, f, n, g, hidden, process_loop)
                      (subst
                        (λ k.
                          OnSome (λ r. count c r.events + count c r.removed ≡ k)
                            (process_loop fl store random fuel i (updated p p' v)
                              (swap_remove i events) (event ∷ removed)))
                        (omega (arith, swapped))
                        (process_loop-count c fuel i (updated p p' v) (swap_remove i events)
                          (event ∷ removed)))
              ]
            ]
          ]
        ]
  ]
