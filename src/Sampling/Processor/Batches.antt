-- ===== src/Sampling/Processor/Batches.antt =====
-- Batches: which events are published at once, and what the counters say of the others.
use apm_server.Prelude.{
  count-append, ℕ, ◌+◌, ◌≤◌, ◌≡◌, sym, ap, ◌∙◌, Option, none, some, Bool, not, ◌&&◌, List, [], ◌++◌,
  ◌⊎◌, inl, inr, length, count, arith, Option-cases, OnSome-some,
}
use apm_server.Model.Float64.{Float64}
use apm_server.Model.Event.{ApmEvent}
use apm_server.Sampling.Processor.{
  EventStore, EventMetrics, ProcessError, Running, TailSampler, Looped, process_loop, process_batch,
  batch_of, sampler_of, err_stopped,
}
use apm_server.Sampling.Processor.Accounting.{is_trace_event}
use apm_server.Sampling.Processor.Ledger.{process_loop-Ledger, process_loop-count}

module _ (fl : Float64) (store : EventStore fl.F) (random : ℕ → fl.F) where
  open fl use {F}

  -- Every trace event is counted as processed. Each event that has left the batch is counted as stored
  -- or as dropped, each trace event that is left as sampled or as unsampled at the head. No event that is
  -- not a trace event has left, and none has come in.
  pub record Handled (m m' : EventMetrics) (batch batch' : List (ApmEvent F)) : Type 0 where
    pub processed : m'.processed ≡ m.processed + count is_trace_event batch
    pub gone : m'.stored + m'.dropped + length batch' ≡ m.stored + m.dropped + length batch
    pub reported :
        m'.sampled + m'.head_unsampled ≡ m.sampled + m.head_unsampled + count is_trace_event batch'
    pub others :
        (c : ApmEvent F → Bool)
        → count (λ e. c e && not (is_trace_event e)) batch'
          ≡ count (λ e. c e && not (is_trace_event e)) batch
    pub no_new : (c : ApmEvent F → Bool) → count c batch' ≤ count c batch

  abbrev start : TailSampler fl store random → store.State → Running fl store random
  start t storage = record {
    groups = t.groups;
    storage = storage;
    metrics = t.metrics;
    drawn = t.drawn;
  }

  -- A batch is processed by the loop, unless the processor has stopped.
  batch_loop :
      (t t' : TailSampler fl store random) (batch batch' : List (ApmEvent F))
      (err : Option ProcessError)
      → process_batch fl store random t batch ≡ some (t', batch', err)
      → ((err ≡ some err_stopped) × (t' ≡ t) × (batch' ≡ batch))
        ⊎ ((storage : store.State) × (r : Looped fl store random) × (process_loop fl store random
                (length batch)
                0
                (start t storage)
                batch
                []
              ≡ some r)
            × (r.error ≡ err)
            × (t'.metrics ≡ r.state.metrics)
            × (batch' ≡ batch_of fl store random r))
  unfolding process_batch
  batch_loop t t' batch batch' err e = elim (Option-cases t.storage) [
    | inl f ↦ let done = rw (f, process_batch) at e in inl (cc, cc, cc)
    | inr (storage, f) ↦
        elim (Option-cases
          (process_loop fl store random (length batch) 0 (start t storage) batch [])) [
            | inl g ↦ let bad = rw (f, g, process_batch) at e in cc
            | inr (r, g) ↦
                let done = rw (f, g, process_batch) at e in
                let state : sampler_of fl store random r.state ≡ t' = cc in
                inr (storage, r, g, cc, ap (λ x. x.metrics) (sym state), cc)
          ]
  ]

  -- A batch that is processed without an error: every trace event is counted as processed, each
  -- event that leaves as stored or as dropped, and each trace event that stays as sampled or as
  -- unsampled at the head. The events that are not trace events all stay, and no event is added.
  pub process_batch-Handled :
      (t t' : TailSampler fl store random) (batch batch' : List (ApmEvent F))
      → process_batch fl store random t batch ≡ some (t', batch', none)
      → Handled t.metrics t'.metrics batch batch'
  unfolding process_batch
  process_batch-Handled t t' batch batch' e = elim (batch_loop t t' batch batch' none e) [
    | inl (bad, _, _) ↦ cc
    | inr (storage, r, g, ok, same, left) ↦
        let l =
          process_loop-Ledger fl store random (length batch) 0 (start t storage) batch [] r
            (omega arith) g ok in
        let events : batch' ≡ r.events =
          left ∙ ap (λ e. elim e [ none ↦ r.events | some _ ↦ r.events ++ r.removed ]) ok in
        let kept : (c : ApmEvent F → Bool) → count c batch' ≤ count c batch =
          λ c. omega (arith, ap (count c) events, l.conserved c) in
        record {
          processed = omega (arith, ap (λ m. m.processed) same, l.processed);
          gone =
              omega (
                arith,
                ap (λ m. m.stored) same,
                ap (λ m. m.dropped) same,
                ap length events,
                l.gone,
              );
          reported = omega (
            arith,
            ap (λ m. m.sampled) same,
            ap (λ m. m.head_unsampled) same,
            ap (count is_trace_event) events,
            l.reported,
          );
          others = λ c. ap (count (λ e. c e && not (is_trace_event e))) events ∙ l.others c;
          no_new = kept;
        }
  ]

  -- When a batch ends in an error, its array still holds exactly the events that it held before.
  pub process_batch-count :
      (t t' : TailSampler fl store random) (batch batch' : List (ApmEvent F)) (err : ProcessError)
      (c : ApmEvent F → Bool)
      → process_batch fl store random t batch ≡ some (t', batch', some err)
      → count c batch' ≡ count c batch
  process_batch-count t t' batch batch' err c e = elim (batch_loop t t' batch batch' (some err) e) [
    | inl (_, _, same) ↦ ap (count c) same
    | inr (storage, r, g, failed, _, left) ↦
        let conserved =
          OnSome-some (λ r. count c r.events + count c r.removed ≡ count c batch + count c []) _ r
            (process_loop-count fl store random c (length batch) 0 (start t storage) batch []) g in
        let array : batch' ≡ r.events ++ r.removed =
          left ∙ ap (λ e. elim e [ none ↦ r.events | some _ ↦ r.events ++ r.removed ]) failed in
        omega (arith, ap (count c) array, count-append c r.events r.removed, conserved)
  ]
