-- ===== src/Sampling/Processor.antt =====
-- x-pack/apm-server/sampling/processor.go: the tail-sampling processor, over its trace groups and the
-- storage of events and decisions. A panic is `none`; the random numbers are a sequence, of which
-- `drawn` have been used. The counters hold what has been added to them.
pub mod Accounting
pub mod Ledger
pub mod Batches
pub mod Decisions
use apm_server.Prelude.{
  ℕ, zero, suc, ◌+◌, String, Option, none, some, ◌>>=◌, Bool, true, false, not, List, [], ◌∷◌, ◌++◌,
  if◌then◌else◌, ◌⊎◌, inl, inr, length, get_elem?, str_eq,
}
use apm_server.Model.Float64.{Float64}
use apm_server.Model.Event.{
  ApmEvent, Transaction, Span, Processor, transaction_processor, span_processor,
}
use apm_server.ModelProcessor.DropUnsampled.{swap_remove}
use apm_server.Sampling.Storage.{StorageError, not_found}
use apm_server.Sampling.EventStore.{EventStore}
use apm_server.Sampling.Groups.{TraceGroups, GroupError, too_many_trace_groups, no_matching_policy}
use apm_server.Sampling.Groups.Traces.{sample_trace}

-- `eventMetrics`
pub record EventMetrics : Type 0 where
  pub processed : ℕ
  pub dropped : ℕ
  pub stored : ℕ
  pub sampled : ℕ
  pub head_unsampled : ℕ

pub data ProcessError : Type 0 where
  err_stopped : ProcessError
  storage_error : StorageError → ProcessError
  group_error : GroupError → ProcessError

-- What `processTransaction` and `processSpan` return.
pub record Verdict : Type 0 where
  pub report : Bool
  pub stored : Bool
  pub error : Option ProcessError

abbrev pub verdict : Bool → Bool → Verdict
verdict report stored = record { report = report; stored = stored; error = none }

abbrev pub stored_error : Option StorageError → Option ProcessError
stored_error none = none
stored_error (some e) = some (storage_error e)

module _ (fl : Float64) (store : EventStore fl.F) (random : ℕ → fl.F) where
  open fl use {F}

  -- A processor that has its storage.
  pub record Running : Type 0 where
    pub groups : TraceGroups F
    pub storage : store.State
    pub metrics : EventMetrics
    pub drawn : ℕ

  -- `Processor`: once it has stopped, the storage is nil.
  pub record TailSampler : Type 0 where
    pub groups : TraceGroups F
    pub storage : Option store.State
    pub metrics : EventMetrics
    pub drawn : ℕ

  abbrev pub count_sampled : Running → ℕ → Running
  count_sampled p n = record p { metrics = record p.metrics { sampled = p.metrics.sampled + n } }

  -- `return false, true, p.storage.WriteTraceEvent(...)`
  unfoldable pub store_event : Running → String → ApmEvent F → Option (Running × Verdict)
  store_event p id event = do
    (storage, err) ← store.write_trace_event p.storage event.trace_id id event
    some (
      record p { storage = storage },
      record { report = false; stored = true; error = stored_error err },
    )

  -- What the reservoir's answer leads to.
  unfoldable pub decide_root :
      Running → ApmEvent F → Transaction F → Bool ⊎ GroupError → Option (Running × Verdict)
  unfolding store_event
  decide_root p event tx (inr too_many_trace_groups) = some (p, verdict false false)
  decide_root p event tx (inr no_matching_policy) =
      some (
        p,
        record { report = false; stored = false; error = some (group_error no_matching_policy) },
      )
  decide_root p event tx (inl false) = do
    (storage, err) ← store.write_trace_sampled p.storage event.trace_id false
    some (
      record p { storage = storage },
      record { report = false; stored = false; error = stored_error err },
    )
  decide_root p event tx (inl true) = store_event p tx.id event

  unfoldable pub sample_root : Running → ApmEvent F → Transaction F → Option (Running × Verdict)
  unfolding decide_root
  sample_root p event tx = do
    (groups, answer) ← sample_trace fl p.groups (random p.drawn) event tx
    decide_root (record p { groups = groups; drawn = p.drawn + 1 }) event tx answer

  -- `processTransaction`, after the decision of the trace has been looked up.
  unfoldable pub decide_transaction :
      Running → ApmEvent F → Transaction F → Bool ⊎ StorageError → Option (Running × Verdict)
  unfolding sample_root
  decide_transaction p event tx (inl true) = some (count_sampled p 1, verdict true false)
  decide_transaction p event tx (inl false) = some (p, verdict false false)
  decide_transaction p event tx (inr not_found) =
      if str_eq event.parent_id "" then sample_root p event tx else store_event p tx.id event
  decide_transaction p event tx (inr err) =
      some (p, record { report = false; stored = false; error = some (storage_error err) })

  abbrev pub count_head_unsampled : Running → Running
  count_head_unsampled p = record p {
    metrics = record p.metrics { head_unsampled = p.metrics.head_unsampled + 1 };
  }

  -- `processTransaction`
  unfoldable pub process_transaction :
      Running → ApmEvent F → Option (Transaction F) → Option (Running × Verdict)
  unfolding decide_transaction
  process_transaction p event none = none
  process_transaction p event (some tx) =
      if tx.sampled
      then (do
        answer ← store.is_trace_sampled p.storage event.trace_id
        decide_transaction p event tx answer)
      else some (count_head_unsampled p, verdict true false)

  -- `processSpan`, after the decision of the trace has been looked up.
  unfoldable pub decide_span :
      Running → ApmEvent F → Bool ⊎ StorageError → Option (Running × Verdict)
  unfolding store_event
  decide_span p event (inl true) = some (count_sampled p 1, verdict true false)
  decide_span p event (inl false) = some (p, verdict false false)
  decide_span p event (inr not_found) = do span ← event.span; store_event p span.id event
  decide_span p event (inr err) =
      some (p, record { report = false; stored = false; error = some (storage_error err) })

  -- `processSpan`
  unfoldable pub process_span : Running → ApmEvent F → Option (Running × Verdict)
  unfolding decide_span
  process_span p event = do
    answer ← store.is_trace_sampled p.storage event.trace_id
    decide_span p event answer

  -- `updateProcessorMetrics`
  unfoldable pub update_processor_metrics : Running → Bool → Bool → Running
  update_processor_metrics p report stored =
      if stored
      then record p { metrics = record p.metrics { stored = p.metrics.stored + 1 } }
      else (if report
          then p
          else record p { metrics = record p.metrics { dropped = p.metrics.dropped + 1 } })

  abbrev pub count_processed : Running → Running
  count_processed p = record p {
    metrics = record p.metrics { processed = p.metrics.processed + 1 };
  }

  -- The body of the loop for one event: other events are passed over, without a verdict.
  unfoldable pub process_event :
      Running → ApmEvent F → Processor → Option (Running × Option Verdict)
  unfolding process_transaction process_span
  process_event p event transaction_processor = do
    (p', v) ← process_transaction (count_processed p) event event.transaction
    some (p', some v)
  process_event p event span_processor = do
    (p', v) ← process_span (count_processed p) event
    some (p', some v)
  process_event p event _ = some (p, none)

  -- The array of the batch when the loop ends: the events that are left, those swapped out behind
  -- them, and the error.
  pub record Looped : Type 0 where
    pub state : Running
    pub events : List (ApmEvent F)
    pub removed : List (ApmEvent F)
    pub error : Option ProcessError

  -- The loop of `ProcessBatch`, `fuel` bounding its iterations.
  unfoldable pub process_loop :
      ℕ → ℕ → Running → List (ApmEvent F) → List (ApmEvent F) → Option Looped
  unfolding process_event update_processor_metrics swap_remove
  process_loop zero i p events removed =
      some (record { state = p; events = events; removed = removed; error = none })
  process_loop (suc fuel) i p events removed = elim (get_elem? events i) [
    | none ↦ some (record { state = p; events = events; removed = removed; error = none })
    | some event ↦ elim (process_event p event event.processor) [
      | none ↦ none
      | some (p', none) ↦ process_loop fuel (suc i) p' events removed
      | some (p', some v) ↦ elim v.error [
        | some err ↦
            some (record { state = p'; events = events; removed = removed; error = some err })
        | none ↦ elim v.report [
          | true ↦
              process_loop fuel (suc i) (update_processor_metrics p' v.report v.stored) events
                removed
          | false ↦
              process_loop fuel i (update_processor_metrics p' v.report v.stored)
                (swap_remove i events) (event ∷ removed)
        ]
      ]
    ]
  ]

  abbrev pub sampler_of : Running → TailSampler
  sampler_of p = record {
    groups = p.groups;
    storage = some p.storage;
    metrics = p.metrics;
    drawn = p.drawn;
  }

  -- On an error the batch is its whole array, else the events that are left.
  abbrev pub batch_of : Looped → List (ApmEvent F)
  batch_of r = elim r.error [ none ↦ r.events | some _ ↦ r.events ++ r.removed ]

  -- `ProcessBatch`: the batch afterwards, and the error.
  unfoldable pub process_batch :
      TailSampler
      → List (ApmEvent F)
      → Option (TailSampler × List (ApmEvent F) × Option ProcessError)
  unfolding process_loop
  process_batch t batch = elim t.storage [
    | none ↦ some (t, batch, some err_stopped)
    | some storage ↦ do
      r ←
          process_loop (length batch) 0
            (record { groups = t.groups; storage = storage; metrics = t.metrics; drawn = t.drawn })
            batch []
      some (sampler_of r.state, batch_of r, r.error)
  ]

  -- `Stop`, once `Run` has returned.
  unfoldable pub stop : TailSampler → TailSampler × List StorageError
  stop t = elim t.storage [
    | none ↦ (t, [])
    | some storage ↦
        let (flushed, errs) = store.flush storage in
        (record t { storage = elim errs [ [] ↦ none | (_ ∷ _) ↦ some flushed ] }, errs)
  ]
