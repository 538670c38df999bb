-- ===== src/Sampling/Processor/Decisions.antt =====
-- x-pack/apm-server/sampling/processor.go, in `Run`: a decision that a trace is sampled, made here or by
-- another server, and the end of a sampling interval.
pub mod Published
pub mod Late
use apm_server.Prelude.{
  ℕ, zero, suc, ◌+◌, ◌≡◌, refl, ap, subst, String, Option, none, some, ◌>>=◌, Bool, true, false,
  List, [], ◌∷◌, ◌⊎◌, inl, inr, length, Member, is_empty, Option-cases, Bool-cases, arith,
  if◌then◌else◌,
}
use apm_server.Model.Float64.{Float64}
use apm_server.Model.Event.{ApmEvent, Transaction, Processor, transaction_processor, span_processor}
use apm_server.Sampling.Storage.{StorageError}
use apm_server.Sampling.EventStore.{EventStore, EventStoreLaws}
use apm_server.Sampling.Groups.Traces.{finalize_sampled_traces}
use apm_server.Sampling.Processor.{
  EventMetrics, ProcessError, storage_error, Running, count_sampled, store_event,
}

-- Another event is not deleted: the inner option is its identifier.
unfoldable pub stored_id : {F : Type 0} → ApmEvent F → Processor → Option (Option String)
stored_id event transaction_processor = do tx ← event.transaction; some (some tx.id)
stored_id event span_processor = do span ← event.span; some (some span.id)
stored_id event _ = some none

module _ (fl : Float64) (store : EventStore fl.F) (random : ℕ → fl.F) where
  open fl use {F}

  unfoldable pub delete_event :
      store.State → String → Option String → Option (store.State × Option StorageError)
  delete_event s trace_id none = some (s, none)
  delete_event s trace_id (some id) = store.delete_trace_event s trace_id id

  -- The loop that deletes the events of a trace that another server has sampled.
  unfoldable pub delete_events :
      store.State → List (ApmEvent F) → Option (store.State × Option StorageError)
  unfolding stored_id delete_event
  delete_events s [] = some (s, none)
  delete_events s (event ∷ events) = do
    id ← stored_id event event.processor
    (s', err) ← delete_event s event.trace_id id
    let rest = delete_events s' events
    elim err [ none ↦ rest | some e ↦ some (s', some e) ]

  -- What a decision leads to: the batch that is handed to the next processor, if any.
  pub record Decided : Type 0 where
    pub state : Running fl store random
    pub published : List (ApmEvent F)
    pub error : Option ProcessError

  -- The events that have been read are counted as sampled, and published.
  unfoldable pub publish_events :
      Running fl store random → Bool → List (ApmEvent F) → Option Decided
  unfolding delete_events
  publish_events p remote [] = some (record { state = p; published = []; error = none })
  publish_events p remote (event ∷ events) = do
    (storage, err) ←
        if remote then delete_events p.storage (event ∷ events) else some (p.storage, none)
    let q = record p { storage = storage }
    some (elim err [
      | some e ↦ record { state = q; published = []; error = some (storage_error e) }
      | none ↦ record {
        state = count_sampled fl store random q (length (event ∷ events));
        published = event ∷ events;
        error = none;
      }
    ])

  unfoldable pub read_and_publish :
      Running fl store random
      → Bool
      → store.State × (List (ApmEvent F) × Option StorageError)
      → Option Decided
  unfolding publish_events
  read_and_publish p remote (storage, (events, some e)) = some (record {
    state = record p { storage = storage };
    published = [];
    error = some (storage_error e);
  })
  read_and_publish p remote (storage, (events, none)) =
      publish_events (record p { storage = storage }) remote events

  unfoldable pub decided :
      Running fl store random → Bool → String → store.State × Option StorageError → Option Decided
  unfolding read_and_publish
  decided p remote trace_id (storage, some e) = some (record {
    state = record p { storage = storage };
    published = [];
    error = some (storage_error e);
  })
  decided p remote trace_id (storage, none) = do
    r ← store.read_trace_events storage trace_id []
    read_and_publish p remote r

  -- The body of the loop that receives decisions, `remote` ones from other servers.
  unfoldable pub receive_decision : Running fl store random → Bool → String → Option Decided
  unfolding decided
  receive_decision p remote trace_id = do
    r ← store.write_trace_sampled p.storage trace_id true
    decided p remote trace_id r

  -- The end of an interval: the trace IDs that are sent to other servers and to the loop above.
  unfoldable pub finalize_interval :
      Running fl store random → Option (Running fl store random × List String)
  finalize_interval p = do
    (groups, trace_ids) ← finalize_sampled_traces fl p.groups
    some (record p { groups = groups }, trace_ids)
