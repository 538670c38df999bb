-- ===== src/Sampling/EventStore.antt =====
-- The storage of events and decisions, as x-pack/apm-server/sampling/processor.go uses it. A panic is
-- `none`.
pub mod Sharded
use apm_server.Prelude.{◌≡◌, String, Option, none, some, Bool, List, ◌⊎◌, inl, Member}
use apm_server.Model.Event.{ApmEvent}
use apm_server.Sampling.Storage.{StorageError}

-- What the processor uses of its storage.
pub record EventStore (F : Type 0) : Type 1 where
  pub State : Type 0
  pub is_trace_sampled : State → String → Option (Bool ⊎ StorageError)
  pub write_trace_sampled : State → String → Bool → Option (State × Option StorageError)
  pub write_trace_event :
      State → String → String → ApmEvent F → Option (State × Option StorageError)
  pub read_trace_events :
      State
      → String
      → List (ApmEvent F)
      → Option (State × (List (ApmEvent F) × Option StorageError))
  pub delete_trace_event : State → String → String → Option (State × Option StorageError)
  pub flush : State → State × List StorageError

-- A decision that is written is read, and an event that is written before it is still found, if it is
-- one that the storage's encoding keeps.
pub record EventStoreLaws {F : Type 0} (store : EventStore F) (IsKept : ApmEvent F → Type 0)
    : Type 0 where
  pub decision :
      (s s' : store.State) (trace_id : String) (sampled : Bool)
      → store.write_trace_sampled s trace_id sampled ≡ some (s', none)
      → store.is_trace_sampled s' trace_id ≡ some (inl sampled)
  pub event :
      (s s1 s2 s3 : store.State) (trace_id id : String) (sampled : Bool) (event : ApmEvent F)
      (out out' : List (ApmEvent F))
      → IsKept event
      → store.write_trace_event s trace_id id event ≡ some (s1, none)
      → store.write_trace_sampled s1 trace_id sampled ≡ some (s2, none)
      → store.read_trace_events s2 trace_id out ≡ some (s3, (out', none))
      → Member event out'
