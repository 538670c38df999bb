-- ===== src/Tests/Decisions.antt =====
-- A processor over the sharded storage, with a JSON codec that does not keep addresses.
use apm_server.Prelude.{
  ℕ, ◌+◌, ◌≡◌, refl, sym, ap, Option, none, some, true, false, List, [], ◌∷◌, inl, Member, pos,
}
use apm_server.Prelude.Maps.{insert, lookup}
use apm_server.Model.Event.{ApmEvent}
use apm_server.Sampling.Storage.{
  Codec, write_trace_event, write_trace_sampled, read_trace_events, is_trace_sampled,
}
use apm_server.Sampling.Storage.JsonCodec.{json_codec}
use apm_server.Sampling.Storage.Sharded.{
  ShardedReadWriter, new_sharded_read_writer, sharded_write_trace_event,
  sharded_write_trace_sampled, sharded_read_trace_events, sharded_is_trace_sampled,
}
use apm_server.Sampling.EventStore.{EventStore, EventStoreLaws}
use apm_server.Sampling.EventStore.Sharded.{sharded_store, Decodes, sharded_store-EventStoreLaws}
use apm_server.Sampling.Groups.{new_trace_groups}
use apm_server.Sampling.Processor.{
  EventMetrics, Running, verdict, process_event, process_batch, sampler_of,
}
use apm_server.Sampling.Processor.Decisions.{Decided, receive_decision}
use apm_server.Sampling.Processor.Decisions.Published.{process_event-receive_decision}
use apm_server.Sampling.Processor.Decisions.Late.{Counted, write_trace_sampled-process_batch}
use apm_server.Tests.Fixtures.{whole, transaction_event, span_event, counting}
use apm_server.Tests.Storage.{map_badger, map_badger_laws}
use apm_server.Tests.Traces.{config}

abbrev span_b : ApmEvent ℕ
span_b = record (span_event "db") { trace_id = "b" }

-- Whether `coldstart` is set is encoded, and decoding puts its value at a new address.
abbrev decoded : List ℕ → ApmEvent ℕ
decoded [] = span_b
decoded (x ∷ xs) = record span_b { faas = record span_b.faas { coldstart = some 7 } }

abbrev encoded : Option ℕ → List ℕ
encoded none = []
encoded (some address) = 1 ∷ []

abbrev codec : Codec ℕ
codec = json_codec (record {
  marshal = λ event. inl (encoded event.faas.coldstart);
  unmarshal = λ value event. inl (decoded value);
})

abbrev store : EventStore ℕ
store = sharded_store counting map_badger codec (pos 60)

abbrev laws : EventStoreLaws store (Decodes counting map_badger codec (pos 60))
laws = sharded_store-EventStoreLaws counting map_badger codec (pos 60) map_badger_laws

abbrev State : Type 0
State = Running whole store (λ n. 3)

abbrev shards : ShardedReadWriter map_badger
unfolding new_sharded_read_writer
shards = new_sharded_read_writer counting map_badger [] 2

abbrev no_metrics : EventMetrics
no_metrics = record { processed = 0; dropped = 0; stored = 0; sampled = 0; head_unsampled = 0 }

abbrev running : State
unfolding shards
running = record {
  groups = new_trace_groups whole config.policies 2 1;
  storage = shards;
  metrics = no_metrics;
  drawn = 0;
}

abbrev state_of : {B : Type 0} → Option (State × B) → State
state_of none = running
state_of (some r) = r.0

abbrev shards_of :
    {B : Type 0} → Option (ShardedReadWriter map_badger × B) → ShardedReadWriter map_badger
shards_of none = shards
shards_of (some r) = r.0

abbrev stored : State
unfolding process_event running
stored = state_of (process_event whole store (λ n. 3) running span_b span_b.processor)

span_stored :
    process_event whole store (λ n. 3) running span_b span_b.processor
    ≡ some (stored, some (verdict false true))
unfolding process_event stored running shards sharded_is_trace_sampled sharded_write_trace_event
    is_trace_sampled write_trace_event lookup
span_stored = refl

-- The codec keeps this span, and loses the address of a `coldstart`.
span_b-Decodes : Decodes counting map_badger codec (pos 60) span_b
span_b-Decodes value e = let same : [] ≡ value = cc in ap (λ v. inl (decoded v)) (sym same)

abbrev shards2 : ShardedReadWriter map_badger
unfolding sharded_write_trace_sampled stored
shards2 =
    shards_of (sharded_write_trace_sampled counting map_badger (pos 60) stored.storage "b" true)

decided :
    sharded_write_trace_sampled counting map_badger (pos 60) stored.storage "b" true
    ≡ some (shards2, none)
unfolding sharded_write_trace_sampled shards2 stored running shards write_trace_sampled
    sharded_is_trace_sampled lookup sharded_write_trace_event
decided = refl

abbrev shards3 : ShardedReadWriter map_badger
unfolding sharded_read_trace_events shards2
shards3 = shards_of (sharded_read_trace_events counting map_badger codec (pos 60) shards2 "b" [])

read :
    sharded_read_trace_events counting map_badger codec (pos 60) shards2 "b" []
    ≡ some (shards3, (span_b ∷ [], none))
unfolding sharded_read_trace_events shards3 shards2 stored running shards read_trace_events
    write_trace_sampled insert sharded_is_trace_sampled lookup sharded_write_trace_event
read = refl

process_event-receive_decision_example :
    (d : Decided whole store (λ n. 3)) × (receive_decision whole store (λ n. 3) stored false "b"
      ≡ some d)
    × (d.error ≡ none)
    × Member span_b d.published
    × (d.published ≡ span_b ∷ [])
    × (d.state.metrics.sampled ≡ stored.metrics.sampled + 1)
process_event-receive_decision_example =
    process_event-receive_decision whole store (λ n. 3) (Decodes counting map_badger codec (pos 60))
      laws running stored span_b (verdict false true) shards2 shards3 (span_b ∷ []) span_b-Decodes
      span_stored refl refl decided read

abbrev late_batch : List (ApmEvent ℕ)
late_batch = span_b ∷ record (transaction_event "a") { trace_id = "b" } ∷ span_b ∷ []

abbrev decided_state : State
unfolding stored shards2
decided_state = record stored { storage = shards2 }

write_trace_sampled-process_batch_example :
    (q : State) × (process_batch whole store
        (λ n. 3)
        (sampler_of whole store (λ n. 3) decided_state)
        late_batch
      ≡ some (sampler_of whole store (λ n. 3) q, late_batch, none))
    × Counted whole store (λ n. 3) true 3 decided_state q
unfolding decided_state shards2
write_trace_sampled-process_batch_example =
    write_trace_sampled-process_batch whole store (λ n. 3)
      (Decodes counting map_badger codec (pos 60)) laws stored.storage decided_state "b" true
      late_batch decided (refl, (refl, (refl, tt)))
