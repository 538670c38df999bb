-- ===== src/Tests/Shards.antt =====
-- Decisions and events in a storage of two shards, in which every second write has to flush.
use apm_server.Prelude.{ℕ, ◌≡◌, refl, Option, none, some, true, false, [], ◌∷◌, pos, inl, Member}
use apm_server.Prelude.Maps.{insert}
use apm_server.Sampling.Storage.{
  Codec, ReadWriter, new_read_writer, write_trace_sampled, is_trace_sampled, write_trace_event,
  read_trace_events, flush,
}
use apm_server.Sampling.Storage.Decisions.{flush-is_trace_sampled}
use apm_server.Sampling.Storage.Events.{write_trace_event-is_trace_sampled}
use apm_server.Sampling.Storage.Sharded.{
  ShardedReadWriter, new_sharded_read_writer, sharded_write_trace_sampled, sharded_is_trace_sampled,
  sharded_write_trace_event, sharded_read_trace_events,
}
use apm_server.Sampling.Storage.Sharded.RoundTrips.{
  sharded_write_trace_sampled-lem, sharded_write_trace_event-lem,
}
use apm_server.Tests.Fixtures.{transaction_event, counting}
use apm_server.Tests.Storage.{map_badger, map_badger_laws}

abbrev Shards : Type 0
Shards = ShardedReadWriter map_badger

abbrev shards : Shards
unfolding new_sharded_read_writer
shards = new_sharded_read_writer counting map_badger [] 2

-- A codec of one event.
abbrev codec : Codec ℕ
codec = record {
  encode_event = λ event. inl [];
  decode_event = λ bytes. inl (transaction_event "a");
}

abbrev state_of : {B : Type 0} → Option (Shards × B) → Shards
state_of none = shards
state_of (some r) = r.0

abbrev shards1 : Shards
unfolding sharded_write_trace_event
shards1 = state_of (
    sharded_write_trace_event counting map_badger codec (pos 60) shards "b" "1"
      (transaction_event "a"))

stored :
    sharded_write_trace_event counting map_badger codec
      (pos 60)
      shards
      "b"
      "1"
      (transaction_event "a")
    ≡ some (shards1, none)
unfolding sharded_write_trace_event shards write_trace_event
stored = refl

abbrev shards2 : Shards
unfolding sharded_write_trace_sampled
shards2 = state_of (sharded_write_trace_sampled counting map_badger (pos 60) shards1 "b" true)

decided :
    sharded_write_trace_sampled counting map_badger (pos 60) shards1 "b" true ≡ some (shards2, none)
unfolding sharded_write_trace_sampled shards2 shards1 shards write_trace_sampled write_trace_event
decided = refl

sharded_write_trace_sampled-lem_example :
    sharded_is_trace_sampled counting map_badger shards2 "b" ≡ some (inl true)
sharded_write_trace_sampled-lem_example =
    sharded_write_trace_sampled-lem counting map_badger map_badger_laws (pos 60) shards1 shards2 "b"
      true decided

abbrev shards3 : Shards
unfolding sharded_read_trace_events
shards3 = state_of (sharded_read_trace_events counting map_badger codec (pos 60) shards2 "b" [])

read :
    sharded_read_trace_events counting map_badger codec (pos 60) shards2 "b" []
    ≡ some (shards3, (transaction_event "a" ∷ [], none))
unfolding sharded_read_trace_events shards3 shards2 shards1 shards read_trace_events
    write_trace_sampled write_trace_event insert
read = refl

sharded_write_trace_event-lem_example : Member (transaction_event "a") (transaction_event "a" ∷ [])
sharded_write_trace_event-lem_example =
    sharded_write_trace_event-lem counting map_badger map_badger_laws codec (pos 60) shards shards1
      shards2 shards3 "b" "1" true (transaction_event "a") [] (transaction_event "a" ∷ [])
      (λ value e. refl) stored decided read

abbrev writer : ReadWriter map_badger
unfolding new_read_writer
writer = new_read_writer map_badger []

abbrev writer1 : ReadWriter map_badger
unfolding write_trace_sampled
writer1 = (write_trace_sampled map_badger (pos 60) writer "a" true).0

abbrev writer2 : ReadWriter map_badger
unfolding flush
writer2 = (flush map_badger writer1).0

sampled : write_trace_sampled map_badger (pos 60) writer "a" true ≡ (writer1, none)
unfolding write_trace_sampled writer1 writer insert
sampled = refl

flushed : flush map_badger writer1 ≡ (writer2, none)
unfolding flush writer2 writer1 writer
flushed = refl

flush-is_trace_sampled_example : is_trace_sampled map_badger writer2 "a" ≡ inl true
flush-is_trace_sampled_example =
    flush-is_trace_sampled map_badger map_badger_laws (pos 60) writer writer1 writer2 "a" true
      sampled flushed

abbrev writer3 : ReadWriter map_badger
unfolding write_trace_event
writer3 = (write_trace_event map_badger codec (pos 60) writer "a" "b" (transaction_event "a")).0

mixed :
    write_trace_event map_badger codec (pos 60) writer "a" "b" (transaction_event "a")
    ≡ (writer3, none)
unfolding write_trace_event writer3 writer insert
mixed = refl

write_trace_event-is_trace_sampled_example : is_trace_sampled map_badger writer3 "a:b" ≡ inl false
write_trace_event-is_trace_sampled_example =
    write_trace_event-is_trace_sampled map_badger codec (pos 60) map_badger_laws writer writer3 "a"
      "b" (transaction_event "a") mixed
