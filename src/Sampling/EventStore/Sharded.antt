-- ===== src/Sampling/EventStore/Sharded.antt =====
-- The sharded storage (x-pack/apm-server/sampling/eventstorage) as the processor's, with its laws.
use apm_server.Prelude.{◌≡◌, inl, ℤ, Bytes}
use apm_server.Model.Event.{ApmEvent}
use apm_server.TxMetrics.Key.{Hasher}
use apm_server.Sampling.Storage.{Badger, Codec}
use apm_server.Sampling.Storage.Decisions.{BadgerLaws}
use apm_server.Sampling.Storage.Sharded.{
  ShardedReadWriter, sharded_write_trace_sampled, sharded_is_trace_sampled,
  sharded_write_trace_event, sharded_read_trace_events, sharded_delete_trace_event, sharded_flush,
}
use apm_server.Sampling.Storage.Sharded.RoundTrips.{
  sharded_write_trace_sampled-lem, sharded_write_trace_event-lem,
}
use apm_server.Sampling.EventStore.{EventStore, EventStoreLaws}

module _ {F : Type 0} (hasher : Hasher) (badger : Badger) (codec : Codec F) (ttl : ℤ) where
  abbrev pub sharded_store : EventStore F
  sharded_store = record {
    State = ShardedReadWriter badger;
    is_trace_sampled = sharded_is_trace_sampled hasher badger;
    write_trace_sampled = sharded_write_trace_sampled hasher badger ttl;
    write_trace_event = sharded_write_trace_event hasher badger codec ttl;
    read_trace_events = sharded_read_trace_events hasher badger codec ttl;
    delete_trace_event = sharded_delete_trace_event hasher badger;
    flush = sharded_flush hasher badger;
  }

  -- An event of which the codec decodes what it has encoded.
  abbrev pub Decodes : ApmEvent F → Type 0
  Decodes event =
      (value : Bytes) → codec.encode_event event ≡ inl value → codec.decode_event value ≡ inl event

  -- The sharded storage keeps decisions, and the events that its codec keeps, if Badger behaves as
  -- documented.
  pub sharded_store-EventStoreLaws : BadgerLaws badger → EventStoreLaws sharded_store Decodes
  sharded_store-EventStoreLaws laws = record {
    decision = sharded_write_trace_sampled-lem hasher badger laws ttl;
    event = λ s s1 s2 s3 trace_id id sampled event out out' decodes h d r.
        sharded_write_trace_event-lem hasher badger laws codec ttl s s1 s2 s3 trace_id id sampled
          event out out' decodes h d r;
  }
