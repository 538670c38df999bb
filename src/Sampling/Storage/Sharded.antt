-- ===== src/Sampling/Storage/Sharded.antt =====
-- x-pack/apm-server/sampling/eventstorage/sharded.go: one `ReadWriter` for each processor, chosen by
-- the trace ID. Each holds its lock during an operation, so operations are one after the other. A
-- panic is `none`.
pub mod RoundTrips
use apm_server.Prelude.{
  ℕ, zero, suc, ◌%◌, String, Option, none, some, ◌>>=◌, Bool, List, [], ◌∷◌, ℤ, ◌⊎◌, length,
  get_elem?, set, ◌==◌, if◌then◌else◌,
}
use apm_server.Model.Event.{ApmEvent}
use apm_server.TxMetrics.Key.{Hasher}
use apm_server.Sampling.Storage.{
  Badger, Codec, StorageError, ReadWriter, new_read_writer, flush, write_trace_sampled,
  is_trace_sampled, write_trace_event, delete_trace_event, read_trace_events,
}

-- A `ReadWriter` without the database, which all share.
pub record Shard (badger : Badger) : Type 0 where
  pub txn : badger.Txn
  pub pending_writes : ℕ

pub record ShardedReadWriter (badger : Badger) : Type 0 where
  pub db : badger.Db
  pub read_writers : List (Shard badger)

module _ (hasher : Hasher) (badger : Badger) where
  unfoldable pub shards : badger.Db → ℕ → List (Shard badger)
  shards db zero = []
  shards db (suc n) = record { txn = badger.new_transaction db; pending_writes = 0 } ∷ shards db n

  -- `newShardedReadWriter`
  unfoldable pub new_sharded_read_writer : badger.Db → ℕ → ShardedReadWriter badger
  unfolding shards
  new_sharded_read_writer db num_cpu = record { db = db; read_writers = shards db num_cpu }

  -- The place that `getWriter` computes: without shards, a division by zero.
  unfoldable pub shard_index : ShardedReadWriter badger → String → Option ℕ
  shard_index s trace_id =
      let n = length s.read_writers in
      if n == 0 then none else some (hasher.sum64 (hasher.write_string hasher.new trace_id) % n)

  abbrev pub writer_at : badger.Db → Shard badger → ReadWriter badger
  writer_at db shard = record { db = db; txn = shard.txn; pending_writes = shard.pending_writes }

  -- `getWriter`
  unfoldable pub get_writer : ShardedReadWriter badger → String → Option (ReadWriter badger)
  unfolding shard_index
  get_writer s trace_id = do
    i ← shard_index s trace_id
    shard ← get_elem? s.read_writers i
    some (writer_at s.db shard)

  -- An operation on the writer of a trace.
  unfoldable pub with_writer :
      {B : Type 0}
      → ShardedReadWriter badger
      → String
      → (ReadWriter badger → ReadWriter badger × B)
      → Option (ShardedReadWriter badger × B)
  unfolding get_writer
  with_writer s trace_id f = do
    i ← shard_index s trace_id
    w ← get_writer s trace_id
    let (w', result) = f w
    some (
      record {
        db = w'.db;
        read_writers =
            set s.read_writers i (record { txn = w'.txn; pending_writes = w'.pending_writes });
      },
      result,
    )

  unfoldable pub sharded_write_trace_sampled :
      ℤ
      → ShardedReadWriter badger
      → String
      → Bool
      → Option (ShardedReadWriter badger × Option StorageError)
  unfolding with_writer write_trace_sampled
  sharded_write_trace_sampled ttl s trace_id sampled =
      with_writer s trace_id (λ w. write_trace_sampled badger ttl w trace_id sampled)

  unfoldable pub sharded_is_trace_sampled :
      ShardedReadWriter badger → String → Option (Bool ⊎ StorageError)
  unfolding get_writer is_trace_sampled
  sharded_is_trace_sampled s trace_id = do
    w ← get_writer s trace_id
    some (is_trace_sampled badger w trace_id)

  unfoldable pub sharded_delete_trace_event :
      ShardedReadWriter badger
      → String
      → String
      → Option (ShardedReadWriter badger × Option StorageError)
  unfolding with_writer delete_trace_event
  sharded_delete_trace_event s trace_id id =
      with_writer s trace_id (λ w. delete_trace_event badger w trace_id id)

  -- The loop of `Flush`, on the writers from the first one on, with the errors.
  unfoldable pub flush_all :
      badger.Db → List (Shard badger) → badger.Db × List (Shard badger) × List StorageError
  unfolding flush
  flush_all db [] = (db, [], [])
  flush_all db (shard ∷ rest) =
      let (w, err) = flush badger (writer_at db shard) in
      let (db', rest', errs) = flush_all w.db rest in
      (
        db',
        record { txn = w.txn; pending_writes = w.pending_writes } ∷ rest',
        elim err [ none ↦ errs | some e ↦ e ∷ errs ],
      )

  -- `Flush`
  unfoldable pub sharded_flush :
      ShardedReadWriter badger → ShardedReadWriter badger × List StorageError
  unfolding flush_all
  sharded_flush s =
      let (db, read_writers, errs) = flush_all s.db s.read_writers in
      (record { db = db; read_writers = read_writers }, errs)

  module _ {F : Type 0} (codec : Codec F) where
    unfoldable pub sharded_write_trace_event :
        ℤ
        → ShardedReadWriter badger
        → String
        → String
        → ApmEvent F
        → Option (ShardedReadWriter badger × Option StorageError)
    unfolding with_writer write_trace_event
    sharded_write_trace_event ttl s trace_id id event =
        with_writer s trace_id (λ w. write_trace_event badger codec ttl w trace_id id event)

    unfoldable pub sharded_read_trace_events :
        ℤ
        → ShardedReadWriter badger
        → String
        → List (ApmEvent F)
        → Option (ShardedReadWriter badger × (List (ApmEvent F) × Option StorageError))
    unfolding with_writer read_trace_events
    sharded_read_trace_events ttl s trace_id out = with_writer s trace_id (λ w.
        let (w', events, err) = read_trace_events badger codec ttl w trace_id out in
        (w', (events, err)))
