-- ===== src/Sampling/Storage/Sharded/RoundTrips.antt =====
-- The round trips of the storage hold for the sharded one: a trace has one writer.
use apm_server.Prelude.{
  ◌≡◌, refl, ap, subst, ◌∙◌, String, Option, none, some, Bool, List, ℤ, inl, inr, length, get_elem?,
  set, Member, arith, Option-cases, Bytes, get_elem?-set_self, length-set,
}
use apm_server.Model.Event.{ApmEvent}
use apm_server.TxMetrics.Key.{Hasher}
use apm_server.Sampling.Storage.{
  Badger, Codec, ReadWriter, write_trace_sampled, write_trace_event, read_trace_events,
}
use apm_server.Sampling.Storage.Decisions.{BadgerLaws, write_trace_sampled-is_trace_sampled}
use apm_server.Sampling.Storage.Events.{write_trace_sampled-read_trace_events}
use apm_server.Sampling.Storage.Sharded.{
  ShardedReadWriter, shard_index, get_writer, with_writer, writer_at, sharded_write_trace_sampled,
  sharded_is_trace_sampled, sharded_write_trace_event, sharded_read_trace_events,
}

abbrev optionally {ℓ} : {A : Type ℓ} → A → Option A → A
optionally a none = a
optionally a (some b) = b

module _ (hasher : Hasher) (badger : Badger) where
  shard_index-length :
      (s s' : ShardedReadWriter badger) (trace_id : String)
      → length s'.read_writers ≡ length s.read_writers
      → shard_index hasher badger s' trace_id ≡ shard_index hasher badger s trace_id
  unfolding shard_index
  shard_index-length s s' trace_id e = rw e refl

  -- After an operation the trace has the writer that the operation has left.
  with_writer-get_writer :
      {B : Type 0} (s s' : ShardedReadWriter badger) (trace_id : String)
      (f : ReadWriter badger → ReadWriter badger × B) (result : B)
      → with_writer hasher badger s trace_id f ≡ some (s', result)
      → (w w' : ReadWriter badger) × (f w ≡ (w', result))
        × (get_writer hasher badger s trace_id ≡ some w)
        × (get_writer hasher badger s' trace_id ≡ some w')
  unfolding with_writer get_writer
  with_writer-get_writer s s' trace_id f result h =
      elim (Option-cases (shard_index hasher badger s trace_id)) [
        | inl e ↦ absurd (ground arith)
        | inr (i, e) ↦ elim (Option-cases (get_elem? s.read_writers i)) [
          | inl g ↦ absurd (ground arith)
          | inr (shard, g) ↦
              let w = writer_at hasher badger s.db shard in
              let (w', r) = f w in
              let s1 : ShardedReadWriter badger = record {
                db = w'.db;
                read_writers =
                    set s.read_writers i
                      (record { txn = w'.txn; pending_writes = w'.pending_writes });
              } in
              let before : get_writer hasher badger s trace_id ≡ some w =
                rw (e, g, get_writer) refl in
              let after : some (s1, r) ≡ some (s', result) = rw (e, g, with_writer) at h in
              let index =
                shard_index-length s s1 trace_id (
                  length-set s.read_writers i
                    (record { txn = w'.txn; pending_writes = w'.pending_writes }))
                ∙ e in
              let there =
                get_elem?-set_self s.read_writers i
                  (record { txn = w'.txn; pending_writes = w'.pending_writes }) shard g in
              let both : (s1, r) ≡ (s', result) = ap (optionally (s', result)) after in
              let state : s1 ≡ s' = ap (λ b. b.0) both in
              (
                w,
                w',
                ap (λ b. (w', b.1)) both,
                before,
                subst (λ x. get_writer hasher badger x trace_id ≡ some w') state
                    (rw (index, there, get_writer) refl),
              )
        ]
      ]

  -- A sampling decision that is written to the sharded storage without an error, also through a
  -- flush, is what is read for its trace then, if Badger satisfies its laws.
  pub sharded_write_trace_sampled-lem :
      (laws : BadgerLaws badger) (ttl : ℤ) (s s' : ShardedReadWriter badger) (trace_id : String)
      (sampled : Bool)
      → sharded_write_trace_sampled hasher badger ttl s trace_id sampled ≡ some (s', none)
      → sharded_is_trace_sampled hasher badger s' trace_id ≡ some (inl sampled)
  unfolding sharded_write_trace_sampled sharded_is_trace_sampled
  sharded_write_trace_sampled-lem laws ttl s s' trace_id sampled h =
      let (w, w', e, _, there) =
        with_writer-get_writer s s' trace_id
          (λ w. write_trace_sampled badger ttl w trace_id sampled) none h in
      rw (there, sharded_is_trace_sampled)
        (ap some (write_trace_sampled-is_trace_sampled badger laws ttl w w' trace_id sampled e))

  -- An event that is written to the sharded storage, in which a write may have to commit the
  -- transaction and begin another, is among those that are read for its trace after a decision on
  -- it has been written, if none of the operations gives an error, the codec decodes what the event
  -- is encoded to, and Badger satisfies its laws.
  pub sharded_write_trace_event-lem :
      {F : Type 0} (laws : BadgerLaws badger) (codec : Codec F) (ttl : ℤ)
      (s s1 s2 s3 : ShardedReadWriter badger) (trace_id id : String) (sampled : Bool)
      (event : ApmEvent F) (out out' : List (ApmEvent F))
      → ((value : Bytes)
          → codec.encode_event event ≡ inl value
          → codec.decode_event value ≡ inl event)
      → sharded_write_trace_event hasher badger codec ttl s trace_id id event ≡ some (s1, none)
      → sharded_write_trace_sampled hasher badger ttl s1 trace_id sampled ≡ some (s2, none)
      → sharded_read_trace_events hasher badger codec ttl s2 trace_id out ≡ some (s3, (out', none))
      → Member event out'
  unfolding sharded_write_trace_event sharded_write_trace_sampled sharded_read_trace_events
  sharded_write_trace_event-lem laws codec ttl s s1 s2 s3 trace_id id sampled event out out' decodes
        h d r =
      let (w, w1, e, _, there) =
        with_writer-get_writer s s1 trace_id
          (λ w. write_trace_event badger codec ttl w trace_id id event) none h in
      let (v1, w2, e1, there1, there2) =
        with_writer-get_writer s1 s2 trace_id
          (λ w. write_trace_sampled badger ttl w trace_id sampled) none d in
      let (v2, w3, e2, there3, _) =
        with_writer-get_writer s2 s3 trace_id
          (λ w.
            let (w', events, err) = read_trace_events badger codec ttl w trace_id out in
            (w', (events, err)))
          (out', none) r in
      let same1 : v1 ≡ w1 = cc in
      let same2 : v2 ≡ w2 = cc in
      write_trace_sampled-read_trace_events badger codec ttl laws w w1 w2 w3 trace_id id sampled
        event out out' decodes e
        (subst (λ x. write_trace_sampled badger ttl x trace_id sampled ≡ (w2, none)) same1 e1)
        (subst (λ x. read_trace_events badger codec ttl x trace_id out ≡ (w3, out', none)) same2
          (ap (λ x. (x.0, x.1.0, x.1.1)) e2))
