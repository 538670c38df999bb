-- ===== src/Sampling/Storage/Events.antt =====
-- The events of a trace: what is written is read back, and what is read has been written.
use apm_server.Prelude.{
  ◌≡◌, ◌≢◌, refl, ap, subst, String, concat, none, Bool, true, false, List, [], ◌∷◌, ◌++◌, ltb, ℤ,
  Bytes, inl, inr, Member, Member-append_left, Member-append_right, arith, Bool-cases, Option-cases,
  Sum-cases,
}
use text.Mathlib.TextLemmas.{length-append}
use Prim.Native.String.{count as count_chars}
use apm_server.Model.Event.{ApmEvent}
use apm_server.Sampling.Storage.{
  Entry, Item, Badger, Codec, ReadWriter, flush, is_trace_sampled, write_trace_event,
  write_trace_sampled, event_key, trace_prefix, decode_item, is_event, read_items, read_after_flush,
  read_trace_events, entry_meta_trace_event,
}
use apm_server.Sampling.Storage.Decisions.{
  item_of, BadgerLaws, Wrote, write_entry-Wrote, flush-get, Kept, unflushed, settled,
  write_entry-Kept,
}

colon : count_chars ":" ≡ 1
colon = refl

module _ {F : Type 0} (badger : Badger) (codec : Codec F) (ttl : ℤ) where
  -- The loop only adds to the batch.
  read_items-keeps :
      (x : ApmEvent F) (items : List Item) (out : List (ApmEvent F))
      → Member x out
      → Member x (read_items badger codec ttl items out).0
  unfolding read_items
  read_items-keeps x [] out m = m
  read_items-keeps x (item ∷ items) out m = elim (Bool-cases (is_event item)) [
    | inr other ↦ rw (other, read_items) (read_items-keeps x items out m)
    | inl e ↦ elim (Sum-cases (decode_item badger codec ttl item)) [
      | inr (err, f) ↦ rw (e, f, read_items) m
      | inl (event, f) ↦
          rw (e, f, read_items)
            (read_items-keeps x items (out ++ (event ∷ [])) (Member-append_left (event ∷ []) m))
    ]
  ]

  read_items-decoded :
      (x : ApmEvent F) (item : Item) (items : List Item) (out : List (ApmEvent F))
      → Member item items
      → is_event item ≡ true
      → decode_item badger codec ttl item ≡ inl x
      → (read_items badger codec ttl items out).1 ≡ none
      → Member x (read_items badger codec ttl items out).0
  unfolding read_items
  read_items-decoded x item [] out m e d h = elim m [ ]
  read_items-decoded x item (y ∷ items) out (Member.head same) e d h =
      let event : is_event y ≡ true = subst (λ z. is_event z ≡ true) same e in
      let decoded : decode_item badger codec ttl y ≡ inl x =
        subst (λ z. decode_item badger codec ttl z ≡ inl x) same d in
      rw (event, decoded, read_items)
        (read_items-keeps x items (out ++ (x ∷ [])) (Member-append_right out (Member.head refl)))
  read_items-decoded x item (y ∷ items) out (Member.tail m) e d h = elim (Bool-cases (is_event y)) [
    | inr other ↦
        rw (other, read_items)
          (read_items-decoded x item items out m e d (rw (other, read_items) at h))
    | inl event ↦ elim (Sum-cases (decode_item badger codec ttl y)) [
      | inr (err, f) ↦ absurd (ground arith)
      | inl (z, f) ↦
          rw (event, f, read_items)
            (read_items-decoded x item items (out ++ (z ∷ [])) m e d
              (rw (event, f, read_items) at h))
    ]
  ]

  module _ (laws : BadgerLaws badger) where
    abbrev entry_of : String → String → Bytes → Entry
    entry_of trace_id id value = record {
      key = event_key trace_id id;
      value = value;
      user_meta = entry_meta_trace_event;
      ttl = ttl;
    }

    pub write_trace_event-Wrote :
        (w w' : ReadWriter badger) (trace_id id : String) (event : ApmEvent F)
        → write_trace_event badger codec ttl w trace_id id event ≡ (w', none)
        → (value : Bytes) × (codec.encode_event event ≡ inl value)
          × Wrote badger (entry_of trace_id id value) w'.txn
    unfolding write_trace_event
    write_trace_event-Wrote w w' trace_id id event h = elim (Sum-cases (codec.encode_event event)) [
      | inr (err, e) ↦ absurd (ground arith)
      | inl (value, e) ↦ (
        value,
        e,
        write_entry-Wrote badger w w' (entry_of trace_id id value) (rw (e, write_trace_event) at h),
      )
    ]

    read_after_flush-event :
        (w w' : ReadWriter badger) (trace_id id : String) (value : Bytes) (event : ApmEvent F)
        (out out' : List (ApmEvent F))
        → badger.get w.txn (event_key trace_id id) ≡ inl (item_of (entry_of trace_id id value))
        → codec.decode_event value ≡ inl event
        → read_after_flush badger codec ttl (w, none) trace_id out ≡ (w', out', none)
        → Member event out'
    unfolding read_after_flush is_event decode_item
    read_after_flush-event w w' trace_id id value event out out' h d r =
        let item = item_of (entry_of trace_id id value) in
        let items = badger.iterate w.txn (trace_prefix trace_id) in
        subst (Member event) (ap (λ x. x.1) r) (
          read_items-decoded event item items out
            (laws.iterate_get w.txn (trace_prefix trace_id) id item h) refl
            (rw (d, decode_item) refl) (ap (λ x. x.2) r))

    read_trace_events-Kept :
        (w w' : ReadWriter badger) (trace_id id : String) (value : Bytes) (event : ApmEvent F)
        (out out' : List (ApmEvent F))
        → Kept badger laws (entry_of trace_id id value) w
        → codec.decode_event value ≡ inl event
        → read_trace_events badger codec ttl w trace_id out ≡ (w', out', none)
        → Member event out'
    unfolding read_trace_events read_after_flush
    read_trace_events-Kept w w' trace_id id value event out out' (settled found zero) d r =
        let few : ltb 100 w.pending_writes ≡ false = ground arith in
        read_after_flush-event w w' trace_id id value event out out' found d
          (rw (few, read_trace_events) at r)
    read_trace_events-Kept w w' trace_id id value event out out' (unflushed written) d r =
        let entry = entry_of trace_id id value in
        elim (Bool-cases (ltb 100 w.pending_writes)) [
          | inr few ↦
              read_after_flush-event w w' trace_id id value event out out'
                (laws.get_wrote w.txn entry written) d (rw (few, read_trace_events) at r)
          | inl many ↦
              let (w1, err) = flush badger w in
              let after : read_after_flush badger codec ttl (w1, err) trace_id out
                  ≡ (w', out', none) =
                rw (many, read_trace_events) at r in
              elim (Option-cases err) [
                | inr (failed, f) ↦ let bad = rw (f, read_after_flush) at after in cc
                | inl f ↦
                    read_after_flush-event w1 w' trace_id id value event out out'
                      (flush-get badger laws entry w w1 written (ap (λ o. (w1, o)) f)) d
                      (rw f at after)
              ]
        ]

    -- An event that is written, also through a flush, is among the events that are read for its trace,
    -- if the codec decodes what it encodes. Reading may flush.
    pub write_trace_event-read_trace_events :
        (w w' w'' : ReadWriter badger) (trace_id id : String) (event : ApmEvent F)
        (out out' : List (ApmEvent F))
        → ((value : Bytes)
            → codec.encode_event event ≡ inl value
            → codec.decode_event value ≡ inl event)
        → write_trace_event badger codec ttl w trace_id id event ≡ (w', none)
        → read_trace_events badger codec ttl w' trace_id out ≡ (w'', out', none)
        → Member event out'
    write_trace_event-read_trace_events w w' w'' trace_id id event out out' decodes h r =
        let (value, e, written) = write_trace_event-Wrote w w' trace_id id event h in
        read_trace_events-Kept w' w'' trace_id id value event out out' (unflushed written)
          (decodes value e) r

    id_shorter : (trace_id id : String) → trace_id ≢ event_key trace_id id
    id_shorter trace_id id same = omega (
      arith,
      ap count_chars same,
      length-append (concat trace_id ":") id,
      length-append trace_id ":",
      colon,
    )

    -- It is still among them after a decision on the trace has been written.
    pub write_trace_sampled-read_trace_events :
        (w w1 w2 w3 : ReadWriter badger) (trace_id id : String) (sampled : Bool)
        (event : ApmEvent F) (out out' : List (ApmEvent F))
        → ((value : Bytes)
            → codec.encode_event event ≡ inl value
            → codec.decode_event value ≡ inl event)
        → write_trace_event badger codec ttl w trace_id id event ≡ (w1, none)
        → write_trace_sampled badger ttl w1 trace_id sampled ≡ (w2, none)
        → read_trace_events badger codec ttl w2 trace_id out ≡ (w3, out', none)
        → Member event out'
    unfolding write_trace_sampled
    write_trace_sampled-read_trace_events w w1 w2 w3 trace_id id sampled event out out' decodes h s
          r =
        let (value, e, written) = write_trace_event-Wrote w w1 trace_id id event h in
        read_trace_events-Kept w2 w3 trace_id id value event out out'
          (write_entry-Kept badger laws (entry_of trace_id id value) _ w1 w2 written
            (id_shorter trace_id id) s)
          (decodes value e) r

    -- An event with the identifier `id` of the trace `trace_id` stands where the sampling decision
    -- of the trace `trace_id:id` does: once it is written without an error, that trace counts as
    -- not sampled, if Badger satisfies its laws.
    pub write_trace_event-is_trace_sampled :
        (w w' : ReadWriter badger) (trace_id id : String) (event : ApmEvent F)
        → write_trace_event badger codec ttl w trace_id id event ≡ (w', none)
        → is_trace_sampled badger w' (event_key trace_id id) ≡ inl false
    unfolding is_trace_sampled
    write_trace_event-is_trace_sampled w w' trace_id id event h =
        let (value, e, written) = write_trace_event-Wrote w w' trace_id id event h in
        rw (laws.get_wrote w'.txn (entry_of trace_id id value) written, is_trace_sampled) refl
