-- ===== src/Sampling/Processor/Decisions/Late.antt =====
-- The events of a trace that come after its decision.
use apm_server.Prelude.{
  ℕ, zero, suc, ◌+◌, ◌≡◌, refl, ap, ◌∙◌, String, str_eq, str_eq_iff, Option, none, some, Bool, true,
  false, not, ◌&&◌, List, [], ◌∷◌, length, count, bit, get_elem?, get_elem?-some, All, inl, arith,
  if◌then◌else◌,
}
use apm_server.Model.Float64.{Float64}
use apm_server.Model.Event.{
  ApmEvent, Transaction, Processor, no_processor, transaction_processor, span_processor,
  metricset_processor, error_processor, other_processor,
}
use apm_server.ModelProcessor.DropUnsampled.{swap_remove}
use apm_server.ModelProcessor.DropUnsampled.Kept.{swap_remove_lem}
use apm_server.Sampling.EventStore.{EventStore, EventStoreLaws}
use apm_server.Sampling.Processor.{
  verdict, Running, decide_transaction, process_transaction, decide_span, process_span,
  process_event, process_loop, process_batch, sampler_of, count_processed, count_sampled,
  update_processor_metrics,
}
use apm_server.Sampling.Processor.Ledger.{swap_remove-count}

abbrev pub has_sampled : {F : Type 0} → Option (Transaction F) → Bool
has_sampled none = false
has_sampled (some tx) = tx.sampled

abbrev pub is_tail_sampled : {F : Type 0} → Processor → Option (Transaction F) → Bool
is_tail_sampled span_processor tx = true
is_tail_sampled transaction_processor tx = has_sampled tx
is_tail_sampled _ tx = false

-- A span of the trace, or one of its transactions that is sampled at the head.
abbrev pub is_late : {F : Type 0} → String → ApmEvent F → Bool
is_late trace_id event =
    str_eq event.trace_id trace_id && is_tail_sampled event.processor event.transaction

count-late :
    {F : Type 0} (trace_id : String) (events : List (ApmEvent F))
    → All (λ e. is_late trace_id e ≡ true) events
    → count (λ e. not (is_late trace_id e)) events ≡ 0
count-late trace_id [] h = refl
count-late trace_id (event ∷ events) h =
    omega (arith, ap (λ b. bit (not b)) h.0, count-late trace_id events h.1)

module _ (fl : Float64) (store : EventStore fl.F) (random : ℕ → fl.F) where
  open fl use {F}

  abbrev State : Type 0
  State = Running fl store random

  -- What `n` events of a decided trace change: the counters, and nothing else.
  pub record Counted (sampled : Bool) (n : ℕ) (p q : State) : Type 0 where
    pub storage : q.storage ≡ p.storage
    pub groups : q.groups ≡ p.groups
    pub drawn : q.drawn ≡ p.drawn
    pub processed : q.metrics.processed ≡ p.metrics.processed + n
    pub sampled_count : q.metrics.sampled ≡ p.metrics.sampled + (if sampled then n else 0)
    pub dropped : q.metrics.dropped ≡ p.metrics.dropped + (if sampled then 0 else n)
    pub stored : q.metrics.stored ≡ p.metrics.stored
    pub head_unsampled : q.metrics.head_unsampled ≡ p.metrics.head_unsampled

  -- The state after one such event.
  abbrev judged : State → Bool → State
  judged p true = count_sampled fl store random (count_processed fl store random p) 1
  judged p false = count_processed fl store random p

  judge_transaction :
      (p : State) (event : ApmEvent F) (o : Option (Transaction F)) (sampled : Bool)
      → store.is_trace_sampled p.storage event.trace_id ≡ some (inl sampled)
      → has_sampled o ≡ true
      → process_transaction fl store random (count_processed fl store random p) event o
        ≡ some (judged p sampled, verdict sampled false)
  unfolding process_transaction decide_transaction
  judge_transaction p event none sampled known h = cc
  judge_transaction p event (some tx) true known h = simp (h, known, process_transaction) refl
  judge_transaction p event (some tx) false known h = simp (h, known, process_transaction) refl

  judge :
      (p : State) (event : ApmEvent F) (q : Processor) (sampled : Bool)
      → store.is_trace_sampled p.storage event.trace_id ≡ some (inl sampled)
      → is_tail_sampled q event.transaction ≡ true
      → process_event fl store random p event q
        ≡ some (judged p sampled, some (verdict sampled false))
  unfolding process_event process_span decide_span
  judge p event span_processor true known h = rw (known, process_span) refl
  judge p event span_processor false known h = rw (known, process_span) refl
  judge p event transaction_processor sampled known h =
      rw (judge_transaction p event event.transaction sampled known h, process_event) refl
  judge p event no_processor sampled known h = cc
  judge p event metricset_processor sampled known h = cc
  judge p event error_processor sampled known h = cc
  judge p event (other_processor name) sampled known h = cc

  module _ (trace_id : String) where
    abbrev odd : ApmEvent F → Bool
    odd e = not (is_late trace_id e)

    -- An event of such a batch.
    judge_at :
        (p : State) (events : List (ApmEvent F)) (i : ℕ) (event : ApmEvent F) (sampled : Bool)
        → store.is_trace_sampled p.storage trace_id ≡ some (inl sampled)
        → get_elem? events i ≡ some event
        → count odd events ≡ 0
        → process_event fl store random p event event.processor
          ≡ some (judged p sampled, some (verdict sampled false))
    judge_at p events i event sampled known at late =
        let swapped = swap_remove-count fl store random odd events i event at in
        let even : bit (odd event) ≡ 0 = omega (arith, swapped, late) in
        let same : str_eq event.trace_id trace_id ≡ true = ground arith in
        let tail : is_tail_sampled event.processor event.transaction ≡ true = ground arith in
        let its = (str_eq_iff event.trace_id trace_id).0 same in
        judge p event event.processor sampled
          (ap (λ t. store.is_trace_sampled p.storage t) its ∙ known) tail

    -- Of a sampled trace, all events stay.
    loop_stays :
        (fuel i : ℕ) (p : State) (events removed : List (ApmEvent F))
        → store.is_trace_sampled p.storage trace_id ≡ some (inl true)
        → i + fuel ≡ length events
        → count odd events ≡ 0
        → (q : State) × (process_loop fl store random fuel i p events removed
            ≡ some (record { state = q; events = events; removed = removed; error = none }))
          × Counted true fuel p q
    unfolding process_loop update_processor_metrics
    loop_stays zero i p events removed known size late = (
      p,
      refl,
      record {
        storage = refl;
        groups = refl;
        drawn = refl;
        processed = omega arith;
        sampled_count = omega arith;
        dropped = omega arith;
        stored = refl;
        head_unsampled = refl;
      },
    )
    loop_stays (suc fuel) i p events removed known size late =
        let (event, at) = get_elem?-some events i (omega arith) in
        let e = judge_at p events i event true known at late in
        let (q, f, c) =
          loop_stays fuel (suc i) (judged p true) events removed known (omega arith) late in
        (
          q,
          rw (at, e, process_loop) f,
          record {
            storage = c.storage;
            groups = c.groups;
            drawn = c.drawn;
            processed = omega (arith, c.processed);
            sampled_count = omega (arith, c.sampled_count);
            dropped = omega (arith, c.dropped);
            stored = c.stored;
            head_unsampled = c.head_unsampled;
          },
        )

    -- Of a trace that is not sampled, all events leave.
    loop_leaves :
        (fuel : ℕ) (p : State) (events removed : List (ApmEvent F))
        → store.is_trace_sampled p.storage trace_id ≡ some (inl false)
        → fuel ≡ length events
        → count odd events ≡ 0
        → (q : State) × (gone : List (ApmEvent F)) × (process_loop fl store random fuel 0 p events
              removed
            ≡ some (record { state = q; events = []; removed = gone; error = none }))
          × Counted false fuel p q
    unfolding process_loop update_processor_metrics
    loop_leaves zero p [] removed known size late = (
      p,
      removed,
      refl,
      record {
        storage = refl;
        groups = refl;
        drawn = refl;
        processed = omega arith;
        sampled_count = omega arith;
        dropped = omega arith;
        stored = refl;
        head_unsampled = refl;
      },
    )
    loop_leaves zero p (x ∷ events) removed known size late = absurd (omega (arith, size))
    loop_leaves (suc fuel) p events removed known size late =
        let (event, at) = get_elem?-some events 0 (omega (arith, size)) in
        let e = judge_at p events 0 event false known at late in
        let p1 = update_processor_metrics fl store random (judged p false) false false in
        let swapped = swap_remove-count fl store random odd events 0 event at in
        let (smaller, _, _) = swap_remove_lem odd events 0 event at in
        let (q, gone, f, c) =
          loop_leaves fuel p1 (swap_remove 0 events) (event ∷ removed) known
            (omega (arith, smaller, size)) (omega (arith, swapped, late)) in
        (
          q,
          gone,
          rw (at, e, process_loop) f,
          record {
            storage = c.storage;
            groups = c.groups;
            drawn = c.drawn;
            processed = omega (arith, c.processed);
            sampled_count = omega (arith, c.sampled_count);
            dropped = omega (arith, c.dropped);
            stored = c.stored;
            head_unsampled = c.head_unsampled;
          },
        )

  -- Once the decision on a trace has been written to a storage that satisfies its laws, a batch of its
  -- spans and of its transactions that are sampled at the head is processed without an error. If the
  -- trace is sampled, the batch stays as it is, and all its events are counted as sampled. If it is
  -- not, the batch is empty afterwards, and all its events are counted as dropped. None is stored, and
  -- none reaches the trace groups or draws a random number.
  pub write_trace_sampled-process_batch :
      (IsKept : ApmEvent F → Type 0) (laws : EventStoreLaws store IsKept) (s : store.State)
      (p : Running fl store random) (trace_id : String) (sampled : Bool) (batch : List (ApmEvent F))
      → store.write_trace_sampled s trace_id sampled ≡ some (p.storage, none)
      → All (λ e. is_late trace_id e ≡ true) batch
      → (q : Running fl store random) × (process_batch fl store random
            (sampler_of fl store random p)
            batch
          ≡ some (sampler_of fl store random q, if sampled then batch else [], none))
        × Counted sampled (length batch) p q
  unfolding process_batch
  write_trace_sampled-process_batch IsKept laws s p trace_id true batch written late =
      let known = laws.decision s p.storage trace_id true written in
      let (q, e, c) =
        loop_stays trace_id (length batch) 0 p batch [] known (omega arith)
          (count-late trace_id batch late) in
      (q, rw (e, process_batch) refl, c)
  write_trace_sampled-process_batch IsKept laws s p trace_id false batch written late =
      let known = laws.decision s p.storage trace_id false written in
      let (q, gone, e, c) =
        loop_leaves trace_id (length batch) p batch [] known refl
          (count-late trace_id batch late) in
      (q, rw (e, process_batch) refl, c)
