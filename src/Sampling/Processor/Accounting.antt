-- ===== src/Sampling/Processor/Accounting.antt =====
-- What the handling of one event adds to the counters.
use apm_server.Prelude.{
  ℕ, ◌+◌, ◌≡◌, refl, ap, String, Option, none, some, Bool, true, false, ◌&&◌, ◌⊎◌, inl, inr, str_eq,
  bit, arith, Bool-cases, Option-cases, OnSome, OnSome-some,
}
use apm_server.Model.Float64.{Float64}
use apm_server.Model.Event.{
  ApmEvent, Transaction, Processor, no_processor, transaction_processor, span_processor,
  metricset_processor, error_processor, other_processor,
}
use apm_server.Sampling.Storage.{StorageError, not_found}
use apm_server.Sampling.Groups.{GroupError, too_many_trace_groups, no_matching_policy}
use apm_server.Sampling.Groups.Traces.{sample_trace}
use apm_server.Sampling.Processor.{
  EventStore, EventMetrics, ProcessError, Verdict, verdict, Running, store_event, decide_root,
  sample_root, decide_transaction, process_transaction, decide_span, process_span, count_processed,
  process_event,
}

abbrev pub is_trace_processor : Processor → Bool
is_trace_processor transaction_processor = true
is_trace_processor span_processor = true
is_trace_processor _ = false

-- Transactions and spans.
abbrev pub is_trace_event : {F : Type 0} → ApmEvent F → Bool
is_trace_event event = is_trace_processor event.processor

module _ (fl : Float64) (store : EventStore fl.F) (random : ℕ → fl.F) where
  open fl use {F}

  abbrev pub State : Type 0
  State = Running fl store random

  -- An event that is reported is counted as sampled or as unsampled at the head, and not stored.
  pub record Accounted (m : EventMetrics) (r : State × Verdict) : Type 0 where
    pub processed : r.0.metrics.processed ≡ m.processed
    pub dropped : r.0.metrics.dropped ≡ m.dropped
    pub stored : r.0.metrics.stored ≡ m.stored
    pub reported :
        r.0.metrics.sampled + r.0.metrics.head_unsampled
        ≡ m.sampled + m.head_unsampled + bit r.1.report
    pub exclusive : (r.1.report && r.1.stored) ≡ false

  unreported :
      (p p' : State) (stored : Bool) (error : Option ProcessError)
      → p'.metrics ≡ p.metrics
      → Accounted p.metrics (p', record { report = false; stored = stored; error = error })
  unreported p p' stored error m = record {
    processed = ap (λ x. x.processed) m;
    dropped = ap (λ x. x.dropped) m;
    stored = ap (λ x. x.stored) m;
    reported = rw m (omega arith);
    exclusive = refl;
  }

  store_event-Accounted :
      (p : State) (id : String) (event : ApmEvent F)
      → OnSome (Accounted p.metrics) (store_event fl store random p id event)
  unfolding store_event
  store_event-Accounted p id event =
      elim (Option-cases (store.write_trace_event p.storage event.trace_id id event)) [
        | inl e ↦ rw (e, store_event) tt
        | inr (r, e) ↦ rw (e, store_event) (unreported p (record p { storage = r.0 }) true _ refl)
      ]

  decide_root-Accounted :
      (p : State) (event : ApmEvent F) (tx : Transaction F) (answer : Bool ⊎ GroupError)
      → OnSome (Accounted p.metrics) (decide_root fl store random p event tx answer)
  unfolding decide_root
  decide_root-Accounted p event tx (inr too_many_trace_groups) = unreported p p false none refl
  decide_root-Accounted p event tx (inr no_matching_policy) = unreported p p false _ refl
  decide_root-Accounted p event tx (inl true) = store_event-Accounted p tx.id event
  decide_root-Accounted p event tx (inl false) =
      elim (Option-cases (store.write_trace_sampled p.storage event.trace_id false)) [
        | inl e ↦ rw (e, decide_root) tt
        | inr (r, e) ↦ rw (e, decide_root) (unreported p (record p { storage = r.0 }) false _ refl)
      ]

  sample_root-Accounted :
      (p : State) (event : ApmEvent F) (tx : Transaction F)
      → OnSome (Accounted p.metrics) (sample_root fl store random p event tx)
  unfolding sample_root
  sample_root-Accounted p event tx =
      elim (Option-cases (sample_trace fl p.groups (random p.drawn) event tx)) [
        | inl e ↦ rw (e, sample_root) tt
        | inr ((groups, answer), e) ↦
            rw (e, sample_root)
              (decide_root-Accounted (record p { groups = groups; drawn = p.drawn + 1 }) event tx
                answer)
      ]

  reported_sampled :
      (p : State)
      → Accounted p.metrics (
        record p { metrics = record p.metrics { sampled = p.metrics.sampled + 1 } },
        verdict true false,
      )
  reported_sampled p = record {
    processed = refl;
    dropped = refl;
    stored = refl;
    reported = omega arith;
    exclusive = refl;
  }

  decide_transaction-Accounted :
      (p : State) (event : ApmEvent F) (tx : Transaction F) (answer : Bool ⊎ StorageError)
      → OnSome (Accounted p.metrics) (decide_transaction fl store random p event tx answer)
  unfolding decide_transaction
  decide_transaction-Accounted p event tx (inl true) = reported_sampled p
  decide_transaction-Accounted p event tx (inl false) = unreported p p false none refl
  decide_transaction-Accounted p event tx (inr not_found) =
      elim (Bool-cases (str_eq event.parent_id "")) [
        | inl root ↦ rw (root, decide_transaction) (sample_root-Accounted p event tx)
        | inr child ↦ rw (child, decide_transaction) (store_event-Accounted p tx.id event)
      ]
  decide_transaction-Accounted p event tx (inr err) = unreported p p false _ refl

  process_transaction-Accounted :
      (p : State) (event : ApmEvent F) (tx : Option (Transaction F))
      → OnSome (Accounted p.metrics) (process_transaction fl store random p event tx)
  unfolding process_transaction
  process_transaction-Accounted p event none = tt
  process_transaction-Accounted p event (some tx) = elim (Bool-cases tx.sampled) [
    | inr off ↦
        rw (off, process_transaction)
          (record {
            processed = refl;
            dropped = refl;
            stored = refl;
            reported = omega arith;
            exclusive = refl;
          })
    | inl on ↦ elim (Option-cases (store.is_trace_sampled p.storage event.trace_id)) [
      | inl e ↦ simp (on, e, process_transaction) tt
      | inr (answer, e) ↦
          simp (on, e, process_transaction) (decide_transaction-Accounted p event tx answer)
    ]
  ]

  decide_span-Accounted :
      (p : State) (event : ApmEvent F) (answer : Bool ⊎ StorageError)
      → OnSome (Accounted p.metrics) (decide_span fl store random p event answer)
  unfolding decide_span
  decide_span-Accounted p event (inl true) = reported_sampled p
  decide_span-Accounted p event (inl false) = unreported p p false none refl
  decide_span-Accounted p event (inr not_found) = elim (Option-cases event.span) [
    | inl e ↦ simp (e, decide_span) tt
    | inr (span, e) ↦ simp (e, decide_span) (store_event-Accounted p span.id event)
  ]
  decide_span-Accounted p event (inr err) = unreported p p false _ refl

  process_span-Accounted :
      (p : State) (event : ApmEvent F)
      → OnSome (Accounted p.metrics) (process_span fl store random p event)
  unfolding process_span
  process_span-Accounted p event =
      elim (Option-cases (store.is_trace_sampled p.storage event.trace_id)) [
        | inl e ↦ rw (e, process_span) tt
        | inr (answer, e) ↦ rw (e, process_span) (decide_span-Accounted p event answer)
      ]

  -- A trace event has a verdict, and any other event is passed over.
  abbrev pub Stepped : State → ApmEvent F → State × Option Verdict → Type 0
  Stepped p event (p', none) = (is_trace_event event ≡ false) × (p' ≡ p)
  Stepped p event (p', some v) =
      (is_trace_event event ≡ true) × Accounted (count_processed fl store random p).metrics (p', v)

  pub step_of :
      (p : State) (event : ApmEvent F) (q : Processor)
      → is_trace_event event ≡ is_trace_processor q
      → OnSome (Stepped p event) (process_event fl store random p event q)
  unfolding process_event
  step_of p event transaction_processor e =
      let counted = count_processed fl store random p in
      let done = process_transaction-Accounted counted event event.transaction in
      elim (Option-cases (process_transaction fl store random counted event event.transaction)) [
        | inl f ↦ simp (f, process_event) tt
        | inr (r, f) ↦
            simp (f, process_event) (e, OnSome-some (Accounted counted.metrics) _ r done f)
      ]
  step_of p event span_processor e =
      let counted = count_processed fl store random p in
      let done = process_span-Accounted counted event in
      elim (Option-cases (process_span fl store random counted event)) [
        | inl f ↦ simp (f, process_event) tt
        | inr (r, f) ↦
            simp (f, process_event) (e, OnSome-some (Accounted counted.metrics) _ r done f)
      ]
  step_of p event no_processor e = (e, refl)
  step_of p event metricset_processor e = (e, refl)
  step_of p event error_processor e = (e, refl)
  step_of p event (other_processor name) e = (e, refl)
