-- ===== src/Sampling/Processor/Decisions/Published.antt =====
-- An event that the processor has stored is published when its trace is sampled.
use apm_server.Prelude.{
  ℕ, ◌+◌, ◌≡◌, refl, ap, subst, sym, ◌∙◌, String, Option, none, some, Bool, true, false, List, [],
  ◌∷◌, ◌⊎◌, inl, inr, length, Member, Option-cases, Bool-cases, str_eq, OnSome, OnSome-some,
}
use apm_server.Model.Float64.{Float64}
use apm_server.Model.Event.{
  ApmEvent, Transaction, Processor, no_processor, transaction_processor, span_processor,
  metricset_processor, error_processor, other_processor,
}
use apm_server.Sampling.Storage.{StorageError, not_found}
use apm_server.Sampling.Groups.{GroupError, too_many_trace_groups, no_matching_policy}
use apm_server.Sampling.Groups.Traces.{sample_trace}
use apm_server.Sampling.EventStore.{EventStore, EventStoreLaws}
use apm_server.Sampling.Processor.{
  Verdict, Running, store_event, decide_root, sample_root, decide_transaction, process_transaction,
  decide_span, process_span, process_event, count_processed, stored_error,
}
use apm_server.Sampling.Processor.Decisions.{
  Decided, publish_events, read_and_publish, decided, receive_decision,
}

module _ (fl : Float64) (store : EventStore fl.F) (random : ℕ → fl.F) where
  open fl use {F}

  abbrev State : Type 0
  State = Running fl store random

  -- The last write to the storage was that of the event.
  record IsStored (event : ApmEvent F) (q : State) : Type 0 where
    before : store.State
    id : String
    written : store.write_trace_event before event.trace_id id event ≡ some (q.storage, none)

  abbrev WhenStored : ApmEvent F → State × Verdict → Type 0
  WhenStored event r = r.1.stored ≡ true → r.1.error ≡ none → IsStored event r.0

  no_error : (e : Option StorageError) → stored_error e ≡ none → e ≡ none
  no_error none h = refl
  no_error (some e) h = cc

  store_event-WhenStored :
      (p : State) (id : String) (event : ApmEvent F)
      → OnSome (WhenStored event) (store_event fl store random p id event)
  unfolding store_event
  store_event-WhenStored p id event =
      elim (Option-cases (store.write_trace_event p.storage event.trace_id id event)) [
        | inl e ↦ rw (e, store_event) tt
        | inr ((s, err), e) ↦
            rw (e, store_event)
              (λ h ok. record {
                before = p.storage;
                id = id;
                written = e ∙ ap (λ o. some (s, o)) (no_error err ok);
              })
      ]

  decide_root-WhenStored :
      (p : State) (event : ApmEvent F) (tx : Transaction F) (answer : Bool ⊎ GroupError)
      → OnSome (WhenStored event) (decide_root fl store random p event tx answer)
  unfolding decide_root
  decide_root-WhenStored p event tx (inr too_many_trace_groups) = λ h ok. cc
  decide_root-WhenStored p event tx (inr no_matching_policy) = λ h ok. cc
  decide_root-WhenStored p event tx (inl true) = store_event-WhenStored p tx.id event
  decide_root-WhenStored p event tx (inl false) =
      elim (Option-cases (store.write_trace_sampled p.storage event.trace_id false)) [
        | inl e ↦ rw (e, decide_root) tt
        | inr (r, e) ↦ rw (e, decide_root) (λ h ok. cc)
      ]

  decide_transaction-WhenStored :
      (p : State) (event : ApmEvent F) (tx : Transaction F) (answer : Bool ⊎ StorageError)
      → OnSome (WhenStored event) (decide_transaction fl store random p event tx answer)
  unfolding decide_transaction sample_root
  decide_transaction-WhenStored p event tx (inl true) = λ h ok. cc
  decide_transaction-WhenStored p event tx (inl false) = λ h ok. cc
  decide_transaction-WhenStored p event tx (inr not_found) =
      elim (Bool-cases (str_eq event.parent_id "")) [
        | inr child ↦ rw (child, decide_transaction) (store_event-WhenStored p tx.id event)
        | inl root ↦ elim (Option-cases (sample_trace fl p.groups (random p.drawn) event tx)) [
          | inl e ↦ rw (root, e, sample_root) tt
          | inr ((groups, answer), e) ↦
              rw (root, e, sample_root)
                (decide_root-WhenStored (record p { groups = groups; drawn = p.drawn + 1 }) event tx
                  answer)
        ]
      ]
  decide_transaction-WhenStored p event tx (inr err) = λ h ok. cc

  process_transaction-WhenStored :
      (p : State) (event : ApmEvent F) (tx : Option (Transaction F))
      → OnSome (WhenStored event) (process_transaction fl store random p event tx)
  unfolding process_transaction
  process_transaction-WhenStored p event none = tt
  process_transaction-WhenStored p event (some tx) = elim (Bool-cases tx.sampled) [
    | inr off ↦ simp (off, process_transaction) (λ h ok. cc)
    | inl on ↦ elim (Option-cases (store.is_trace_sampled p.storage event.trace_id)) [
      | inl e ↦ simp (on, e, process_transaction) tt
      | inr (answer, e) ↦
          simp (on, e, process_transaction) (decide_transaction-WhenStored p event tx answer)
    ]
  ]

  decide_span-WhenStored :
      (p : State) (event : ApmEvent F) (answer : Bool ⊎ StorageError)
      → OnSome (WhenStored event) (decide_span fl store random p event answer)
  unfolding decide_span
  decide_span-WhenStored p event (inl true) = λ h ok. cc
  decide_span-WhenStored p event (inl false) = λ h ok. cc
  decide_span-WhenStored p event (inr not_found) = elim (Option-cases event.span) [
    | inl e ↦ simp (e, decide_span) tt
    | inr (span, e) ↦ simp (e, decide_span) (store_event-WhenStored p span.id event)
  ]
  decide_span-WhenStored p event (inr err) = λ h ok. cc

  abbrev WhenJudged : ApmEvent F → State × Option Verdict → Type 0
  WhenJudged event (q, none) = Unit
  WhenJudged event (q, some v) = WhenStored event (q, v)

  process_event-WhenJudged :
      (p : State) (event : ApmEvent F) (q : Processor)
      → OnSome (WhenJudged event) (process_event fl store random p event q)
  unfolding process_event process_span
  process_event-WhenJudged p event transaction_processor =
      let counted = count_processed fl store random p in
      let done = process_transaction-WhenStored counted event event.transaction in
      elim (Option-cases (process_transaction fl store random counted event event.transaction)) [
        | inl f ↦ simp (f, process_event) tt
        | inr (r, f) ↦ simp (f, process_event) (OnSome-some (WhenStored event) _ r done f)
      ]
  process_event-WhenJudged p event span_processor =
      let counted = count_processed fl store random p in
      elim (Option-cases (store.is_trace_sampled p.storage event.trace_id)) [
        | inl e ↦ rw (e, process_span) tt
        | inr (answer, e) ↦
            let done = decide_span-WhenStored counted event answer in
            elim (Option-cases (decide_span fl store random counted event answer)) [
              | inl f ↦ rw (e, f, process_span) tt
              | inr (r, f) ↦ rw (e, f, process_span) (OnSome-some (WhenStored event) _ r done f)
            ]
      ]
  process_event-WhenJudged p event no_processor = tt
  process_event-WhenJudged p event metricset_processor = tt
  process_event-WhenJudged p event error_processor = tt
  process_event-WhenJudged p event (other_processor name) = tt

  publish_events-Member :
      (q : State) (x : ApmEvent F) (events : List (ApmEvent F))
      → Member x events
      → (d : Decided fl store random) × (publish_events fl store random q false events ≡ some d)
        × (d.error ≡ none)
        × (d.published ≡ events)
        × (d.state.metrics.sampled ≡ q.metrics.sampled + length events)
  unfolding publish_events
  publish_events-Member q x [] m = elim m [ ]
  publish_events-Member q x (y ∷ events) m = (_, refl, refl, refl, refl)

  -- An event that the processor stores without an error is published if the next thing that happens
  -- is that its trace is sampled at this server and the storage answers the write of the decision and
  -- the read of the trace's events without an error. The storage satisfies its laws, and its encoding
  -- keeps the event. The events published are those read, and they are counted as sampled.
  pub process_event-receive_decision :
      (IsKept : ApmEvent F → Type 0) (laws : EventStoreLaws store IsKept)
      (p q : Running fl store random) (event : ApmEvent F) (v : Verdict) (s2 s3 : store.State)
      (events : List (ApmEvent F))
      → IsKept event
      → process_event fl store random p event event.processor ≡ some (q, some v)
      → v.stored ≡ true
      → v.error ≡ none
      → store.write_trace_sampled q.storage event.trace_id true ≡ some (s2, none)
      → store.read_trace_events s2 event.trace_id [] ≡ some (s3, (events, none))
      → (d : Decided fl store random) × (receive_decision fl store random q false event.trace_id
          ≡ some d)
        × (d.error ≡ none)
        × Member event d.published
        × (d.published ≡ events)
        × (d.state.metrics.sampled ≡ q.metrics.sampled + length events)
  unfolding receive_decision decided read_and_publish
  process_event-receive_decision IsKept laws p q event v s2 s3 events kept h stored ok written
        read =
      let judged =
        OnSome-some (WhenJudged event) _ (q, some v)
          (process_event-WhenJudged p event event.processor) h in
      let it = judged stored ok in
      let found =
        laws.event it.before q.storage s2 s3 event.trace_id it.id true event [] events kept
          it.written written read in
      let (d, e, fine, same, counted) =
        publish_events-Member (record q { storage = s3 }) event events found in
      (
        d,
        rw (written, read, receive_decision) e,
        fine,
        subst (Member event) (sym same) found,
        same,
        counted,
      )
