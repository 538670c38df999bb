-- ===== src/TxMetrics/Aggregator/Overflow.antt =====
-- What a batch is left with when transactions find no group.
use apm_server.Prelude.{
  All-append, ℕ, ◌+◌, ◌≡◌, ◌≢◌, sym, subst, ◌⊎◌, none, some, List, [], ◌∷◌, ◌++◌, length,
  length-append, All, arith, Option-cases, Bool, inl, inr,
}
use apm_server.Model.Float64.{Float64}
use apm_server.Model.Event.{ApmEvent, metricset_processor}
use apm_server.TxMetrics.Metrics.{Histograms}
use apm_server.TxMetrics.Key.{Hasher}
use apm_server.TxMetrics.Aggregator.{
  Aggregator, aggregate_transaction, single_metricset, make_metricset, process_event,
  process_events, process_batch,
}

module _ (fl : Float64) (histograms : Histograms) (hasher : Hasher) (deref : ℕ → Bool) where
  open fl use {F}

  abbrev pub Agg : Type 0
  Agg = Aggregator fl histograms hasher deref

  -- A metricset that counts a transaction of its own.
  abbrev pub IsExtra : ApmEvent F → Type 0
  IsExtra event = (event.processor ≡ metricset_processor) × (event.metricset ≢ none)

  abbrev Counts : Agg → Agg → ApmEvent F → Type 0
  Counts a a' ms =
      ((ms.metricset ≡ none) × (a'.overflowed ≡ a.overflowed))
      ⊎ (IsExtra ms × (a'.overflowed ≡ a.overflowed + 1))

  aggregate_transaction-Counts :
      (a a' : Agg) (event ms : ApmEvent F)
      → aggregate_transaction fl histograms hasher deref a event ≡ some (a', ms)
      → Counts a a' ms
  unfolding aggregate_transaction single_metricset make_metricset
  aggregate_transaction-Counts a a' event ms done = ground arith

  abbrev Left : Agg → Agg → List (ApmEvent F) → Type 0
  Left a a' extra = (a'.overflowed ≡ a.overflowed + length extra) × All IsExtra extra

  process_event-overflowed :
      (a a' : Agg) (event : ApmEvent F) (extra : List (ApmEvent F))
      → process_event fl histograms hasher deref a event ≡ some (a', extra)
      → Left a a' extra
  unfolding process_event
  process_event-overflowed a a' event extra done =
      elim (Option-cases (aggregate_transaction fl histograms hasher deref a event)) [
        | inl p ↦ ground arith
        | inr ((b, ms), p) ↦ ground (arith, aggregate_transaction-Counts a b event ms p)
      ]

  process_events-overflowed :
      (a a' : Agg) (b extra : List (ApmEvent F))
      → process_events fl histograms hasher deref a b ≡ some (a', extra)
      → Left a a' extra
  unfolding process_events
  process_events-overflowed a a' [] extra done = ground arith
  process_events-overflowed a a' (event ∷ rest) extra done =
      elim (Option-cases (process_event fl histograms hasher deref a event)) [
        | inl p ↦ cc
        | inr ((b, xs), p) ↦
            elim (Option-cases (process_events fl histograms hasher deref b rest)) [
              | inl q ↦ ground arith
              | inr ((c, ys), q) ↦
                  let (xs_count, xs_all) = process_event-overflowed a b event xs p in
                  let (ys_count, ys_all) = process_events-overflowed b c rest ys q in
                  let total : c.overflowed ≡ a.overflowed + length (xs ++ ys) =
                    omega (arith, length-append xs ys) in
                  let all = All-append IsExtra xs ys xs_all ys_all in
                  let same : c ≡ a' = ground arith in
                  let joined : xs ++ ys ≡ extra = ground arith in
                  subst (λ r. Left a r extra) same (subst (λ x. Left a c x) joined (total, all))
            ]
      ]

  -- A batch that is processed without a panic is the batch that came with metricsets appended, each
  -- with the metricset processor and a metricset, as many as the overflow counter rose by.
  pub process_batch-overflowed :
      (a a' : Agg) (b b' : List (ApmEvent F))
      → process_batch fl histograms hasher deref a b ≡ some (a', b')
      → (extra : List (ApmEvent F)) × (b' ≡ b ++ extra)
        × (a'.overflowed ≡ a.overflowed + length extra)
        × All IsExtra extra
  unfolding process_batch
  process_batch-overflowed a a' b b' done =
      elim (Option-cases (process_events fl histograms hasher deref a b)) [
        | inl p ↦ ground arith
        | inr ((c, ys), p) ↦
            let same : c ≡ a' = ground arith in
            let joined : b ++ ys ≡ b' = ground arith in
            let (count, all) = process_events-overflowed a c b ys p in
            (ys, sym joined, subst (λ r. r.overflowed ≡ a.overflowed + length ys) same count, all)
      ]
