-- ===== src/TxMetrics/Aggregator/Batches.antt =====
-- What becomes of a transaction that is aggregated.
use native.Mathlib.Decide.{dec_lt}
use apm_server.Prelude.{
  ℕ, ◌+◌, ◌/◌, ◌<◌, ◌≡◌, refl, ap, ◌∙◌, sym, subst, inl, inr, Option, none, some, Bool, true, false,
  length, arith, if◌then◌else◌, Option-cases, pos, nat_eq, beq_refl, is_some,
}
use apm_server.Model.Float64.{Float64}
use apm_server.Model.Event.{ApmEvent, Transaction, zero_event}
use apm_server.Prelude.Maps.{lookup}
use apm_server.TxMetrics.Metrics.{
  Histograms, Metrics, Update, updated, refused, panicked, update, fresh,
}
use apm_server.TxMetrics.Metrics.Groups.{Inv, view}
use apm_server.TxMetrics.Metrics.Updates.{update_known, update_new, update_full}
use apm_server.TxMetrics.Key.{
  TransactionAggregationKey, transaction_key_eq, make_transaction_aggregation_key, Hasher, key_eq,
}
use apm_server.TxMetrics.Aggregator.{
  Aggregator, key_hash, aggregate_transaction, update_transaction_metrics, single_metricset, nonneg,
  clamp_duration,
}

module _ (fl : Float64) (histograms : Histograms) (hasher : Hasher) (deref : ℕ → Bool) where
  open fl use {F, of_int, mul, leb as leb_float, round}
  open histograms use {Histogram, record_values}

  abbrev pub Agg : Type 0
  Agg = Aggregator fl histograms hasher deref

  abbrev pub Groups : Type 0
  Groups = Metrics (key_hash fl histograms hasher deref) histograms

  abbrev pub IsSound : Groups → Type 0
  IsSound = Inv (key_hash fl histograms hasher deref) histograms

  abbrev pub group : Groups → TransactionAggregationKey → Option Histogram
  group = view (key_hash fl histograms hasher deref) histograms

  module _ (a : Agg) (event : ApmEvent F) (tx : Transaction F) where
    abbrev pub key_of : TransactionAggregationKey
    key_of = make_transaction_aggregation_key event tx (nonneg a.config.metrics_interval)

    abbrev pub value_of : ℕ
    value_of = clamp_duration event.duration / 1000

    abbrev pub count_of : ℕ
    count_of = round (mul tx.representative_count (of_int (pos 1000)))

    abbrev figures : ℕ
    figures = nonneg a.config.hdr_histogram_significant_figures

    abbrev updating : Update (key_hash fl histograms hasher deref) histograms
    updating =
        update (key_hash fl histograms hasher deref) histograms figures a.active key_of value_of
          count_of

    -- The transaction is in its group's histogram.
    pub data Aggregated (a' : Agg) (ms : ApmEvent F) : Type 0 where
      recorded :
          (h : Histogram)
          → group a'.active key_of ≡ some (record_values h value_of count_of)
          → ms ≡ zero_event F
          → Aggregated a' ms
      single :
          a'.active ≡ a.active
          → group a.active key_of ≡ none
          → a.active.entries ≡ length a.active.space
          → a'.overflowed ≡ a.overflowed + 1
          → ms ≡ single_metricset fl histograms hasher deref key_of tx event.duration
          → Aggregated a' ms

    module _ (a' : Agg) (ms : ApmEvent F) (is_tx : event.transaction ≡ some tx)
        (positive : leb_float tx.representative_count (of_int (pos 0)) ≡ false)
        (done : aggregate_transaction fl histograms hasher deref a event ≡ some (a', ms)) where
      after_updated : (m : Groups) → updating ≡ updated m → (a'.active ≡ m) × (ms ≡ zero_event F)
      unfolding aggregate_transaction update_transaction_metrics
      after_updated m u = (ground arith, ground arith)

      after_refused :
          updating ≡ refused
          → (a'.active ≡ a.active)
            × (a'.overflowed ≡ a.overflowed + 1)
            × (ms ≡ single_metricset fl histograms hasher deref key_of tx event.duration)
      unfolding aggregate_transaction update_transaction_metrics
      after_refused u = (ground arith, ground arith, ground arith)

      after_panicked : ¬ (updating ≡ panicked)
      unfolding aggregate_transaction update_transaction_metrics
      after_panicked u = ground arith

      when_recorded :
          (m : Groups) (h : Histogram)
          → updating ≡ updated m
          → IsSound m
          → group m key_of ≡ (
              if key_eq key_of key_of
              then some (record_values h value_of count_of)
              else group a.active key_of)
          → IsSound a'.active × Aggregated a' ms
      when_recorded m h u inv shown =
          let (same, nothing) = after_updated m u in
          (
            subst IsSound (sym same) inv,
            recorded h
                (ap (λ x. group x key_of) same ∙ shown ∙ rw (beq_refl transaction_key_eq key_of))
                nothing,
          )

      when_full :
          IsSound a.active
          → group a.active key_of ≡ none
          → a.active.entries ≡ length a.active.space
          → (o : Bool) → updating ≡ (if o then panicked else refused)
          → IsSound a'.active × Aggregated a' ms
      when_full v new full true u = absurd (after_panicked u)
      when_full v new full false u =
          let (same, more, one) = after_refused u in
          (subst IsSound (sym same) v, single same new full more one)

  -- A transaction with a positive count that is aggregated without a panic is not lost: either its
  -- duration, clamped, and its scaled count are recorded in the group of its key, or there is no
  -- group for its key and no slot left, and it is counted as overflowed and gets a metricset of its
  -- own. The invariant is kept.
  pub aggregate_transaction-Aggregated :
      (a a' : Agg) (event ms : ApmEvent F) (tx : Transaction F)
      → IsSound a.active
      → event.transaction ≡ some tx
      → leb_float tx.representative_count (of_int (pos 0)) ≡ false
      → aggregate_transaction fl histograms hasher deref a event ≡ some (a', ms)
      → IsSound a'.active × Aggregated a event tx a' ms
  aggregate_transaction-Aggregated a a' event ms tx v is_tx positive done =
      let key = key_of a event tx in
      let value = value_of a event tx in
      let count = count_of a event tx in
      let key_h = key_hash fl histograms hasher deref in
      elim (Option-cases (group a.active key)) [
        | inr (h, known) ↦
            let (m, u, inv, _, shown) =
              update_known key_h histograms (figures a event tx) a.active key value count h v
                known in
            when_recorded a event tx a' ms is_tx positive done m h u inv (shown key)
        | inl new ↦ elim (dec_lt a.active.entries (length a.active.space)) [
          | yes room ↦
              let (m, old, u, inv, _, shown) =
                update_new key_h histograms (figures a event tx) a.active key value count v new
                  room in
              when_recorded a event tx a' ms is_tx positive done m
                (fresh key_h histograms (figures a event tx) old) u inv (shown key)
          | no crowded ↦
              let full : a.active.entries ≡ length a.active.space = omega (arith, v.room) in
              when_full a event tx a' ms is_tx positive done v new full
                (is_some (lookup (key_h key) a.active.m))
                (update_full key_h histograms (figures a event tx) a.active key value count v new
                  full)
        ]
      ]

  -- While a slot is left, a transaction with a positive count is always aggregated, without a panic
  -- and without a metricset of its own: its duration, clamped, and its scaled count are recorded in
  -- the group of its key, and the invariant is kept.
  pub aggregate_transaction_room :
      (a : Agg) (event : ApmEvent F) (tx : Transaction F)
      → IsSound a.active
      → event.transaction ≡ some tx
      → leb_float tx.representative_count (of_int (pos 0)) ≡ false
      → a.active.entries < length a.active.space
      → (a' : Agg) × (h : Histogram) × (aggregate_transaction fl histograms hasher deref a event
          ≡ some (a', zero_event F))
        × IsSound a'.active
        × (a'.overflowed ≡ a.overflowed)
        × (group a'.active (key_of a event tx)
            ≡ some (record_values h (value_of a event tx) (count_of a event tx)))
  unfolding aggregate_transaction update_transaction_metrics
  aggregate_transaction_room a event tx v is_tx positive room =
      let key = key_of a event tx in
      let value = value_of a event tx in
      let count = count_of a event tx in
      let key_h = key_hash fl histograms hasher deref in
      elim (Option-cases (group a.active key)) [
        | inr (h, known) ↦
            let (m, u, inv, _, shown) =
              update_known key_h histograms (figures a event tx) a.active key value count h v
                known in
            (
              record a { active = m },
              h,
              ground (arith, u),
              inv,
              refl,
              shown key ∙ rw (beq_refl transaction_key_eq key) refl,
            )
        | inl new ↦
            let (m, old, u, inv, _, shown) =
              update_new key_h histograms (figures a event tx) a.active key value count v new
                room in
            (
              record a { active = m },
              fresh key_h histograms (figures a event tx) old,
              ground (arith, u),
              inv,
              refl,
              shown key ∙ rw (beq_refl transaction_key_eq key) refl,
            )
      ]
