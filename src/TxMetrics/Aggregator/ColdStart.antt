-- ===== src/TxMetrics/Aggregator/ColdStart.antt =====
-- Two keys with one hash when every slot is taken, and how the cold start of a function makes them.
use apm_server.Prelude.{
  ℕ, ◌≡◌, ap, ◌∙◌, sym, none, some, Bool, false, pos, length, is_some, arith, nat_eq,
}
use apm_server.Prelude.Maps.{lookup}
use apm_server.Model.Float64.{Float64}
use apm_server.Model.Event.{ApmEvent, Transaction}
use apm_server.TxMetrics.Metrics.{Histograms}
use apm_server.TxMetrics.Metrics.Updates.{update_full, lookup-group}
use apm_server.TxMetrics.Key.{
  TransactionAggregationKey, transaction_key_eq, make_transaction_aggregation_key, Hasher,
  hash_cold_start,
}
use apm_server.TxMetrics.Aggregator.{
  key_hash, aggregate_transaction, update_transaction_metrics, nonneg,
}
use apm_server.TxMetrics.Aggregator.Batches.{Agg, IsSound, group, key_of, value_of, count_of}

module _ (fl : Float64) (histograms : Histograms) (hasher : Hasher) (deref : ℕ → Bool) where
  open fl use {F, of_int, leb as leb_float}
  open histograms use {Histogram}

  -- The event, its cold start stored at another address.
  abbrev pub moved : ApmEvent F → ℕ → ApmEvent F
  moved event p = record event { faas = record event.faas { coldstart = some p } }

  -- When every slot is taken, a transaction whose key has no group panics if its key shares the hash
  -- of a key that has one.
  pub collision_panics :
      (a : Agg fl histograms hasher deref) (event : ApmEvent F) (tx : Transaction F)
      (k : TransactionAggregationKey) (h : Histogram)
      → IsSound fl histograms hasher deref a.active
      → event.transaction ≡ some tx
      → leb_float tx.representative_count (of_int (pos 0)) ≡ false
      → a.active.entries ≡ length a.active.space
      → group fl histograms hasher deref a.active (key_of fl histograms hasher deref a event tx)
        ≡ none
      → group fl histograms hasher deref a.active k ≡ some h
      → key_hash fl histograms hasher deref k
        ≡ key_hash fl histograms hasher deref (key_of fl histograms hasher deref a event tx)
      → aggregate_transaction fl histograms hasher deref a event ≡ none
  unfolding aggregate_transaction update_transaction_metrics
  collision_panics a event tx k h v is_tx positive full new known same =
      let key = key_of fl histograms hasher deref a event tx in
      let key_h = key_hash fl histograms hasher deref in
      ground (
        arith,
        update_full key_h histograms (nonneg a.config.hdr_histogram_significant_figures) a.active
            key (value_of fl histograms hasher deref a event tx)
            (count_of fl histograms hasher deref a event tx) v new full,
        ap (λ x. is_some (lookup x a.active.m)) (sym same)
            ∙ lookup-group key_h histograms a.active k h v known,
      )

  -- When every slot is taken, a transaction of a function panics if an equal one, whose cold start
  -- has the same value at another address, has a group and it has none.
  pub cold_start_panics :
      (a : Agg fl histograms hasher deref) (event : ApmEvent F) (tx : Transaction F) (p q : ℕ)
      (h : Histogram)
      → IsSound fl histograms hasher deref a.active
      → event.transaction ≡ some tx
      → leb_float tx.representative_count (of_int (pos 0)) ≡ false
      → a.active.entries ≡ length a.active.space
      → deref p ≡ deref q
      → group fl histograms hasher deref a.active
          (key_of fl histograms hasher deref a (moved event p) tx)
        ≡ some h
      → group fl histograms hasher deref a.active
          (key_of fl histograms hasher deref a (moved event q) tx)
        ≡ none
      → aggregate_transaction fl histograms hasher deref a (moved event q) ≡ none
  unfolding make_transaction_aggregation_key
  cold_start_panics a event tx p q h v is_tx positive full same known new =
      collision_panics a (moved event q) tx (key_of fl histograms hasher deref a (moved event p) tx)
        h v is_tx positive full new known
        (hash_cold_start hasher deref (key_of fl histograms hasher deref a event tx) p q same)
