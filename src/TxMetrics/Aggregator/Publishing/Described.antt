-- ===== src/TxMetrics/Aggregator/Publishing/Described.antt =====
-- What the metricset of a group says.
use apm_server.Prelude.{
  ℕ, ◌+◌, ◌-◌, ◌%◌, ◌≡◌, refl, ap, some, Bool, List, [], ◌∷◌, map, pos, ◌==◌, if◌then◌else◌, inl,
  inr, Bool-cases, arith,
}
use apm_server.Model.Float64.{Float64}
use apm_server.Model.Event.{ApmEvent, Transaction, Metricset, metricset_processor, truncate}
use apm_server.TxMetrics.Metrics.{Bracket, Histograms}
use apm_server.TxMetrics.Key.{TransactionAggregationKey, make_transaction_aggregation_key, Hasher}
use apm_server.TxMetrics.Aggregator.{histogram_buckets, make_metricset, key_hash}

-- The brackets with a count.
abbrev in_use : List Bracket → List Bracket
in_use [] = []
in_use (b ∷ bs) = if b.count == 0 then in_use bs else b ∷ in_use bs

abbrev sum : List ℕ → ℕ
sum [] = 0
sum (n ∷ ns) = n + sum ns

module _ (fl : Float64) (histograms : Histograms) where
  open fl use {F, of_int, div, round}
  open histograms use {Histogram, distribution}

  abbrev scaled_counts : List Bracket → List ℕ
  scaled_counts bs = map (λ b. round (div (of_int (pos b.count)) (of_int (pos 1000)))) (in_use bs)

  abbrev upper_values : List Bracket → List F
  upper_values bs = map (λ b. of_int (pos b.to)) (in_use bs)

  -- An event that describes a group. A metricset has no parent, so that its transaction says whether
  -- the group's were roots.
  pub record Describes (k : TransactionAggregationKey) (x : Histogram) (e : ApmEvent F)
      : Type 0 where
    tx : Transaction F
    metricset : Metricset
    processor : e.processor ≡ metricset_processor
    has_transaction : e.transaction ≡ some tx
    has_metricset : e.metricset ≡ some metricset
    same_key : record (make_transaction_aggregation_key e tx 1) { trace_root = tx.root } ≡ k
    counts : tx.duration_histogram.counts ≡ scaled_counts (distribution x)
    values : tx.duration_histogram.values ≡ upper_values (distribution x)
    total : metricset.doc_count ≡ sum (scaled_counts (distribution x))

module _ (fl : Float64) (histograms : Histograms) (hasher : Hasher) (deref : ℕ → Bool) where
  open fl use {F}
  open histograms use {Histogram, distribution}

  abbrev Buckets : Type 0
  Buckets = ℕ × List ℕ × List F

  histogram_buckets_lem :
      (bs : List Bracket)
      → histogram_buckets fl histograms hasher deref bs ≡ (
        sum (scaled_counts fl histograms bs),
        scaled_counts fl histograms bs,
        upper_values fl histograms bs,
      )
  unfolding histogram_buckets
  histogram_buckets_lem [] = refl
  histogram_buckets_lem (b ∷ bs) = elim (Bool-cases (b.count == 0)) [
    | inl p ↦ rw p (histogram_buckets_lem bs)
    | inr p ↦ rw (p, histogram_buckets_lem bs) refl
  ]

  -- The metricset of a group: what its histogram counts, under its key and the hash of the key.
  abbrev pub metricset_of : TransactionAggregationKey → Histogram → ApmEvent F
  metricset_of k x =
      let (total, counts, values) = histogram_buckets fl histograms hasher deref (distribution x) in
      make_metricset fl histograms hasher deref k (key_hash fl histograms hasher deref k) total
        counts values

  pub metricset_of-Describes :
      (k : TransactionAggregationKey) (x : Histogram)
      → Describes fl histograms k x (metricset_of k x)
  unfolding make_metricset make_transaction_aggregation_key truncate
  metricset_of-Describes k x =
      let buckets = histogram_buckets_lem (distribution x) in
      let instant : k.timestamp - k.timestamp % 1 ≡ k.timestamp = omega arith in
      record {
        tx = _;
        metricset = _;
        processor = refl;
        has_transaction = refl;
        has_metricset = refl;
        same_key = ap (λ t. record k { timestamp = t }) instant;
        counts = ap (λ r. r.1) buckets;
        values = ap (λ r. r.2) buckets;
        total = ap (λ r. r.0) buckets;
      }
