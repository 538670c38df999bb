-- ===== src/TxMetrics/Aggregator.antt =====
-- txmetrics/aggregator.go: the aggregator over the metrics of two periods. Locks are not part of the
-- state: an operation is one step. A panic is `none`.
pub mod Batches
pub mod ColdStart
pub mod Overflow
pub mod Publishing
use Prim.Native.String.{◌++◌}
use apm_server.Prelude.{
  ℕ, zero, suc, ◌+◌, ◌*◌, ◌/◌, ◌%◌, String, Option, none, some, ◌>>=◌, Bool, true, false, ◌||◌, not,
  List, [], ◌∷◌, ◌==◌, ltb, leb, if◌then◌else◌, get_elem?, ℤ, pos, negsuc, length, nat_eq,
}
use apm_server.Prelude.{◌++◌ as append}
use apm_server.Model.Float64.{Float64}
use apm_server.Model.Event.{
  ApmEvent, Transaction, Processor, no_processor, transaction_processor, metricset_processor,
  zero_event, Metricset,
}
use apm_server.TxMetrics.Metrics.{
  Bracket, Histograms, Entry, Metrics, Update, updated, refused, panicked, update, new_metrics,
}
use apm_server.TxMetrics.Key.{
  TransactionAggregationKey, transaction_key_eq, make_transaction_aggregation_key, Hasher, hash,
}

-- `AggregatorConfig`, without the logger; whether a batch processor is given.
pub record AggregatorConfig : Type 0 where
  pub has_batch_processor : Bool
  pub max_transaction_groups : ℤ
  pub metrics_interval : ℤ
  pub hdr_histogram_significant_figures : ℤ

abbrev pub nonneg : ℤ → ℕ
nonneg (pos n) = n
nonneg (negsuc n) = 0

is_positive : ℤ → Bool
is_positive n = ltb 0 (nonneg n)

-- `Validate`: the error's text, if any.
unfoldable pub validate : AggregatorConfig → Option String
unfolding is_positive
validate config =
    if not config.has_batch_processor
    then some "BatchProcessor unspecified"
    else (if not (is_positive config.max_transaction_groups)
        then some "MaxTransactionGroups unspecified or negative"
        else (if not (is_positive config.metrics_interval)
            then some "MetricsInterval unspecified or negative"
            else (if not (is_positive config.hdr_histogram_significant_figures)
                  || ltb 5 (nonneg config.hdr_histogram_significant_figures)
                then some "HDRHistogramSignificantFigures outside range [1,5]"
                else none)))

-- `d.Microseconds()`, which rounds towards zero.
unfoldable pub microseconds : ℤ → ℤ
microseconds (pos n) = pos (n / 1000)
microseconds (negsuc n) = elim (suc n / 1000) [ zero ↦ pos 0 | suc k ↦ negsuc k ]

-- The clamping of a duration to [minDuration, maxDuration], in nanoseconds: from 0 to one hour.
unfoldable pub clamp_duration : ℤ → ℕ
clamp_duration (negsuc n) = 0
clamp_duration (pos n) = if ltb 3_600_000_000_000 n then 3_600_000_000_000 else n

hex_digit : ℕ → String
hex_digit n = elim (get_elem? digits n) [ none ↦ "" | some d ↦ d ]
  where
    digits : List String
    digits =
        "0" ∷ "1" ∷ "2" ∷ "3" ∷ "4" ∷ "5" ∷ "6" ∷ "7" ∷ "8" ∷ "9" ∷ "a" ∷ "b" ∷ "c" ∷ "d" ∷ "e"
        ∷ "f" ∷ []

hex_from : ℕ → ℕ → String → String
unfolding hex_digit
hex_from zero n text = text
hex_from (suc fuel) n text =
    let rest = hex_from fuel (n / 16) (hex_digit (n % 16) ++ text) in
    if ltb n 16 then hex_digit n ++ text else rest

-- `%x` of a uint64, which has at most 16 digits.
unfoldable pub hex : ℕ → String
unfolding hex_from
hex n = hex_from 16 n ""

module _ (fl : Float64) (histograms : Histograms) (hasher : Hasher) (deref : ℕ → Bool) where
  open fl use {F, of_int, mul, div, leb as leb_float, ltb as ltb_float, round}
  open histograms use {Histogram, distribution}

  abbrev pub key_hash : TransactionAggregationKey → ℕ
  key_hash = hash hasher deref

  abbrev pub Groups : Type 0
  Groups = Metrics key_hash histograms

  pub record Aggregator : Type 0 where
    pub config : AggregatorConfig
    pub overflowed : ℕ
    pub active : Groups
    pub inactive : Groups

  -- `NewAggregator`
  unfoldable pub new_aggregator : AggregatorConfig → Option Aggregator
  new_aggregator config = elim (validate config) [
    | some reason ↦ none
    | none ↦ some (record {
      config = config;
      overflowed = 0;
      active = new_metrics key_hash histograms (nonneg config.max_transaction_groups);
      inactive = new_metrics key_hash histograms (nonneg config.max_transaction_groups);
    })
  ]

  unfoldable pub timeseries_instance_id : TransactionAggregationKey → ℕ → String
  unfolding hex
  timeseries_instance_id key h = key.service_name ++ ":" ++ key.transaction_name ++ ":" ++ hex h

  unfoldable pub make_metricset : TransactionAggregationKey → ℕ → ℕ → List ℕ → List F → ApmEvent F
  unfolding timeseries_instance_id
  make_metricset key h total_count counts values = record {
    timestamp = key.timestamp;
    processor = metricset_processor;
    agent_name = key.agent_name;
    container_id = key.container_id;
    kubernetes_pod_name = key.kubernetes_pod_name;
    service = record {
      name = key.service_name;
      version = key.service_version;
      environment = key.service_environment;
      node_name = key.service_node_name;
      runtime = record { name = key.service_runtime_name; version = key.service_runtime_version };
      language = record {
        name = key.service_language_name;
        version = key.service_language_version;
      };
    };
    cloud = record {
      account_id = key.cloud_account_id;
      account_name = key.cloud_account_name;
      availability_zone = key.cloud_availability_zone;
      machine_type = key.cloud_machine_type;
      project_id = key.cloud_project_id;
      project_name = key.cloud_project_name;
      provider = key.cloud_provider;
      region = key.cloud_region;
      service_name = key.cloud_service_name;
    };
    host = record { hostname = key.hostname; os_platform = key.host_os_platform };
    outcome = key.event_outcome;
    duration = pos 0;
    trace_id = "";
    parent_id = "";
    faas = record {
      id = key.faas_id;
      coldstart = key.faas_coldstart;
      trigger_type = key.faas_trigger_type;
      name = key.faas_name;
      version = key.faas_version;
    };
    transaction = some (record {
      id = "";
      name = key.transaction_name;
      type = key.transaction_type;
      result = key.transaction_result;
      sampled = false;
      duration_histogram = record { values = values; counts = counts };
      dropped_spans_stats = [];
      representative_count = of_int (pos 0);
      root = key.trace_root;
    });
    span = none;
    metricset = some (record {
      name = "transaction";
      doc_count = total_count;
      timeseries_instance_id = timeseries_instance_id key h;
    });
    others = "";
  }

  -- `histogramBuckets`: the total count, and the counts and values of the brackets in use.
  unfoldable pub histogram_buckets : List Bracket → ℕ × List ℕ × List F
  histogram_buckets [] = (0, [], [])
  histogram_buckets (b ∷ bs) =
      let (total, counts, values) = histogram_buckets bs in
      let count = round (div (of_int (pos b.count)) (of_int (pos 1000))) in
      if b.count == 0
      then (total, counts, values)
      else (count + total, count ∷ counts, of_int (pos b.to) ∷ values)

  unfoldable pub transaction_count : Transaction F → F
  transaction_count tx =
      if ltb_float (of_int (pos 0)) tx.representative_count
      then tx.representative_count
      else of_int (pos 1)

  -- `updateTransactionMetrics` on the active metrics.
  unfoldable pub update_transaction_metrics :
      Aggregator → TransactionAggregationKey → F → ℤ → Update key_hash histograms
  update_transaction_metrics a key count duration =
      update key_hash histograms (nonneg a.config.hdr_histogram_significant_figures) a.active key
        (clamp_duration duration / 1000) (round (mul count (of_int (pos 1000))))

  -- The metricset for a transaction that found no group.
  unfoldable pub single_metricset : TransactionAggregationKey → Transaction F → ℤ → ApmEvent F
  unfolding transaction_count
  single_metricset key tx duration =
      let count = round (transaction_count tx) in
      make_metricset key (key_hash key) count (count ∷ []) (of_int (microseconds duration) ∷ [])

  unfoldable pub aggregate_transaction : Aggregator → ApmEvent F → Option (Aggregator × ApmEvent F)
  aggregate_transaction a event = elim event.transaction [
    | none ↦ none
    | some tx ↦
        let key = make_transaction_aggregation_key event tx (nonneg a.config.metrics_interval) in
        if leb_float tx.representative_count (of_int (pos 0))
        then some (a, zero_event F)
        else (elim (update_transaction_metrics a key tx.representative_count event.duration) [
          | updated m ↦ some (record a { active = m }, zero_event F)
          | refused ↦
              some
                (record a { overflowed = a.overflowed + 1 }, single_metricset key tx event.duration)
          | panicked ↦ none
        ])
  ]

  is_transaction : Processor → Bool
  is_transaction transaction_processor = true
  is_transaction _ = false

  has_metricset : Option Metricset → Bool
  has_metricset none = false
  has_metricset (some m) = true

  -- One iteration of the loop of `ProcessBatch`: the metricset to append, if any.
  unfoldable pub process_event : Aggregator → ApmEvent F → Option (Aggregator × List (ApmEvent F))
  unfolding is_transaction has_metricset
  process_event a event = elim (is_transaction event.processor) [
    | true ↦ do
      (a', metricset_event) ← aggregate_transaction a event
      some (a', if has_metricset metricset_event.metricset then metricset_event ∷ [] else [])
    | false ↦ some (a, [])
  ]

  -- The loop over the events that the batch holds at the start: the metricsets to append, in order.
  unfoldable pub process_events :
      Aggregator → List (ApmEvent F) → Option (Aggregator × List (ApmEvent F))
  process_events a [] = some (a, [])
  process_events a (event ∷ events) = do
    (a', metricset_event) ← process_event a event
    (a'', rest) ← process_events a' events
    some (a'', append metricset_event rest)

  unfoldable pub process_batch :
      Aggregator → List (ApmEvent F) → Option (Aggregator × List (ApmEvent F))
  unfolding process_events
  process_batch a b = do (a', metricsets) ← process_events a b; some (a', append b metricsets)

  -- The metricset of one group; a pointer outside of the groups in use would have none.
  unfoldable pub group_metricset :
      ℕ → Option TransactionAggregationKey → Option Histogram → List (ApmEvent F)
  unfolding histogram_buckets
  group_metricset h (some key) (some histogram) =
      let (total, counts, values) = histogram_buckets (distribution histogram) in
      make_metricset key h total counts values ∷ []
  group_metricset h _ _ = []

  unfoldable pub entry_metricset : ℕ → Option (Entry key_hash histograms) → List (ApmEvent F)
  entry_metricset h none = []
  entry_metricset h (some entry) = group_metricset h entry.key entry.histogram

  unfoldable pub bucket_metricsets :
      ℕ → List (Entry key_hash histograms) → List ℕ → List (ApmEvent F)
  bucket_metricsets h space [] = []
  bucket_metricsets h space (i ∷ is) =
      append (entry_metricset h (get_elem? space i)) (bucket_metricsets h space is)

  unfoldable pub map_metricsets :
      List (Entry key_hash histograms) → List (ℕ × List ℕ) → List (ApmEvent F)
  map_metricsets space [] = []
  map_metricsets space ((h, bucket) ∷ m) =
      append (bucket_metricsets h space bucket) (map_metricsets space m)

  -- `publish`: the aggregator with its periods swapped, and the batch that is passed on, if any.
  -- Go visits the map in no particular order.
  unfoldable pub publish : Aggregator → Aggregator × Option (List (ApmEvent F))
  publish a =
      let full = a.active in
      if full.entries == 0 then (record a { active = a.inactive; inactive = full }, none) else (
        record a { active = a.inactive; inactive = record full { entries = 0; m = [] } },
        some (map_metricsets full.space full.m),
      )
