-- ===== src/Tests/Transactions.antt =====
-- The transactions of a batch, with room for one group.
use apm_server.Prelude.{
  Member, ℕ, ◌+◌, ◌≡◌, refl, subst, List, [], ◌∷◌, ◌++◌, none, some, true, pos, length, arith, All,
}
use apm_server.Prelude.Maps.{lookup, insert}
use apm_server.Model.Event.{ApmEvent, zero_event, truncate}
use apm_server.TxMetrics.Metrics.{
  updated, new_metrics, blank, update, fresh, find, allocate, read_phase, write_phase, has_key,
  Bracket,
}
use apm_server.TxMetrics.Metrics.Groups.{view, view_at, scan}
use apm_server.TxMetrics.Metrics.Updates.{new_metrics-Inv, update_new}
use apm_server.TxMetrics.Key.{
  TransactionAggregationKey, make_transaction_aggregation_key, hash, key_eq, texts, pointer_eq,
  bool_eq, transaction_key_eq,
}
use apm_server.TxMetrics.Aggregator.{
  AggregatorConfig, key_hash, aggregate_transaction, update_transaction_metrics, single_metricset,
  make_metricset, process_event, process_events, process_batch, publish, clamp_duration,
}
use apm_server.TxMetrics.Aggregator.Batches.{
  Agg, Groups, IsSound, group, key_of, Aggregated, aggregate_transaction-Aggregated,
  aggregate_transaction_room, value_of, count_of,
}
use apm_server.TxMetrics.Aggregator.Publishing.{publish_lem}
use apm_server.TxMetrics.Aggregator.Publishing.Described.{Describes}
use apm_server.TxMetrics.Aggregator.Overflow.{IsExtra, process_batch-overflowed}
use apm_server.TxMetrics.Aggregator.ColdStart.{moved, cold_start_panics}
use apm_server.Tests.Fixtures.{
  whole, listed, counting, memory, transaction_named, transaction_event,
}

abbrev config : AggregatorConfig
config = record {
  has_batch_processor = true;
  max_transaction_groups = pos 1;
  metrics_interval = pos 60;
  hdr_histogram_significant_figures = pos 2;
}

-- An event of a function, its cold start at address 1.
abbrev event_a : ApmEvent ℕ
event_a = moved whole listed counting memory (transaction_event "a") 1

abbrev event_b : ApmEvent ℕ
event_b = transaction_event "b"

abbrev key_a : TransactionAggregationKey
key_a = make_transaction_aggregation_key event_a (transaction_named "a") 60

abbrev no_groups : Groups whole listed counting memory
no_groups = record { entries = 0; m = []; space = record { key = none; histogram = none } ∷ [] }

abbrev recorded : List Bracket
recorded = record { to = 2000; count = 1000 } ∷ []

abbrev one_group : Groups whole listed counting memory
one_group = record {
  entries = 1;
  m = (0, 0 ∷ []) ∷ [];
  space = record { key = some key_a; histogram = some recorded } ∷ [];
}

abbrev start : Agg whole listed counting memory
start = record { config = config; overflowed = 0; active = no_groups; inactive = no_groups }

abbrev full : Agg whole listed counting memory
full = record { config = config; overflowed = 0; active = one_group; inactive = no_groups }

no_groups-IsSound : IsSound whole listed counting memory no_groups
unfolding new_metrics blank
no_groups-IsSound = new_metrics-Inv (key_hash whole listed counting memory) listed 1

update_a :
    update (key_hash whole listed counting memory) listed 2 no_groups key_a 2000 1000
    ≡ updated one_group
unfolding update read_phase write_phase allocate fresh find lookup insert hash
    make_transaction_aggregation_key truncate
update_a = refl

a_new : group whole listed counting memory no_groups key_a ≡ none
unfolding view view_at scan
a_new = refl

one_group-IsSound : IsSound whole listed counting memory one_group
one_group-IsSound =
    let (m, old, u, inv, _, shown) =
      update_new (key_hash whole listed counting memory) listed 2 no_groups key_a 2000 1000
        no_groups-IsSound a_new (omega arith) in
    let same : m ≡ one_group = cc (update_a, u) in
    subst (IsSound whole listed counting memory) same inv

a_aggregated :
    aggregate_transaction whole listed counting memory start event_a ≡ some (full, zero_event ℕ)
unfolding aggregate_transaction update_transaction_metrics clamp_duration update read_phase
    write_phase allocate fresh find lookup insert hash make_transaction_aggregation_key truncate
a_aggregated = refl

aggregate_transaction-Aggregated_example :
    IsSound whole listed counting memory full.active
    × Aggregated whole listed counting memory start event_a
        (transaction_named "a")
        full
        (zero_event ℕ)
aggregate_transaction-Aggregated_example =
    aggregate_transaction-Aggregated whole listed counting memory start full event_a (zero_event ℕ)
      (transaction_named "a") no_groups-IsSound refl refl a_aggregated

publish_lem_example :
    (batch : List (ApmEvent ℕ)) × ((publish whole listed counting memory full).1 ≡ some batch)
    × (length batch ≡ 1)
    × ((k : TransactionAggregationKey) (x : listed.Histogram)
        → group whole listed counting memory one_group k ≡ some x
        → (e : ApmEvent ℕ) × Member e batch × Describes whole listed k x e)
    × IsSound whole listed counting memory (publish whole listed counting memory full).0.inactive
    × ((k : TransactionAggregationKey)
        → group whole listed counting memory
            (publish whole listed counting memory full).0.inactive
            k
          ≡ none)
    × ((publish whole listed counting memory full).0.inactive.space ≡ one_group.space)
    × ((publish whole listed counting memory full).0.active ≡ no_groups)
publish_lem_example =
    publish_lem whole listed counting memory full one_group-IsSound (λ e. absurd (omega arith))

abbrev metricset_b : ApmEvent ℕ
metricset_b =
    single_metricset whole listed counting memory
      (make_transaction_aggregation_key event_b (transaction_named "b") 60) (transaction_named "b")
      (pos 2_000_000)

abbrev overflowed : Agg whole listed counting memory
overflowed = record full { overflowed = 1 }

-- The first event finds its group, the second finds none.
two_processed :
    process_batch whole listed counting memory start (event_a ∷ event_b ∷ [])
    ≡ some (overflowed, event_a ∷ event_b ∷ metricset_b ∷ [])
unfolding process_batch process_events process_event aggregate_transaction
    update_transaction_metrics clamp_duration update read_phase write_phase allocate fresh find
    lookup insert hash make_transaction_aggregation_key truncate single_metricset make_metricset
two_processed = refl

process_batch-overflowed_example :
    (extra : List (ApmEvent ℕ)) × ((event_a ∷ event_b ∷ metricset_b ∷ [])
      ≡ (event_a ∷ event_b ∷ []) ++ extra)
    × (1 ≡ 0 + length extra)
    × All (IsExtra whole listed counting memory) extra
process_batch-overflowed_example =
    process_batch-overflowed whole listed counting memory start overflowed (event_a ∷ event_b ∷ [])
      (event_a ∷ event_b ∷ metricset_b ∷ []) two_processed

a_known :
    group whole listed counting memory one_group
      (key_of whole listed counting memory full event_a (transaction_named "a"))
    ≡ some recorded
unfolding view view_at scan has_key key_eq texts pointer_eq bool_eq make_transaction_aggregation_key
    truncate
a_known = refl

moved_unknown :
    group whole listed counting memory one_group (
      key_of whole listed counting memory full
        (moved whole listed counting memory (transaction_event "a") 2)
        (transaction_named "a"))
    ≡ none
unfolding view view_at scan has_key key_eq texts pointer_eq bool_eq make_transaction_aggregation_key
    truncate
moved_unknown = refl

cold_start_panics_example :
    aggregate_transaction whole listed counting memory full
      (moved whole listed counting memory (transaction_event "a") 2)
    ≡ none
cold_start_panics_example =
    cold_start_panics whole listed counting memory full (transaction_event "a")
      (transaction_named "a") 1 2 recorded one_group-IsSound refl refl refl refl a_known
      moved_unknown

aggregate_transaction_room_example :
    (a : Agg whole listed counting memory) × (h : List Bracket) × (aggregate_transaction whole
        listed counting memory start event_a
      ≡ some (a, zero_event ℕ))
    × IsSound whole listed counting memory a.active
    × (a.overflowed ≡ 0)
    × (group whole listed counting memory a.active
          (key_of whole listed counting memory start event_a (transaction_named "a"))
        ≡ some (
            record {
              to = value_of whole listed counting memory start event_a (transaction_named "a");
              count = count_of whole listed counting memory start event_a (transaction_named "a");
            }
            ∷ h))
aggregate_transaction_room_example =
    aggregate_transaction_room whole listed counting memory start event_a (transaction_named "a")
      no_groups-IsSound refl refl (omega arith)
