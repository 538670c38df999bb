-- ===== src/SpanMetrics/Buffer.antt =====
-- spanmetrics/aggregator.go: the buffer of one period, its key and its metrics.
pub mod Bounds
pub mod Gather
use apm_server.Prelude.{
  ℕ, String, Option, none, some, Bool, true, false, ◌&&◌, not, List, [], ◌∷◌, Eq, ◌==◌, str_eq,
  string_eq, str_eq_iff, list_beq, list_beq_iff, ==_iff, if◌then◌else◌, length, nat_eq, ◌↔◌, ◌≡◌,
  arith, ap, pos, is_some,
}
use apm_server.Prelude.Maps.{lookup, insert}
use apm_server.Model.Float64.{Float64}
use apm_server.Model.Event.{ApmEvent, truncate}

pub record AggregationKey : Type 0 where
  pub timestamp : ℕ
  pub service_name : String
  pub service_environment : String
  pub agent_name : String
  pub resource : String
  pub outcome : String

-- `makeAggregationKey`
unfoldable pub make_aggregation_key : {F : Type 0} → ApmEvent F → String → ℕ → AggregationKey
unfolding truncate
make_aggregation_key event resource interval = record {
  timestamp = truncate event.timestamp interval;
  service_name = event.service.name;
  service_environment = event.service.environment;
  agent_name = event.agent_name;
  resource = resource;
  outcome = event.outcome;
}

key_texts : AggregationKey → List String
key_texts k = k.service_name ∷ k.service_environment ∷ k.agent_name ∷ k.resource ∷ k.outcome ∷ []

-- Go's `==` on two keys.
unfoldable pub aggregation_key_beq : AggregationKey → AggregationKey → Bool
unfolding key_texts
aggregation_key_beq k j = k.timestamp == j.timestamp && list_beq str_eq (key_texts k) (key_texts j)

key_texts-injective :
    (k j : AggregationKey) → k.timestamp ≡ j.timestamp → key_texts k ≡ key_texts j → k ≡ j
unfolding key_texts
key_texts-injective k j t h = cc

pub aggregation_key_beq_iff : (k j : AggregationKey) → (aggregation_key_beq k j ≡ true) ↔ (k ≡ j)
unfolding aggregation_key_beq
aggregation_key_beq_iff k j = (
  λ h.
      key_texts-injective k j (ground (arith, ==_iff k.timestamp j.timestamp))
        ((list_beq_iff string_eq (key_texts k) (key_texts j)).0 (ground arith)),
  λ h. ground (
    arith,
    ==_iff k.timestamp j.timestamp,
    (list_beq_iff string_eq (key_texts k) (key_texts j)).1 (ap key_texts h),
    ap (λ x. x.timestamp) h,
  ),
)

instance abbrev pub aggregation_key_eq : Eq AggregationKey
aggregation_key_eq = record { beq = aggregation_key_beq; beq_iff = aggregation_key_beq_iff }

pub record SpanMetrics (F : Type 0) : Type 0 where
  pub count : F
  pub sum : F

pub record MetricsBuffer (F : Type 0) : Type 0 where
  pub max_size : ℕ
  pub m : List (AggregationKey × SpanMetrics F)

unfoldable pub new_metrics_buffer : {F : Type 0} → ℕ → MetricsBuffer F
new_metrics_buffer max_size = record { max_size = max_size; m = [] }

module _ (fl : Float64) where
  open fl use {F, of_int, add}

  -- The value that a missing key has in a Go map.
  or_zero : Option (SpanMetrics F) → SpanMetrics F
  or_zero none = record { count = of_int (pos 0); sum = of_int (pos 0) }
  or_zero (some v) = v

  -- The metrics that are stored under a key, from those under it before and the new ones.
  unfoldable pub combine : Option (SpanMetrics F) → SpanMetrics F → SpanMetrics F
  unfolding or_zero
  combine old value = record {
    count = add value.count (or_zero old).count;
    sum = add value.sum (or_zero old).sum;
  }

  -- `storeOrUpdate`: the buffer, and whether the metrics are in it.
  unfoldable pub store_or_update :
      MetricsBuffer F → AggregationKey → SpanMetrics F → MetricsBuffer F × Bool
  unfolding combine
  store_or_update mb key value =
      let old = lookup key mb.m in
      if not (is_some old) && length mb.m == mb.max_size
      then (mb, false)
      else (record mb { m = insert key (combine old value) mb.m }, true)
