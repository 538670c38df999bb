-- ===== src/SpanMetrics/Buffer/Bounds.antt =====
-- What `store_or_update` does to the buffer, and the bound on its size.
use apm_server.Prelude.{
  none, some, Bool, true, false, ◌||◌, not, ◌==◌, if◌then◌else◌, length, ◌≡◌, ◌≢◌, ◌≤◌, arith,
  is_some, inl, inr, Option-cases, Bool-cases, refl, sym, subst, ◌<◌,
}
use apm_server.Prelude.Maps.{
  lookup, insert, lookup-insert_self, lookup-insert_ne, length-insert_new, length-insert_old,
}
use apm_server.Model.Float64.{Float64}
use apm_server.SpanMetrics.Buffer.{
  AggregationKey, aggregation_key_eq, SpanMetrics, MetricsBuffer, combine, store_or_update,
}

module _ (fl : Float64) where
  open fl use {F}

  -- The map never holds more than its maximum of groups.
  abbrev pub IsBounded : MetricsBuffer F → Type 0
  IsBounded mb = length mb.m ≤ mb.max_size

  -- What `store_or_update` promises for a key and a value: every other key keeps its metrics, and
  -- the key either has its metrics and the new ones combined, or is refused because it is new and
  -- the map is full.
  pub record Stored (mb : MetricsBuffer F) (key : AggregationKey) (value : SpanMetrics F)
      (mb' : MetricsBuffer F) (stored : Bool) : Type 0 where
    pub bounded : IsBounded mb'
    pub grows : length mb.m ≤ length mb'.m
    pub limit : mb'.max_size ≡ mb.max_size
    pub others : (q : AggregationKey) → key ≢ q → lookup q mb'.m ≡ lookup q mb.m
    pub own :
        lookup key mb'.m ≡ (if stored then some (combine fl (lookup key mb.m) value) else none)
    pub refused : stored ≡ (is_some (lookup key mb.m) || not (length mb.m == mb.max_size))

  module _ (mb : MetricsBuffer F) (key : AggregationKey) (value : SpanMetrics F) where
    abbrev after : MetricsBuffer F
    after = record mb { m = insert key (combine fl (lookup key mb.m) value) mb.m }

    into-Stored :
        length after.m ≤ mb.max_size
        → length mb.m ≤ length after.m
        → (is_some (lookup key mb.m) || not (length mb.m == mb.max_size)) ≡ true
        → Stored mb key value after true
    into-Stored b more room = record {
      bounded = b;
      grows = more;
      limit = refl;
      others = λ q ne. lookup-insert_ne key q (combine fl (lookup key mb.m) value) mb.m ne;
      own = lookup-insert_self key (combine fl (lookup key mb.m) value) mb.m;
      refused = sym room;
    }

    full-Stored :
        IsBounded mb
        → lookup key mb.m ≡ none
        → length mb.m ≡ mb.max_size
        → Stored mb key value mb false
    full-Stored b new full = record {
      bounded = b;
      grows = omega arith;
      limit = refl;
      others = λ q ne. refl;
      own = new;
      refused = ground arith;
    }

    Stored-as :
        (r : MetricsBuffer F × Bool)
        → store_or_update fl mb key value ≡ r
        → Stored mb key value r.0 r.1
        → Stored mb key value
            (store_or_update fl mb key value).0
            (store_or_update fl mb key value).1
    Stored-as r e s = subst (λ x. Stored mb key value x.0 x.1) (sym e) s

  -- Metrics that go into a bounded buffer leave it bounded and leave every other key's metrics as
  -- they were. The key's own are then the old and the new ones combined, unless the key is new and
  -- the buffer full: only then the result is false and nothing is stored.
  pub store_or_update-Stored :
      (mb : MetricsBuffer F) (key : AggregationKey) (value : SpanMetrics F)
      → IsBounded mb
      → Stored mb key value (store_or_update fl mb key value).0 (store_or_update fl mb key value).1
  unfolding store_or_update
  store_or_update-Stored mb key value b = elim (Option-cases (lookup key mb.m)) [
    | inr (old, known) ↦
        Stored-as mb key value (after mb key value, true) (ground (arith, known))
          (into-Stored mb key value
            (omega
              (arith, length-insert_old key (combine fl (lookup key mb.m) value) old mb.m known))
            (omega
              (arith, length-insert_old key (combine fl (lookup key mb.m) value) old mb.m known))
            (ground arith))
    | inl new ↦ elim (Bool-cases (length mb.m == mb.max_size)) [
      | inl full ↦
          Stored-as mb key value (mb, false) (ground (arith, new, full))
            (full-Stored mb key value b new (ground arith))
      | inr room ↦
          let below : length mb.m < mb.max_size = ground arith in
          Stored-as mb key value (after mb key value, true) (ground (arith, new, room))
            (into-Stored mb key value
              (omega (arith, length-insert_new key (combine fl (lookup key mb.m) value) mb.m new))
              (omega (arith, length-insert_new key (combine fl (lookup key mb.m) value) mb.m new))
              (ground arith))
    ]
  ]
