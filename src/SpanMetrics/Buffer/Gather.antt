-- ===== src/SpanMetrics/Buffer/Gather.antt =====
-- A sequence of measurements stored in the buffer one after the other.
use apm_server.Prelude.{
  Option, none, some, true, false, List, [], ◌∷◌, if◌then◌else◌, length, ◌≡◌, arith, is_some, inl,
  inr, Bool-cases, refl, sym, ap, subst, ◌∙◌,
}
use apm_server.Prelude.Maps.{lookup}
use apm_server.Model.Float64.{Float64}
use apm_server.SpanMetrics.Buffer.{
  AggregationKey, aggregation_key_eq, aggregation_key_beq, aggregation_key_beq_iff, SpanMetrics,
  MetricsBuffer, combine, store_or_update,
}
use apm_server.SpanMetrics.Buffer.Bounds.{IsBounded, store_or_update-Stored}

module _ (fl : Float64) where
  open fl use {F}

  abbrev pub Measurement : Type 0
  Measurement = AggregationKey × SpanMetrics F

  -- The buffer after the measurements, and those that were refused.
  unfoldable pub gather : MetricsBuffer F → List Measurement → MetricsBuffer F × List Measurement
  gather mb [] = (mb, [])
  gather mb ((k, v) ∷ xs) =
      let (mb', stored) = store_or_update fl mb k v in
      let (final, refused) = gather mb' xs in (final, if stored then refused else (k, v) ∷ refused)

  -- The measurements whose key has no group in a buffer.
  unfoldable pub left_out : MetricsBuffer F → List Measurement → List Measurement
  left_out mb [] = []
  left_out mb ((k, v) ∷ xs) =
      if is_some (lookup k mb.m) then left_out mb xs else (k, v) ∷ left_out mb xs

  -- All the metrics of one key on top of what it had.
  unfoldable pub total :
      AggregationKey → Option (SpanMetrics F) → List Measurement → Option (SpanMetrics F)
  total k old [] = old
  total k old ((q, v) ∷ xs) =
      if aggregation_key_beq q k then total k (some (combine fl old v)) xs else total k old xs

  abbrev next : MetricsBuffer F → AggregationKey → SpanMetrics F → MetricsBuffer F
  next mb k v = (store_or_update fl mb k v).0

  abbrev pub gathered : MetricsBuffer F → List Measurement → MetricsBuffer F
  gathered mb xs = (gather mb xs).0

  pub gathered-IsBounded :
      (mb : MetricsBuffer F) (xs : List Measurement)
      → IsBounded fl mb
      → IsBounded fl (gathered mb xs)
  unfolding gather
  gathered-IsBounded mb [] b = b
  gathered-IsBounded mb ((k, v) ∷ xs) b =
      gathered-IsBounded (next mb k v) xs (store_or_update-Stored fl mb k v b).bounded

  next_kept :
      (mb : MetricsBuffer F) (k q : AggregationKey) (v : SpanMetrics F)
      → IsBounded fl mb
      → is_some (lookup q mb.m) ≡ true
      → is_some (lookup q (next mb k v).m) ≡ true
  next_kept mb k q v b h =
      let s = store_or_update-Stored fl mb k v b in
      ground (arith, s.own, s.others q, s.refused, aggregation_key_beq_iff k q)

  gathered_kept :
      (mb : MetricsBuffer F) (xs : List Measurement) (q : AggregationKey)
      → IsBounded fl mb
      → is_some (lookup q mb.m) ≡ true
      → is_some (lookup q (gathered mb xs).m) ≡ true
  unfolding gather
  gathered_kept mb [] q b h = h
  gathered_kept mb ((k, v) ∷ xs) q b h =
      gathered_kept (next mb k v) xs q (store_or_update-Stored fl mb k v b).bounded
        (next_kept mb k q v b h)

  abbrev IsClosed : MetricsBuffer F → AggregationKey → Type 0
  IsClosed mb q = (lookup q mb.m ≡ none) × (length mb.m ≡ mb.max_size)

  next-IsClosed :
      (mb : MetricsBuffer F) (k q : AggregationKey) (v : SpanMetrics F)
      → IsBounded fl mb
      → IsClosed mb q
      → IsClosed (next mb k v) q
  next-IsClosed mb k q v b h =
      let s = store_or_update-Stored fl mb k v b in
      let full : length (next mb k v).m ≡ (next mb k v).max_size =
        omega (arith, s.bounded, s.grows, s.limit, h.1) in
      elim (Bool-cases (aggregation_key_beq k q)) [
        | inl p ↦
            let same = (aggregation_key_beq_iff k q).0 p in
            let gone : lookup k mb.m ≡ none = ap (λ x. lookup x mb.m) same ∙ h.0 in
            let refused : (store_or_update fl mb k v).1 ≡ false =
              ground (arith, s.refused, gone, h.1) in
            let own : lookup k (next mb k v).m ≡ none = ground (arith, s.own, refused) in
            (ap (λ x. lookup x (next mb k v).m) (sym same) ∙ own, full)
        | inr p ↦ (s.others q (λ e. ground (arith, aggregation_key_beq_iff k q, e)) ∙ h.0, full)
      ]

  gathered-IsClosed :
      (mb : MetricsBuffer F) (xs : List Measurement) (q : AggregationKey)
      → IsBounded fl mb
      → IsClosed mb q
      → IsClosed (gathered mb xs) q
  unfolding gather
  gathered-IsClosed mb [] q b h = h
  gathered-IsClosed mb ((k, v) ∷ xs) q b h =
      gathered-IsClosed (next mb k v) xs q (store_or_update-Stored fl mb k v b).bounded
        (next-IsClosed mb k q v b h)

  -- Whether a measurement is stored now is whether its key has a group at the end.
  stored_iff_kept :
      (mb : MetricsBuffer F) (k : AggregationKey) (v : SpanMetrics F) (xs : List Measurement)
      → IsBounded fl mb
      → is_some (lookup k (gathered (next mb k v) xs).m) ≡ (store_or_update fl mb k v).1
  stored_iff_kept mb k v xs b =
      let s = store_or_update-Stored fl mb k v b in
      elim (Bool-cases (store_or_update fl mb k v).1) [
        | inl p ↦
            let own : is_some (lookup k (next mb k v).m) ≡ true = ground (arith, s.own, p) in
            gathered_kept (next mb k v) xs k s.bounded own ∙ sym p
        | inr p ↦
            let gone : lookup k (next mb k v).m ≡ none = ground (arith, s.own, p) in
            let full : length mb.m ≡ mb.max_size = ground (arith, s.refused, p) in
            let closed =
              gathered-IsClosed (next mb k v) xs k s.bounded
                (gone, omega (arith, full, s.bounded, s.grows, s.limit)) in
            ap is_some closed.0 ∙ sym p
      ]

  -- The measurements that are refused are, in their order, those whose key has no group at the end.
  pub gather-left_out :
      (mb : MetricsBuffer F) (xs : List Measurement)
      → IsBounded fl mb
      → (gather mb xs).1 ≡ left_out (gathered mb xs) xs
  unfolding gather left_out
  gather-left_out mb [] b = refl
  gather-left_out mb ((k, v) ∷ xs) b =
      let rest = gather-left_out (next mb k v) xs (store_or_update-Stored fl mb k v b).bounded in
      rw (stored_iff_kept mb k v xs b, rest)

  -- A key that has a group at the end has all its measurements in it.
  pub gather-total :
      (mb : MetricsBuffer F) (xs : List Measurement) (q : AggregationKey)
      → IsBounded fl mb
      → is_some (lookup q (gathered mb xs).m) ≡ true
      → lookup q (gathered mb xs).m ≡ total q (lookup q mb.m) xs
  unfolding gather total
  gather-total mb [] q b h = refl
  gather-total mb ((k, v) ∷ xs) q b h =
      let s = store_or_update-Stored fl mb k v b in
      let rest = gather-total (next mb k v) xs q s.bounded h in
      elim (Bool-cases (aggregation_key_beq k q)) [
        | inl p ↦
            let same = (aggregation_key_beq_iff k q).0 p in
            let stored : (store_or_update fl mb k v).1 ≡ true =
              sym (stored_iff_kept mb k v xs b)
              ∙ ap (λ x. is_some (lookup x (gathered (next mb k v) xs).m)) same
              ∙ h in
            let own : lookup k (next mb k v).m ≡ some (combine fl (lookup k mb.m) v) =
              ground (arith, s.own, stored) in
            let own_q =
              subst (λ x. lookup x (next mb k v).m ≡ some (combine fl (lookup x mb.m) v)) same
                own in
            rw (p, ← own_q) rest
        | inr p ↦
            let kept = s.others q (λ e. ground (arith, aggregation_key_beq_iff k q, e)) in
            rw (p, ← kept) rest
      ]
