-- ===== src/TxMetrics/Aggregator/Publishing.antt =====
-- The groups of a period that ends.
pub mod Described
use apm_server.Prelude.{
  ℕ, suc, ◌<◌, ◌≡◌, ◌≢◌, refl, ap, ◌∙◌, sym, subst, Option, none, some, Bool, List, [], ◌∷◌, length,
  length-append, All, arith, nat_eq, get_elem?, Member, Member-append_left, Member-append_right,
  Option-cases, inl, inr,
}
use apm_server.Model.Float64.{Float64}
use apm_server.Model.Event.{ApmEvent}
use apm_server.Prelude.Maps.{lookup, lookup-Member}
use apm_server.TxMetrics.Metrics.{Histograms, find}
use apm_server.TxMetrics.Metrics.Groups.{view, view_at, scan, pointers, or_empty, view-slot}
use apm_server.TxMetrics.Key.{TransactionAggregationKey, transaction_key_eq, Hasher}
use apm_server.TxMetrics.Aggregator.{
  entry_metricset, bucket_metricsets, map_metricsets, group_metricset, publish, make_metricset,
  histogram_buckets, key_hash,
}
use apm_server.TxMetrics.Aggregator.Batches.{
  Agg as AggOf, Groups as GroupsOf, IsSound as IsSoundOf, group as group_of,
}
use apm_server.TxMetrics.Aggregator.Publishing.Described.{
  Describes, metricset_of, metricset_of-Describes,
}

module _ (fl : Float64) (histograms : Histograms) (hasher : Hasher) (deref : ℕ → Bool) where
  open fl use {F}
  open histograms use {Histogram, distribution}

  abbrev Agg : Type 0
  Agg = AggOf fl histograms hasher deref

  abbrev Groups : Type 0
  Groups = GroupsOf fl histograms hasher deref

  abbrev IsSound : Groups → Type 0
  IsSound = IsSoundOf fl histograms hasher deref

  abbrev group : Groups → TransactionAggregationKey → Option Histogram
  group = group_of fl histograms hasher deref

  module _ (h : ℕ) (m : Groups) (v : IsSound m) where
    length-bucket_metricsets :
        (is : List ℕ)
        → All (λ i. i < m.entries) is
        → length (bucket_metricsets fl histograms hasher deref h m.space is) ≡ length is
    unfolding bucket_metricsets entry_metricset group_metricset
    length-bucket_metricsets [] b = refl
    length-bucket_metricsets (i ∷ is) b =
        let (k, x, at) = v.used i b.0 in
        rw (at, entry_metricset, group_metricset) (ap suc (length-bucket_metricsets is b.1))

  length-map_metricsets :
      (m : Groups) (v : IsSound m) (buckets : List (ℕ × List ℕ))
      → All (λ p. All (λ i. i < m.entries) p.1) buckets
      → length (map_metricsets fl histograms hasher deref m.space buckets) ≡ pointers buckets
  unfolding map_metricsets
  length-map_metricsets m v [] b = refl
  length-map_metricsets m v ((h, bucket) ∷ rest) b = omega (
    arith,
    length-append (bucket_metricsets fl histograms hasher deref h m.space bucket)
        (map_metricsets fl histograms hasher deref m.space rest),
    length-bucket_metricsets h m v bucket b.0,
    length-map_metricsets m v rest b.1,
  )

  bucket_metricsets-Member :
      (m : Groups) (k : TransactionAggregationKey) (x : Histogram) (i : ℕ) (is : List ℕ)
      → get_elem? m.space i ≡ some (record { key = some k; histogram = some x })
      → Member i is
      → Member (metricset_of fl histograms hasher deref k x) (
          bucket_metricsets fl histograms hasher deref
            (key_hash fl histograms hasher deref k)
            m.space
            is)
  unfolding bucket_metricsets entry_metricset group_metricset
  bucket_metricsets-Member m k x i [] at b = elim b [ ]
  bucket_metricsets-Member m k x i (j ∷ is) at (Member.head e) =
      let here : get_elem? m.space j ≡ some (record { key = some k; histogram = some x }) =
        subst (λ i. get_elem? m.space i ≡ some (record { key = some k; histogram = some x })) e
          at in
      rw (here, entry_metricset, group_metricset) (Member.head refl)
  bucket_metricsets-Member m k x i (j ∷ is) at (Member.tail b) =
      Member-append_right _ (bucket_metricsets-Member m k x i is at b)

  map_metricsets-Member :
      (m : Groups) (event : ApmEvent F) (h : ℕ) (bucket : List ℕ) (buckets : List (ℕ × List ℕ))
      → Member (h, bucket) buckets
      → Member event (bucket_metricsets fl histograms hasher deref h m.space bucket)
      → Member event (map_metricsets fl histograms hasher deref m.space buckets)
  unfolding map_metricsets
  map_metricsets-Member m event h bucket [] b x = elim b [ ]
  map_metricsets-Member m event h bucket (p ∷ rest) (Member.head e) x =
      Member-append_left _ (
        subst (λ p. Member event (bucket_metricsets fl histograms hasher deref p.0 m.space p.1)) e
          x)
  map_metricsets-Member m event h bucket (p ∷ rest) (Member.tail b) x =
      Member-append_right _ (map_metricsets-Member m event h bucket rest b x)

  abbrev ended : Groups → Groups
  ended m = record m { entries = 0; m = [] }

  abbrev batch_of : Agg → List (ApmEvent F)
  batch_of a = map_metricsets fl histograms hasher deref a.active.space a.active.m

  publish-some :
      (a : Agg)
      → a.active.entries ≢ 0
      → publish fl histograms hasher deref a
        ≡ (record a { active = a.inactive; inactive = ended a.active }, some (batch_of a))
  unfolding publish
  publish-some a h = ground arith

  cleared-Inv : (m : Groups) → IsSound (ended m)
  unfolding lookup find scan
  cleared-Inv m = record {
    room = omega arith;
    below = tt;
    filled = tt;
    counted = refl;
    agree = λ k. refl;
    used = λ i p. absurd (omega arith);
  }

  cleared_group : (m : Groups) (k : TransactionAggregationKey) → group (ended m) k ≡ none
  unfolding view view_at scan
  cleared_group m k = refl

  batch_of-Member :
      (a : Agg) (k : TransactionAggregationKey) (x : Histogram)
      → IsSound a.active
      → group a.active k ≡ some x
      → Member (metricset_of fl histograms hasher deref k x) (batch_of a)
  batch_of-Member a k x v h =
      let (i, pointed, at) =
        view-slot (key_hash fl histograms hasher deref) histograms a.active k x v h in
      let buckets = a.active.m in
      let hashed = key_hash fl histograms hasher deref k in
      elim (Option-cases (lookup hashed buckets)) [
        | inl f ↦ elim (subst (λ o. Member i (or_empty o)) f pointed) [ ]
        | inr (bucket, f) ↦
            map_metricsets-Member a.active (metricset_of fl histograms hasher deref k x) hashed
              bucket buckets (lookup-Member hashed bucket buckets f)
              (bucket_metricsets-Member a.active k x i bucket at
                (subst (λ o. Member i (or_empty o)) f pointed))
      ]

  -- Publishing a period that has groups passes on as many metricsets as it has groups. Each group's
  -- is among them: it is a metricset whose own aggregation key is the group's, with the scaled counts
  -- and the values of the brackets of the group's histogram that are in use, and the total of these
  -- counts. The period has no groups afterwards, its slots are kept, and the
  -- other period's metrics become the active ones.
  pub publish_lem :
      (a : Agg)
      → IsSound a.active
      → a.active.entries ≢ 0
      → (batch : List (ApmEvent F)) × ((publish fl histograms hasher deref a).1 ≡ some batch)
        × (length batch ≡ a.active.entries)
        × ((k : TransactionAggregationKey) (x : Histogram)
            → group a.active k ≡ some x
            → (e : ApmEvent F) × Member e batch × Describes fl histograms k x e)
        × IsSound (publish fl histograms hasher deref a).0.inactive
        × ((k : TransactionAggregationKey)
            → group (publish fl histograms hasher deref a).0.inactive k ≡ none)
        × ((publish fl histograms hasher deref a).0.inactive.space ≡ a.active.space)
        × ((publish fl histograms hasher deref a).0.active ≡ a.inactive)
  publish_lem a v some_groups =
      let e = publish-some a some_groups in
      (
        batch_of a,
        ap (λ r. r.1) e,
        length-map_metricsets a.active v a.active.m v.below ∙ v.counted,
        λ k x h. (
          metricset_of fl histograms hasher deref k x,
          batch_of-Member a k x v h,
          metricset_of-Describes fl histograms hasher deref k x,
        ),
        subst (λ r. IsSound r.0.inactive) (sym e) (cleared-Inv a.active),
        λ k. ap (λ r. group r.0.inactive k) e ∙ cleared_group a.active k,
        ap (λ r. r.0.inactive.space) e,
        ap (λ r. r.0.active) e,
      )
