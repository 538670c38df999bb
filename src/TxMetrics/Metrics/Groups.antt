-- ===== src/TxMetrics/Metrics/Groups.antt =====
-- The groups that the metrics hold, as a map from keys to histograms, and the invariant that ties
-- the buckets of pointers to it.
use apm_server.Prelude.{
  ℕ, zero, suc, ◌+◌, ◌≤◌, ◌<◌, ◌≡◌, ◌≢◌, refl, List, [], ◌∷◌, ◌++◌, Option, none, some, Eq, true,
  if◌then◌else◌, length, get_elem?, All, nat_eq, arith, ◌>>=◌, Member, Option-cases, Bool-cases,
  inl, inr, sym, ◌∙◌, ap,
}
use apm_server.Prelude.Maps.{lookup, insert, lookup-All}
use apm_server.TxMetrics.Metrics.{Histograms, Metrics, Entry, has_key, find}

abbrev pub or_empty : Option (List ℕ) → List ℕ
or_empty none = []
or_empty (some bucket) = bucket

-- How many pointers a map of buckets holds.
abbrev pub pointers : List (ℕ × List ℕ) → ℕ
pointers [] = 0
pointers ((h, bucket) ∷ m) = length bucket + pointers m

pub pointers-insert :
    (h : ℕ) (bucket : List ℕ) (m : List (ℕ × List ℕ))
    → pointers (insert h bucket m) + length (or_empty (lookup h m)) ≡ pointers m + length bucket
unfolding insert lookup
pointers-insert h bucket [] = omega arith
pointers-insert h bucket ((j, b) ∷ m) = ground (arith, pointers-insert h bucket m)

module _ {K : Type 0} ⦃e : Eq K⦄ (hash : K → ℕ) (histograms : Histograms) where
  open histograms use {Histogram}

  abbrev Space : Type 0
  Space = List (Entry hash histograms)

  -- The first of the slots in use that has the key.
  unfoldable pub scan : Space → K → ℕ → Option ℕ
  scan space k zero = none
  scan space k (suc n) = elim (scan space k n) [
    | some i ↦ some i
    | none ↦ if has_key hash histograms (get_elem? space n) k then some n else none
  ]

  unfoldable pub view_at : Space → Option ℕ → Option Histogram
  view_at space none = none
  view_at space (some i) = do entry ← get_elem? space i; entry.histogram

  -- The histogram of a group.
  unfoldable pub view : Metrics hash histograms → K → Option Histogram
  unfolding view_at
  view m k = view_at m.space (scan m.space k m.entries)

  abbrev pub bucket_of : Metrics hash histograms → K → List ℕ
  bucket_of m k = or_empty (lookup (hash k) m.m)

  abbrev pub slot : K → Histogram → Entry hash histograms
  slot k h = record { key = some k; histogram = some h }

  pub has_key-slot :
      (k j : K) (h : Histogram) → has_key hash histograms (some (slot k h)) j ≡ e.beq k j
  unfolding has_key
  has_key-slot k j h = refl

  pub record Inv (m : Metrics hash histograms) : Type 0 where
    pub room : m.entries ≤ length m.space
    pub below : All (λ p. All (λ i. i < m.entries) p.1) m.m
    pub filled : All (λ p. p.1 ≢ []) m.m
    pub counted : pointers m.m ≡ m.entries
    pub agree : (k : K) → find hash histograms m.space k (bucket_of m k) ≡ scan m.space k m.entries
    pub used :
        (i : ℕ)
        → i < m.entries
        → (k : K) × (h : Histogram) × (get_elem? m.space i
            ≡ some (record { key = some k; histogram = some h }))

  -- Two spaces hold the same keys below `n`.
  abbrev pub SameKeys : ℕ → K → Space → Space → Type 0
  SameKeys n k s t =
      (i : ℕ)
      → i < n
      → has_key hash histograms (get_elem? s i) k ≡ has_key hash histograms (get_elem? t i) k

  pub scan_same : (n : ℕ) (k : K) (s t : Space) → SameKeys n k s t → scan s k n ≡ scan t k n
  unfolding scan
  scan_same zero k s t h = refl
  scan_same (suc n) k s t h =
      let rest = scan_same n k s t (λ i p. h i (omega arith)) in
      let last = h n (omega arith) in ground (arith, rest, last)

  pub find_same :
      (n : ℕ) (k : K) (s t : Space) (is : List ℕ)
      → SameKeys n k s t
      → All (λ i. i < n) is
      → find hash histograms s k is ≡ find hash histograms t k is
  unfolding find
  find_same n k s t [] h b = refl
  find_same n k s t (i ∷ is) h b = rw (h i b.0, find_same n k s t is h b.1)

  pub find-append_none :
      (s : Space) (k : K) (is : List ℕ) (j : ℕ)
      → find hash histograms s k is ≡ none
      → find hash histograms s k (is ++ j ∷ [])
        ≡ (if has_key hash histograms (get_elem? s j) k then some j else none)
  unfolding find
  find-append_none s k [] j h = refl
  find-append_none s k (i ∷ is) j h = ground (arith, find-append_none s k is j)

  pub find-append_some :
      (s : Space) (k : K) (is : List ℕ) (j i : ℕ)
      → find hash histograms s k is ≡ some i
      → find hash histograms s k (is ++ j ∷ []) ≡ some i
  unfolding find
  find-append_some s k [] j i h = cc
  find-append_some s k (x ∷ is) j i h = ground (arith, find-append_some s k is j i)

  pub scan_found :
      (s : Space) (k : K) (n i : ℕ)
      → scan s k n ≡ some i
      → (i < n) × (has_key hash histograms (get_elem? s i) k ≡ true)
  unfolding scan
  scan_found s k zero i h = cc
  scan_found s k (suc n) i h = ground (arith, scan_found s k n i)

  pub below-append :
      (n : ℕ) (is : List ℕ) → All (λ i. i < n) is → All (λ i. i < n + 1) (is ++ n ∷ [])
  below-append n [] b = (omega arith, tt)
  below-append n (i ∷ is) b = (omega arith, below-append n is b.1)

  pub below_weaken : (n : ℕ) (is : List ℕ) → All (λ i. i < n) is → All (λ i. i < n + 1) is
  below_weaken n [] b = tt
  below_weaken n (i ∷ is) b = (omega arith, below_weaken n is b.1)

  pub bucket-below :
      (m : Metrics hash histograms) (k : K) → Inv m → All (λ i. i < m.entries) (bucket_of m k)
  bucket-below m k v = go (lookup (hash k) m.m) refl
    where
      go : (o : Option (List ℕ)) → lookup (hash k) m.m ≡ o → All (λ i. i < m.entries) (or_empty o)
      go none p = tt
      go (some bucket) p = lookup-All (All (λ i. i < m.entries)) (hash k) bucket m.m v.below p

  find-Member :
      (s : Space) (k : K) (is : List ℕ) (i : ℕ) → find hash histograms s k is ≡ some i → Member i is
  unfolding find
  find-Member s k [] i h = cc
  find-Member s k (j ∷ is) i h = elim (Bool-cases (has_key hash histograms (get_elem? s j) k)) [
    | inl p ↦ let same : j ≡ i = ground arith in Member.head (sym same)
    | inr p ↦ Member.tail (find-Member s k is i (rw p at h))
  ]

  -- A group's histogram is in a slot to which its bucket points.
  pub view-slot :
      (m : Metrics hash histograms) (k : K) (x : Histogram)
      → Inv m
      → view m k ≡ some x
      → (i : ℕ) × Member i (bucket_of m k) × (get_elem? m.space i ≡ some (slot k x))
  unfolding view view_at has_key
  view-slot m k x v h = elim (Option-cases (scan m.space k m.entries)) [
    | inl f ↦ let none_found = rw (f, view) at h in cc
    | inr (i, f) ↦
        let (below, has) = scan_found m.space k m.entries i f in
        let (j, y, at) = v.used i below in
        let same : j ≡ k = (e.beq_iff j k).0 (rw (at, has_key) at has) in
        let seen : some y ≡ some x = rw (f, at, view_at) at h in
        let shown : y ≡ x = cc in
        (
          i,
          find-Member m.space k (bucket_of m k) i (v.agree k ∙ f),
          at ∙ ap some (ap (λ j. slot j y) same ∙ ap (slot k) shown),
        )
  ]
