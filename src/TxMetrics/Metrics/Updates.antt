-- ===== src/TxMetrics/Metrics/Updates.antt =====
-- What an update does to the groups, on each of its branches.
use apm_server.Prelude.{
  ℕ, ◌+◌, ◌-◌, ◌<◌, ◌≡◌, ◌≢◌, refl, ap, ◌∙◌, sym, List, [], ◌∷◌, Option, none, some, Eq, true,
  if◌then◌else◌, length, get_elem?, drop, nat_eq, arith, inl, inr, Option-cases, is_some,
  get_elem?-some, get_elem?-none, drop-length, leb, not, ◌&&◌,
}
use apm_server.Prelude.Maps.{lookup, lookup-All}
use apm_server.TxMetrics.Metrics.{
  Histograms, Metrics, updated, refused, panicked, has_key, allocate, fresh, find, hit, read_phase,
  write_phase, update, new_metrics,
}
use apm_server.TxMetrics.Metrics.Groups.{
  Inv, scan, view, view_at, scan_found, or_empty, bucket_of, slot, has_key-slot,
}
use apm_server.TxMetrics.Metrics.Recording
use apm_server.TxMetrics.Metrics.Allocation

pub length-pos : (b : List ℕ) → b ≢ [] → length b - 1 + 1 ≡ length b
length-pos [] h = absurd (h refl)
length-pos (x ∷ b) h = omega arith

pub drop_all : (b : List ℕ) → b ≢ [] → drop (length b - 1 + 1) b ≡ []
drop_all b h = rw (length-pos b h) (drop-length b)

module _ {K : Type 0} ⦃e : Eq K⦄ (hash : K → ℕ) (histograms : Histograms) where
  open histograms use {Histogram, record_values}

  abbrev Holder : Type 0
  Holder = Metrics hash histograms

  -- A group's slot, from the histogram that the view shows.
  group_slot :
      (m : Holder) (k : K) (i : ℕ)
      → Inv hash histograms m
      → scan hash histograms m.space k m.entries ≡ some i
      → (h : Histogram) × (get_elem? m.space i ≡ some (slot hash histograms k h))
        × (view hash histograms m k ≡ some h)
  unfolding view view_at
  group_slot m k i v p =
      let (below, has) = scan_found hash histograms m.space k m.entries i p in
      let (k0, h, at) = v.used i below in
      let same = (e.beq_iff k0 k).0 (
        sym (has_key-slot hash histograms k0 k h)
        ∙ ap (λ x. has_key hash histograms x k) (sym at)
        ∙ has) in
      (h, at ∙ ap (λ x. some (slot hash histograms x h)) same, rw (p, at))

  scan_of_view :
      (m : Holder) (k : K) (h : Histogram)
      → view hash histograms m k ≡ some h
      → (i : ℕ) × (scan hash histograms m.space k m.entries ≡ some i)
  unfolding view view_at
  scan_of_view m k h p = elim (Option-cases (scan hash histograms m.space k m.entries)) [
    | inl n ↦ absurd (ground arith)
    | inr found ↦ found
  ]

  scan_of_none :
      (m : Holder) (k : K)
      → Inv hash histograms m
      → view hash histograms m k ≡ none
      → scan hash histograms m.space k m.entries ≡ none
  scan_of_none m k v p = elim (Option-cases (scan hash histograms m.space k m.entries)) [
    | inl n ↦ n
    | inr (i, found) ↦ let (h, at, shown) = group_slot m k i v found in cc
  ]

  read_hit :
      (m : Holder) (k : K) (i : ℕ)
      → Inv hash histograms m
      → scan hash histograms m.space k m.entries ≡ some i
      → read_phase hash histograms m k ≡ hit i
  unfolding read_phase find
  read_hit m k i v p = ground (arith, v.agree k)

  -- Some bucket stands under the hash of a group's key.
  pub lookup-group :
      (m : Holder) (k : K) (h : Histogram)
      → Inv hash histograms m
      → view hash histograms m k ≡ some h
      → is_some (lookup (hash k) m.m) ≡ true
  unfolding find
  lookup-group m k h v p = let (i, found) = scan_of_view m k h p in ground (arith, v.agree k)

  -- A key without a group: what the search and the write phase that follows it come to.
  update_absent :
      (figures : ℕ) (m : Holder) (k : K) (value count : ℕ)
      → Inv hash histograms m
      → scan hash histograms m.space k m.entries ≡ none
      → update hash histograms figures m k value count ≡ (
          if leb (length m.space) m.entries && not (is_some (lookup (hash k) m.m))
          then refused
          else allocate hash histograms figures m (bucket_of hash histograms m k) k value count)
  unfolding update read_phase write_phase find
  update_absent figures m k value count v p = elim (Option-cases (lookup (hash k) m.m)) [
    | inl q ↦ rw (q, update, read_phase, write_phase) (ground (arith, q))
    | inr (b, q) ↦
        let gone = ap (λ x. find hash histograms m.space k (or_empty x)) (sym q) ∙ v.agree k ∙ p in
        let filled = lookup-All (λ x. x ≢ []) (hash k) b m.m v.filled q in
        ground (arith, q, gone, length-pos b filled, drop_all b filled)
  ]

  -- The metrics of a new period satisfy the invariant.
  pub new_metrics-Inv : (n : ℕ) → Inv hash histograms (new_metrics hash histograms n)
  unfolding new_metrics lookup find scan
  new_metrics-Inv n = record {
    room = omega arith;
    below = tt;
    filled = tt;
    counted = refl;
    agree = λ k. refl;
    used = λ i p. absurd (omega arith);
  }

  -- An update of a group that exists records into its histogram. It takes no slot, changes no other
  -- group, keeps the invariant, and neither fails nor panics.
  pub update_known :
      (figures : ℕ) (m : Holder) (k : K) (value count : ℕ) (h : Histogram)
      → Inv hash histograms m
      → view hash histograms m k ≡ some h
      → (m' : Holder) × (update hash histograms figures m k value count ≡ updated m')
        × Inv hash histograms m'
        × (m'.entries ≡ m.entries)
        × ((q : K)
            → view hash histograms m' q ≡ (
                if e.beq k q then some (record_values h value count) else view hash histograms m q))
  unfolding update
  update_known figures m k value count h v p =
      let (i, found) = scan_of_view m k h p in
      let (h0, at, shown) = group_slot m k i v found in
      let same : h0 ≡ h = cc in
      let at' = at ∙ ap (λ x. some (slot hash histograms k x)) same in
      (
        Recording.recorded hash histograms m k i value count h v found at',
        rw (read_hit m k i v found, update)
            (ap updated (Recording.record_at_lem hash histograms m k i value count h v found at')),
        Recording.recorded-Inv hash histograms m k i value count h v found at',
        refl,
        Recording.view-recorded hash histograms m k i value count h v found at',
      )

  -- An update of a new key, while there is room, takes one slot for it, whose histogram is new or
  -- reset and then holds the value. It changes no other group, keeps the invariant, and neither
  -- fails nor panics.
  pub update_new :
      (figures : ℕ) (m : Holder) (k : K) (value count : ℕ)
      → Inv hash histograms m
      → view hash histograms m k ≡ none
      → m.entries < length m.space
      → (m' : Holder) × (old : Option Histogram) × (update hash histograms figures m k value count
          ≡ updated m')
        × Inv hash histograms m'
        × (m'.entries ≡ m.entries + 1)
        × ((q : K)
            → view hash histograms m' q ≡ (
                if e.beq k q
                then some (record_values (fresh hash histograms figures old) value count)
                else view hash histograms m q))
  update_new figures m k value count v p room =
      let absent = scan_of_none m k v p in
      let (old, at) = get_elem?-some m.space m.entries room in
      (
        Allocation.allocated hash histograms m k figures value count old v absent at room,
        old.histogram,
        update_absent figures m k value count v absent
            ∙ (ground (
              arith,
              Allocation.allocate_lem hash histograms m k figures value count old v absent at room,
            )),
        Allocation.allocated-Inv hash histograms m k figures value count old v absent at room,
        refl,
        Allocation.view-allocated hash histograms m k figures value count old v absent at room,
      )

  -- An update of a new key when every slot is taken is refused if no group shares the key's hash,
  -- and panics with an index out of range if some group does.
  pub update_full :
      (figures : ℕ) (m : Holder) (k : K) (value count : ℕ)
      → Inv hash histograms m
      → view hash histograms m k ≡ none
      → m.entries ≡ length m.space
      → update hash histograms figures m k value count
        ≡ (if is_some (lookup (hash k) m.m) then panicked else refused)
  unfolding allocate
  update_full figures m k value count v p full =
      update_absent figures m k value count v (scan_of_none m k v p)
      ∙ (ground (arith, get_elem?-none m.space m.entries (omega arith)))
