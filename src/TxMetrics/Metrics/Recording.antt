-- ===== src/TxMetrics/Metrics/Recording.antt =====
-- Recording into a group that exists.
use native.Mathlib.Decide.{ℕ_discrete}
use apm_server.Prelude.{
  ℕ, ◌≡◌, refl, ap, ◌∙◌, sym, subst, List, Option, none, some, Eq, true, if◌then◌else◌, get_elem?,
  set, nat_eq, arith, get_elem?-set_self, get_elem?-set_ne, length-set,
}
use apm_server.TxMetrics.Metrics.{Histograms, Metrics, Entry, has_key, record_at, record_entry}
use apm_server.TxMetrics.Metrics.Groups.{
  Inv, scan, view, view_at, scan_same, find_same, scan_found, bucket_of, bucket-below, slot,
  has_key-slot,
}

module _ {K : Type 0} ⦃e : Eq K⦄ (hash : K → ℕ) (histograms : Histograms) where
  open histograms use {Histogram, record_values}

  pub same_after_record :
      (s : List (Entry hash histograms)) (i j : ℕ) (k q : K) (h h' : Histogram)
      → get_elem? s i ≡ some (slot hash histograms k h)
      → has_key hash histograms (get_elem? s j) q
        ≡ has_key hash histograms (get_elem? (set s i (slot hash histograms k h')) j) q
  same_after_record s i j k q h h' at = elim (ℕ_discrete i j) [
    | no ne ↦ rw (get_elem?-set_ne s {i = i} {j = j} (slot hash histograms k h') ne)
    | yes eq ↦ rw (
      ← eq,
      at,
      get_elem?-set_self s i (slot hash histograms k h') (slot hash histograms k h) at,
      has_key-slot hash histograms,
      has_key-slot hash histograms,
    )
  ]

  module _ (m : Metrics hash histograms) (k : K) (i value count : ℕ) (h : Histogram)
      (v : Inv hash histograms m) (found : scan hash histograms m.space k m.entries ≡ some i)
      (at : get_elem? m.space i ≡ some (slot hash histograms k h)) where
    abbrev pub h' : Histogram
    h' = record_values h value count

    abbrev pub recorded : Metrics hash histograms
    recorded = record m { space = set m.space i (slot hash histograms k h') }

    pub record_at_lem : record_at hash histograms m i value count ≡ recorded
    unfolding record_at record_entry
    record_at_lem = rw (at, record_at)

    pub scan_recorded :
        (q : K)
        → scan hash histograms m.space q m.entries ≡ scan hash histograms recorded.space q m.entries
    scan_recorded q =
        scan_same hash histograms m.entries q m.space recorded.space
          (λ j _. same_after_record m.space i j k q h h' at)

    pub recorded-Inv : Inv hash histograms recorded
    recorded-Inv = record {
      room = omega (arith, v.room, length-set m.space i (slot hash histograms k h'));
      below = v.below;
      filled = v.filled;
      counted = v.counted;
      agree = λ q.
          sym (
            find_same hash histograms m.entries q m.space recorded.space
              (bucket_of hash histograms m q) (λ j _. same_after_record m.space i j k q h h' at)
              (bucket-below hash histograms m q v))
          ∙ v.agree q
          ∙ scan_recorded q;
      used = λ j p. elim (ℕ_discrete i j) [
        | yes eq ↦ (
          k,
          h',
          rw (← eq) (
              get_elem?-set_self m.space i (slot hash histograms k h') (slot hash histograms k h)
                at),
        )
        | no ne ↦
            rw (get_elem?-set_ne m.space {i = i} {j = j} (slot hash histograms k h') ne)
              (v.used j p)
      ];
    }

    scan_same_key : (q : K) → e.beq k q ≡ true → scan hash histograms m.space q m.entries ≡ some i
    scan_same_key q p =
        subst (λ x. scan hash histograms m.space x m.entries ≡ some i) ((e.beq_iff k q).0 p) found

    has_key_at : (q : K) → scan hash histograms m.space q m.entries ≡ some i → e.beq k q ≡ true
    has_key_at q p =
        sym (has_key-slot hash histograms k q h)
        ∙ sym (ap (λ x. has_key hash histograms x q) at)
        ∙ (scan_found hash histograms m.space q m.entries i p).1

    view_recorded_at :
        (q : K) (o : Option ℕ)
        → scan hash histograms m.space q m.entries ≡ o
        → view_at hash histograms recorded.space o
          ≡ (if e.beq k q then some h' else view_at hash histograms m.space o)
    unfolding view_at
    view_recorded_at q none p = ground (arith, scan_same_key q)
    view_recorded_at q (some j) p = elim (ℕ_discrete i j) [
      | yes eq ↦ rw (
        has_key_at q (p ∙ ap some (sym eq)),
        ← eq,
        get_elem?-set_self m.space i (slot hash histograms k h') (slot hash histograms k h) at,
      )
      | no ne ↦
          rw (get_elem?-set_ne m.space {i = i} {j = j} (slot hash histograms k h') ne)
            (ground (arith, scan_same_key q))
    ]

    pub view-recorded :
        (q : K)
        → view hash histograms recorded q
          ≡ (if e.beq k q then some h' else view hash histograms m q)
    unfolding view
    view-recorded q =
        rw (← scan_recorded q) (view_recorded_at q (scan hash histograms m.space q m.entries) refl)
