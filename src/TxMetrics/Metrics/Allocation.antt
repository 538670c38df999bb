-- ===== src/TxMetrics/Metrics/Allocation.antt =====
-- Taking the next slot for a new group.
use native.Mathlib.Decide.{ℕ_discrete}
use native.Mathlib.Numerals.{add-one}
use apm_server.Prelude.{
  ℕ, ◌+◌, ◌<◌, ◌≡◌, ◌≢◌, refl, ap, ◌∙◌, sym, subst, List, [], ◌∷◌, ◌++◌, Option, none, some, Eq,
  false, if◌then◌else◌, length, get_elem?, set, All, nat_eq, arith, Bool-cases, inl, inr,
  get_elem?-set_self, get_elem?-set_ne, length-set, length-append, All-map, beq_ne,
}
use apm_server.Prelude.Maps.{lookup, insert, lookup-insert_self, lookup-insert_ne, insert-All}
use apm_server.TxMetrics.Metrics.{
  Histograms, Metrics, Entry, updated, has_key, allocate, fresh, find,
}
use apm_server.TxMetrics.Metrics.Groups.{
  Inv, scan, view, view_at, scan_same, find_same, scan_found, bucket_of, bucket-below, or_empty,
  pointers-insert, slot, has_key-slot, below-append, below_weaken, find-append_none,
  find-append_some, SameKeys,
}

snoc-ne-nil : (xs : List ℕ) (x : ℕ) → xs ++ x ∷ [] ≢ []
snoc-ne-nil [] x h = cc
snoc-ne-nil (y ∷ xs) x h = cc

module _ {K : Type 0} ⦃e : Eq K⦄ (hash : K → ℕ) (histograms : Histograms) where
  open histograms use {Histogram, record_values}

  module _ (m : Metrics hash histograms) (k : K) (figures value count : ℕ)
      (old : Entry hash histograms) (v : Inv hash histograms m)
      (absent : scan hash histograms m.space k m.entries ≡ none)
      (at : get_elem? m.space m.entries ≡ some old) (room : m.entries < length m.space) where
    abbrev pub h' : Histogram
    h' = record_values (fresh hash histograms figures old.histogram) value count

    abbrev pub bucket : List ℕ
    bucket = bucket_of hash histograms m k

    abbrev pub allocated : Metrics hash histograms
    allocated = record m {
      entries = m.entries + 1;
      m = insert (hash k) (bucket ++ m.entries ∷ []) m.m;
      space = set m.space m.entries (slot hash histograms k h');
    }

    pub allocate_lem : allocate hash histograms figures m bucket k value count ≡ updated allocated
    unfolding allocate
    allocate_lem = rw (at, allocate)

    same : (q : K) → SameKeys hash histograms m.entries q m.space allocated.space
    same q i p =
        rw (
          get_elem?-set_ne m.space {i = m.entries} {j = i} (slot hash histograms k h')
            (omega arith))

    at' : get_elem? allocated.space m.entries ≡ some (slot hash histograms k h')
    at' = get_elem?-set_self m.space m.entries (slot hash histograms k h') old at

    last_key : (q : K) → has_key hash histograms (get_elem? allocated.space m.entries) q ≡ e.beq k q
    last_key q = rw at' (has_key-slot hash histograms k q h')

    scan_allocated :
        (q : K)
        → scan hash histograms allocated.space q (m.entries + 1)
          ≡ (elim (scan hash histograms m.space q m.entries) [
            | some i ↦ some i
            | none ↦ if e.beq k q then some m.entries else none
          ])
    unfolding scan
    scan_allocated q =
        rw (add-one, ← scan_same hash histograms m.entries q m.space allocated.space (same q))
          (ground (arith, last_key q))

    bucket_same :
        (q : K) → hash q ≡ hash k → bucket_of hash histograms allocated q ≡ bucket ++ m.entries ∷ []
    bucket_same q p = ap or_empty (
        ap (λ x. lookup x allocated.m) p
        ∙ lookup-insert_self (hash k) (bucket ++ m.entries ∷ []) m.m)

    bucket_other :
        (q : K)
        → hash k ≢ hash q
        → bucket_of hash histograms allocated q ≡ bucket_of hash histograms m q
    bucket_other q p =
        ap or_empty (lookup-insert_ne (hash k) (hash q) (bucket ++ m.entries ∷ []) m.m p)

    find_before :
        (q : K)
        → find hash histograms allocated.space q (bucket_of hash histograms m q)
          ≡ scan hash histograms m.space q m.entries
    find_before q =
        sym (
          find_same hash histograms m.entries q m.space allocated.space
            (bucket_of hash histograms m q) (same q) (bucket-below hash histograms m q v))
        ∙ v.agree q

    agree_other :
        (q : K)
        → hash k ≢ hash q
        → find hash histograms allocated.space q (bucket_of hash histograms allocated q)
          ≡ scan hash histograms allocated.space q (m.entries + 1)
    agree_other q p =
        ap (find hash histograms allocated.space q) (bucket_other q p)
        ∙ find_before q
        ∙ (rw (scan_allocated q) (ground (arith, beq_ne e k q (λ x. p (ap hash x)))))

    agree_appended :
        (q : K) (o : Option ℕ)
        → scan hash histograms m.space q m.entries ≡ o
        → find hash histograms allocated.space q bucket ≡ o
        → find hash histograms allocated.space q (bucket ++ m.entries ∷ [])
          ≡ (elim o [ some i ↦ some i | none ↦ if e.beq k q then some m.entries else none ])
    agree_appended q none p f =
        find-append_none hash histograms allocated.space q bucket m.entries f ∙ rw (last_key q)
    agree_appended q (some i) p f =
        find-append_some hash histograms allocated.space q bucket m.entries i f

    agree_same :
        (q : K)
        → hash q ≡ hash k
        → find hash histograms allocated.space q (bucket_of hash histograms allocated q)
          ≡ scan hash histograms allocated.space q (m.entries + 1)
    agree_same q p =
        ap (find hash histograms allocated.space q) (bucket_same q p)
        ∙ agree_appended q (scan hash histograms m.space q m.entries) refl (
            ap (λ x. find hash histograms allocated.space q (or_empty (lookup x m.m))) (sym p)
            ∙ find_before q)
        ∙ sym (scan_allocated q)

    pub allocated-Inv : Inv hash histograms allocated
    allocated-Inv = record {
      room = omega (arith, length-set m.space m.entries (slot hash histograms k h'));
      below =
          insert-All (All (λ i. i < m.entries + 1)) (hash k) (bucket ++ m.entries ∷ []) m.m
            (below-append hash histograms m.entries bucket (bucket-below hash histograms m k v))
            (All-map m.m (λ p. below_weaken hash histograms m.entries p.1) v.below);
      filled =
          insert-All (λ b. b ≢ []) (hash k) (bucket ++ m.entries ∷ []) m.m
            (snoc-ne-nil bucket m.entries) v.filled;
      counted = omega (
        arith,
        v.counted,
        pointers-insert (hash k) (bucket ++ m.entries ∷ []) m.m,
        length-append bucket (m.entries ∷ []),
      );
      agree = λ q. elim (ℕ_discrete (hash k) (hash q)) [
        | yes eq ↦ agree_same q (sym eq)
        | no ne ↦ agree_other q ne
      ];
      used = λ j p. elim (ℕ_discrete m.entries j) [
        | yes eq ↦ (k, h', ap (get_elem? allocated.space) (sym eq) ∙ at')
        | no ne ↦
            let (q, h, s) = v.used j (omega arith) in
            (
              q,
              h,
              get_elem?-set_ne m.space {i = m.entries} {j = j} (slot hash histograms k h') ne ∙ s,
            )
      ];
    }

    other_key :
        (q : K) (i : ℕ) → scan hash histograms m.space q m.entries ≡ some i → e.beq k q ≡ false
    other_key q i p = elim (Bool-cases (e.beq k q)) [
      | inr f ↦ f
      | inl t ↦
          let found =
            subst (λ x. scan hash histograms m.space x m.entries ≡ some i)
              (sym ((e.beq_iff k q).0 t)) p in
          cc
    ]

    view_allocated_at :
        (q : K) (o : Option ℕ)
        → scan hash histograms m.space q m.entries ≡ o
        → view_at hash histograms allocated.space
            (elim o [ some i ↦ some i | none ↦ if e.beq k q then some m.entries else none ])
          ≡ (if e.beq k q then some h' else view_at hash histograms m.space o)
    unfolding view_at
    view_allocated_at q none p = ground (arith, at')
    view_allocated_at q (some i) p =
        let ne : m.entries ≢ i =
          (λ x. absurd (omega (arith, (scan_found hash histograms m.space q m.entries i p).0))) in
        rw (get_elem?-set_ne m.space {i = m.entries} {j = i} (slot hash histograms k h') ne)
          (ground (arith, other_key q i p))

    pub view-allocated :
        (q : K)
        → view hash histograms allocated q
          ≡ (if e.beq k q then some h' else view hash histograms m q)
    unfolding view
    view-allocated q =
        rw (scan_allocated q) (view_allocated_at q (scan hash histograms m.space q m.entries) refl)
