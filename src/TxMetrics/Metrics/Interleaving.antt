-- ===== src/TxMetrics/Metrics/Interleaving.antt =====
-- The second phase of an update after updates of other requests came between its phases.
use apm_server.Prelude.{
  ℕ, zero, suc, ◌≤◌, ◌≡◌, ◌≢◌, refl, ap, subst, List, [], ◌∷◌, none, some, Eq, length, take, drop,
  nat_eq, arith, inl, inr, Option-cases,
}
use apm_server.Prelude.Maps.{lookup, lookup-All}
use apm_server.TxMetrics.Metrics.{Histograms, Metrics, Entry, find, read_phase, write_phase, update}
use apm_server.TxMetrics.Metrics.Groups.{Inv, or_empty, bucket_of}
use apm_server.TxMetrics.Metrics.Updates.{length-pos, drop_all}

module _ {K : Type 0} ⦃e : Eq K⦄ (hash : K → ℕ) (histograms : Histograms) where
  find-drop :
      (s : List (Entry hash histograms)) (k : K) (n : ℕ) (is : List ℕ)
      → find hash histograms s k (take n is) ≡ none
      → find hash histograms s k (drop n is) ≡ find hash histograms s k is
  unfolding find
  find-drop s k zero is h = refl
  find-drop s k (suc n) [] h = refl
  find-drop s k (suc n) (i ∷ is) h = ground (arith, find-drop s k n is)

  module _ (figures : ℕ) (m : Metrics hash histograms) (k : K) (value count offset : ℕ)
      (v : Inv hash histograms m) where
    in_bucket :
        (b : List ℕ)
        → lookup (hash k) m.m ≡ some b
        → offset ≤ length b
        → find hash histograms m.space k (take offset b) ≡ none
        → write_phase hash histograms figures m offset k value count
          ≡ update hash histograms figures m k value count
    unfolding update read_phase write_phase find
    in_bucket b q within none_before =
        let rest = find-drop m.space k offset b none_before in
        let filled = lookup-All (λ x. x ≢ []) (hash k) b m.m v.filled q in
        elim (Option-cases (find hash histograms m.space k b)) [
          | inr (i, found) ↦ ground (arith, q, rest, found)
          | inl gone ↦ ground (arith, q, rest, gone, length-pos b filled, drop_all b filled)
        ]

    no_bucket :
        lookup (hash k) m.m ≡ none
        → write_phase hash histograms figures m offset k value count
          ≡ update hash histograms figures m k value count
    unfolding update read_phase write_phase
    no_bucket q = ground (arith, q)

    -- The second phase of an update, whenever it comes, on metrics that satisfy the invariant: if its
    -- offset is within the bucket of the key's hash and the pointers before the offset are not the
    -- key's, it does what a whole update would do at that time.
    pub write_phase-update :
        offset ≤ length (bucket_of hash histograms m k)
        → find hash histograms m.space k (take offset (bucket_of hash histograms m k)) ≡ none
        → write_phase hash histograms figures m offset k value count
          ≡ update hash histograms figures m k value count
    write_phase-update within none_before = elim (Option-cases (lookup (hash k) m.m)) [
      | inl q ↦ no_bucket q
      | inr (b, q) ↦
          let same = ap or_empty q in
          in_bucket b q (subst (λ x. offset ≤ length x) same within)
            (subst (λ x. find hash histograms m.space k (take offset x) ≡ none) same none_before)
    ]
