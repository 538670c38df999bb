-- ===== src/ModelProcessor/DropUnsampled/Kept.antt =====
-- The events that are left are the sampled ones.
use apm_server.Prelude.{
  count-take-suc, count-take_all, length-none, count, bit, count-true, ℕ, zero, suc, ◌+◌, ◌≤◌, some,
  Bool, true, ◌&&◌, not, List, [], ◌∷◌, length, get_elem?, set, take, drop, ◌≡◌, refl, ap, arith,
  inl, inr, Option-cases, Bool-cases,
}
use apm_server.Model.Event.{ApmEvent}
use apm_server.ModelProcessor.DropUnsampled.{
  last?, without_last, swap_remove, drop_loop, should_drop_unsampled, drop_unsampled,
}

module _ {A : Type 0} where
  count-without_last :
      (c : A → Bool) (xs : List A) (l : A)
      → last? xs ≡ some l
      → count c (without_last xs) + bit (c l) ≡ count c xs
  unfolding last? without_last
  count-without_last c [] l h = cc
  count-without_last c (x ∷ []) l h =
      let same : x ≡ l = cc in omega (arith, ap (λ y. bit (c y)) same)
  count-without_last c (x ∷ y ∷ ys) l h = omega (arith, count-without_last c (y ∷ ys) l h)

  last?-some : (x : A) (xs : List A) → (l : A) × (last? (x ∷ xs) ≡ some l)
  unfolding last?
  last?-some x [] = (x, refl)
  last?-some x (y ∷ ys) = last?-some y ys

  without_last-set :
      (x y l : A) (ys : List A) (i : ℕ)
      → without_last (x ∷ set (y ∷ ys) i l) ≡ x ∷ without_last (set (y ∷ ys) i l)
  unfolding without_last
  without_last-set x y l ys zero = refl
  without_last-set x y l ys (suc i) = refl

  swap_remove-cons :
      (x y : A) (ys : List A) (i : ℕ)
      → swap_remove (suc i) (x ∷ y ∷ ys) ≡ x ∷ swap_remove i (y ∷ ys)
  unfolding swap_remove last?
  swap_remove-cons x y ys i =
      let (l, e) = last?-some y ys in rw (e, without_last-set x y l ys i, swap_remove)

  length-without_last : (x : A) (xs : List A) → length (without_last (x ∷ xs)) ≡ length xs
  unfolding without_last
  length-without_last x [] = refl
  length-without_last x (y ∷ ys) = ap suc (length-without_last y ys)

  -- What removing the event at `i` leaves: what stands before it, and from there on the others.
  pub swap_remove_lem :
      (c : A → Bool) (xs : List A) (i : ℕ) (x : A)
      → get_elem? xs i ≡ some x
      → (length (swap_remove i xs) + 1 ≡ length xs)
        × (count c (take i (swap_remove i xs)) ≡ count c (take i xs))
        × (count c (drop i (swap_remove i xs)) + bit (c x) ≡ count c (drop i xs))
  unfolding swap_remove last? without_last
  swap_remove_lem c [] i x h = cc
  swap_remove_lem c (y ∷ []) zero x h =
      let same : y ≡ x = cc in (refl, refl, omega (arith, ap (λ a. bit (c a)) same))
  swap_remove_lem c (y ∷ z ∷ zs) zero x h =
      let (l, e) = last?-some z zs in
      let same : y ≡ x = cc in
      rw (e, swap_remove)
        (
          omega (arith, length-without_last z zs),
          refl,
          omega (arith, ap (λ a. bit (c a)) same, count-without_last c (z ∷ zs) l e),
        )
  swap_remove_lem c (y ∷ []) (suc i) x h = cc
  swap_remove_lem c (y ∷ z ∷ zs) (suc i) x h =
      let (len, before, after) = swap_remove_lem c (z ∷ zs) i x h in
      rw (swap_remove-cons y z zs i) (omega (arith, len), omega (arith, before), after)

  abbrev kept : (A → Bool) → (A → Bool) → A → Bool
  kept should_drop p x = p x && not (should_drop x)

  -- The loop keeps what it has passed, and the events after it that stay.
  drop_loop-count :
      (should_drop p : A → Bool) (fuel i : ℕ) (xs : List A)
      → length xs ≤ i + fuel
      → count p (drop_loop should_drop fuel i xs)
        ≡ count p (take i xs) + count (kept should_drop p) (drop i xs)
  unfolding drop_loop
  drop_loop-count should_drop p zero i xs h =
      let (all, _) = count-take_all p xs i (omega arith) in
      let (_, nothing) = count-take_all (kept should_drop p) xs i (omega arith) in
      omega (arith, all, nothing)
  drop_loop-count should_drop p (suc fuel) i xs h = elim (Option-cases (get_elem? xs i)) [
    | inl e ↦
        let beyond = length-none xs i e in
        let (all, _) = count-take_all p xs i beyond in
        let (_, nothing) = count-take_all (kept should_drop p) xs i beyond in
        rw (e, drop_loop) (omega (arith, all, nothing))
    | inr (x, e) ↦ elim (Bool-cases (should_drop x)) [
      | inl d ↦
          let (len, before, _) = swap_remove_lem p xs i x e in
          let (_, _, after) = swap_remove_lem (kept should_drop p) xs i x e in
          let off : bit (kept should_drop p x) ≡ 0 = ground arith in
          rw (e, d, drop_loop)
            (omega (
              arith,
              drop_loop-count should_drop p fuel i (swap_remove i xs) (omega (arith, len)),
              before,
              after,
              off,
            ))
      | inr d ↦
          let (before, _) = count-take-suc p xs i x e in
          let (_, after) = count-take-suc (kept should_drop p) xs i x e in
          let on : bit (kept should_drop p x) ≡ bit (p x) = ground arith in
          rw (e, d, drop_loop)
            (omega (
              arith,
              drop_loop-count should_drop p fuel (suc i) xs (omega arith),
              before,
              after,
              on,
            ))
    ]
  ]

  count-complement :
      (should_drop : A → Bool) (xs : List A)
      → count (kept should_drop (λ x. true)) xs + count should_drop xs ≡ length xs
  count-complement should_drop [] = omega arith
  count-complement should_drop (x ∷ xs) = ground (arith, count-complement should_drop xs)

-- Dropping the unsampled transactions leaves exactly the events that are not to be dropped: for every
-- test, as many events that pass it are left as there were events that pass it and are not to be
-- dropped. The counter is the number of events that are gone.
pub drop_unsampled-count :
    {F : Type 0} (drop_rum : Bool) (batch : List (ApmEvent F)) (p : ApmEvent F → Bool)
    → (count p (drop_unsampled drop_rum batch).0
        ≡ count (λ x. p x && not (should_drop_unsampled drop_rum x)) batch)
      × ((drop_unsampled drop_rum batch).1 ≡ count (should_drop_unsampled drop_rum) batch)
unfolding drop_unsampled
drop_unsampled-count {F} drop_rum batch p =
    let s = should_drop_unsampled {F = F} drop_rum in
    let left = drop_loop s (length batch) 0 batch in
    (
      omega (arith, drop_loop-count s p (length batch) 0 batch (omega arith)),
      omega (
        arith,
        drop_loop-count s (λ x. true) (length batch) 0 batch (omega arith),
        count-true left,
        count-complement s batch,
      ),
    )
