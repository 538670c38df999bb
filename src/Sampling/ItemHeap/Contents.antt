-- ===== src/Sampling/ItemHeap/Contents.antt =====
-- The heap's operations keep its items: for every test, as many pass it as before.
use apm_server.Prelude.{
  ℕ, zero, suc, ◌+◌, ◌-◌, ◌*◌, ◌/◌, ◌<◌, ◌≡◌, refl, sym, ◌∙◌, String, some, Bool, true, not, ◌||◌,
  ◌==◌, leb, List, [], ◌∷◌, ◌++◌, length, get_elem?, set, take, bit, count, count-append, count-set,
  count-true, count-take_last, length-take, get_elem?-set_self, get_elem?-set_ne, get_elem?-some,
  arith, inl, inr, Bool-cases, Option-cases,
}
use native.Mathlib.Decide.{ℕ_discrete}
use apm_server.Model.Float64.{Float64}
use apm_server.Sampling.ItemHeap.{swap, Items, less, up, smaller_child, down, push, fix_root, pop}

swap-count : {A : Type 0} (c : A → Bool) (a : List A) (i j : ℕ) → count c (swap a i j) ≡ count c a
unfolding swap
swap-count c a i j = elim (Option-cases (get_elem? a i)) [
  | inl e ↦ rw (e, swap)
  | inr (x, e) ↦ elim (Option-cases (get_elem? a j)) [
    | inl f ↦ rw (e, f, swap)
    | inr (y, f) ↦
        let there : get_elem? (set a i y) j ≡ some y = elim (ℕ_discrete i j) [
          | yes same ↦ rw (← same) (get_elem?-set_self a i y x e)
          | no ne ↦ get_elem?-set_ne a {i = i} {j = j} y ne ∙ f
        ] in
        rw (e, f, swap) (omega (arith, count-set c a i y x e, count-set c (set a i y) j x y there))
  ]
]

module _ (fl : Float64) where
  open fl use {F}

  module _ (c : F × String → Bool) where
    up-count : (fuel : ℕ) (a : Items fl) (j : ℕ) → count c (up fl fuel a j) ≡ count c a
    unfolding up
    up-count zero a j = refl
    up-count (suc fuel) a j =
        let i = (j - 1) / 2 in
        elim (Bool-cases (i == j || not (less fl a j i))) [
          | inl stop ↦ rw (stop, up)
          | inr rise ↦ rw (rise, up) (up-count fuel (swap a i j) i ∙ swap-count c a i j)
        ]

    down-count : (fuel : ℕ) (a : Items fl) (i n : ℕ) → count c (down fl fuel a i n) ≡ count c a
    unfolding down
    down-count zero a i n = refl
    down-count (suc fuel) a i n =
        let j = smaller_child fl a i n in
        elim (Bool-cases (leb n (2 * i + 1) || not (less fl a j i))) [
          | inl stop ↦ rw (stop, down)
          | inr sink ↦ rw (sink, down) (down-count fuel (swap a i j) j n ∙ swap-count c a i j)
        ]

    pub push-count : (a : Items fl) (x : F × String) → count c (push fl a x) ≡ count c a + bit (c x)
    unfolding push
    push-count a x =
        omega (arith, up-count (length a) (a ++ x ∷ []) (length a), count-append c a (x ∷ []))

    pub fix_root-count : (a : Items fl) → count c (fix_root fl a) ≡ count c a
    unfolding fix_root
    fix_root-count a = down-count (length a) a 0 (length a)

  down-length : (fuel : ℕ) (a : Items fl) (i n : ℕ) → length (down fl fuel a i n) ≡ length a
  down-length fuel a i n =
      sym (count-true (down fl fuel a i n)) ∙ down-count (λ x. true) fuel a i n ∙ count-true a

  swap-length : (a : Items fl) (i j : ℕ) → length (swap a i j) ≡ length a
  swap-length a i j = sym (count-true (swap a i j)) ∙ swap-count (λ x. true) a i j ∙ count-true a

  pub push-length : (a : Items fl) (x : F × String) → length (push fl a x) ≡ length a + 1
  push-length a x =
      omega (arith, push-count (λ y. true) a x, count-true (push fl a x), count-true a)

  pub fix_root-length : (a : Items fl) → length (fix_root fl a) ≡ length a
  fix_root-length a = sym (count-true (fix_root fl a)) ∙ fix_root-count (λ y. true) a ∙ count-true a

  -- Taking an item from a heap that has one: it and those that are left are the items before.
  pub pop_lem :
      (a : Items fl)
      → 0 < length a
      → (rest : Items fl) × (x : F × String) × (pop fl a ≡ some (rest, x))
        × (length rest + 1 ≡ length a)
        × ((c : F × String → Bool) → count c rest + bit (c x) ≡ count c a)
  unfolding pop
  pop_lem a h =
      let n = length a - 1 in
      let b = down fl n (swap a 0 n) 0 n in
      let size : length b ≡ suc n =
        omega (arith, down-length n (swap a 0 n) 0 n, swap-length a 0 n) in
      let (x, e) = get_elem?-some b n (omega (arith, size)) in
      (
        take n b,
        x,
        rw (e, pop),
        omega (arith, length-take n b (omega (arith, size))),
        λ c. count-take_last c n b x size e ∙ down-count c n (swap a 0 n) 0 n ∙ swap-count c a 0 n,
      )
