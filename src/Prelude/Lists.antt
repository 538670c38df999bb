-- ===== src/Prelude/Lists.antt =====
-- Lists measured and indexed by native numbers, under the library's names.
use Prim.Native.Nat.{ℕ, zero, suc, ◌+◌, ◌≤◌, ◌<◌}
use mathlib.Core.Path.{◌≡◌, refl, ap, subst}
use mathlib.Core.Logic.{◌⊎◌, inl, inr, ◌≢◌}
use mathlib.Core.Bool.{Bool, true, false}
use mathlib.Core.List.{List, [], ◌∷◌, ◌++◌}
use mathlib.Core.Option.{Option, none, some}
use native.Mathlib.Omega.{arith}

module _ {ℓ} {A : Type ℓ} where
  abbrev pub length : List A → ℕ
  length [] = 0
  length (x ∷ xs) = suc (length xs)

  abbrev pub get_elem? : List A → ℕ → Option A
  get_elem? [] i = none
  get_elem? (x ∷ xs) zero = some x
  get_elem? (x ∷ xs) (suc i) = get_elem? xs i

  -- A write out of bounds changes nothing.
  abbrev pub set : List A → ℕ → A → List A
  set [] i v = []
  set (x ∷ xs) zero v = v ∷ xs
  set (x ∷ xs) (suc i) v = x ∷ set xs i v

  abbrev pub take : ℕ → List A → List A
  take zero xs = []
  take (suc n) [] = []
  take (suc n) (x ∷ xs) = x ∷ take n xs

  abbrev pub drop : ℕ → List A → List A
  drop zero xs = xs
  drop (suc n) [] = []
  drop (suc n) (x ∷ xs) = drop n xs

  pub length-append : (xs ys : List A) → length (xs ++ ys) ≡ length xs + length ys
  length-append [] ys = omega arith
  length-append (x ∷ xs) ys = omega (arith, length-append xs ys)

  pub length-set : (xs : List A) (i : ℕ) (v : A) → length (set xs i v) ≡ length xs
  length-set [] i v = refl
  length-set (x ∷ xs) zero v = refl
  length-set (x ∷ xs) (suc i) v = ap suc (length-set xs i v)

  pub get_elem?-set_self :
      (xs : List A) (i : ℕ) (v w : A) → get_elem? xs i ≡ some w → get_elem? (set xs i v) i ≡ some v
  get_elem?-set_self [] i v w h = cc
  get_elem?-set_self (x ∷ xs) zero v w h = refl
  get_elem?-set_self (x ∷ xs) (suc i) v w h = get_elem?-set_self xs i v w h

  pub get_elem?-set_ne :
      (xs : List A) {i j : ℕ} (v : A) → i ≢ j → get_elem? (set xs i v) j ≡ get_elem? xs j
  get_elem?-set_ne [] v h = refl
  get_elem?-set_ne (x ∷ xs) {i = zero} {j = zero} v h = absurd (h refl)
  get_elem?-set_ne (x ∷ xs) {i = zero} {j = suc j} v h = refl
  get_elem?-set_ne (x ∷ xs) {i = suc i} {j = zero} v h = refl
  get_elem?-set_ne (x ∷ xs) {i = suc i} {j = suc j} v h = get_elem?-set_ne xs v (λ e. h (ap suc e))

  pub get_elem?-some : (xs : List A) (i : ℕ) → i < length xs → (a : A) × (get_elem? xs i ≡ some a)
  get_elem?-some [] i h = absurd (omega arith)
  get_elem?-some (x ∷ xs) zero h = (x, refl)
  get_elem?-some (x ∷ xs) (suc i) h = get_elem?-some xs i (omega arith)

  pub get_elem?-none : (xs : List A) (i : ℕ) → length xs ≤ i → get_elem? xs i ≡ none
  get_elem?-none [] i h = refl
  get_elem?-none (x ∷ xs) zero h = absurd (omega arith)
  get_elem?-none (x ∷ xs) (suc i) h = get_elem?-none xs i (omega arith)

  pub drop-length : (xs : List A) → drop (length xs) xs ≡ []
  drop-length [] = refl
  drop-length (x ∷ xs) = drop-length xs

  pub length-take-le : (n : ℕ) (xs : List A) → length (take n xs) ≤ n
  length-take-le zero xs = omega arith
  length-take-le (suc n) [] = omega arith
  length-take-le (suc n) (x ∷ xs) = omega (arith, length-take-le n xs)

abbrev pub bit : Bool → ℕ
bit true = 1
bit false = 0

-- How many elements satisfy a test.
abbrev pub count {ℓ} : {A : Type ℓ} → (A → Bool) → List A → ℕ
count c [] = 0
count c (x ∷ xs) = bit (c x) + count c xs

module _ {ℓ} {A : Type ℓ} where
  pub count-append : (c : A → Bool) (xs ys : List A) → count c (xs ++ ys) ≡ count c xs + count c ys
  count-append c [] ys = omega arith
  count-append c (x ∷ xs) ys = omega (arith, count-append c xs ys)

  pub count-set :
      (c : A → Bool) (xs : List A) (i : ℕ) (v x : A)
      → get_elem? xs i ≡ some x
      → count c (set xs i v) + bit (c x) ≡ count c xs + bit (c v)
  count-set c [] i v x h = cc
  count-set c (y ∷ ys) zero v x h = let same : y ≡ x = cc in omega (arith, ap (λ a. bit (c a)) same)
  count-set c (y ∷ ys) (suc i) v x h = omega (arith, count-set c ys i v x h)

  pub count-true : (xs : List A) → count (λ x. true) xs ≡ length xs
  count-true [] = refl
  count-true (x ∷ xs) = omega (arith, count-true xs)

  -- An element that can be read stands within the list.
  pub get_elem?-length : (xs : List A) (i : ℕ) (x : A) → get_elem? xs i ≡ some x → i < length xs
  get_elem?-length [] i x h = cc
  get_elem?-length (y ∷ ys) zero x h = omega arith
  get_elem?-length (y ∷ ys) (suc i) x h = omega (arith, get_elem?-length ys i x h)

  pub length-take : (n : ℕ) (xs : List A) → n ≤ length xs → length (take n xs) ≡ n
  length-take zero xs h = refl
  length-take (suc n) [] h = absurd (omega arith)
  length-take (suc n) (x ∷ xs) h = omega (arith, length-take n xs (omega arith))

  pub count-take-suc :
      (c : A → Bool) (xs : List A) (i : ℕ) (x : A)
      → get_elem? xs i ≡ some x
      → (count c (take (suc i) xs) ≡ count c (take i xs) + bit (c x))
        × (count c (drop i xs) ≡ bit (c x) + count c (drop (suc i) xs))
  count-take-suc c [] i x h = cc
  count-take-suc c (y ∷ ys) zero x h =
      let same : y ≡ x = cc in
      (omega (arith, ap (λ a. bit (c a)) same), omega (arith, ap (λ a. bit (c a)) same))
  count-take-suc c (y ∷ ys) (suc i) x h =
      let (before, after) = count-take-suc c ys i x h in (omega (arith, before), after)

  pub count-take_all :
      (c : A → Bool) (xs : List A) (i : ℕ)
      → length xs ≤ i
      → (count c (take i xs) ≡ count c xs) × (count c (drop i xs) ≡ 0)
  count-take_all c [] zero h = (refl, refl)
  count-take_all c [] (suc i) h = (refl, refl)
  count-take_all c (y ∷ ys) zero h = absurd (omega arith)
  count-take_all c (y ∷ ys) (suc i) h =
      let (before, after) = count-take_all c ys i (omega arith) in (omega (arith, before), after)

  pub length-none : (xs : List A) (i : ℕ) → get_elem? xs i ≡ none → length xs ≤ i
  length-none [] i h = omega arith
  length-none (x ∷ xs) zero h = cc
  length-none (x ∷ xs) (suc i) h = omega (arith, length-none xs i h)

  pub count-take-drop :
      (c : A → Bool) (i : ℕ) (xs : List A) → count c (take i xs) + count c (drop i xs) ≡ count c xs
  count-take-drop c zero xs = omega arith
  count-take-drop c (suc i) [] = omega arith
  count-take-drop c (suc i) (x ∷ xs) = omega (arith, count-take-drop c i xs)

  -- The elements before the last one, and the last one.
  pub count-take_last :
      (c : A → Bool) (n : ℕ) (xs : List A) (x : A)
      → length xs ≡ suc n
      → get_elem? xs n ≡ some x
      → count c (take n xs) + bit (c x) ≡ count c xs
  count-take_last c n [] x l h = cc
  count-take_last c zero (y ∷ []) x l h =
      let same : y ≡ x = cc in omega (arith, ap (λ a. bit (c a)) same)
  count-take_last c zero (y ∷ z ∷ zs) x l h = absurd (omega arith)
  count-take_last c (suc n) (y ∷ ys) x l h = omega (arith, count-take_last c n ys x (omega arith) h)

-- Every element satisfies `P`: computes to a tuple, which the tactics read and build.
abbrev pub All {ℓ κ} : {A : Type ℓ} → (A → Type κ) → List A → Type κ
All P [] = Unit
All P (x ∷ xs) = P x × All P xs

pub List-cases {ℓ} : {A : Type ℓ} (xs : List A) → (xs ≡ []) ⊎ (xs ≢ [])
List-cases [] = inl refl
List-cases (x ∷ xs) = inr (λ h. cc)

pub All-map {ℓ κ μ} :
    {A : Type ℓ} {P : A → Type κ} {Q : A → Type μ} (xs : List A)
    → ((a : A) → P a → Q a)
    → All P xs
    → All Q xs
All-map [] f h = tt
All-map (x ∷ xs) f h = (f x h.0, All-map xs f h.1)

module _ {ℓ κ} {A : Type ℓ} (P : A → Type κ) where
  pub All-set : (xs : List A) (i : ℕ) (v : A) → All P xs → P v → All P (set xs i v)
  All-set [] i v h p = tt
  All-set (x ∷ xs) zero v h p = (p, h.1)
  All-set (x ∷ xs) (suc i) v h p = (h.0, All-set xs i v h.1 p)

  pub All-get_elem? : (xs : List A) (i : ℕ) (x : A) → All P xs → get_elem? xs i ≡ some x → P x
  All-get_elem? [] i x h e = cc
  All-get_elem? (y ∷ ys) zero x h e = let same : y ≡ x = cc in subst P same h.0
  All-get_elem? (y ∷ ys) (suc i) x h e = All-get_elem? ys i x h.1 e

  pub All-append : (xs ys : List A) → All P xs → All P ys → All P (xs ++ ys)
  All-append [] ys p q = q
  All-append (x ∷ xs) ys p q = (p.0, All-append xs ys p.1 q)
