-- ===== src/Prelude/Maps.antt =====
-- A Go map as an association list, over the equality of its keys.
use Prim.Native.Nat.{◌+◌}
use mathlib.Core.Path.{◌≡◌, subst, sym, ap, ◌∙◌}
use mathlib.Core.Logic.{◌≢◌, inl, inr}
use mathlib.Core.List.{List, [], ◌∷◌, Memᴰ as Member}
use mathlib.Core.Option.{Option, none, some}
use native.Mathlib.Omega.{arith}
use apm_server.Prelude.Tests.{Eq, if◌then◌else◌, Bool-cases, beq_refl, beq_ne}
use apm_server.Prelude.Lists.{length, All}

module _ {ℓ κ} {K : Type ℓ} {V : Type κ} ⦃e : Eq K⦄ where
  -- `m[k]`, with the Boolean of `v, ok := m[k]` as the option.
  unfoldable pub lookup : K → List (K × V) → Option V
  lookup k [] = none
  lookup k ((j, v) ∷ m) = if e.beq j k then some v else lookup k m

  -- `m[k] = v`
  unfoldable pub insert : K → V → List (K × V) → List (K × V)
  insert k v [] = (k, v) ∷ []
  insert k v ((j, w) ∷ m) = if e.beq j k then (k, v) ∷ m else (j, w) ∷ insert k v m

  pub lookup-insert_self : (k : K) (v : V) (m : List (K × V)) → lookup k (insert k v m) ≡ some v
  unfolding lookup insert
  lookup-insert_self k v [] = rw (beq_refl e k)
  lookup-insert_self k v ((j, w) ∷ m) = elim (Bool-cases (e.beq j k)) [
    | inl p ↦ rw (p, beq_refl e k)
    | inr p ↦ rw (p, p) (lookup-insert_self k v m)
  ]

  pub lookup-insert_ne :
      (k q : K) (v : V) (m : List (K × V)) → k ≢ q → lookup q (insert k v m) ≡ lookup q m
  unfolding lookup insert
  lookup-insert_ne k q v [] h = rw (beq_ne e k q h)
  lookup-insert_ne k q v ((j, w) ∷ m) h =
      ground (arith, beq_ne e k q h, e.beq_iff j k, e.beq_iff j q, lookup-insert_ne k q v m h)

  pub length-insert_new :
      (k : K) (v : V) (m : List (K × V)) → lookup k m ≡ none → length (insert k v m) ≡ length m + 1
  unfolding lookup insert
  length-insert_new k v [] h = omega arith
  length-insert_new k v ((j, w) ∷ m) h = ground (arith, length-insert_new k v m)

  pub length-insert_old :
      (k : K) (v w : V) (m : List (K × V)) → lookup k m ≡ some w → length (insert k v m) ≡ length m
  unfolding lookup insert
  length-insert_old k v w [] h = cc
  length-insert_old k v w ((j, u) ∷ m) h = ground (arith, length-insert_old k v w m)

  pub lookup-Member : (k : K) (v : V) (m : List (K × V)) → lookup k m ≡ some v → Member (k, v) m
  unfolding lookup
  lookup-Member k v [] h = cc
  lookup-Member k v ((j, w) ∷ m) h = elim (Bool-cases (e.beq j k)) [
    | inl p ↦
        let same : j ≡ k = (e.beq_iff j k).0 p in
        let found : some w ≡ some v = rw p at h in
        let value : w ≡ v = cc in Member.head (sym (ap (λ j. (j, w)) same ∙ ap (λ w. (k, w)) value))
    | inr p ↦ Member.tail (lookup-Member k v m (rw p at h))
  ]

  pub lookup-All {μ} :
      (P : V → Type μ) (k : K) (v : V) (m : List (K × V))
      → All (λ p. P p.1) m
      → lookup k m ≡ some v
      → P v
  unfolding lookup
  lookup-All P k v [] h e' = cc
  lookup-All P k v ((j, w) ∷ m) h e' = elim (Bool-cases (e.beq j k)) [
    | inl p ↦ let same : w ≡ v = ground arith in subst P same h.0
    | inr p ↦ lookup-All P k v m h.1 (rw p at e')
  ]

  pub insert-All {μ} :
      (P : V → Type μ) (k : K) (v : V) (m : List (K × V))
      → P v
      → All (λ p. P p.1) m
      → All (λ p. P p.1) (insert k v m)
  unfolding insert
  insert-All P k v [] pv h = (pv, tt)
  insert-All P k v ((j, w) ∷ m) pv h = elim (Bool-cases (e.beq j k)) [
    | inl p ↦ rw p (pv, h.1)
    | inr p ↦ rw p (h.0, insert-All P k v m pv h.1)
  ]
