-- ===== src/Sampling/Reservoir.antt =====
-- sampling/reservoir.go: a random sample of trace IDs of limited size, weighted by duration.
pub mod Bounds
use apm_server.Prelude.{
  ℕ, zero, suc, String, Option, none, some, ◌>>=◌, Bool, true, false, List, [], ◌∷◌, ltb,
  if◌then◌else◌, pos, length, set, get_elem?, map,
}
use apm_server.Model.Float64.{Float64}
use apm_server.Sampling.ItemHeap.{Items, push, fix_root, pop}

-- `weightedRandomSample`: the random numbers are arguments of the operation that draws them.
pub record Reservoir (F : Type 0) : Type 0 where
  pub items : List (F × String)
  pub capacity : ℕ

unfoldable pub new_weighted_random_sample : {F : Type 0} → ℕ → Reservoir F
new_weighted_random_sample reservoir_size = record { items = []; capacity = reservoir_size }

module _ (fl : Float64) where
  open fl use {F, of_int, div, pow}

  -- The item that takes the root's place in a full reservoir, if its key is larger; `s.keys[0]`
  -- panics where there is no item.
  unfoldable pub replace_root : Reservoir F → F → String → Option (Reservoir F × Bool)
  replace_root s k trace_id = do
    (k0, _) ← get_elem? s.items 0
    (if fl.ltb k0 k
        then some (record s { items = fix_root fl (set s.items 0 (k, trace_id)) }, true)
        else some (s, false))

  -- `Sample`; `u` is the random number.
  unfoldable pub sample : Reservoir F → F → F → String → Option (Reservoir F × Bool)
  unfolding replace_root
  sample s u weight trace_id =
      let k = pow u (div (of_int (pos 1)) weight) in
      if ltb (length s.items) s.capacity
      then some (record s { items = push fl s.items (k, trace_id) }, true)
      else replace_root s k trace_id

  unfoldable pub reset : Reservoir F → Reservoir F
  reset s = record s { items = [] }

  -- The loop of `Resize`, from `len(s.keys)` items down to `n`.
  unfoldable pub pop_down : ℕ → ℕ → Items fl → Option (Items fl)
  pop_down zero n items = some items
  pop_down (suc len) n items = elim (ltb n (suc len)) [
    | true ↦ do (rest, _) ← pop fl items; pop_down len n rest
    | false ↦ some items
  ]

  unfoldable pub resize : Reservoir F → ℕ → Option (Reservoir F)
  unfolding pop_down
  resize s n =
      if ltb s.capacity n
      then some (record s { capacity = n })
      else (if ltb n s.capacity
          then (do
            items ← pop_down (length s.items) n s.items
            some (record { items = items; capacity = n }))
          else some s)

  -- `Values`
  unfoldable pub values : Reservoir F → List String
  values s = map (λ x. x.1) s.items
