-- ===== src/Sampling/ItemHeap.antt =====
-- sampling/reservoir.go: the heap of items, a list of keys with their trace IDs, and the functions of
-- Go's container/heap on it. Indices stay within the list.
pub mod Contents
use apm_server.Prelude.{
  ℕ, zero, suc, ◌+◌, ◌-◌, ◌*◌, ◌/◌, String, Option, none, some, ◌>>=◌, Bool, true, false, ◌&&◌,
  ◌||◌, not, List, [], ◌∷◌, ◌++◌, ◌==◌, ltb, leb, if◌then◌else◌, length, get_elem?, set, take,
}
use apm_server.Model.Float64.{Float64}

-- `Swap`
unfoldable pub swap : {A : Type 0} → List A → ℕ → ℕ → List A
swap a i j = elim (get_elem? a i) [
  | none ↦ a
  | some x ↦ elim (get_elem? a j) [ none ↦ a | some y ↦ set (set a i y) j x ]
]

module _ (fl : Float64) where
  open fl use {F}

  abbrev pub Items : Type 0
  Items = List (F × String)

  less_items : Option (F × String) → Option (F × String) → Bool
  less_items (some (k, _)) (some (l, _)) = fl.ltb k l
  less_items _ _ = false

  -- `Less`
  unfoldable pub less : Items → ℕ → ℕ → Bool
  unfolding less_items
  less a i j = less_items (get_elem? a i) (get_elem? a j)

  -- `heap.up`: the parent of 0 is 0.
  unfoldable pub up : ℕ → Items → ℕ → Items
  up zero a j = a
  up (suc fuel) a j =
      let i = (j - 1) / 2 in
      elim (i == j || not (less a j i)) [ true ↦ a | false ↦ up fuel (swap a i j) i ]

  -- The smaller child of `i` among the first `n` items.
  unfoldable pub smaller_child : Items → ℕ → ℕ → ℕ
  smaller_child a i n = let j = 2 * i + 1 in if ltb (j + 1) n && less a (j + 1) j then j + 1 else j

  -- `heap.down`
  unfoldable pub down : ℕ → Items → ℕ → ℕ → Items
  unfolding smaller_child
  down zero a i n = a
  down (suc fuel) a i n =
      let j = smaller_child a i n in
      elim (leb n (2 * i + 1) || not (less a j i)) [ true ↦ a | false ↦ down fuel (swap a i j) j n ]

  -- `heap.Push`
  unfoldable pub push : Items → F × String → Items
  unfolding up
  push a x = up (length a) (a ++ x ∷ []) (length a)

  -- `heap.Fix` at 0, where nothing is to move up.
  unfoldable pub fix_root : Items → Items
  unfolding down
  fix_root a = down (length a) a 0 (length a)

  -- `heap.Pop`: the items that are left, and the item taken; none where Go panics.
  unfoldable pub pop : Items → Option (Items × (F × String))
  unfolding down swap
  pop a =
      let n = length a - 1 in
      let b = down n (swap a 0 n) 0 n in do x ← get_elem? b n; some (take n b, x)
