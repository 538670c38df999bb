-- ===== src/Sampling/Reservoir/Bounds.antt =====
-- The reservoir keeps within its capacity, and its operations do not panic.
use apm_server.Prelude.{
  ℕ, zero, suc, ◌+◌, ◌≤◌, ◌<◌, ◌≡◌, refl, ◌∙◌, String, some, Bool, true, false, [], ltb,
  if◌then◌else◌, pos, length, set, get_elem?, bit, count, count-set, length-set, get_elem?-some,
  arith, inl, inr, Bool-cases,
}
use apm_server.Model.Float64.{Float64}
use apm_server.Sampling.ItemHeap.{Items, push, fix_root}
use apm_server.Sampling.ItemHeap.Contents.{
  push-count, push-length, fix_root-count, fix_root-length, pop_lem,
}
use apm_server.Sampling.Reservoir.{Reservoir, replace_root, sample, reset, pop_down, resize}

module _ (fl : Float64) where
  open fl use {F, of_int, div, pow}

  pub record IsValid (s : Reservoir F) : Type 0 where
    pub some_room : 0 < s.capacity
    pub within : length s.items ≤ s.capacity

  -- What a sample does to the items, as a multiset: the new item comes in, or takes the place of one
  -- with a smaller key where the reservoir is full, or is turned away there by a key that is not smaller.
  pub data Sampled (s s' : Reservoir F) (x : F × String) : Bool → Type 0 where
    added :
        length s.items < s.capacity
        → ((c : F × String → Bool) → count c s'.items ≡ count c s.items + bit (c x))
        → Sampled s s' x true
    replaced :
        (root : F × String)
        → length s.items ≡ s.capacity
        → get_elem? s.items 0 ≡ some root
        → fl.ltb root.0 x.0 ≡ true
        → ((c : F × String → Bool) → count c s'.items + bit (c root) ≡ count c s.items + bit (c x))
        → Sampled s s' x true
    passed :
        (root : F × String)
        → length s.items ≡ s.capacity
        → get_elem? s.items 0 ≡ some root
        → fl.ltb root.0 x.0 ≡ false
        → s' ≡ s
        → Sampled s s' x false

  abbrev pub key_of : F → F → F
  key_of u weight = pow u (div (of_int (pos 1)) weight)

  -- Sampling into a valid reservoir does not panic and leaves it valid, with the same capacity and
  -- no item less. Below its capacity the new item comes in. At its capacity the new item takes the
  -- place of the root if the root's key is smaller, and the items stay as they are if it is not.
  pub sample-Sampled :
      (s : Reservoir F) (u weight : F) (trace_id : String)
      → IsValid s
      → (s' : Reservoir F) × (admitted : Bool) × (sample fl s u weight trace_id
          ≡ some (s', admitted))
        × IsValid s'
        × (s'.capacity ≡ s.capacity)
        × (length s.items ≤ length s'.items)
        × (length s'.items ≤ length s.items + 1)
        × Sampled s s' (key_of u weight, trace_id) admitted
  unfolding sample
  sample-Sampled s u weight trace_id v =
      let x : F × String = (key_of u weight, trace_id) in
      elim (Bool-cases (ltb (length s.items) s.capacity)) [
        | inl room ↦
            let below : length s.items < s.capacity = ground arith in
            let size = push-length fl s.items x in
            (
              record s { items = push fl s.items x },
              true,
              rw room refl,
              record { some_room = v.some_room; within = omega (arith, size) },
              refl,
              omega (arith, size),
              omega (arith, size),
              added below (λ c. push-count fl c s.items x),
            )
        | inr full ↦
            let at_capacity : length s.items ≡ s.capacity = ground (arith, v.within) in
            let enough : 0 < length s.items = omega (arith, v.some_room, at_capacity) in
            let (root, e) = get_elem?-some s.items 0 enough in
            elim (Bool-cases (fl.ltb root.0 x.0)) [
              | inl larger ↦
                  let changed = set s.items 0 x in
                  let size = fix_root-length fl changed ∙ length-set s.items 0 x in
                  (
                    record s { items = fix_root fl changed },
                    true,
                    rw (full, e, larger, replace_root) refl,
                    record { some_room = v.some_room; within = omega (arith, size, v.within) },
                    refl,
                    omega (arith, size),
                    omega (arith, size),
                    replaced root at_capacity e larger (λ c.
                        omega (arith, fix_root-count fl c changed, count-set c s.items 0 x root e)),
                  )
              | inr smaller ↦ (
                s,
                false,
                rw (full, e, smaller, replace_root) refl,
                v,
                refl,
                omega arith,
                omega arith,
                passed root at_capacity e smaller refl,
              )
            ]
      ]

  -- Taking items until `n` are left, at most.
  pub pop_down_lem :
      (len n : ℕ) (items : Items fl)
      → length items ≡ len
      → (rest : Items fl) × (pop_down fl len n items ≡ some rest)
        × (length rest ≡ (if ltb n len then n else len))
        × ((c : F × String → Bool) → count c rest ≤ count c items)
  unfolding pop_down
  pop_down_lem zero n items h = (items, refl, ground arith, λ c. omega arith)
  pop_down_lem (suc len) n items h = elim (Bool-cases (ltb n (suc len))) [
    | inr few ↦ (items, rw (few, pop_down), ground arith, λ c. omega arith)
    | inl many ↦
        let (left, x, e, size, counts) = pop_lem fl items (omega arith) in
        let (rest, f, left_size, fewer) = pop_down_lem len n left (omega arith) in
        (
          rest,
          rw (many, e, pop_down) f,
          ground (arith, left_size),
          λ c. omega (arith, fewer c, counts c),
        )
  ]

  pub reset-resize :
      (s : Reservoir F) (n : ℕ)
      → resize fl (reset fl s) n ≡ some (record { items = []; capacity = n })
  unfolding resize reset pop_down
  reset-resize s n = ground arith
