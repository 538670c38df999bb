-- ===== src/ModelProcessor/DropUnsampled.antt =====
-- modelprocessor/dropunsampled.go: the events that are not sampled leave the batch, each replaced by
-- the batch's last event.
pub mod Kept
use apm_server.Prelude.{
  ℕ, zero, suc, ◌+◌, ◌-◌, Option, none, some, Bool, true, false, ◌&&◌, ◌||◌, not, List, [], ◌∷◌,
  String, str_eq, if◌then◌else◌, length, get_elem?, set,
}
use apm_server.Model.Event.{ApmEvent, Transaction, Processor, transaction_processor, no_processor}

-- `events[len(events)-1]`
unfoldable pub last? : {A : Type 0} → List A → Option A
last? [] = none
last? (x ∷ []) = some x
last? (x ∷ y ∷ ys) = last? (y ∷ ys)

-- `events[:len(events)-1]`
unfoldable pub without_last : {A : Type 0} → List A → List A
without_last [] = []
without_last (x ∷ []) = []
without_last (x ∷ y ∷ ys) = x ∷ without_last (y ∷ ys)

-- The swap with the last event, and the cut that takes the event at `i` away.
unfoldable pub swap_remove : {A : Type 0} → ℕ → List A → List A
unfolding last? without_last
swap_remove i events = elim (last? events) [
  | none ↦ events
  | some l ↦ without_last (set events i l)
]

-- The loop, `fuel` bounding its iterations.
unfoldable pub drop_loop : {A : Type 0} → (A → Bool) → ℕ → ℕ → List A → List A
unfolding swap_remove
drop_loop should_drop zero i events = events
drop_loop should_drop (suc fuel) i events = elim (get_elem? events i) [
  | none ↦ events
  | some event ↦ elim (should_drop event) [
    | false ↦ drop_loop should_drop fuel (suc i) events
    | true ↦ drop_loop should_drop fuel i (swap_remove i events)
  ]
]

unfoldable pub is_rum_agent_name : String → Bool
is_rum_agent_name name = str_eq name "rum-js" || str_eq name "js-base" || str_eq name "iOS/swift"

is_sampled : {F : Type 0} → Option (Transaction F) → Bool
is_sampled none = true
is_sampled (some tx) = tx.sampled

is_transaction : Processor → Bool
is_transaction transaction_processor = true
is_transaction _ = false

-- `shouldDropUnsampled`
unfoldable pub should_drop_unsampled : {F : Type 0} → Bool → ApmEvent F → Bool
unfolding is_rum_agent_name is_sampled is_transaction
should_drop_unsampled drop_rum event =
    if not (is_transaction event.processor) || is_sampled event.transaction
    then false
    else (drop_rum || not (is_rum_agent_name event.agent_name))

-- `NewDropUnsampled`: the batch that is left, and what is added to the counter of dropped
-- transactions. Every iteration passes an event or removes one.
unfoldable pub drop_unsampled : {F : Type 0} → Bool → List (ApmEvent F) → List (ApmEvent F) × ℕ
unfolding drop_loop should_drop_unsampled
drop_unsampled drop_rum batch =
    let events = drop_loop (should_drop_unsampled drop_rum) (length batch) 0 batch in
    (events, length batch - length events)
