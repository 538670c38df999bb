-- ===== src/Tests/Groups.antt =====
-- Updates of the groups of one period, at a few keys: numbers, which hash to their remainder by 4.
use apm_server.Prelude.{
  ℕ, length, ◌≤◌, ◌%◌, ◌≡◌, refl, subst, nat_eq, List, [], ◌∷◌, Option, none, some, ◌==◌, arith,
  if◌then◌else◌, is_some,
}
use apm_server.Prelude.Maps.{lookup, insert}
use apm_server.TxMetrics.Metrics.{
  Metrics, updated, refused, panicked, new_metrics, blank, update, fresh, find, allocate,
  read_phase, write_phase, has_key, Bracket,
}
use apm_server.TxMetrics.Metrics.Interleaving.{write_phase-update}
use apm_server.TxMetrics.Metrics.Groups.{bucket_of, Inv, view, view_at, scan}
use apm_server.TxMetrics.Metrics.Updates.{new_metrics-Inv, update_known, update_new, update_full}
use apm_server.Tests.Fixtures.{listed}

abbrev by_4 : ℕ → ℕ
by_4 k = k % 4

abbrev empty : Metrics by_4 listed
empty = record { entries = 0; m = []; space = record { key = none; histogram = none } ∷ [] }

abbrev recorded_7 : List Bracket
recorded_7 = record { to = 7; count = 1 } ∷ []

-- The only slot holds the key 5.
abbrev full : Metrics by_4 listed
full = record {
  entries = 1;
  m = (1, 0 ∷ []) ∷ [];
  space = record { key = some 5; histogram = some recorded_7 } ∷ [];
}

empty-Inv : Inv by_4 listed empty
unfolding new_metrics blank
empty-Inv = new_metrics-Inv by_4 listed 1

empty-none : view by_4 listed empty 5 ≡ none
unfolding view view_at scan
empty-none = refl

update-empty : update by_4 listed 2 empty 5 7 1 ≡ updated full
unfolding update read_phase write_phase allocate fresh find lookup insert has_key
update-empty = refl

full-Inv : Inv by_4 listed full
full-Inv =
    let (m, old, u, inv, _, shown) =
      update_new by_4 listed 2 empty 5 7 1 empty-Inv empty-none (omega arith) in
    let same : m ≡ full = cc (update-empty, u) in subst (Inv by_4 listed) same inv

full_5 : view by_4 listed full 5 ≡ some recorded_7
unfolding view view_at scan has_key
full_5 = refl

full_9 : view by_4 listed full 9 ≡ none
unfolding view view_at scan has_key
full_9 = refl

update_known_example :
    (m : Metrics by_4 listed) × (update by_4 listed 2 full 5 8 3 ≡ updated m)
    × Inv by_4 listed m
    × (m.entries ≡ 1)
    × ((q : ℕ)
        → view by_4 listed m q ≡ (
            if 5 == q
            then some (record { to = 8; count = 3 } ∷ recorded_7)
            else view by_4 listed full q))
update_known_example = update_known by_4 listed 2 full 5 8 3 recorded_7 full-Inv full_5

update_new_example :
    (m : Metrics by_4 listed) × (old : Option (List Bracket)) × (update by_4 listed 2 empty 5 7 1
      ≡ updated m)
    × Inv by_4 listed m
    × (m.entries ≡ 1)
    × ((q : ℕ)
        → view by_4 listed m q ≡ (
            if 5 == q
            then some (record { to = 7; count = 1 } ∷ fresh by_4 listed 2 old)
            else view by_4 listed empty q))
update_new_example = update_new by_4 listed 2 empty 5 7 1 empty-Inv empty-none (omega arith)

update_full_example :
    update by_4 listed 2 full 9 7 1
    ≡ (if is_some (lookup (by_4 9) full.m) then panicked else refused)
update_full_example = update_full by_4 listed 2 full 9 7 1 full-Inv full_9 refl

-- The key 9 shares the hash of 5, the key 6 does not.
full_collision : update by_4 listed 2 full 9 7 1 ≡ panicked
unfolding update read_phase write_phase allocate find lookup has_key
full_collision = refl

full_refused : update by_4 listed 2 full 6 7 1 ≡ refused
unfolding update read_phase write_phase find lookup
full_refused = refl

none_before : find by_4 listed full.space 5 [] ≡ none
unfolding find
none_before = refl

one_slot : 0 ≤ length (bucket_of by_4 listed full 5)
one_slot = omega arith

-- The read phase of one request found no bucket; another request added the key before its second.
write_phase-update_example :
    write_phase by_4 listed 2 full 0 5 8 3 ≡ update by_4 listed 2 full 5 8 3
write_phase-update_example =
    write_phase-update by_4 listed 2 full 5 8 3 0 full-Inv one_slot none_before
