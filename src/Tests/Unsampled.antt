-- ===== src/Tests/Unsampled.antt =====
-- A batch with an unsampled transaction in front.
use apm_server.Prelude.{
  count, ℕ, ◌≡◌, refl, Bool, true, false, ◌&&◌, not, List, [], ◌∷◌, some, none,
}
use apm_server.Model.Event.{ApmEvent}
use apm_server.ModelProcessor.DropUnsampled.{drop_unsampled, should_drop_unsampled}
use apm_server.ModelProcessor.DropUnsampled.Kept.{drop_unsampled-count}
use apm_server.Tests.Fixtures.{transaction_event, transaction_named, span_event}

abbrev unsampled : ApmEvent ℕ
unsampled = record (transaction_event "a") {
  transaction = some (record (transaction_named "a") { sampled = false });
}

abbrev batch : List (ApmEvent ℕ)
batch = unsampled ∷ span_event "db" ∷ transaction_event "b" ∷ []

abbrev is_span : ApmEvent ℕ → Bool
is_span event = elim event.span [ none ↦ false | some span ↦ true ]

-- The last event takes the place of the first.
batch_left : drop_unsampled false batch ≡ (transaction_event "b" ∷ span_event "db" ∷ [], 1)
unfolding drop_unsampled
batch_left = refl

drop_unsampled-count_example :
    (count is_span (drop_unsampled false batch).0
      ≡ count (λ x. is_span x && not (should_drop_unsampled false x)) batch)
    × ((drop_unsampled false batch).1 ≡ count (should_drop_unsampled false) batch)
drop_unsampled-count_example = drop_unsampled-count {F = ℕ} false batch is_span
