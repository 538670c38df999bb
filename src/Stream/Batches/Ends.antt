-- ===== src/Stream/Batches/Ends.antt =====
-- The handling of a stream ends.
use apm_server.Prelude.{
  ℕ, zero, suc, ◌≤◌, ◌<◌, ◌≡◌, ◌≢◌, ◌⊎◌, refl, String, Option, none, some, List, [], ◌∷◌, length,
  arith, Option-cases, inl, inr,
}
use apm_server.Model.Event.{ApmEvent}
use apm_server.Decoder.Ndjson.{Json, NdjsonStreamDecoder}
use apm_server.Stream.Results.{
  StreamError, invalid_input_error, end_of_stream, other_stream_error, Result, Monitoring,
  add_accepted, errors_limit,
}
use apm_server.Stream.Batches.{
  EventDecoders, Reading, Handled, process_read, after_batch, handle_batches,
}
use apm_server.Stream.Batches.Bounds.{Readable, DecoderLaws, read_batch-Valid}

module _ {F : Type 0} (json : Json) (decoders : EventDecoders F json)
    (laws : DecoderLaws json decoders) {P : Type 0}
    (process_batch : P → List (ApmEvent F) → P × List (ApmEvent F) × Option String) where
  process_read-length :
      (p : P) (s : Reading json decoders)
      → length (process_read json decoders process_batch p s).1.0.errors ≡ length s.result.0.errors
  unfolding process_read add_accepted
  process_read-length p s = go s.batch refl
    where
      go :
          (batch : List (ApmEvent F))
          → s.batch ≡ batch
          → length (process_read json decoders process_batch p s).1.0.errors
            ≡ length s.result.0.errors
      go [] e = rw (e, process_read) refl
      go (event ∷ events) e = elim (Option-cases (process_batch p (event ∷ events)).2) [
        | inl ok ↦ rw (e, ok, process_read) refl
        | inr (message, failed) ↦ rw (e, failed, process_read) refl
      ]

  abbrev Ends : Option (Handled json decoders process_batch) → Type 0
  Ends o =
      (h : Handled json decoders process_batch) × (o ≡ some h)
      × (length h.result.0.errors ≤ errors_limit)

  after_batch-Ends :
      (s : Reading json decoders) (read_err : Option StreamError)
      (done : P × (Result × Monitoring) × Option StreamError)
      (next : Option (Handled json decoders process_batch))
      → length done.1.0.errors ≤ errors_limit
      → (read_err ≢ none) ⊎ Ends next
      → Ends (after_batch json decoders process_batch s read_err done next)
  unfolding after_batch
  after_batch-Ends s read_err (p, result, some e) next limited goes = (_, refl, limited)
  after_batch-Ends s none (p, result, none) next limited (inl over) = absurd (over refl)
  after_batch-Ends s none (p, result, none) next limited (inr ends) = ends
  after_batch-Ends s (some end_of_stream) (p, result, none) next limited goes = (_, refl, limited)
  after_batch-Ends s (some (invalid_input_error e)) (p, result, none) next limited goes =
      (_, refl, limited)
  after_batch-Ends s (some (other_stream_error e)) (p, result, none) next limited goes =
      (_, refl, limited)

  -- Handling the batches of a stream, of at least one line each, always returns when there is one
  -- more iteration than bytes to read, and keeps at most five errors, if there are no more before.
  -- The buffer has room, the reader ends with io.EOF or an error of its own, and decoding an event
  -- reads no other line while the one read ahead is not consumed.
  pub handle_batches-returns :
      (fuel n : ℕ) (base : ApmEvent F) (p : P) (reader : NdjsonStreamDecoder json)
      (result : Result × Monitoring)
      → Readable json decoders reader.line_reader
      → length result.0.errors ≤ errors_limit
      → length reader.line_reader.br.rest < fuel
      → (h : Handled json decoders process_batch) × (handle_batches json decoders process_batch fuel
            (suc n)
            base
            p
            reader
            result
          ≡ some h)
        × (length h.result.0.errors ≤ errors_limit)
  unfolding handle_batches
  handle_batches-returns zero n base p reader result readable limited enough = absurd (omega arith)
  handle_batches-returns (suc fuel) n base p reader result readable limited enough =
      let s0 : Reading json decoders = record { reader = reader; batch = []; result = result } in
      let (s, read_err, e, v, moved) =
        read_batch-Valid json decoders laws (suc n) base s0
          (record { readable = readable; limited = limited }) in
      let done = process_read json decoders process_batch p s in
      let kept = process_read-length p s in
      let next =
        handle_batches json decoders process_batch fuel (suc n) base done.0 s.reader done.1 in
      let goes : (read_err ≢ none) ⊎ Ends next = elim moved [
        | inl over ↦ inl over
        | inr less ↦ inr (
            handle_batches-returns fuel n base done.0 s.reader done.1 v.readable
              (omega (arith, kept, v.limited)) (omega (arith, less, enough)))
      ] in
      let (h, f, few) =
        after_batch-Ends s read_err done next (omega (arith, kept, v.limited)) goes in
      (h, rw (e, handle_batches) f, few)
