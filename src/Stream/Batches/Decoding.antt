-- ===== src/Stream/Batches/Decoding.antt =====
-- model/modeldecoder/v2/decoder.go: the event decoders of the stream, `DecodeNestedSpan` and those like
-- it, over what they make of a line: its validation and the mapping to the event are a parameter.
use apm_server.Prelude.{
  Option, none, some, true, false, List, Bytes, is_empty, ◌&&◌, ◌||◌, not, ◌≡◌, refl, ◌∙◌, ap, sym,
  String, Bool-cases, Option-cases, Sum-cases, inl, inr, subst, [], ◌∷◌, ◌++◌, ◌⊎◌,
}
use apm_server.Model.Event.{ApmEvent}
use apm_server.Decoder.LineReader.{eof, err_buffer_full, err_line_too_long, other_error}
use apm_server.Decoder.Ndjson.{
  Json, DecodeError, reading, json_decode_error, NdjsonStreamDecoder, decode, decode_latest,
  reset_latest_line_reader,
}
use apm_server.Stream.Batches.{EventType, EventError, event_eof, event_error, EventDecoders}
use apm_server.Stream.Batches.Bounds.{DecoderLaws}

module _ (json : Json) where
  abbrev Kept : NdjsonStreamDecoder json → NdjsonStreamDecoder json → Type 0
  Kept dec dec' = (dec'.line_reader ≡ dec.line_reader) × (dec'.is_eof ≡ dec.is_eof)

  decode_latest-Kept : (dec : NdjsonStreamDecoder json) → Kept dec (decode_latest json dec).0
  unfolding decode_latest
  decode_latest-Kept dec =
      elim (Bool-cases (
        is_empty dec.latest_line
        || (not dec.is_eof && (elim dec.latest_error [ none ↦ false | some _ ↦ true ])))) [
          | inl p ↦ simp (p, decode_latest) (refl, refl)
          | inr p ↦ elim (Option-cases (json.decode_json dec.decoder dec.latest_line_reader).1) [
            | inl fine ↦ simp (p, fine, decode_latest) (refl, refl)
            | inr (message, failed) ↦ simp (p, failed, decode_latest) (refl, refl)
          ]
        ]

  -- With a line read ahead, `Decode` reads no other.
  pub decode-Kept :
      (dec : NdjsonStreamDecoder json)
      → is_empty dec.latest_line_reader ≡ false
      → (dec' : NdjsonStreamDecoder json) × (err : Option DecodeError) × (decode json dec
          ≡ some (dec', err))
        × Kept dec dec'
  unfolding decode reset_latest_line_reader
  decode-Kept dec ahead =
      let (lines, ended) = decode_latest-Kept dec in
      (
        reset_latest_line_reader json (decode_latest json dec).0,
        (decode_latest json dec).1,
        simp (ahead, decode) refl,
        (lines, ended),
      )

  module _ {F : Type 0} (map_to_model : EventType → Bytes → ApmEvent F → ApmEvent F ⊎ String)
      (error_message : DecodeError → String) (text : Bytes → String) where
    abbrev Decoded : Type 0
    Decoded = NdjsonStreamDecoder json × List (ApmEvent F) × Option EventError

    -- The validation of what has been decoded, and the event at the end of the batch.
    unfoldable pub append_event :
        EventType
        → NdjsonStreamDecoder json
        → ApmEvent F
        → List (ApmEvent F)
        → Option EventError
        → Decoded
    append_event type reader base batch err = elim (map_to_model type reader.latest_line base) [
      | inr message ↦ (reader, batch, some (event_error message))
      | inl event ↦ (reader, batch ++ event ∷ [], err)
    ]

    -- What follows the call of `Decode`; the first case stands for a read that does not end.
    unfoldable pub after_decode :
        EventType
        → NdjsonStreamDecoder json
        → ApmEvent F
        → List (ApmEvent F)
        → Option (NdjsonStreamDecoder json × Option DecodeError)
        → Decoded
    unfolding append_event
    after_decode type reader base batch none = (reader, batch, none)
    after_decode type reader base batch (some (reader', none)) =
        append_event type reader' base batch none
    after_decode type reader base batch (some (reader', some (reading eof))) =
        append_event type reader' base batch (some event_eof)
    after_decode type reader base batch (some (reader', some err)) =
        (reader', batch, some (event_error (error_message err)))

    -- `DecodeNestedSpan` and the decoders of the other types.
    unfoldable pub nested_decoders : EventDecoders F json
    unfolding decode after_decode
    nested_decoders = record {
      decode_event =
          λ type reader base batch. after_decode type reader base batch (decode json reader);
      text = text;
    }

    append_event-reader :
        (type : EventType) (reader : NdjsonStreamDecoder json) (base : ApmEvent F)
        (batch : List (ApmEvent F)) (err : Option EventError)
        → (append_event type reader base batch err).0 ≡ reader
    unfolding append_event
    append_event-reader type reader base batch err =
        elim (Sum-cases (map_to_model type reader.latest_line base)) [
          | inl (event, e) ↦ rw (e, append_event) refl
          | inr (message, e) ↦ rw (e, append_event) refl
        ]

    after_decode-reader :
        (type : EventType) (reader reader' : NdjsonStreamDecoder json) (base : ApmEvent F)
        (batch : List (ApmEvent F)) (err : Option DecodeError)
        → (after_decode type reader base batch (some (reader', err))).0 ≡ reader'
    unfolding after_decode
    after_decode-reader type reader reader' base batch none =
        append_event-reader type reader' base batch none
    after_decode-reader type reader reader' base batch (some (reading eof)) =
        append_event-reader type reader' base batch (some event_eof)
    after_decode-reader type reader reader' base batch (some (reading err_buffer_full)) = refl
    after_decode-reader type reader reader' base batch (some (reading err_line_too_long)) = refl
    after_decode-reader type reader reader' base batch (some (reading (other_error e))) = refl
    after_decode-reader type reader reader' base batch (some (json_decode_error e)) = refl

    nested_decoders-Kept :
        (type : EventType) (reader : NdjsonStreamDecoder json) (base : ApmEvent F)
        (batch : List (ApmEvent F))
        → is_empty reader.latest_line_reader ≡ false
        → Kept reader (nested_decoders.decode_event type reader base batch).0
    unfolding nested_decoders
    nested_decoders-Kept type reader base batch ahead =
        let (reader', err, e, kept) = decode-Kept reader ahead in
        subst (Kept reader)
          (sym (
            ap (λ o. (after_decode type reader base batch o).0) e
            ∙ after_decode-reader type reader reader' base batch err))
          kept

    pub nested_decoders-DecoderLaws : DecoderLaws json nested_decoders
    nested_decoders-DecoderLaws = record {
      same_line_reader =
          λ type reader base batch ahead. (nested_decoders-Kept type reader base batch ahead).0;
      same_is_eof =
          λ type reader base batch ahead. (nested_decoders-Kept type reader base batch ahead).1;
    }
