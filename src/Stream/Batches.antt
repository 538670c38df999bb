-- ===== src/Stream/Batches.antt =====
-- processor/stream/processor.go: the batches of a stream, after its metadata. The decoders of events
-- (model/modeldecoder) and the processor of the batches are parameters.
pub mod Bounds
pub mod Ends
pub mod Decoding
use apm_server.Prelude.{
  ℕ, zero, suc, ◌+◌, ◌-◌, String, concat, Option, none, some, ◌>>=◌, Bool, true, false, List, [],
  ◌∷◌, Bytes, bytes_eq, if◌then◌else◌, length, is_empty,
}
use apm_server.Model.Event.{ApmEvent}
use apm_server.Decoder.LineReader.{ReadError, eof, err_buffer_full, err_line_too_long, other_error}
use apm_server.Decoder.Ndjson.{Json, NdjsonStreamDecoder, read_ahead}
use apm_server.Stream.Results.{
  InvalidInput, StreamError, invalid_input_error, end_of_stream, other_stream_error, Result,
  Monitoring, limited_add, add_accepted,
}
use apm_server.Stream.EventType.{identify_event_type}

pub data EventType : Type 0 where
  error_event metricset_event span_event transaction_event rumv3_error_event
        rumv3_transaction_event :
      EventType

-- The names of the types, in ASCII.
abbrev pub error_event_type : Bytes
error_event_type = 101 ∷ 114 ∷ 114 ∷ 111 ∷ 114 ∷ []

abbrev pub metricset_event_type : Bytes
metricset_event_type = 109 ∷ 101 ∷ 116 ∷ 114 ∷ 105 ∷ 99 ∷ 115 ∷ 101 ∷ 116 ∷ []

abbrev pub span_event_type : Bytes
span_event_type = 115 ∷ 112 ∷ 97 ∷ 110 ∷ []

abbrev pub transaction_event_type : Bytes
transaction_event_type = 116 ∷ 114 ∷ 97 ∷ 110 ∷ 115 ∷ 97 ∷ 99 ∷ 116 ∷ 105 ∷ 111 ∷ 110 ∷ []

abbrev pub rumv3_error_event_type : Bytes
rumv3_error_event_type = 101 ∷ []

abbrev pub rumv3_transaction_event_type : Bytes
rumv3_transaction_event_type = 120 ∷ []

-- The bytes of a name: nil is the empty text.
abbrev type_name : Option Bytes → Bytes
type_name none = []
type_name (some name) = name

-- The cases of the switch.
unfoldable pub event_type_of : Bytes → Option EventType
event_type_of name =
    if bytes_eq name error_event_type
    then some error_event
    else (if bytes_eq name metricset_event_type
        then some metricset_event
        else (if bytes_eq name span_event_type
            then some span_event
            else (if bytes_eq name transaction_event_type
                then some transaction_event
                else (if bytes_eq name rumv3_error_event_type
                    then some rumv3_error_event
                    else (if bytes_eq name rumv3_transaction_event_type
                        then some rumv3_transaction_event
                        else none)))))

-- An error of a decoder: `io.EOF`, or another one with its message.
pub data EventError : Type 0 where
  event_eof : EventError
  event_error : String → EventError

-- What the stream uses of the event decoders: they read from the stream's decoder, and append to the batch.
pub record EventDecoders (F : Type 0) (json : Json) : Type 0 where
  pub decode_event :
      EventType
      → NdjsonStreamDecoder json
      → ApmEvent F
      → List (ApmEvent F)
      → NdjsonStreamDecoder json × List (ApmEvent F) × Option EventError
  pub text : Bytes → String

module _ {F : Type 0} (json : Json) (decoders : EventDecoders F json) where
  -- `wrapError`, for the errors of `ReadAhead`.
  unfoldable pub wrap_error : NdjsonStreamDecoder json → ReadError → StreamError
  wrap_error reader err_line_too_long = invalid_input_error (record {
    too_large = true;
    message = "event exceeded the permitted size.";
    document = reader.latest_line;
  })
  wrap_error reader eof = end_of_stream
  wrap_error reader err_buffer_full = other_stream_error "bufio: buffer full"
  wrap_error reader (other_error message) = other_stream_error message

  -- The state of a batch: what is read, the batch and the result.
  pub record Reading : Type 0 where
    pub reader : NdjsonStreamDecoder json
    pub batch : List (ApmEvent F)
    pub result : Result × Monitoring

  abbrev add_invalid : Reading → String → Reading
  add_invalid s message = record s {
    result = limited_add s.result (
        invalid_input_error
          (record { too_large = false; message = message; document = s.reader.latest_line }));
  }

  -- The error of an event that has been decoded.
  unfoldable pub after_decoding : Reading → Option EventError → Reading
  after_decoding s none = s
  after_decoding s (some event_eof) = s
  after_decoding s (some (event_error message)) = add_invalid s message

  -- One event of a line.
  unfoldable pub decode_body : Reading → ApmEvent F → Bytes → Reading
  unfolding after_decoding event_type_of
  decode_body s base body =
      let name = type_name (identify_event_type body) in
      elim (event_type_of name) [
        | none ↦ add_invalid s (concat (decoders.text name) ": did not recognize object type")
        | some type ↦
            let (reader, batch, err) = decoders.decode_event type s.reader base s.batch in
            after_decoding (record s { reader = reader; batch = batch }) err
      ]

  -- The body of the loop, after a line has been read: the state, and the error that ends the batch.
  unfoldable pub read_event :
      Reading → ApmEvent F → Bytes → Option ReadError → Reading × Option StreamError
  unfolding decode_body wrap_error
  read_event s base body (some (other_error message)) =
      (s, some (wrap_error s.reader (other_error message)))
  read_event s base body (some err_buffer_full) = (s, some (wrap_error s.reader err_buffer_full))
  read_event s base body (some err_line_too_long) =
      (record s { result = limited_add s.result (wrap_error s.reader err_line_too_long) }, none)
  read_event s base body (some eof) = (if is_empty body then s else decode_body s base body, none)
  read_event s base body none = (if is_empty body then s else decode_body s base body, none)

  -- The loop of `readBatch`, for `left` more lines: none if reading a line does not end.
  unfoldable pub read_batch : ℕ → ApmEvent F → Reading → Option (Reading × Option StreamError)
  unfolding read_event
  read_batch zero base s = some (s, if s.reader.is_eof then some end_of_stream else none)
  read_batch (suc left) base s = if s.reader.is_eof then some (s, some end_of_stream) else (do
    (reader, body, err) ← read_ahead json s.reader
    let (s', stop) = read_event (record s { reader = reader }) base body err
    let rest = read_batch left base s'
    elim stop [ none ↦ rest | some e ↦ some (s', some e) ])

  module _ {P : Type 0}
      (process_batch : P → List (ApmEvent F) → P × List (ApmEvent F) × Option String) where
    -- What a stream leaves: the reader, the result, the processor of the batches, and the error.
    pub record Handled : Type 0 where
      pub reader : NdjsonStreamDecoder json
      pub result : Result × Monitoring
      pub processor : P
      pub error : Option StreamError

    -- A batch that has events is processed, and those that it has then are counted as accepted.
    unfoldable pub process_read : P → Reading → P × (Result × Monitoring) × Option StreamError
    process_read p s = elim s.batch [
      | [] ↦ (p, s.result, none)
      | event ∷ events ↦
          let (p', batch, err) = process_batch p (event ∷ events) in
          elim err [
            | none ↦ (p', add_accepted s.result (length batch), none)
            | some message ↦ (p', s.result, some (other_stream_error message))
          ]
    ]

    -- How an iteration ends: the stream is over, or the next iteration follows.
    unfoldable pub after_batch :
        Reading
        → Option StreamError
        → P × (Result × Monitoring) × Option StreamError
        → Option Handled
        → Option Handled
    after_batch s read_err (p, result, some e) next =
        some (record { reader = s.reader; result = result; processor = p; error = some e })
    after_batch s none (p, result, none) next = next
    after_batch s (some end_of_stream) (p, result, none) next =
        some (record { reader = s.reader; result = result; processor = p; error = none })
    after_batch s (some e) (p, result, none) next =
        some (record { reader = s.reader; result = result; processor = p; error = some e })

    -- The loop of `HandleStream`, `fuel` bounding its iterations.
    unfoldable pub handle_batches :
        ℕ → ℕ → ApmEvent F → P → NdjsonStreamDecoder json → Result × Monitoring → Option Handled
    unfolding read_batch process_read after_batch
    handle_batches zero batch_size base p reader result = none
    handle_batches (suc fuel) batch_size base p reader result = do
      (s, read_err) ←
          read_batch batch_size base (record { reader = reader; batch = []; result = result })
      let done = process_read p s
      let next = handle_batches fuel batch_size base done.0 s.reader done.1
      after_batch s read_err done next
