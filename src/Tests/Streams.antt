-- ===== src/Tests/Streams.antt =====
-- Streams of a few lines.
use apm_server.Prelude.{
  inl, ℕ, ◌+◌, ◌≤◌, ◌<◌, ◌≡◌, ◌≢◌, ◌⊎◌, refl, String, Option, none, some, false, List, [], ◌∷◌,
  ◌++◌, Bytes, length, map, arith,
}
use apm_server.Model.Event.{ApmEvent}
use apm_server.Decoder.LineReader.{ReadError, eof, err_buffer_full, LineReader, read_line}
use apm_server.Decoder.LineReader.Stream.{Fits, line_of, read_times, stream_of, read_stream}
use apm_server.Decoder.LineReader.Returns.{read_line-Returns}
use apm_server.Decoder.Ndjson.{Json, NdjsonStreamDecoder, read_ahead}
use apm_server.Stream.Results.{Result, Monitoring, errors_limit, add_accepted}
use apm_server.Stream.EventType.{identify_event_type, identify_event_type-append}
use apm_server.Stream.Batches.{EventDecoders, Handled, handle_batches}
use apm_server.Stream.Batches.Decoding.{nested_decoders, nested_decoders-DecoderLaws}
use apm_server.Stream.Batches.Bounds.{Readable, DecoderLaws}
use apm_server.Stream.Batches.Ends.{handle_batches-returns}
use apm_server.Tests.Fixtures.{span_event}

-- A line that fits into a buffer of 16 bytes, one that does not, and the bytes after them.
abbrev lines : List Bytes
lines =
    (65 ∷ 66 ∷ [])
    ∷ (1 ∷ 2 ∷ 3 ∷ 4 ∷ 5 ∷ 6 ∷ 7 ∷ 8 ∷ 9 ∷ 11 ∷ 12 ∷ 13 ∷ 14 ∷ 15 ∷ 16 ∷ 17 ∷ 18 ∷ [])
    ∷ []

abbrev tail : Bytes
tail = 67 ∷ []

abbrev line_reader : LineReader
line_reader = record {
  br = record { size = 16; rest = stream_of lines tail; final = eof };
  max_line_length = 16;
  skip = false;
}

line_reader-Fits : Fits line_reader
line_reader-Fits = record { some_room = omega arith; longest = omega arith }

eof-not_full : eof ≢ err_buffer_full
eof-not_full h = cc

read_stream_example :
    (lr' : LineReader) × (read_times 3 line_reader
      ≡ some (lr', map (line_of line_reader) lines ++ (tail, some eof) ∷ []))
read_stream_example =
    read_stream line_reader lines tail line_reader-Fits (refl, (refl, tt)) refl (omega arith)
      eof-not_full refl refl

read_line-Returns_example :
    (lr' : LineReader) × (line : Bytes) × (err : Option ReadError) × (read_line line_reader
      ≡ some (lr', line, err))
    × (lr'.br.size ≡ 16)
    × (lr'.br.final ≡ eof)
    × ((length lr'.br.rest < length line_reader.br.rest) ⊎ (err ≡ some eof))
read_line-Returns_example = read_line-Returns line_reader (omega arith) eof-not_full

-- `{"x":1}`
abbrev body : Bytes
body = 123 ∷ 34 ∷ 120 ∷ 34 ∷ 58 ∷ 49 ∷ 125 ∷ []

identify_event_type-append_example : identify_event_type body ≡ some (120 ∷ [])
identify_event_type-append_example =
    identify_event_type-append (123 ∷ []) (120 ∷ []) (58 ∷ 49 ∷ 125 ∷ []) 34 refl refl refl

abbrev json : Json
json = record { Decoder = Unit; new_decoder = tt; decode_json = λ d bytes. (d, none) }

-- The decoders over the stream's own `Decode`, each line of which gives the base event.
abbrev decoders : EventDecoders ℕ json
unfolding nested_decoders
decoders = nested_decoders json (λ type line base. inl base) (λ err. "not JSON") (λ name. "")

decoders-DecoderLaws : DecoderLaws json decoders
unfolding decoders
decoders-DecoderLaws =
    nested_decoders-DecoderLaws json (λ type line base. inl base) (λ err. "not JSON") (λ name. "")

-- A processor that counts the events.
abbrev counting_batches : ℕ → List (ApmEvent ℕ) → ℕ × List (ApmEvent ℕ) × Option String
counting_batches n batch = (n + length batch, batch, none)

abbrev reader : NdjsonStreamDecoder json
reader = record {
  line_reader = record {
    br = record { size = 16; rest = body ++ 10 ∷ body; final = eof };
    max_line_length = 16;
    skip = false;
  };
  is_eof = false;
  latest_error = none;
  latest_line = [];
  latest_line_reader = [];
  decoder = tt;
}

reader-Readable : Readable json decoders reader.line_reader
reader-Readable = record { some_room = omega arith; final = λ h. cc; foreign = λ h. cc }

abbrev no_result : Result × Monitoring
no_result =
    (record { accepted = 0; errors = [] }, record { accepted = 0; invalid = 0; too_large = 0 })

handle_batches-returns_example :
    (h : Handled json decoders counting_batches) × (handle_batches json decoders counting_batches 20
        1
        (span_event "db")
        0
        reader
        no_result
      ≡ some h)
    × (length h.result.0.errors ≤ errors_limit)
handle_batches-returns_example =
    handle_batches-returns json decoders decoders-DecoderLaws counting_batches 20 0
      (span_event "db") 0 reader no_result reader-Readable (omega arith) (omega arith)

both_accepted :
    (h : Handled json decoders counting_batches) × (handle_batches json decoders counting_batches 20
        1
        (span_event "db")
        0
        reader
        no_result
      ≡ some h)
    × (h.result.0.accepted ≡ 2)
unfolding handle_batches read_ahead read_line identify_event_type add_accepted decoders
    nested_decoders
both_accepted = (_, refl, refl)
