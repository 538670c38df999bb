-- ===== src/Decoder/Ndjson.antt =====
-- decoder/stream_decoder.go: the lines of a stream, decoded one at a time. The JSON decoder is a
-- parameter, with a state of its own.
use apm_server.Prelude.{
  ℕ, String, Option, none, some, ◌>>=◌, Bool, true, false, [], Bytes, if◌then◌else◌, ◌&&◌, ◌||◌,
  not, is_empty,
}
use apm_server.Decoder.LineReader.{
  ReadError, new_reader_size, LineReader, new_line_reader, reset_line_reader, read_line, is_eof,
}

-- What the code uses of github.com/json-iterator/go: decoding from a reader gives an error message or
-- not, and leaves the decoder in some state.
pub record Json : Type 1 where
  pub Decoder : Type 0
  pub new_decoder : Decoder
  pub decode_json : Decoder → Bytes → Decoder × Option String

pub data DecodeError : Type 0 where
  reading : ReadError → DecodeError
  json_decode_error : String → DecodeError

module _ (json : Json) where
  -- `NDJSONStreamDecoder`; `latest_line_reader` is the whole slice behind the reader of that name.
  pub record NdjsonStreamDecoder : Type 0 where
    pub line_reader : LineReader
    pub is_eof : Bool
    pub latest_error : Option ReadError
    pub latest_line : Bytes
    pub latest_line_reader : Bytes
    pub decoder : json.Decoder

  -- `NewNDJSONStreamDecoder`, over the reader's bytes and the error after them.
  unfoldable pub new_ndjson_stream_decoder : Bytes → ReadError → ℕ → NdjsonStreamDecoder
  unfolding new_line_reader new_reader_size
  new_ndjson_stream_decoder bytes final max_line_length = record {
    line_reader = new_line_reader (new_reader_size bytes final max_line_length) max_line_length;
    is_eof = false;
    latest_error = none;
    latest_line = [];
    latest_line_reader = [];
    decoder = json.new_decoder;
  }

  -- `Reset`
  unfoldable pub reset_ndjson : NdjsonStreamDecoder → Bytes → ReadError → NdjsonStreamDecoder
  unfolding reset_line_reader
  reset_ndjson dec bytes final = record dec {
    line_reader =
        reset_line_reader dec.line_reader
          (record dec.line_reader.br { rest = bytes; final = final });
    is_eof = false;
    latest_line = [];
    latest_line_reader = [];
    latest_error = none;
  }

  -- `ReadAhead`: none if reading a line does not end.
  unfoldable pub read_ahead :
      NdjsonStreamDecoder → Option (NdjsonStreamDecoder × Bytes × Option ReadError)
  read_ahead dec = do
    (line_reader, line, err) ← read_line dec.line_reader
    some (
      record dec {
        line_reader = line_reader;
        latest_line = line;
        latest_line_reader = line;
        latest_error = err;
        is_eof = is_eof err;
      },
      line,
      err,
    )

  abbrev latest : Option ReadError → Option DecodeError
  latest none = none
  latest (some e) = some (reading e)

  -- `resetLatestLineReader`
  unfoldable pub reset_latest_line_reader : NdjsonStreamDecoder → NdjsonStreamDecoder
  reset_latest_line_reader dec = record dec { latest_line_reader = []; latest_error = none }

  -- `Decode`, once a line has been read ahead, up to the deferred reset.
  unfoldable pub decode_latest : NdjsonStreamDecoder → NdjsonStreamDecoder × Option DecodeError
  decode_latest dec =
      if is_empty dec.latest_line
        || (not dec.is_eof && (elim dec.latest_error [ none ↦ false | some _ ↦ true ]))
      then (dec, latest dec.latest_error)
      else (let (decoder, err) = json.decode_json dec.decoder dec.latest_line_reader in
          elim err [
            | some message ↦
                (record dec { decoder = json.new_decoder }, some (json_decode_error message))
            | none ↦ (record dec { decoder = decoder }, latest dec.latest_error)
          ])

  -- `Decode`
  unfoldable pub decode : NdjsonStreamDecoder → Option (NdjsonStreamDecoder × Option DecodeError)
  unfolding read_ahead decode_latest reset_latest_line_reader
  decode dec = do
    (ahead, _, _) ← if is_empty dec.latest_line_reader then read_ahead dec else some (dec, [], none)
    let (decoded, err) = decode_latest ahead
    some (reset_latest_line_reader decoded, err)
