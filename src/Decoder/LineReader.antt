-- ===== src/Decoder/LineReader.antt =====
-- decoder/line_reader.go, over bufio.Reader.
pub mod Lines
pub mod Stream
pub mod Returns
use apm_server.Prelude.{
  ℕ, zero, suc, ◌+◌, String, Option, none, some, Bool, true, false, List, [], ◌∷◌, ◌==◌, ltb, Bytes,
  if◌then◌else◌, length, take, drop,
}

pub data ReadError : Type 0 where
  eof err_buffer_full err_line_too_long : ReadError
  other_error : String → ReadError

-- `bufio.Reader`: the bytes that have not been read, of the buffer and of the reader behind it, which
-- gives `final` in a call of its own after its last byte.
pub record BufioReader : Type 0 where
  pub size : ℕ
  pub rest : Bytes
  pub final : ReadError

abbrev pub min_read_buffer_size : ℕ
min_read_buffer_size = 16

-- `bufio.NewReaderSize`
unfoldable pub new_reader_size : Bytes → ReadError → ℕ → BufioReader
new_reader_size bytes final size = record {
  size = if ltb size min_read_buffer_size then min_read_buffer_size else size;
  rest = bytes;
  final = final;
}

abbrev pub newline : ℕ
newline = 10

-- The bytes up to the first newline and those after it, if it is among the first `n`.
unfoldable pub cut : ℕ → Bytes → Option (Bytes × Bytes)
cut zero bytes = none
cut (suc n) [] = none
cut (suc n) (b ∷ bytes) =
    let found = cut n bytes in
    if b == newline
    then some (b ∷ [], bytes)
    else elim found [ none ↦ none | some (line, rest) ↦ some (b ∷ line, rest) ]

pub record Slice : Type 0 where
  pub line : Bytes
  pub err : Option ReadError
  pub br : BufioReader

-- `ReadSlice('\n')`
unfoldable pub read_slice : BufioReader → Slice
unfolding cut
read_slice br = elim (cut br.size br.rest) [
  | some (line, rest) ↦ record { line = line; err = none; br = record br { rest = rest } }
  | none ↦
      if ltb (length br.rest) br.size
      then record { line = br.rest; err = some br.final; br = record br { rest = [] } }
      else record {
        line = take br.size br.rest;
        err = some err_buffer_full;
        br = record br { rest = drop br.size br.rest };
      }
]

pub record LineReader : Type 0 where
  pub br : BufioReader
  pub max_line_length : ℕ
  pub skip : Bool

-- `NewLineReader`
unfoldable pub new_line_reader : BufioReader → ℕ → LineReader
new_line_reader br max_line_length = record {
  br = br;
  max_line_length = max_line_length;
  skip = false;
}

-- `Reset`
unfoldable pub reset_line_reader : LineReader → BufioReader → LineReader
reset_line_reader lr br = record lr { br = br; skip = false }

-- The newline at the end of a line is taken off.
unfoldable pub without_newline : Bytes → Bytes
without_newline [] = []
without_newline (b ∷ []) = if b == newline then [] else b ∷ []
without_newline (b ∷ c ∷ bytes) = b ∷ without_newline (c ∷ bytes)

abbrev pub is_full : Option ReadError → Bool
is_full (some err_buffer_full) = true
is_full _ = false

abbrev pub is_eof : Option ReadError → Bool
is_eof (some eof) = true
is_eof _ = false

-- How an iteration of `ReadLine` ends: the reader with the line and the error, or another iteration.
pub data Iteration : Type 0 where
  returned : LineReader → Bytes → Option ReadError → Iteration
  again : LineReader → Iteration

-- The body of the loop, with `lr.skip` and what `ReadSlice` has given.
unfoldable pub read_step : LineReader → Bool → Slice → Iteration
unfolding without_newline
read_step lr false s =
    if is_full s.err
    then returned (record lr { br = s.br; skip = true }) (take lr.max_line_length s.line)
        (some err_line_too_long)
    else returned (record lr { br = s.br }) (without_newline s.line) s.err
read_step lr true s =
    if is_eof s.err
    then returned (record lr { br = s.br }) [] (some eof)
    else (if is_full s.err
        then again (record lr { br = s.br })
        else again (record lr { br = s.br; skip = false }))

-- The loop of `ReadLine`, `fuel` bounding its iterations: the reader, the line and the error.
unfoldable pub read_loop : ℕ → LineReader → Option (LineReader × Bytes × Option ReadError)
unfolding read_slice read_step
read_loop zero lr = none
read_loop (suc fuel) lr = elim (read_step lr lr.skip (read_slice lr.br)) [
  | returned lr' line err ↦ some (lr', line, err)
  | again lr' ↦ read_loop fuel lr'
]

-- `ReadLine`: every iteration reads a byte, but for the last two.
unfoldable pub read_line : LineReader → Option (LineReader × Bytes × Option ReadError)
unfolding read_loop
read_line lr = read_loop (length lr.br.rest + 2) lr
