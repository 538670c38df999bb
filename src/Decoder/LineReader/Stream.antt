-- ===== src/Decoder/LineReader/Stream.antt =====
-- A stream is read line by line, whatever the lengths of its lines.
use apm_server.Prelude.{
  ℕ, zero, suc, ◌+◌, ◌≤◌, ◌<◌, ◌≡◌, ◌≢◌, refl, sym, ap, subst, ◌∙◌, Option, none, some, true, false,
  List, [], ◌∷◌, ◌++◌, ltb, Bytes, if◌then◌else◌, length, take, drop, arith, Bool-cases, inl, inr,
  map, ◌>>=◌, length-append, All,
}
use apm_server.Decoder.LineReader.{
  ReadError, eof, err_buffer_full, err_line_too_long, other_error, newline, read_slice, LineReader,
  is_full, read_loop, read_line, read_step, again,
}
use apm_server.Decoder.LineReader.Lines.{
  has_newline, slice-short, slice-long, slice-last, without_newline-append, without_newline-none,
  has_newline-drop, take-take, length-drop,
}

-- What is to be read is `rest`: nothing is to be skipped, or the rest of a line before it is.
pub data Before (rest : Bytes) (lr : LineReader) : Type 0 where
  ready : lr.skip ≡ false → lr.br.rest ≡ rest → Before rest lr
  skipping :
      (l : Bytes)
      → has_newline l ≡ false
      → lr.skip ≡ true
      → lr.br.rest ≡ l ++ newline ∷ rest
      → Before rest lr

-- The buffer has room for a byte and for the longest line that is returned.
pub record Fits (lr : LineReader) : Type 0 where
  pub some_room : 0 < lr.br.size
  pub longest : lr.max_line_length ≤ lr.br.size

-- What is returned of a line: the whole line if it fits into the buffer with its newline, else its
-- first bytes with an error.
abbrev pub line_of : LineReader → Bytes → Bytes × Option ReadError
line_of lr l =
    if ltb (length l) lr.br.size
    then (l, none)
    else (take lr.max_line_length l, some err_line_too_long)

abbrev pub SameSize : LineReader → LineReader → Type 0
SameSize lr lr' =
    (lr'.br.size ≡ lr.br.size)
    × (lr'.max_line_length ≡ lr.max_line_length)
    × (lr'.br.final ≡ lr.br.final)

abbrev Line : LineReader → Bytes → Bytes → Option (LineReader × Bytes × Option ReadError) → Type 0
Line lr l rest o =
    (lr' : LineReader) × (o ≡ some (lr', (line_of lr l).0, (line_of lr l).1))
    × Before rest lr'
    × SameSize lr lr'

ready-Line :
    (fuel : ℕ) (lr : LineReader) (l rest : Bytes)
    → Fits lr
    → has_newline l ≡ false
    → lr.skip ≡ false
    → lr.br.rest ≡ l ++ newline ∷ rest
    → Line lr l rest (read_loop (suc fuel) lr)
unfolding read_loop
ready-Line fuel lr l rest f h s e = elim (Bool-cases (ltb (length l) lr.br.size)) [
  | inl short ↦
      let slice = slice-short lr.br l rest h e (ground arith) in
      (
        record lr { br = record lr.br { rest = rest } },
        simp (slice, s, short, without_newline-append l, read_loop) refl,
        ready s refl,
        (refl, refl, refl),
      )
  | inr long ↦
      let slice = slice-long lr.br l (newline ∷ rest) h e (ground arith) in
      (
        record lr { br = record lr.br { rest = drop lr.br.size l ++ newline ∷ rest }; skip = true },
        simp (slice, s, long, take-take lr.max_line_length lr.br.size l f.longest, read_loop) refl,
        skipping (drop lr.br.size l) (has_newline-drop lr.br.size l h) refl refl,
        (refl, refl, refl),
      )
]

-- The rest of a long line is skipped: the loop goes on as it would without it.
record Skipped (fuel : ℕ) (lr : LineReader) (rest : Bytes) : Type 0 where
  left : ℕ
  lr0 : LineReader
  on : read_loop fuel lr ≡ read_loop (suc left) lr0
  unskipped : lr0.skip ≡ false
  there : lr0.br.rest ≡ rest
  same : SameSize lr lr0

pub loop_again :
    (fuel : ℕ) (lr lr' : LineReader)
    → read_step lr lr.skip (read_slice lr.br) ≡ again lr'
    → read_loop (suc fuel) lr ≡ read_loop fuel lr'
unfolding read_loop
loop_again fuel lr lr' e = rw (e, read_loop) refl

module _ (fuel : ℕ) (lr : LineReader) (l rest : Bytes) (h : has_newline l ≡ false)
    (s : lr.skip ≡ true) (e : lr.br.rest ≡ l ++ newline ∷ rest) where
  skip_short :
      length l < lr.br.size
      → read_loop (suc fuel) lr
        ≡ read_loop fuel (record lr { br = record lr.br { rest = rest }; skip = false })
  unfolding read_step
  skip_short short =
      loop_again fuel lr (record lr { br = record lr.br { rest = rest }; skip = false })
        (ap (read_step lr lr.skip) (slice-short lr.br l rest h e short)
          ∙ ap
              (λ b. read_step lr b (record {
                line = l ++ newline ∷ [];
                err = none;
                br = record lr.br { rest = rest };
              }))
              s)

  skip_long :
      lr.br.size ≤ length l
      → read_loop (suc fuel) lr
        ≡ read_loop fuel
            (record lr { br = record lr.br { rest = drop lr.br.size l ++ newline ∷ rest } })
  unfolding read_step
  skip_long long =
      loop_again fuel lr
        (record lr { br = record lr.br { rest = drop lr.br.size l ++ newline ∷ rest } })
        (ap (read_step lr lr.skip) (slice-long lr.br l (newline ∷ rest) h e long)
          ∙ ap
              (λ b. read_step lr b (record {
                line = take lr.br.size l;
                err = some err_buffer_full;
                br = record lr.br { rest = drop lr.br.size l ++ newline ∷ rest };
              }))
              s)

skip_line :
    (fuel : ℕ) (lr : LineReader) (l rest : Bytes)
    → 0 < lr.br.size
    → has_newline l ≡ false
    → lr.skip ≡ true
    → lr.br.rest ≡ l ++ newline ∷ rest
    → length l + 2 ≤ fuel
    → Skipped fuel lr rest
skip_line zero lr l rest room h s e enough = absurd (omega arith)
skip_line (suc zero) lr l rest room h s e enough = absurd (omega arith)
skip_line (suc (suc fuel)) lr l rest room h s e enough =
    elim (Bool-cases (ltb (length l) lr.br.size)) [
      | inl short ↦ record {
        left = fuel;
        lr0 = record lr { br = record lr.br { rest = rest }; skip = false };
        on = skip_short (suc fuel) lr l rest h s e (ground arith);
        unskipped = refl;
        there = refl;
        same = (refl, refl, refl);
      }
      | inr long ↦
          let fits : lr.br.size ≤ length l = ground arith in
          let l' = drop lr.br.size l in
          let lr' = record lr { br = record lr.br { rest = l' ++ newline ∷ rest } } in
          let next =
            skip_line (suc fuel) lr' l' rest room (has_newline-drop lr.br.size l h) s refl
              (omega (arith, length-drop lr.br.size l fits)) in
          record {
            left = next.left;
            lr0 = next.lr0;
            on = skip_long (suc fuel) lr l rest h s e fits ∙ next.on;
            unskipped = next.unskipped;
            there = next.there;
            same = next.same;
          }
    ]

line_of-SameSize :
    (lr lr' : LineReader) (l : Bytes) → SameSize lr lr' → line_of lr' l ≡ line_of lr l
line_of-SameSize lr lr' l (size, longest, _) = rw (size, longest) refl

-- Reading a line returns it, or its first bytes and an error if it does not fit, and whatever was to be
-- skipped before it is skipped. The next line is what is to be read then.
pub read_line_lem :
    (lr : LineReader) (l rest : Bytes)
    → Fits lr
    → has_newline l ≡ false
    → Before (l ++ newline ∷ rest) lr
    → (lr' : LineReader) × (read_line lr ≡ some (lr', (line_of lr l).0, (line_of lr l).1))
      × Before rest lr'
      × SameSize lr lr'
unfolding read_line
read_line_lem lr l rest f h (ready s e) =
    let enough : (n : ℕ) × (length lr.br.rest + 2 ≡ suc n) = (length lr.br.rest + 1, omega arith) in
    let (n, fuel) = enough in
    subst (λ k. Line lr l rest (read_loop k lr)) (sym fuel) (ready-Line n lr l rest f h s e)
read_line_lem lr l rest f h (skipping before none_in s e) =
    let long : length before + 2 ≤ length lr.br.rest + 2 =
      omega (arith, ap length e, length-append before (newline ∷ l ++ newline ∷ rest)) in
    let it =
      skip_line (length lr.br.rest + 2) lr before (l ++ newline ∷ rest) f.some_room none_in s e
        long in
    let fits : Fits it.lr0 =
      let (size, longest, _) = it.same in
      record {
        some_room = omega (arith, size, f.some_room);
        longest = omega (arith, size, longest, f.longest);
      } in
    let (lr', read, next, size) = ready-Line it.left it.lr0 l rest fits h it.unskipped it.there in
    (
      lr',
      it.on ∙ read ∙ ap (λ x. some (lr', x.0, x.1)) (line_of-SameSize lr it.lr0 l it.same),
      next,
      (size.0 ∙ it.same.0, size.1 ∙ it.same.1, size.2 ∙ it.same.2),
    )

pub not_full : (e : ReadError) → e ≢ err_buffer_full → is_full (some e) ≡ false
not_full eof h = refl
not_full err_line_too_long h = refl
not_full (other_error text) h = refl
not_full err_buffer_full h = absurd (h refl)

-- The last line, which no newline ends, comes with the reader's error.
ready-last :
    (fuel : ℕ) (lr : LineReader) (l : Bytes)
    → has_newline l ≡ false
    → length l < lr.br.size
    → lr.br.final ≢ err_buffer_full
    → lr.skip ≡ false
    → lr.br.rest ≡ l
    → (lr' : LineReader) × (read_loop (suc fuel) lr ≡ some (lr', l, some lr.br.final))
unfolding read_loop read_step
ready-last fuel lr l h short final s e =
    let slice = slice-last lr.br l [] h e short in
    (
      record lr { br = record lr.br { rest = [] } },
      simp (slice, s, not_full lr.br.final final, without_newline-none l h, read_loop) refl,
    )

last_line :
    (lr : LineReader) (l : Bytes)
    → 0 < lr.br.size
    → has_newline l ≡ false
    → length l < lr.br.size
    → lr.br.final ≢ err_buffer_full
    → Before l lr
    → (lr' : LineReader) × (read_line lr ≡ some (lr', l, some lr.br.final))
unfolding read_line
last_line lr l room h short final (ready s e) =
    let enough : (n : ℕ) × (length lr.br.rest + 2 ≡ suc n) = (length lr.br.rest + 1, omega arith) in
    let (n, fuel) = enough in
    subst (λ k. (lr' : LineReader) × (read_loop k lr ≡ some (lr', l, some lr.br.final))) (sym fuel)
      (ready-last n lr l h short final s e)
last_line lr l room h short final (skipping before none_in s e) =
    let long : length before + 2 ≤ length lr.br.rest + 2 =
      omega (arith, ap length e, length-append before (newline ∷ l)) in
    let it = skip_line (length lr.br.rest + 2) lr before l room none_in s e long in
    let (size, _, same) = it.same in
    let (lr', read) =
      ready-last it.left it.lr0 l h (omega (arith, size)) (λ x. final (sym same ∙ x)) it.unskipped
        it.there in
    (lr', it.on ∙ read ∙ ap (λ f. some (lr', l, some f)) same)

-- A number of calls of `ReadLine`, with the lines and the errors that they return.
abbrev pub read_times : ℕ → LineReader → Option (LineReader × List (Bytes × Option ReadError))
read_times zero lr = some (lr, [])
read_times (suc n) lr = do
  (lr', line, err) ← read_line lr
  (lr'', lines) ← read_times n lr'
  some (lr'', (line, err) ∷ lines)

-- The lines, each ended by a newline, and the bytes after them.
abbrev pub stream_of : List Bytes → Bytes → Bytes
stream_of [] tail = tail
stream_of (l ∷ ls) tail = l ++ newline ∷ stream_of ls tail

abbrev results : LineReader → List Bytes → Bytes → List (Bytes × Option ReadError)
results lr ls tail = map (line_of lr) ls ++ (tail, some lr.br.final) ∷ []

results-SameSize :
    (lr lr' : LineReader) (ls : List Bytes) (tail : Bytes)
    → SameSize lr lr'
    → results lr' ls tail ≡ results lr ls tail
results-SameSize lr lr' [] tail (_, _, ends) = ap (λ f. (tail, some f) ∷ []) ends
results-SameSize lr lr' (l ∷ ls) tail same =
    ap (λ x. x ∷ results lr' ls tail) (line_of-SameSize lr lr' l same)
    ∙ ap (λ xs. line_of lr l ∷ xs) (results-SameSize lr lr' ls tail same)

read_lines :
    (lr : LineReader) (ls : List Bytes) (tail : Bytes)
    → Fits lr
    → All (λ l. has_newline l ≡ false) ls
    → has_newline tail ≡ false
    → length tail < lr.br.size
    → lr.br.final ≢ err_buffer_full
    → Before (stream_of ls tail) lr
    → (lr' : LineReader) × (read_times (suc (length ls)) lr
        ≡ some (lr', map (line_of lr) ls ++ (tail, some lr.br.final) ∷ []))
read_lines lr [] tail f h ht short final b =
    let (lr', read) = last_line lr tail f.some_room ht short final b in (lr', rw read refl)
read_lines lr (l ∷ ls) tail f h ht short final b =
    let (lr1, read, next, same) = read_line_lem lr l (stream_of ls tail) f h.0 b in
    let (size, longest, ends) = same in
    let fits : Fits lr1 = record {
      some_room = omega (arith, size, f.some_room);
      longest = omega (arith, size, longest, f.longest);
    } in
    let (lr2, rest) =
      read_lines lr1 ls tail fits h.1 ht (omega (arith, size)) (λ x. final (sym ends ∙ x)) next in
    (
      lr2,
      rw (read, rest)
          (ap (λ xs. some (lr2, line_of lr l ∷ xs)) (results-SameSize lr lr1 ls tail same)),
    )

-- A stream of lines, read from its start with a buffer that has room for the longest line that is
-- returned, from a reader that does not itself report a full buffer: as many calls of ReadLine as
-- there are lines, and one more, return each line in its order, or its first bytes and an error if
-- it does not fit into the buffer with its newline, and at last the bytes after the last newline,
-- if they are fewer than the buffer has room for, with the reader's own error.
pub read_stream :
    (lr : LineReader) (ls : List Bytes) (tail : Bytes)
    → Fits lr
    → All (λ l. has_newline l ≡ false) ls
    → has_newline tail ≡ false
    → length tail < lr.br.size
    → lr.br.final ≢ err_buffer_full
    → lr.skip ≡ false
    → lr.br.rest ≡ stream_of ls tail
    → (lr' : LineReader) × (read_times (suc (length ls)) lr
        ≡ some (lr', map (line_of lr) ls ++ (tail, some lr.br.final) ∷ []))
read_stream lr ls tail f h ht short final s e = read_lines lr ls tail f h ht short final (ready s e)
