-- ===== src/Decoder/LineReader/Returns.antt =====
-- Reading a line ends, whatever the stream.
use apm_server.Prelude.{
  ◌⊎◌, ◌∷◌, ◌==◌, ℕ, zero, suc, ◌+◌, ◌≤◌, ◌<◌, ◌≡◌, ◌≢◌, refl, sym, ap, ◌∙◌, Option, none, some,
  true, false, Bytes, [], ltb, length, take, arith, Bool-cases, Option-cases, inl, inr,
}
use apm_server.Decoder.LineReader.{
  newline, ReadError, eof, err_line_too_long, err_buffer_full, other_error, without_newline,
  BufioReader, cut, read_slice, LineReader, is_full, is_eof, returned, again, read_step, read_loop,
  read_line,
}
use apm_server.Decoder.LineReader.Lines.{length-drop}
use apm_server.Decoder.LineReader.Stream.{not_full, loop_again}

-- A slice keeps the buffer's size and the reader's error.
abbrev SameBuffer : BufioReader → BufioReader → Type 0
SameBuffer br br' = (br'.size ≡ br.size) × (br'.final ≡ br.final)

slice_same : (br : BufioReader) → SameBuffer br (read_slice br).br
unfolding read_slice
slice_same br = elim (Option-cases (cut br.size br.rest)) [
  | inr ((line, rest), e) ↦ rw (e, read_slice) (refl, refl)
  | inl e ↦ elim (Bool-cases (ltb (length br.rest) br.size)) [
    | inl few ↦ rw (e, few, read_slice) (refl, refl)
    | inr many ↦ rw (e, many, read_slice) (refl, refl)
  ]
]

-- A slice that fills the buffer takes bytes away.
slice_smaller :
    (br : BufioReader)
    → 0 < br.size
    → br.final ≢ err_buffer_full
    → is_full (read_slice br).err ≡ true
    → length (read_slice br).br.rest < length br.rest
unfolding read_slice
slice_smaller br room final full = elim (Option-cases (cut br.size br.rest)) [
  | inr ((line, rest), e) ↦ let bad = rw (e, read_slice) at full in cc
  | inl e ↦ elim (Bool-cases (ltb (length br.rest) br.size)) [
    | inl few ↦
        let off = not_full br.final final in let bad = rw (e, few, off, read_slice) at full in cc
    | inr many ↦
        let size = length-drop br.size br.rest (ground arith) in
        rw (e, many, read_slice) (omega (arith, size))
  ]
]

-- A slice takes bytes away, or comes with the reader's error.
abbrev Progress : BufioReader → BufioReader → Option ReadError → Type 0
Progress br br' err =
    ((length br'.rest < length br.rest) ⊎ (err ≡ some br.final))
    × (length br'.rest ≤ length br.rest)

length-cut :
    (n : ℕ) (bytes line rest : Bytes) → cut n bytes ≡ some (line, rest) → length rest < length bytes
unfolding cut
length-cut zero bytes line rest h = cc
length-cut (suc n) [] line rest h = cc
length-cut (suc n) (b ∷ bytes) line rest h = elim (Bool-cases (b == newline)) [
  | inl here ↦
      let same : bytes ≡ rest =
        ap (λ o. elim o [ none ↦ [] | some x ↦ x.1 ]) (rw (here, cut) at h) in
      omega (arith, ap length same)
  | inr on ↦ elim (Option-cases (cut n bytes)) [
    | inl e ↦ let bad = rw (on, e, cut) at h in cc
    | inr ((l, r), e) ↦
        let same : r ≡ rest =
          ap (λ o. elim o [ none ↦ [] | some x ↦ x.1 ]) (rw (on, e, cut) at h) in
        omega (arith, ap length same, length-cut n bytes l r e)
  ]
]

slice-Progress :
    (br : BufioReader) → 0 < br.size → Progress br (read_slice br).br (read_slice br).err
unfolding read_slice
slice-Progress br room = elim (Option-cases (cut br.size br.rest)) [
  | inr ((line, rest), e) ↦
      let smaller = length-cut br.size br.rest line rest e in
      rw (e, read_slice) (inl (omega (arith, smaller)), omega (arith, smaller))
  | inl e ↦ elim (Bool-cases (ltb (length br.rest) br.size)) [
    | inl few ↦ rw (e, few, read_slice) (inr refl, omega arith)
    | inr many ↦
        let size = length-drop br.size br.rest (ground arith) in
        rw (e, many, read_slice) (inl (omega (arith, size)), omega (arith, size))
  ]
]

abbrev Returns : ℕ → LineReader → Type 0
Returns fuel lr =
    (lr' : LineReader) × (line : Bytes) × (err : Option ReadError) × (read_loop fuel lr
      ≡ some (lr', line, err))
    × (lr'.br.size ≡ lr.br.size)
    × (lr'.br.final ≡ lr.br.final)
    × ((length lr'.br.rest < length lr.br.rest) ⊎ (err ≡ some lr.br.final))

loop_returned :
    (fuel : ℕ) (lr lr' : LineReader) (line : Bytes) (err : Option ReadError)
    → read_step lr lr.skip (read_slice lr.br) ≡ returned lr' line err
    → lr'.br ≡ (read_slice lr.br).br
    → (length (read_slice lr.br).br.rest < length lr.br.rest) ⊎ (err ≡ some lr.br.final)
    → Returns (suc fuel) lr
unfolding read_loop
loop_returned fuel lr lr' line err e b progress =
    let (size, final) = slice_same lr.br in
    (
      lr',
      line,
      err,
      rw (e, read_loop) refl,
      ap (λ br. br.size) b ∙ size,
      ap (λ br. br.final) b ∙ final,
      elim progress [
        | inl smaller ↦ inl (omega (arith, ap (λ br. length br.rest) b, smaller))
        | inr ended ↦ inr ended
      ],
    )

first-Returns :
    (fuel : ℕ) (lr : LineReader)
    → 0 < lr.br.size
    → lr.br.final ≢ err_buffer_full
    → lr.skip ≡ false
    → Returns (suc fuel) lr
unfolding read_step
first-Returns fuel lr room final first =
    let s = read_slice lr.br in
    let here = ap (λ b. read_step lr b s) first in
    elim (Bool-cases (is_full s.err)) [
      | inl full ↦
          loop_returned fuel lr (record lr { br = s.br; skip = true })
            (take lr.max_line_length s.line) (some err_line_too_long)
            (here ∙ rw (full, read_step) refl) refl (inl (slice_smaller lr.br room final full))
      | inr fits ↦
          loop_returned fuel lr (record lr { br = s.br }) (without_newline s.line) s.err
            (here ∙ rw (fits, read_step) refl) refl (slice-Progress lr.br room).0
    ]

loop_on :
    (fuel : ℕ) (lr lr' : LineReader)
    → 0 < lr.br.size
    → read_step lr lr.skip (read_slice lr.br) ≡ again lr'
    → lr'.br ≡ (read_slice lr.br).br
    → Returns fuel lr'
    → Returns (suc fuel) lr
loop_on fuel lr lr' room e b (lr'', line, err, f, size', final', progress) =
    let (_, less) = slice-Progress lr.br room in
    let (size, final) = slice_same lr.br in
    (
      lr'',
      line,
      err,
      loop_again fuel lr lr' e ∙ f,
      size' ∙ ap (λ br. br.size) b ∙ size,
      final' ∙ ap (λ br. br.final) b ∙ final,
      elim progress [
        | inl smaller ↦ inl (omega (arith, ap (λ br. length br.rest) b, less, smaller))
        | inr ended ↦ inr (ended ∙ ap some (ap (λ br. br.final) b ∙ final))
      ],
    )

eof_only : (err : Option ReadError) → is_eof err ≡ true → err ≡ some eof
eof_only none h = cc
eof_only (some eof) h = refl
eof_only (some err_buffer_full) h = cc
eof_only (some err_line_too_long) h = cc
eof_only (some (other_error text)) h = cc

read_loop-Returns :
    (fuel : ℕ) (lr : LineReader)
    → 0 < lr.br.size
    → lr.br.final ≢ err_buffer_full
    → length lr.br.rest + 2 ≤ fuel
    → Returns fuel lr
unfolding read_step
read_loop-Returns zero lr room final enough = absurd (omega arith)
read_loop-Returns (suc zero) lr room final enough = absurd (omega arith)
read_loop-Returns (suc (suc fuel)) lr room final enough =
    let s = read_slice lr.br in
    elim (Bool-cases lr.skip) [
      | inr first ↦ first-Returns (suc fuel) lr room final first
      | inl skips ↦
          let skipped = ap (λ b. read_step lr b s) skips in
          elim (Bool-cases (is_eof s.err)) [
            | inl e ↦
                loop_returned (suc fuel) lr (record lr { br = s.br }) [] (some eof)
                  (skipped ∙ rw (e, read_step) refl) refl
                  (elim (slice-Progress lr.br room).0 [
                    | inl smaller ↦ inl smaller
                    | inr ended ↦ inr (sym (eof_only s.err e) ∙ ended)
                  ])
            | inr e ↦ elim (Bool-cases (is_full s.err)) [
              | inl full ↦
                  let smaller = slice_smaller lr.br room final full in
                  let (size, ends) = slice_same lr.br in
                  loop_on (suc fuel) lr (record lr { br = s.br }) room
                    (skipped ∙ rw (e, full, read_step) refl) refl
                    (read_loop-Returns (suc fuel) (record lr { br = s.br }) (omega (arith, size))
                      (λ x. final (sym ends ∙ x)) (omega (arith, smaller)))
              | inr fits ↦
                  let (size, ends) = slice_same lr.br in
                  loop_on (suc fuel) lr (record lr { br = s.br; skip = false }) room
                    (skipped ∙ rw (e, fits, read_step) refl) refl
                    (first-Returns fuel (record lr { br = s.br; skip = false })
                      (omega (arith, size)) (λ x. final (sym ends ∙ x)) refl)
            ]
          ]
    ]

-- Reading a line always returns, for a buffer with room for a byte over a reader that does not
-- itself report a full buffer, and keeps the size of the buffer and the reader's error. It takes
-- bytes away from the stream, or comes with the reader's error.
pub read_line-Returns :
    (lr : LineReader)
    → 0 < lr.br.size
    → lr.br.final ≢ err_buffer_full
    → (lr' : LineReader) × (line : Bytes) × (err : Option ReadError) × (read_line lr
        ≡ some (lr', line, err))
      × (lr'.br.size ≡ lr.br.size)
      × (lr'.br.final ≡ lr.br.final)
      × ((length lr'.br.rest < length lr.br.rest) ⊎ (err ≡ some lr.br.final))
unfolding read_line
read_line-Returns lr room final =
    read_loop-Returns (length lr.br.rest + 2) lr room final (omega arith)
