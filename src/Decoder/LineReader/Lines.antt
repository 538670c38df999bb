-- ===== src/Decoder/LineReader/Lines.antt =====
-- Reading a line, with the rest of a long one skipped.
use apm_server.Prelude.{
  ℕ, zero, suc, ◌+◌, ◌≤◌, ◌<◌, ◌≡◌, refl, ap, none, some, Bool, true, false, ◌||◌, List, [], ◌∷◌,
  ◌++◌, ◌==◌, ltb, Bytes, length, take, drop, arith, length-append,
}
use apm_server.Decoder.LineReader.{
  err_buffer_full, BufioReader, newline, cut, read_slice, without_newline,
}

abbrev pub has_newline : Bytes → Bool
has_newline [] = false
has_newline (b ∷ bytes) = (b == newline) || has_newline bytes

cut-short :
    (n : ℕ) (l rest : Bytes)
    → has_newline l ≡ false
    → length l < n
    → cut n (l ++ newline ∷ rest) ≡ some (l ++ newline ∷ [], rest)
unfolding cut
cut-short zero l rest h short = absurd (omega arith)
cut-short (suc n) [] rest h short = refl
cut-short (suc n) (b ∷ l) rest h short =
    let here : (b == newline) ≡ false = ground arith in
    let later = cut-short n l rest (ground arith) (omega arith) in rw (here, later, cut) refl

-- Without a newline among the first bytes nothing is cut.
cut-long :
    (n : ℕ) (l rest : Bytes) → has_newline l ≡ false → n ≤ length l → cut n (l ++ rest) ≡ none
unfolding cut
cut-long zero l rest h long = refl
cut-long (suc n) [] rest h long = absurd (omega arith)
cut-long (suc n) (b ∷ l) rest h long =
    let here : (b == newline) ≡ false = ground arith in
    let later = cut-long n l rest (ground arith) (omega arith) in rw (here, later, cut) refl

cut-none : (n : ℕ) (l : Bytes) → has_newline l ≡ false → cut n l ≡ none
unfolding cut
cut-none zero l h = refl
cut-none (suc n) [] h = refl
cut-none (suc n) (b ∷ l) h =
    let here : (b == newline) ≡ false = ground arith in
    let later = cut-none n l (ground arith) in rw (here, later, cut) refl

pub without_newline-append : (l : Bytes) → without_newline (l ++ newline ∷ []) ≡ l
unfolding without_newline
without_newline-append [] = refl
without_newline-append (b ∷ []) = refl
without_newline-append (b ∷ c ∷ l) = ap (λ t. b ∷ t) (without_newline-append (c ∷ l))

pub without_newline-none : (l : Bytes) → has_newline l ≡ false → without_newline l ≡ l
unfolding without_newline
without_newline-none [] h = refl
without_newline-none (b ∷ []) h = let here : (b == newline) ≡ false = ground arith in rw here refl
without_newline-none (b ∷ c ∷ l) h = ap (λ t. b ∷ t) (without_newline-none (c ∷ l) (ground arith))

module _ {A : Type 0} where
  take-append : (n : ℕ) (xs ys : List A) → n ≤ length xs → take n (xs ++ ys) ≡ take n xs
  take-append zero xs ys h = refl
  take-append (suc n) [] ys h = absurd (omega arith)
  take-append (suc n) (x ∷ xs) ys h = ap (λ t. x ∷ t) (take-append n xs ys (omega arith))

  drop-append : (n : ℕ) (xs ys : List A) → n ≤ length xs → drop n (xs ++ ys) ≡ drop n xs ++ ys
  drop-append zero xs ys h = refl
  drop-append (suc n) [] ys h = absurd (omega arith)
  drop-append (suc n) (x ∷ xs) ys h = drop-append n xs ys (omega arith)

  pub take-take : (m n : ℕ) (xs : List A) → m ≤ n → take m (take n xs) ≡ take m xs
  take-take zero n xs h = refl
  take-take (suc m) zero xs h = absurd (omega arith)
  take-take (suc m) (suc n) [] h = refl
  take-take (suc m) (suc n) (x ∷ xs) h = ap (λ t. x ∷ t) (take-take m n xs (omega arith))

  pub length-drop : (n : ℕ) (xs : List A) → n ≤ length xs → length (drop n xs) + n ≡ length xs
  length-drop zero xs h = omega arith
  length-drop (suc n) [] h = absurd (omega arith)
  length-drop (suc n) (x ∷ xs) h = omega (arith, length-drop n xs (omega arith))

pub has_newline-drop : (n : ℕ) (l : Bytes) → has_newline l ≡ false → has_newline (drop n l) ≡ false
has_newline-drop zero l h = h
has_newline-drop (suc n) [] h = refl
has_newline-drop (suc n) (b ∷ l) h = has_newline-drop n l (ground arith)

-- The three answers of `ReadSlice`.
module _ (br : BufioReader) (l rest : Bytes) (h : has_newline l ≡ false) where
  pub slice-short :
      br.rest ≡ l ++ newline ∷ rest
      → length l < br.size
      → read_slice br
        ≡ record { line = l ++ newline ∷ []; err = none; br = record br { rest = rest } }
  unfolding read_slice
  slice-short e short = simp (e, cut-short br.size l rest h short, read_slice) refl

  pub slice-long :
      br.rest ≡ l ++ rest
      → br.size ≤ length l
      → read_slice br ≡ record {
        line = take br.size l;
        err = some err_buffer_full;
        br = record br { rest = drop br.size l ++ rest };
      }
  unfolding read_slice
  slice-long e long =
      let enough : ltb (length (l ++ rest)) br.size ≡ false =
        ground (arith, length-append l rest) in
      simp
        (
          e,
          cut-long br.size l rest h long,
          enough,
          take-append br.size l rest long,
          drop-append br.size l rest long,
          read_slice,
        )
        refl

  pub slice-last :
      br.rest ≡ l
      → length l < br.size
      → read_slice br ≡ record { line = l; err = some br.final; br = record br { rest = [] } }
  unfolding read_slice
  slice-last e short =
      let few : ltb (length l) br.size ≡ true = ground arith in
      simp (e, cut-none br.size l h, few, read_slice) refl
