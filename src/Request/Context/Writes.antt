-- ===== src/Request/Context/Writes.antt =====
-- What repeated calls of `Write` give the response writer.
use Prim.Native.Nat.{min}
use apm_server.Prelude.{
  ℕ, ◌+◌, ◌<◌, ◌≡◌, refl, ap, Bytes, Bool, true, false, List, [], ◌∷◌, Option, none, some, is_some,
  length, count, bit, take, count-append, arith, Bool-cases, inl, inr, ltb,
}
use apm_server.Request.Result.{Result, Body}
use apm_server.Request.Context.{
  Context, WriterCall, write_header, write_body, reset_context, write, write_result, write_calls,
  accept_json, multiple_write_attempts,
}

-- A sequence of results, each set and written in turn.
pub write_results : List Result → Context → Context
write_results [] c = c
write_results (r ∷ rs) c = write_results rs (write (record c { result = r }))

abbrev pub is_write_header : WriterCall → Bool
is_write_header (write_header code) = true
is_write_header _ = false

abbrev pub is_write_body : WriterCall → Bool
is_write_body (write_body content) = true
is_write_body _ = false

abbrev pub has_body : Result → Bool
has_body r = is_some r.body

write_result-count :
    (c : Context) (body : Option Body)
    → (count is_write_header (write_result c body) ≡ 1)
      × (count is_write_body (write_result c body) ≡ bit (is_some body))
unfolding write_result
write_result-count c none = (refl, refl)
write_result-count c (some body) = elim (Bool-cases (accept_json c)) [
  | inl p ↦ rw (p, write_result) (refl, refl)
  | inr p ↦ rw (p, write_result) (refl, refl)
]

abbrev headers : Context → ℕ
headers c = count is_write_header c.calls

abbrev bodies : Context → ℕ
bodies c = count is_write_body c.calls

write-count :
    (c : Context) (r : Result)
    → c.write_attempts < 2
    → (headers (write (record c { result = r })) ≡ headers c + 1)
      × (bodies (write (record c { result = r })) ≡ bodies c + bit (has_body r))
      × ((write (record c { result = r })).write_attempts ≡ c.write_attempts + 1)
unfolding write multiple_write_attempts write_calls
write-count c r h =
    let d : Context = record c { result = r } in
    let few : ltb 1 c.write_attempts ≡ false = ground arith in
    let (one, body) = write_result-count d r.body in
    simp few (
      omega (arith, count-append is_write_header c.calls (write_calls d), one),
      omega (arith, count-append is_write_body c.calls (write_calls d), body),
      refl,
    )

write-done :
    (rs : List Result) (c : Context) → 1 < c.write_attempts → (write_results rs c).calls ≡ c.calls
unfolding write_results write multiple_write_attempts
write-done [] c h = refl
write-done (r ∷ rs) c h =
    let many : ltb 1 c.write_attempts ≡ true = ground arith in
    simp many (write-done rs (record c { result = r }) h)

-- When results are written one after the other on a context that has just been reset, the response
-- writer is given one status for each result, for two at most, and one body for each of the first
-- two results that has a body.
pub count-write_results :
    (rs : List Result) (authorization accept : Bytes) (cancelled : Bool)
    → (count is_write_header (write_results rs (reset_context authorization accept cancelled)).calls
        ≡ min (length rs) 2)
      × (count is_write_body (write_results rs (reset_context authorization accept cancelled)).calls
          ≡ count has_body (take 2 rs))
unfolding reset_context write_results
count-write_results [] authorization accept cancelled = (refl, refl)
count-write_results (r ∷ []) authorization accept cancelled =
    let (h, b, n) = write-count (reset_context authorization accept cancelled) r (omega arith) in
    (omega (arith, h), omega (arith, b))
count-write_results (r ∷ s ∷ rs) authorization accept cancelled =
    let start = reset_context authorization accept cancelled in
    let first = write (record start { result = r }) in
    let second = write (record first { result = s }) in
    let (h, b, n) = write-count start r (omega arith) in
    let (h', b', n') = write-count first s (omega (arith, n)) in
    let rest = write-done rs second (omega (arith, n, n')) in
    (
      omega (arith, ap (count is_write_header) rest, h, h'),
      omega (arith, ap (count is_write_body) rest, b, b'),
    )
