-- ===== src/Middleware/Recovery.antt =====
-- Panics of a handler behind the recovering middleware.
use mathlib.Core.List.{append-nil, append_assoc}
use apm_server.Prelude.{
  ◌+◌, String, none, List, [], ◌∷◌, ◌++◌, ◌≡◌, refl, ap, sym, ◌∙◌, ◌⊎◌, inl, inr, arith, Bool-cases,
  Option-cases,
}
use apm_server.Request.Result.{internal, set_result, status_or_internal}
use apm_server.Request.Context.{Context, WriterCall, write_calls, write, multiple_write_attempts}
use apm_server.Middleware.{
  Handler, Exit, returned, panicked, Panic, Writer, give, write_to, recovered, recover_again,
  recover_panic_middleware,
}

Exit-cases :
    (x : Exit)
    → ((c : Context) × (x ≡ returned c)) ⊎ ((c : Context) × (p : Panic) × (x ≡ panicked c p))
Exit-cases (returned c) = inl (c, refl)
Exit-cases (panicked c p) = inr (c, p, refl)

-- A context of which the result has been set after a panic.
record IsInternalError (stack : String) (c : Context) : Type 0 where
  id : c.result.id ≡ internal
  status_code : c.result.status_code ≡ 500
  stacktrace : c.result.stacktrace ≡ stack

recovered-IsInternalError :
    (stack : String) (c : Context) (p : Panic) → IsInternalError stack (recovered stack c p)
unfolding recovered set_result status_or_internal
recovered-IsInternalError stack c p = record {
  id = ground arith;
  status_code = ground arith;
  stacktrace = ground arith;
}

-- Writing a response leaves the result as it is, whether or not the writer panics.
abbrev Keeps : Context → Exit → Type 0
Keeps c (returned d) = d.result ≡ c.result
Keeps c (panicked d p) = d.result ≡ c.result

give-Keeps :
    (writer : Writer) (c : Context) (calls : List WriterCall) → Keeps c (give writer c calls)
unfolding give
give-Keeps writer c [] = refl
give-Keeps writer c (call ∷ calls) = elim (Option-cases (writer c.calls call)) [
  | inl fine ↦ rw (fine, give) (give-Keeps writer (record c { calls = c.calls ++ call ∷ [] }) calls)
  | inr (p, bad) ↦ rw (bad, give) refl
]

write_to-Keeps : (writer : Writer) (c : Context) → Keeps c (write_to writer c)
unfolding write_to
write_to-Keeps writer c = elim (Bool-cases (multiple_write_attempts c)) [
  | inl many ↦ rw (many, write_to) refl
  | inr few ↦
      rw (few, write_to)
        (give-Keeps writer (record c { write_attempts = c.write_attempts + 1 }) (write_calls c))
]

recover_again-returned :
    (c : Context) (x : Exit)
    → Keeps c x
    → (d : Context) × (recover_again x ≡ returned d) × (d.result ≡ c.result)
unfolding recover_again
recover_again-returned c (returned d) k = (d, refl, k)
recover_again-returned c (panicked d p) k = (d, refl, k)

-- The middleware always returns, also where the response writer panics on a call: what the handler
-- returned, or after a panic a context with the result of an internal error, status 500 and the stack
-- trace.
pub recover_panic_returns :
    (writer : Writer) (stack : String) (h : Handler) (c : Context)
    → (c' : Context) × (recover_panic_middleware writer stack h c ≡ returned c')
      × ((h c ≡ returned c')
          ⊎ ((d : Context) × (p : Panic) × (h c ≡ panicked d p)
              × (c'.result.id ≡ internal)
              × (c'.result.status_code ≡ 500)
              × (c'.result.stacktrace ≡ stack)))
unfolding recover_panic_middleware
recover_panic_returns writer stack h c = elim (Exit-cases (h c)) [
  | inl (d, e) ↦ (d, rw (e, recover_panic_middleware), inl e)
  | inr (d, p, e) ↦
      let set = recovered stack d p in
      let v = recovered-IsInternalError stack d p in
      let (last, f, same) =
        recover_again-returned set (write_to writer set) (write_to-Keeps writer set) in
      (
        last,
        rw (e, recover_panic_middleware) f,
        inr (
          d,
          p,
          e,
          ap (λ r. r.id) same ∙ v.id,
          ap (λ r. r.status_code) same ∙ v.status_code,
          ap (λ r. r.stacktrace) same ∙ v.stacktrace,
        ),
      )
]

give-append :
    (writer : Writer) (c : Context) (calls : List WriterCall)
    → ((given : List WriterCall) (call : WriterCall) → writer given call ≡ none)
    → give writer c calls ≡ returned (record c { calls = c.calls ++ calls })
unfolding give
give-append writer c [] fine =
    ap (λ calls. returned (record c { calls = calls })) (sym (append-nil c.calls))
give-append writer c (call ∷ calls) fine =
    rw (fine c.calls call, give)
      (give-append writer (record c { calls = c.calls ++ call ∷ [] }) calls fine
        ∙ ap (λ all. returned (record c { calls = all })) (append_assoc c.calls (call ∷ []) calls))

-- To a writer that never panics, `write` is the whole of `Context.Write`.
write_to-write :
    (writer : Writer) (c : Context)
    → ((given : List WriterCall) (call : WriterCall) → writer given call ≡ none)
    → write_to writer c ≡ returned (write c)
unfolding write_to write
write_to-write writer c fine = elim (Bool-cases (multiple_write_attempts c)) [
  | inl many ↦ rw (many, write_to, write) refl
  | inr few ↦
      rw (few, write_to, write)
        (give-append writer (record c { write_attempts = c.write_attempts + 1 }) (write_calls c)
          fine)
]
