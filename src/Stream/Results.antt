-- ===== src/Stream/Results.antt =====
-- processor/stream/result.go: what has become of the events of a stream. The registry's counters hold
-- what has been added to them.
use apm_server.Prelude.{
  ℕ, ◌+◌, ◌≤◌, String, Bool, List, [], ◌∷◌, ◌++◌, Bytes, if◌then◌else◌, length, ltb, arith,
  Bool-cases, inl, inr, length-append,
}

pub record InvalidInput : Type 0 where
  pub too_large : Bool
  pub message : String
  pub document : Bytes

pub data StreamError : Type 0 where
  invalid_input_error : InvalidInput → StreamError
  end_of_stream : StreamError
  other_stream_error : String → StreamError

abbrev pub errors_limit : ℕ
errors_limit = 5

pub record Result : Type 0 where
  pub accepted : ℕ
  pub errors : List StreamError

-- `accepted`, `errors.invalid` and `errors.toolarge` of the registry.
pub record Monitoring : Type 0 where
  pub accepted : ℕ
  pub invalid : ℕ
  pub too_large : ℕ

unfoldable pub count_error : StreamError → Monitoring → Monitoring
count_error (invalid_input_error e) m =
    if e.too_large
    then record m { too_large = m.too_large + 1 }
    else record m { invalid = m.invalid + 1 }
count_error end_of_stream m = m
count_error (other_stream_error text) m = m

-- `add`
unfoldable pub add_error : Result × Monitoring → StreamError → Bool → Result × Monitoring
unfolding count_error
add_error (r, m) err add =
    (if add then record r { errors = r.errors ++ err ∷ [] } else r, count_error err m)

-- `LimitedAdd`
unfoldable pub limited_add : Result × Monitoring → StreamError → Result × Monitoring
unfolding add_error
limited_add (r, m) err = add_error (r, m) err (ltb (length r.errors) errors_limit)

-- `AddAccepted`
unfoldable pub add_accepted : Result × Monitoring → ℕ → Result × Monitoring
add_accepted (r, m) ct =
    (record r { accepted = r.accepted + ct }, record m { accepted = m.accepted + ct })

-- The errors stay within their limit.
pub limited_add-length :
    (s : Result × Monitoring) (err : StreamError)
    → length s.0.errors ≤ errors_limit
    → length (limited_add s err).0.errors ≤ errors_limit
unfolding limited_add
limited_add-length (r, m) err h = elim (Bool-cases (ltb (length r.errors) errors_limit)) [
  | inl room ↦ rw (room, limited_add) (ground (arith, length-append r.errors (err ∷ [])))
  | inr full ↦ rw (full, limited_add) h
]
