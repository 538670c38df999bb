-- ===== src/Stream/EventType.antt =====
-- processor/stream/processor.go: the type of an event is the first key of its object.
use apm_server.Prelude.{
  ℕ, ◌≡◌, refl, ap, ◌∙◌, Option, none, some, Bool, true, false, ◌||◌, [], ◌∷◌, ◌++◌, ◌==◌, Bytes,
  if◌then◌else◌, arith,
}

abbrev pub is_quote : ℕ → Bool
is_quote b = b == 34 || b == 39

-- `bytes.IndexByte`, with the bytes before it.
unfoldable pub before_byte : Bytes → ℕ → Option Bytes
before_byte [] q = none
before_byte (b ∷ bytes) q =
    let later = before_byte bytes q in
    if b == q then some [] else elim later [ none ↦ none | some key ↦ some (b ∷ key) ]

-- The first quote of the body and what comes after it; without a quote the key is empty.
unfoldable pub after_quote : Bytes → ℕ × Bytes
after_quote [] = (0, [])
after_quote (b ∷ bytes) = let later = after_quote bytes in if is_quote b then (b, bytes) else later

-- `identifyEventType`: nil is none.
unfoldable pub identify_event_type : Bytes → Option Bytes
unfolding before_byte after_quote
identify_event_type body = let (quote, key) = after_quote body in before_byte key quote

abbrev pub has_quote : Bytes → Bool
has_quote [] = false
has_quote (b ∷ bytes) = is_quote b || has_quote bytes

abbrev pub has_byte : Bytes → ℕ → Bool
has_byte [] q = false
has_byte (b ∷ bytes) q = b == q || has_byte bytes q

after_quote-append :
    (prefix rest : Bytes) (q : ℕ)
    → has_quote prefix ≡ false
    → is_quote q ≡ true
    → after_quote (prefix ++ q ∷ rest) ≡ (q, rest)
unfolding after_quote
after_quote-append [] rest q h e = rw e refl
after_quote-append (b ∷ prefix) rest q h e =
    let here : is_quote b ≡ false = ground arith in
    let later = after_quote-append prefix rest q (ground arith) e in
    rw (here, later, after_quote) refl

before_byte-append :
    (key rest : Bytes) (q : ℕ) → has_byte key q ≡ false → before_byte (key ++ q ∷ rest) q ≡ some key
unfolding before_byte
before_byte-append [] rest q h = let same : (q == q) ≡ true = ground arith in rw same refl
before_byte-append (b ∷ key) rest q h =
    let here : (b == q) ≡ false = ground arith in
    let later = before_byte-append key rest q (ground arith) in rw (here, later, before_byte) refl

-- The type of a body is the key between its first quote and the next one like it, whatever comes
-- before, without a quote, and after.
pub identify_event_type-append :
    (prefix key rest : Bytes) (q : ℕ)
    → has_quote prefix ≡ false
    → is_quote q ≡ true
    → has_byte key q ≡ false
    → identify_event_type (prefix ++ q ∷ (key ++ q ∷ rest)) ≡ some key
unfolding identify_event_type
identify_event_type-append prefix key rest q h e k =
    ap (λ r. before_byte r.1 r.0) (after_quote-append prefix (key ++ q ∷ rest) q h e)
    ∙ before_byte-append key rest q k

none_after_quote : (body : Bytes) → has_quote body ≡ false → after_quote body ≡ (0, [])
unfolding after_quote
none_after_quote [] h = refl
none_after_quote (b ∷ body) h =
    let here : is_quote b ≡ false = ground arith in
    let later = none_after_quote body (ground arith) in rw (here, later, after_quote) refl

-- A body without a quote has no type.
pub identify_event_type-none :
    (body : Bytes) → has_quote body ≡ false → identify_event_type body ≡ none
unfolding identify_event_type
identify_event_type-none body h = rw (none_after_quote body h) refl
