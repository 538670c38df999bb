-- ===== src/Auth/Header.antt =====
-- beater/auth/header.go, and what the package uses of Go's byte and base64 functions.
use Prim.Native.Char.{code}
use apm_server.Prelude.{
  ℕ, suc, zero, ◌+◌, ◌-◌, ◌*◌, ◌/◌, ◌%◌, String, ◌&&◌, ◌||◌, [], ◌∷◌, Option, none, some, ◌>>=◌,
  Bytes, leb, ◌==◌, if◌then◌else◌, is_empty, take, drop,
}

-- The bytes of an ASCII literal.
abbrev pub codes : String → Bytes
codes String.[] = []
codes (String.◌∷◌ c s) = code c ∷ codes s

-- `headers.APIKey`, `headers.Bearer`
abbrev pub header_api_key : Bytes
header_api_key = codes "ApiKey"

abbrev pub header_bearer : Bytes
header_bearer = codes "Bearer"

-- `bytes.IndexByte`, and `strings.IndexRune` at an ASCII rune; `none` is -1.
unfoldable pub index_byte : ℕ → Bytes → Option ℕ
index_byte c [] = none
index_byte c (b ∷ bs) =
    let rest = index_byte c bs in if b == c then some 0 else (do i ← rest; some (suc i))

split_at : Bytes → Option ℕ → Bytes × Bytes
split_at v none = ([], [])
split_at v (some zero) = ([], [])
split_at v (some (suc n)) = (take (suc n) v, drop (suc (suc n)) v)

unfoldable pub parse_authorization_header : Bytes → Bytes × Bytes
unfolding split_at index_byte
parse_authorization_header v = split_at v (index_byte b' ' v)

-- The standard base64 alphabet.
unfoldable pub sextet : ℕ → Option ℕ
sextet c =
    if leb b'A' c && leb c b'Z'
    then some (c - b'A')
    else (if leb b'a' c && leb c b'z'
        then some (c - b'a' + 26)
        else (if leb b'0' c && leb c b'9'
            then some (c - b'0' + 52)
            else (if c == b'+' then some 62 else (if c == b'/' then some 63 else none))))

-- Four characters at a time. Padding is required and ends the text; bits left over are ignored.
unfoldable pub decode_quanta : Bytes → Option Bytes
unfolding sextet
decode_quanta [] = some []
decode_quanta (a ∷ b ∷ c ∷ d ∷ rest) =
    let tail = decode_quanta rest in
    do
      x ← sextet a
      y ← sextet b
      if c == b'='
          then (if d == b'=' && is_empty rest then some ((x * 4 + y / 16) ∷ []) else none)
          else (do
            z ← sextet c
            if d == b'='
                then (if is_empty rest
                    then some ((x * 4 + y / 16) ∷ (y % 16 * 16 + z / 4) ∷ [])
                    else none)
                else (do
                  w ← sextet d
                  bytes ← tail
                  some ((x * 4 + y / 16) ∷ (y % 16 * 16 + z / 4) ∷ (z % 4 * 64 + w) ∷ bytes)))
decode_quanta _ = none

strip_newlines : Bytes → Bytes
strip_newlines [] = []
strip_newlines (b ∷ bs) =
    if b == 0x0a || b == 0x0d then strip_newlines bs else b ∷ strip_newlines bs

-- `base64.StdEncoding.DecodeString`, which skips carriage returns and line feeds.
unfoldable pub decode_string : Bytes → Option Bytes
unfolding decode_quanta strip_newlines
decode_string text = decode_quanta (strip_newlines text)
