-- ===== src/Api/Cookie.antt =====
-- src/api.rs: the session cookie (`session_cookie_name`, `session_cookie_value`,
-- `build_session_cookie`) and the tokens in it (`random_token`). The `Cookie` header is its text, if
-- the request has one and `to_str` accepts it.
pub mod RoundTrip
use mathlib.Core.List.{reverse}
use scpy.Prelude.{
  ℕ, zero, suc, ◌+◌, ◌/◌, ◌%◌, Bool, true, false, ◌&&◌, ◌||◌, Option, none, some, List, [], ◌∷◌,
  ◌++◌, leb, ltb, ◌==◌, if◌then◌else◌, Text, codes, text_eq, decimal, get_or,
}
use scpy.Time.{as_secs}

-- The bytes of `;`, `=` and the space.
abbrev pub semicolon : ℕ
semicolon = 59

abbrev pub equals : ℕ
equals = 61

abbrev pub space : ℕ
space = 32

-- `str::split` by one byte: the part up to the first separator, and the parts after it.
abbrev pub put_first : ℕ → List Text → List Text
put_first byte [] = (byte ∷ []) ∷ []
put_first byte (part ∷ parts) = (byte ∷ part) ∷ parts

unfoldable pub split : ℕ → Text → List Text
split separator [] = [] ∷ []
split separator (byte ∷ rest) =
    let parts = split separator rest in
    if byte == separator then [] ∷ parts else put_first byte parts

-- `str::trim` on the ASCII white space.
abbrev pub is_whitespace : ℕ → Bool
is_whitespace byte = byte == space || leb 9 byte && leb byte 13

unfoldable pub trim_start : Text → Text
trim_start [] = []
trim_start (byte ∷ rest) = if is_whitespace byte then trim_start rest else byte ∷ rest

unfoldable pub trim : Text → Text
trim text = reverse (trim_start (reverse (trim_start text)))

-- `splitn(2, '=')` with both of its parts there.
unfoldable pub split_pair : Text → Option (Text × Text)
split_pair [] = none
split_pair (byte ∷ rest) =
    if byte == equals
    then some ([], rest)
    else (elim (split_pair rest) [ none ↦ none | some (name, value) ↦ some (byte ∷ name, value) ])

-- `find_map` over the parts of the header.
unfoldable pub find_pair : Text → List Text → Option Text
find_pair cookie_name [] = none
find_pair cookie_name (pair ∷ pairs) = elim (split_pair (trim pair)) [
  | none ↦ find_pair cookie_name pairs
  | some (name, value) ↦
      let later = find_pair cookie_name pairs in
      if text_eq name cookie_name then some value else later
]

unfoldable pub session_cookie_value : Option Text → Text → Option Text
session_cookie_value none cookie_name = none
session_cookie_value (some cookies) cookie_name = find_pair cookie_name (split semicolon cookies)

unfoldable pub session_cookie_name : Text → Text
session_cookie_name room_id = codes "scpy_session_" ++ room_id

-- The text of the `Set-Cookie` header. `HeaderValue::from_str`, of the library `http`, may refuse it.
unfoldable pub session_cookie_text : Text → Text → ℕ → Text
session_cookie_text room_id session_id ttl =
    session_cookie_name room_id
    ++ (equals ∷ session_id
        ++ (codes "; Path=/; HttpOnly; SameSite=Lax; Max-Age=" ++ decimal (as_secs ttl)))

-- `format!("{byte:02x}")` of each byte.
abbrev pub hex_alphabet : Text
hex_alphabet = codes "0123456789abcdef"

unfoldable pub random_token : List ℕ → Text
random_token [] = []
random_token (byte ∷ bytes) =
    get_or hex_alphabet (byte / 16) 0 ∷ get_or hex_alphabet (byte % 16) 0 ∷ random_token bytes
