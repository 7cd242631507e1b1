-- ===== src/Crypto.antt =====
-- crates/scpy-crypto/src/lib.rs: the client's encryption of a room.
pub mod RoundTrip
use scpy.Prelude.{
  ℕ, zero, suc, ◌/◌, ◌%◌, ◌^◌, Bool, true, false, ◌&&◌, ◌||◌, ◌⊎◌, inl, inr, Option, none, some,
  List, [], ◌∷◌, ◌++◌, Text, text_eq, ◌==◌, ltb, leb, if◌then◌else◌, length,
}

pub record KdfParams : Type 0 where
  pub memory_cost_kib : ℕ
  pub time_cost : ℕ
  pub parallelism : ℕ

pub record RoomMeta : Type 0 where
  pub schema_version : ℕ
  pub kdf : KdfParams
  pub kdf_salt_b64 : Text
  pub wrapped_room_key_nonce_b64 : Text
  pub wrapped_room_key_b64 : Text

pub record CipherEnvelope : Type 0 where
  pub version : ℕ
  pub nonce_b64 : Text
  pub ciphertext_b64 : Text

pub data CryptoError : Type 0 where
  empty_password invalid_kdf_params randomness_unavailable authentication_failed invalid_encoding
        invalid_utf8 :
      CryptoError

abbrev pub room_key_len : ℕ
room_key_len = 32

abbrev pub salt_len : ℕ
salt_len = 16

abbrev pub nonce_len : ℕ
nonce_len = 24

abbrev pub schema_version : ℕ
schema_version = 1

pub record CreatedRoom : Type 0 where
  pub meta : RoomMeta
  pub envelope : CipherEnvelope
  pub room_key : Text

-- The libraries `argon2`, `chacha20poly1305` and `base64`. A key, a nonce and an associated text come
-- before the message.
pub record Primitives : Type 0 where
  pub hash_password : KdfParams → Text → Text → Option Text
  pub encrypt : Text → Text → Text → Text → Option Text
  pub decrypt : Text → Text → Text → Text → Option Text
  pub encode : Text → Text
  pub decode : Text → Option Text

-- What the generator gives for each of the arrays that are drawn, if it gives anything.
pub record Draws : Type 0 where
  pub salt : Option Text
  pub wrap_nonce : Option Text
  pub room_key : Option Text
  pub nonce : Option Text

infixl 5 ◌>>=◌
abbrev pub ◌>>=◌ : {A B : Type 0} → CryptoError ⊎ A → (A → CryptoError ⊎ B) → CryptoError ⊎ B
inl e >>= f = inl e
inr a >>= f = f a

abbrev pub or_error : {A : Type 0} → CryptoError → Option A → CryptoError ⊎ A
or_error e none = inl e
or_error e (some a) = inr a

-- The UTF-8 of the characters that `char::is_whitespace` accepts.
abbrev pub whitespace : List Text
whitespace =
    (9 ∷ [])
    ∷ (10 ∷ [])
    ∷ (11 ∷ [])
    ∷ (12 ∷ [])
    ∷ (13 ∷ [])
    ∷ (32 ∷ [])
    ∷ (194 ∷ 133 ∷ [])
    ∷ (194 ∷ 160 ∷ [])
    ∷ (225 ∷ 154 ∷ 128 ∷ [])
    ∷ (226 ∷ 128 ∷ 128 ∷ [])
    ∷ (226 ∷ 128 ∷ 129 ∷ [])
    ∷ (226 ∷ 128 ∷ 130 ∷ [])
    ∷ (226 ∷ 128 ∷ 131 ∷ [])
    ∷ (226 ∷ 128 ∷ 132 ∷ [])
    ∷ (226 ∷ 128 ∷ 133 ∷ [])
    ∷ (226 ∷ 128 ∷ 134 ∷ [])
    ∷ (226 ∷ 128 ∷ 135 ∷ [])
    ∷ (226 ∷ 128 ∷ 136 ∷ [])
    ∷ (226 ∷ 128 ∷ 137 ∷ [])
    ∷ (226 ∷ 128 ∷ 138 ∷ [])
    ∷ (226 ∷ 128 ∷ 168 ∷ [])
    ∷ (226 ∷ 128 ∷ 169 ∷ [])
    ∷ (226 ∷ 128 ∷ 175 ∷ [])
    ∷ (226 ∷ 129 ∷ 159 ∷ [])
    ∷ (227 ∷ 128 ∷ 128 ∷ [])
    ∷ []

unfoldable pub is_whitespace : Text → List Text → Bool
is_whitespace char [] = false
is_whitespace char (space ∷ spaces) = text_eq char space || is_whitespace char spaces

-- Whether the text, after the bytes of an unfinished character, is white space only: a character has
-- three bytes at most.
unfoldable pub blank_from : Text → Text → Bool
blank_from unfinished [] = leb (length unfinished) 0
blank_from unfinished (byte ∷ rest) =
    let char = unfinished ++ (byte ∷ []) in
    let complete = is_whitespace char whitespace in
    let later = blank_from (if complete then [] else char) rest in
    (complete || ltb (length char) 3) && later

unfoldable pub ensure_password : Text → CryptoError ⊎ Unit {0}
ensure_password password = if blank_from [] password then inl empty_password else inr tt

unfoldable pub validate_schema : ℕ → CryptoError ⊎ Unit {0}
validate_schema version = if version == schema_version then inr tt else inl invalid_encoding

-- `String::from_utf8`: a state is how many bytes of a character are to come, with the bounds of the
-- next one.
abbrev pub Pending : Type 0
Pending = ℕ × ℕ × ℕ

unfoldable pub first_byte : ℕ → Option Pending
first_byte byte =
    if ltb byte 128
    then some (0, 0, 0)
    else if ltb byte 194
    then none
    else if ltb byte 224
    then some (1, 128, 191)
    else if byte == 224
    then some (2, 160, 191)
    else if byte == 237
    then some (2, 128, 159)
    else if ltb byte 240
    then some (2, 128, 191)
    else if byte == 240
    then some (3, 144, 191)
    else if ltb byte 244
    then some (3, 128, 191)
    else if byte == 244
    then some (3, 128, 143)
    else none

unfoldable pub utf8_step : Pending → ℕ → Option Pending
utf8_step (zero, low, high) byte = first_byte byte
utf8_step (suc count, low, high) byte =
    if leb low byte && leb byte high then some (count, 128, 191) else none

unfoldable pub utf8_from : Pending → Text → Bool
utf8_from state [] = state.0 == 0
utf8_from state (byte ∷ rest) = elim (utf8_step state byte) [
  | none ↦ false
  | some next ↦ utf8_from next rest
]

abbrev pub is_utf8 : Text → Bool
is_utf8 bytes = utf8_from (0, 0, 0) bytes

-- `u64::to_be_bytes`.
abbrev pub to_be_bytes : ℕ → Text
to_be_bytes n =
    n / 2 ^ 56 % 256
    ∷ n / 2 ^ 48 % 256
    ∷ n / 2 ^ 40 % 256
    ∷ n / 2 ^ 32 % 256
    ∷ n / 2 ^ 24 % 256
    ∷ n / 2 ^ 16 % 256
    ∷ n / 2 ^ 8 % 256
    ∷ n % 256
    ∷ []

module _ (p : Primitives) where
  abbrev pub random_array : Option Text → CryptoError ⊎ Text
  random_array drawn = or_error randomness_unavailable drawn

  abbrev pub decode_bytes : Text → CryptoError ⊎ Text
  decode_bytes value = or_error invalid_encoding (p.decode value)

  unfoldable pub decode_fixed : ℕ → Text → CryptoError ⊎ Text
  decode_fixed n value = do
    bytes ← decode_bytes value
    if length bytes == n then inr bytes else inl invalid_encoding

  abbrev pub derive_wrapping_key : Text → Text → KdfParams → CryptoError ⊎ Text
  derive_wrapping_key password salt kdf =
      or_error invalid_kdf_params (p.hash_password kdf password salt)

  unfoldable pub encrypt_clipboard : Option Text → Text → Text → ℕ → CryptoError ⊎ CipherEnvelope
  encrypt_clipboard drawn room_key plaintext version = do
    nonce ← random_array drawn
    ciphertext ←
        or_error authentication_failed (p.encrypt room_key nonce (to_be_bytes version) plaintext)
    inr (record {
      version = version;
      nonce_b64 = p.encode nonce;
      ciphertext_b64 = p.encode ciphertext;
    })

  unfoldable pub decrypt_clipboard : Text → CipherEnvelope → CryptoError ⊎ Text
  decrypt_clipboard room_key envelope = do
    nonce ← decode_fixed nonce_len envelope.nonce_b64
    ciphertext ← decode_bytes envelope.ciphertext_b64
    plaintext ←
        or_error authentication_failed
          (p.decrypt room_key nonce (to_be_bytes envelope.version) ciphertext)
    if is_utf8 plaintext then inr plaintext else inl invalid_utf8

  -- The key of a room under the password.
  unfoldable pub wrap_key : Text → Text → Text → Text → KdfParams → CryptoError ⊎ RoomMeta
  wrap_key password salt wrap_nonce room_key kdf = do
    wrapping_key ← derive_wrapping_key password salt kdf
    wrapped_room_key ←
        or_error authentication_failed (p.encrypt wrapping_key wrap_nonce [] room_key)
    inr (record {
      schema_version = schema_version;
      kdf = kdf;
      kdf_salt_b64 = p.encode salt;
      wrapped_room_key_nonce_b64 = p.encode wrap_nonce;
      wrapped_room_key_b64 = p.encode wrapped_room_key;
    })

  unfoldable pub create_room : Draws → Text → Text → KdfParams → CryptoError ⊎ CreatedRoom
  create_room draws password plaintext kdf = do
    valid ← ensure_password password
    salt ← random_array draws.salt
    wrap_nonce ← random_array draws.wrap_nonce
    room_key ← random_array draws.room_key
    meta ← wrap_key password salt wrap_nonce room_key kdf
    envelope ← encrypt_clipboard draws.nonce room_key plaintext 1
    inr (record { meta = meta; envelope = envelope; room_key = room_key })

  unfoldable pub unlock_room_key : Text → RoomMeta → CryptoError ⊎ Text
  unlock_room_key password meta = do
    valid ← ensure_password password
    supported ← validate_schema meta.schema_version
    salt ← decode_fixed salt_len meta.kdf_salt_b64
    wrap_nonce ← decode_fixed nonce_len meta.wrapped_room_key_nonce_b64
    wrapped_room_key ← decode_bytes meta.wrapped_room_key_b64
    wrapping_key ← derive_wrapping_key password salt meta.kdf
    room_key ←
        or_error authentication_failed (p.decrypt wrapping_key wrap_nonce [] wrapped_room_key)
    if length room_key == room_key_len then inr room_key else inl authentication_failed
