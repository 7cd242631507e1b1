-- ===== src/Store/Redis/Laws/Codecs.antt =====
-- The JSON of the store: what `serde_json` and `cjson` write they read back.
use scpy.Prelude.{
  ℕ, ◌+◌, ◌^◌, ◌<◌, ◌≡◌, refl, inl, arith, Text, Bool, ◌&&◌, true, false, Option, none, some, List,
  [], ◌∷◌, ltb, inr,
}
use scpy.Alloc.Code.{encode_local_id}
use scpy.Alloc.Code.Permute.{tier_cases}
use scpy.Alloc.Code.RoundTrip.{encode_local_id_range}
use scpy.Auth.{StoredOpaqueLoginState, StoredOpaqueSession}
use scpy.Store.Types.{StoredRoomRecord}
use scpy.Store.Redis.Scripts.{Codec, expiry, CreateScriptResponse, WriteScriptResponse}

-- `cjson` writes 14 significant digits of a number, and an empty array as an object.
abbrev pub fits : ℕ → Bool
fits n = ltb n (10 ^ 14)

abbrev pub fits_answer : Option ℕ → Bool
fits_answer none = true
fits_answer (some n) = fits n

abbrev pub has_bytes : List ℕ → Bool
has_bytes [] = false
has_bytes (byte ∷ bytes) = true

abbrev pub fits_json : {P : Type 0} → StoredRoomRecord P → Bool
fits_json stored =
    fits stored.created_at_ms
    && fits stored.updated_at_ms
    && fits stored.expires_at_ms
    && fits stored.content_version
    && fits stored.envelope.version
    && has_bytes stored.auth.credential_id

-- The length and the id of a code are small.
pub code_fits :
    (n id : ℕ) (text : Text) → encode_local_id n id ≡ some text → (fits n && fits id) ≡ true
code_fits n id text h =
    let (capacity, valid, inside) = encode_local_id_range n id text h in
    elim (tier_cases n capacity valid) [
      | inl (e, k) ↦ rw e (ground arith)
      | inr (inl (e, k)) ↦ rw e (ground arith)
      | inr (inr (inl (e, k))) ↦ rw e (ground arith)
      | inr (inr (inr (e, k))) ↦ rw e (ground arith)
    ]

-- The JSON of a password file has no empty array, and its numbers are bytes.
pub record IsCodec {V P L Setup : Type 0} (codec : Codec V P L Setup) : Type 0 where
  pub cjson_room_lem :
      (stored : StoredRoomRecord P)
      → fits_json stored ≡ true
      → codec.cjson_room (codec.room_json stored) ≡ some stored
  pub serde_room_lem :
      (stored : StoredRoomRecord P)
      → fits_json stored ≡ true
      → codec.serde_room (codec.room_json stored) ≡ inr stored
  pub lua_number_lem : (n : ℕ) → n < 2 ^ 53 → codec.lua_number n ≡ n
  pub serde_created_lem :
      (answer : CreateScriptResponse)
      → (fits_answer answer.code_len
            && fits_answer answer.local_id
            && fits_answer answer.expires_at_ms
          ≡ true)
      → codec.serde_created answer ≡ inr answer
  pub serde_written_lem :
      (answer : WriteScriptResponse)
      → (fits_answer answer.content_version
            && fits_answer answer.expires_at_ms
            && fits_answer answer.current_content_version
          ≡ true)
      → codec.serde_written answer ≡ inr answer
  pub serde_login_lem :
      (state : StoredOpaqueLoginState L) → codec.serde_login (codec.login_json state) ≡ inr state
  pub serde_session_lem :
      (session : StoredOpaqueSession)
      → codec.serde_session (codec.session_json session) ≡ inr session
  pub serde_setup_lem : (setup : Setup) → codec.serde_setup (codec.setup_json setup) ≡ inr setup

-- An expiry that is small is the sum of the numbers.
pub expiry_lem :
    {V P L Setup : Type 0} (codec : Codec V P L Setup)
    → IsCodec codec
    → (now_ms ttl_ms : ℕ) → fits (now_ms + ttl_ms) ≡ true
    → expiry codec now_ms ttl_ms ≡ now_ms + ttl_ms
expiry_lem codec exact now_ms ttl_ms h =
    let now_exact = exact.lua_number_lem now_ms (ground arith) in
    let ttl_exact = exact.lua_number_lem ttl_ms (ground arith) in
    let sum_exact = exact.lua_number_lem (now_ms + ttl_ms) (ground arith) in
    rw (expiry, now_exact, ttl_exact, sum_exact) refl
