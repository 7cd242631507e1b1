-- ===== src/Pages/Remote.antt =====
-- src/app.rs: the requests of the pages, and the client's half of `opaque_ke`.
use scpy.Prelude.{
  ℕ, Bool, ◌&&◌, Option, none, some, List, [], ◌++◌, leb, Text, codes, decimal, if◌then◌else◌, ◌⊎◌,
  inl, inr,
}
use scpy.Opaque.{Opaque}
use scpy.Protocol.{
  OpaqueRegistrationStartRequest, OpaqueRegistrationStartResponse, OpaqueLoginStartRequest,
  OpaqueLoginStartResponse, OpaqueLoginFinishRequest, OpaqueLoginFinishResponse, CreateRoomRequest,
  CreateRoomResponse, GetRoomResponse, UpdateClipboardRequest, UpdateClipboardResponse,
}
use scpy.Crypto.{
  CryptoError, empty_password, invalid_kdf_params, randomness_unavailable, authentication_failed,
  invalid_encoding, invalid_utf8,
}

-- `Result<A, String>`.
infixl 5 ◌>>=◌
abbrev pub ◌>>=◌ : {A B : Type 0} → Text ⊎ A → (A → Text ⊎ B) → Text ⊎ B
inl e >>= f = inl e
inr a >>= f = f a

-- What a request comes to: an error of the client before there is a response, or a response with its
-- status, its text, and what its JSON is read as.
pub data Response (A : Type 0) : Type 0 where
  failed : Text → Response A
  responded : (status : ℕ) → (text : Option Text) → (json : Text ⊎ A) → Response A

abbrev unwrap_or_default : Option Text → Text
unwrap_or_default none = []
unwrap_or_default (some text) = text

-- `response.ok()`.
abbrev pub is_ok : ℕ → Bool
is_ok status = leb 200 status && leb status 299

abbrev pub checked : {A : Type 0} → Text → Response A → Text ⊎ A
checked doing (failed error) = inl error
checked doing (responded status text json) =
    if is_ok status
    then json
    else inl (
        codes "server returned "
        ++ decimal status
        ++ codes " while "
        ++ doing
        ++ codes ": "
        ++ unwrap_or_default text)

-- The server as a page meets it: what it answers to each request.
pub record Remote (o : Opaque) : Type 0 where
  pub post_rooms : CreateRoomRequest o → Response CreateRoomResponse
  pub post_register_start :
      OpaqueRegistrationStartRequest o → Response (OpaqueRegistrationStartResponse o)
  pub post_login_start : OpaqueLoginStartRequest o → Response (OpaqueLoginStartResponse o)
  pub post_login_finish : OpaqueLoginFinishRequest o → Response OpaqueLoginFinishResponse
  pub get_room : Text → Response GetRoomResponse
  pub post_clipboard : Text → UpdateClipboardRequest → Response UpdateClipboardResponse

-- `ClientLogin` and `ClientRegistration`. What is drawn comes first; `ClientLogin::finish` fails
-- without a message, which the page does not use.
pub record OpaqueClient (o : Opaque) : Type 1 where
  pub Login : Type 0
  pub Registration : Type 0
  pub start_login : List ℕ → Text → Text ⊎ (Login × o.CredentialRequest)
  pub finish_login : Login → Text → o.CredentialResponse → Option o.CredentialFinalization
  pub start_registration : List ℕ → Text → Text ⊎ (Registration × o.RegistrationRequest)
  pub finish_registration :
      List ℕ → Registration → Text → o.RegistrationResponse → Text ⊎ o.RegistrationUpload

-- The messages of `CryptoError`.
abbrev pub error_text : CryptoError → Text
error_text empty_password = codes "password must not be empty"
error_text invalid_kdf_params = codes "invalid or unsupported KDF parameters"
error_text randomness_unavailable = codes "randomness unavailable"
error_text authentication_failed = codes "ciphertext failed authentication"
error_text invalid_encoding = codes "encoded value is invalid"
error_text invalid_utf8 = codes "plaintext is not valid UTF-8"

abbrev pub or_text : {A : Type 0} → CryptoError ⊎ A → Text ⊎ A
or_text (inl error) = inl (error_text error)
or_text (inr a) = inr a

module _ {o : Opaque} (remote : Remote o) where
  unfoldable pub create_remote_room : CreateRoomRequest o → Text ⊎ CreateRoomResponse
  create_remote_room request = checked (codes "creating the clipboard") (remote.post_rooms request)

  unfoldable pub register_start_remote :
      OpaqueRegistrationStartRequest o → Text ⊎ OpaqueRegistrationStartResponse o
  register_start_remote request =
      checked (codes "starting password registration") (remote.post_register_start request)

  unfoldable pub login_start_remote : OpaqueLoginStartRequest o → Text ⊎ OpaqueLoginStartResponse o
  login_start_remote request =
      checked (codes "starting password login") (remote.post_login_start request)

  unfoldable pub finish_login_remote : OpaqueLoginFinishRequest o → Text ⊎ OpaqueLoginFinishResponse
  finish_login_remote request =
      checked (codes "finishing password login") (remote.post_login_finish request)

  unfoldable pub fetch_room_snapshot : Text → Text ⊎ GetRoomResponse
  fetch_room_snapshot room_id = checked (codes "loading the clipboard") (remote.get_room room_id)

  unfoldable pub post_clipboard_update :
      Text → UpdateClipboardRequest → Text ⊎ UpdateClipboardResponse
  post_clipboard_update room_id request =
      checked (codes "saving the update") (remote.post_clipboard room_id request)
