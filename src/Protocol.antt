-- ===== src/Protocol.antt =====
-- src/protocol.rs, and the messages of src/auth.rs: what the API takes and returns.
use scpy.Prelude.{ℕ, Bool, List, Text}
use scpy.Crypto.{RoomMeta, CipherEnvelope}
use scpy.Opaque.{Opaque}

pub record OpaqueRegistrationStartRequest (o : Opaque) : Type 0 where
  pub message : o.RegistrationRequest

pub record OpaqueRegistrationStartResponse (o : Opaque) : Type 0 where
  pub credential_id : List ℕ
  pub message : o.RegistrationResponse

pub record OpaqueRoomRegistration (o : Opaque) : Type 0 where
  pub credential_id : List ℕ
  pub registration_upload : o.RegistrationUpload

pub record OpaqueLoginStartRequest (o : Opaque) : Type 0 where
  pub room_id : Text
  pub message : o.CredentialRequest

pub record OpaqueLoginStartResponse (o : Opaque) : Type 0 where
  pub login_session_id : Text
  pub message : o.CredentialResponse

pub record OpaqueLoginFinishRequest (o : Opaque) : Type 0 where
  pub login_session_id : Text
  pub message : o.CredentialFinalization

pub record OpaqueLoginFinishResponse : Type 0 where
  pub authenticated : Bool

pub record CreateRoomRequest (o : Opaque) : Type 0 where
  pub meta : RoomMeta
  pub envelope : CipherEnvelope
  pub auth : OpaqueRoomRegistration o

pub record CreateRoomResponse : Type 0 where
  pub room_id : Text

pub record GetRoomResponse : Type 0 where
  pub room_id : Text
  pub meta : RoomMeta
  pub envelope : CipherEnvelope

pub record UpdateClipboardRequest : Type 0 where
  pub envelope : CipherEnvelope

pub record UpdateClipboardResponse : Type 0 where
  pub room_id : Text
  pub version : ℕ

pub record ClipboardEvent : Type 0 where
  pub room_id : Text
  pub envelope : CipherEnvelope
