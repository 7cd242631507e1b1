-- ===== src/Auth.antt =====
-- src/auth.rs: what the server stores of the OPAQUE protocol. The types of the library `opaque_ke`
-- are parameters.
use scpy.Prelude.{ℕ, List, Text}

pub record StoredOpaqueRegistration (PasswordFile : Type 0) : Type 0 where
  pub credential_id : List ℕ
  pub password_file : PasswordFile

pub record StoredOpaqueLoginState (ServerLogin : Type 0) : Type 0 where
  pub room_id : Text
  pub state : ServerLogin

pub record StoredOpaqueSession : Type 0 where
  pub room_id : Text
  pub created_at_ms : ℕ
  pub expires_at_ms : ℕ
