-- ===== src/Opaque.antt =====
-- The library `opaque_ke` as the server uses it: its types and the four functions that src/api.rs
-- calls. Randomness is an argument.
use scpy.Prelude.{Bool, List, ℕ, Option, Text, ◌⊎◌}

pub record Opaque : Type 1 where
  pub ServerSetup : Type 0
  pub PasswordFile : Type 0
  pub ServerLogin : Type 0
  pub RegistrationRequest : Type 0
  pub RegistrationResponse : Type 0
  pub RegistrationUpload : Type 0
  pub CredentialRequest : Type 0
  pub CredentialResponse : Type 0
  pub CredentialFinalization : Type 0
  -- `ServerRegistration::start`, with the error's message.
  pub start_registration : ServerSetup → RegistrationRequest → List ℕ → Text ⊎ RegistrationResponse
  -- `ServerRegistration::finish`.
  pub finish_registration : RegistrationUpload → PasswordFile
  -- `ServerLogin::start`, with the bytes that it draws.
  pub start_login :
      List ℕ
      → ServerSetup
      → Option PasswordFile
      → CredentialRequest
      → List ℕ
      → Text ⊎ (ServerLogin × CredentialResponse)
  -- `ServerLogin::finish`: whether it is `Ok`.
  pub finish_login : ServerLogin → CredentialFinalization → Bool
