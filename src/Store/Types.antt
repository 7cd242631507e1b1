-- ===== src/Store/Types.antt =====
-- src/store.rs: what is stored of a room, and the errors of a store.
use scpy.Prelude.{ℕ, ◌≡◌, ap, none, some, Text}
use scpy.Auth.{StoredOpaqueRegistration}
use scpy.Crypto.{RoomMeta, CipherEnvelope}
use scpy.Time.{Clock, saturating_add, ttl_to_millis, now_unix_ms}

abbrev pub store_schema_version : ℕ
store_schema_version = 1

pub record StoredRoom (PasswordFile : Type 0) : Type 0 where
  pub auth : StoredOpaqueRegistration PasswordFile
  pub meta : RoomMeta
  pub envelope : CipherEnvelope

pub record StoredRoomRecord (PasswordFile : Type 0) : Type 0 where
  pub schema_version : ℕ
  pub room_id : Text
  pub code_len : ℕ
  pub local_id : ℕ
  pub created_at_ms : ℕ
  pub updated_at_ms : ℕ
  pub expires_at_ms : ℕ
  pub content_version : ℕ
  pub auth : StoredOpaqueRegistration PasswordFile
  pub meta : RoomMeta
  pub envelope : CipherEnvelope

-- The errors of the libraries are their messages.
pub data StoreError : Type 0 where
  redis serialization : Text → StoreError
  allocator_exhausted invalid_room_id : StoreError
  version_conflict : (current attempted : ℕ) → StoreError
  opaque script_protocol : Text → StoreError

pub data Result {ℓ} (A : Type ℓ) : Type ℓ where
  ok : A → Result A
  err : StoreError → Result A

-- `StoredRoomRecord::new`.
unfoldable pub new_record :
    {PasswordFile : Type 0}
    → Clock
    → Text
    → ℕ
    → ℕ
    → StoredRoom PasswordFile
    → ℕ
    → StoredRoomRecord PasswordFile
new_record clock room_id code_len local_id room ttl =
    let now_ms = now_unix_ms clock in
    record {
      schema_version = store_schema_version;
      room_id = room_id;
      code_len = code_len;
      local_id = local_id;
      created_at_ms = now_ms;
      updated_at_ms = now_ms;
      expires_at_ms = saturating_add now_ms (ttl_to_millis ttl);
      content_version = room.envelope.version;
      auth = room.auth;
      meta = room.meta;
      envelope = room.envelope;
    }

pub ok_some : {A : Type 0} {a b : A} → ok (some a) ≡ ok (some b) → a ≡ b
ok_some {A} {a} e = ap {B = A} (λ r. elim r [ ok (some x) ↦ x | ok none ↦ a | err x ↦ a ]) e
