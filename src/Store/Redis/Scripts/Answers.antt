-- ===== src/Store/Redis/Scripts/Answers.antt =====
-- The JSON of src/store.rs, and what the scripts under redis/ answer and count.
use scpy.Prelude.{ℕ, ◌+◌, Option, List, [], ◌∷◌, ◌++◌, Text, codes, decimal, ◌⊎◌}
use scpy.Auth.{StoredOpaqueLoginState, StoredOpaqueSession}
use scpy.Store.Types.{StoredRoomRecord}

pub record InitScriptResponse : Type 0 where
  pub status : Text
  pub state : Text

pub record CreateScriptResponse : Type 0 where
  pub status : Text
  pub error : Option Text
  pub code_len : Option ℕ
  pub local_id : Option ℕ
  pub expires_at_ms : Option ℕ

pub record WriteScriptResponse : Type 0 where
  pub status : Text
  pub error : Option Text
  pub room_id : Option Text
  pub content_version : Option ℕ
  pub expires_at_ms : Option ℕ
  pub current_content_version : Option ℕ

pub record FreeScriptResponse : Type 0 where
  pub status : Text
  pub result : Option Text

pub record ReclaimScriptResponse : Type 0 where
  pub status : Text
  pub reclaimed : Option ℕ
  pub cleaned : Option ℕ
  pub scanned : Option ℕ

-- How the values of the program are JSON strings: `serde_json` on the side of the program, and
-- `cjson` in the scripts, which gives nothing where the script would fail.
pub record Codec (V P L Setup : Type 0) : Type 0 where
  pub initialized : V
  pub room_json : StoredRoomRecord P → V
  pub cjson_room : V → Option (StoredRoomRecord P)
  pub serde_room : V → Text ⊎ StoredRoomRecord P
  -- The double of a number that `tonumber` and `cjson` read.
  pub lua_number : ℕ → ℕ
  -- What the program reads of the answers that `cjson` writes.
  pub serde_created : CreateScriptResponse → Text ⊎ CreateScriptResponse
  pub serde_written : WriteScriptResponse → Text ⊎ WriteScriptResponse
  pub login_json : StoredOpaqueLoginState L → V
  pub serde_login : V → Text ⊎ StoredOpaqueLoginState L
  pub session_json : StoredOpaqueSession → V
  pub serde_session : V → Text ⊎ StoredOpaqueSession
  pub setup_json : Setup → V
  pub serde_setup : V → Text ⊎ Setup

-- `tostring(code_len) .. ':' .. tostring(local_id)`.
abbrev pub clip_member : ℕ → ℕ → Text
clip_member code_len local_id = decimal code_len ++ codes ":" ++ decimal local_id

-- The table of alloc_init.lua.
abbrev pub capacities : List (ℕ × ℕ)
capacities = (3, 175615) ∷ (4, 9834495) ∷ (5, 550731775) ∷ (6, 30840979455) ∷ []

-- What one member of the expiry index is: freed, without a room to free, or kept.
pub data Reclaimed : Type 0 where
  freed cleaned kept : Reclaimed

pub record Counts : Type 0 where
  pub reclaimed : ℕ
  pub cleaned : ℕ
  pub scanned : ℕ

abbrev pub count : Reclaimed → Counts → Counts
count freed c = record c { reclaimed = c.reclaimed + 1; scanned = c.scanned + 1 }
count cleaned c = record c { cleaned = c.cleaned + 1; scanned = c.scanned + 1 }
count kept c = record c { scanned = c.scanned + 1 }
