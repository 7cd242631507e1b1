-- ===== src/Store/Redis/Commands.antt =====
-- Whatever commands and scripts the stores of any number of servers have Redis run, one after another:
-- the methods' requests may come in between one another in any order.
use scpy.Prelude.{ℕ, ◌≤◌, ◌≡◌, refl, true, Bool, Option, none, some, List, [], ◌∷◌, arith, Text}
use scpy.Auth.{StoredOpaqueLoginState, StoredOpaqueSession}
use scpy.Crypto.{CipherEnvelope}
use scpy.Alloc.Code.{decode_room_id}
use scpy.Alloc.Tier.{TieredAllocator}
use scpy.Alloc.Tier.Invariant.{IsValid, is_free}
use scpy.Store.Types.{StoredRoom}
use scpy.Store.Redis.Database.{
  sentinel, setup, clip, login, session, expiring, Redis, Contents, Entry, unexpired, members,
}
use scpy.Store.Redis.Scripts.{
  Codec, alloc_init, clip_create, clip_free, clip_reclaim_expired, clip_write,
}
use scpy.Store.Redis.Mirror.{IsMirror}
use scpy.Store.Redis.Index.{ArePlaces}

-- The state between two commands: the database mirrors a valid allocator, a room that has not expired
-- has an id that is not free, the index names ids of tiers, and the tiers have been made.
pub record IsKept {V : Type 0} (time : ℕ) (c : Contents V) : Type 0 where
  pub allocator : TieredAllocator
  pub valid : IsValid allocator
  pub mirrors : IsMirror c allocator
  pub kept :
      (n id : ℕ) → is_free allocator n id ≡ true → unexpired time (c.strings (clip n id)) ≡ none
  pub places : ArePlaces (members (c.sets expiring))
  pub initialized : (later : ℕ) → (v : V) × (unexpired later (c.strings sentinel) ≡ some v)

-- What has expired stays so.
pub unexpired_later :
    {V : Type 0} (time later : ℕ) (entry : Option (Entry V))
    → time ≤ later
    → unexpired time entry ≡ none
    → unexpired later entry ≡ none
unexpired_later time later none h e = refl
unexpired_later time later (some (v, none)) h e = absurd (cc)
unexpired_later time later (some (v, some expiry)) h e = ground arith

pub IsKept-le :
    {V : Type 0} (time later : ℕ) (c : Contents V) → time ≤ later → IsKept time c → IsKept later c
IsKept-le time later c h i = record {
  allocator = i.allocator;
  valid = i.valid;
  mirrors = i.mirrors;
  kept = λ n id e. unexpired_later time later (c.strings (clip n id)) h (i.kept n id e);
  places = i.places;
  initialized = i.initialized;
}

-- What a store sends; the key of a room is that of a text that decodes.
pub data Command (P L Setup : Type 0) : Type 0 where
  initializes : Command P L Setup
  creates : (now_ms ttl_ms : ℕ) → StoredRoom P → Command P L Setup
  frees : Text → Command P L Setup
  reclaims : (now_ms limit : ℕ) → Command P L Setup
  writes : (room_id : Text) → (now_ms ttl_ms : ℕ) → CipherEnvelope → Command P L Setup
  puts_login : Text → StoredOpaqueLoginState L → (ttl_ms : ℕ) → Command P L Setup
  puts_session : Text → StoredOpaqueSession → (ttl_ms : ℕ) → Command P L Setup
  deletes_login deletes_session : Text → Command P L Setup
  puts_setup : Setup → Command P L Setup

module _ {D V P L Setup : Type 0} (r : Redis D V) (codec : Codec V P L Setup)
    (use_expiry_index : Bool) where
  unfoldable pub execute : ℕ → Command P L Setup → D → D
  execute time initializes d = (alloc_init r codec.initialized time d).0
  execute time (creates now_ms ttl_ms room) d =
      (clip_create r codec time use_expiry_index now_ms ttl_ms room d).0
  execute time (frees room_id) d = elim (decode_room_id room_id) [
    | none ↦ d
    | some code ↦ (clip_free r use_expiry_index code.code_len code.local_id d).0
  ]
  execute time (reclaims now_ms limit) d = (clip_reclaim_expired r time now_ms limit d).0
  execute time (writes room_id now_ms ttl_ms envelope) d = elim (decode_room_id room_id) [
    | none ↦ d
    | some code ↦
        (clip_write r codec time use_expiry_index room_id code.code_len code.local_id now_ms ttl_ms
          envelope d).0
  ]
  execute time (puts_login id state ttl_ms) d =
      r.set_px time (login id) (codec.login_json state) ttl_ms d
  execute time (puts_session id value ttl_ms) d =
      r.set_px time (session id) (codec.session_json value) ttl_ms d
  execute time (deletes_login id) d = r.del (login id) d
  execute time (deletes_session id) d = r.del (session id) d
  execute time (puts_setup drawn) d = (r.setnx time setup (codec.setup_json drawn) d).0

  unfoldable pub run : List (ℕ × Command P L Setup) → D → D
  run [] d = d
  run ((time, command) ∷ rest) d = run rest (execute time command d)

-- The server's clock does not go back, and where it is at last.
abbrev pub InOrder : {A : Type 0} → ℕ → List (ℕ × A) → Type 0
InOrder time [] = Unit {0}
InOrder time ((next, a) ∷ rest) = (time ≤ next) × InOrder next rest

abbrev pub last_time : {A : Type 0} → ℕ → List (ℕ × A) → ℕ
last_time time [] = time
last_time time ((next, a) ∷ rest) = last_time next rest
