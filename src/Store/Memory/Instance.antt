-- ===== src/Store/Memory/Instance.antt =====
-- The memory store as a `RoomStore`, and that it keeps what the trait promises.
use scpy.Prelude.{refl}
use scpy.Store.Trait.{RoomStore, IsLawful}
use scpy.Store.Memory
use scpy.Store.Memory.{MemoryRoomStore, put_session, get_session}
use scpy.Store.Memory.Values.{
  room_at, session_at, get-room_at, get_session-session_at, session_at-put_session,
}

module _ {P L : Type 0} where
  abbrev pub memory : RoomStore P L (MemoryRoomStore P L)
  memory = record {
    create = Memory.create;
    get = Memory.get;
    get_registration = Memory.get_registration;
    update = Memory.update;
    put_login_state = Memory.put_login_state;
    take_login_state = Memory.take_login_state;
    put_session = Memory.put_session;
    get_session = Memory.get_session;
    delete_session = Memory.delete_session;
  }

  -- The memory store keeps what a caller of the trait relies on: `get` and `get_session` answer
  -- with what is live at their clock and change no later answer, and a session put is answered
  -- until it expires, other keys being as before.
  pub memory-IsLawful : IsLawful memory
  unfolding put_session get_session
  memory-IsLawful = record {
    room_at = room_at;
    session_at = session_at;
    get_lem = get-room_at;
    get_session_lem = λ clock s key. (
      (get_session-session_at clock s key).0,
      (get_session-session_at clock s key).1,
      λ now k. refl,
    );
    put_session_lem = session_at-put_session;
    put_session_ok = λ clock s key session ttl. refl;
  }
