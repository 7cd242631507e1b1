-- ===== src/Store/Redis/Runs.antt =====
-- Runs of commands from the first start of a server on.
use scpy.Prelude.{
  ℕ, ◌+◌, ◌<◌, ◌≡◌, refl, ◌∙◌, inl, inr, false, Bool, Option, none, some, List, [], ◌∷◌, ◌==◌,
  Bool-cases, Option-cases, Text,
}
use scpy.Crypto.{CipherEnvelope}
use scpy.Alloc.Code.{CodeAllocation, decode_room_id, tier_capacity}
use scpy.Alloc.Code.RoundTrip.{encode-decode, encode_local_id_range}
use scpy.Alloc.Tier.Invariant.{is_free}
use scpy.Alloc.Tier.Invariant.Fresh.{full_tiers, new-IsValid}
use scpy.Store.Types.{StoredRoomRecord}
use scpy.Store.Redis.Database.{
  Key, sentinel, setup, clip, starts, ends, login, session, expiring, key_eq, Redis, IsRedis,
  unexpired, members,
}
use scpy.Store.Redis.Scripts.{
  Codec, expiry, alloc_init, clip_free, clip_write, init_tiers, capacities, write_stored,
  written_record,
}
use scpy.Store.Redis.Refines.Init.{alloc_init-full_tiers, init_tiers_rooms}
use scpy.Store.Redis.Commands.{
  IsKept, IsKept-le, Command, initializes, creates, frees, reclaims, writes, puts_login,
  puts_session, deletes_login, deletes_session, puts_setup, execute, run, InOrder, last_time,
}
use scpy.Store.Redis.Kept.{IsKept-IsQuiet, put_clip-IsKept, set_px-IsQuiet, alloc_init-IsKept}
use scpy.Store.Redis.Kept.Tiers.{create-IsKept, free-IsKept, reclaim-IsKept}

module _ {D V P L Setup : Type 0} (r : Redis D V) (law : IsRedis r) (codec : Codec V P L Setup)
    (use_expiry_index : Bool) (time : ℕ) where
  write_stored-IsKept :
      (room_id : Text) (n capacity id now_ms ttl_ms : ℕ) (envelope : CipherEnvelope)
      (stored : StoredRoomRecord P) (d : D) (i : IsKept time (law.view d))
      → tier_capacity n ≡ some capacity
      → id < capacity
      → is_free i.allocator n id ≡ false
      → IsKept time (
          law.view
            (write_stored r codec time use_expiry_index room_id n id now_ms ttl_ms envelope stored
              d).0)
  unfolding write_stored
  write_stored-IsKept room_id n capacity id now_ms ttl_ms envelope stored d i valid inside taken =
      elim (Bool-cases (
        codec.lua_number envelope.version
        == codec.lua_number (codec.lua_number stored.content_version + 1))) [
          | inl next ↦ elim (Bool-cases (r.accepts_px time ttl_ms)) [
            | inl accepted ↦
                rw (write_stored, next, accepted)
                  (put_clip-IsKept r law codec use_expiry_index time n capacity id ttl_ms
                    (written_record now_ms (expiry codec now_ms ttl_ms) envelope stored) d i valid
                    inside taken)
            | inr failed ↦ rw (write_stored, next, failed) i
          ]
          | inr stale ↦ rw (write_stored, stale) i
        ]

  write-IsKept :
      (room_id : Text) (n capacity id now_ms ttl_ms : ℕ) (envelope : CipherEnvelope) (d : D)
      → IsKept time (law.view d)
      → tier_capacity n ≡ some capacity
      → id < capacity
      → IsKept time (
          law.view
            (clip_write r codec time use_expiry_index room_id n id now_ms ttl_ms envelope d).0)
  unfolding clip_write
  write-IsKept room_id n capacity id now_ms ttl_ms envelope d i valid inside =
      elim (Option-cases (unexpired time ((law.view d).strings (clip n id)))) [
        | inl missing ↦
            let none_found = law.get_lem time (clip n id) d ∙ missing in
            rw (clip_write, none_found) i
        | inr (payload, present) ↦
            let found = law.get_lem time (clip n id) d ∙ present in
            let taken : is_free i.allocator n id ≡ false =
              elim (Bool-cases (is_free i.allocator n id)) [
                | inl free_id ↦ absurd (let gone = i.kept n id free_id in cc)
                | inr taken ↦ taken
              ] in
            elim (Option-cases (codec.cjson_room payload)) [
              | inl bad ↦ rw (clip_write, found, bad) i
              | inr (stored, good) ↦
                  rw (clip_write, found, good)
                    (write_stored-IsKept room_id n capacity id now_ms ttl_ms envelope stored d i
                      valid inside taken)
            ]
      ]

  delete-IsKept :
      (k : Key) (d : D)
      → ((n id : ℕ) → key_eq k (clip n id) ≡ false)
      → ((n : ℕ) → (key_eq k (starts n) ≡ false) × (key_eq k (ends n) ≡ false))
      → key_eq k expiring ≡ false
      → key_eq k sentinel ≡ false
      → IsKept time (law.view d)
      → IsKept time (law.view (r.del k d))
  delete-IsKept k d rooms tiers index made i =
      IsKept-IsQuiet
        (rw law.del_lem (record {
          tiers = record { sets = λ n. rw (tiers n).0 refl; hashes = λ n. rw (tiers n).1 refl };
          rooms = λ n id. rw (rooms n id) refl;
          index = rw index refl;
          made = rw made refl;
        }))
        i

  setup-IsKept :
      (v : V) (d : D) → IsKept time (law.view d) → IsKept time (law.view (r.setnx time setup v d).0)
  setup-IsKept v d i =
      let eq = law.setnx_lem time setup v d in
      elim (Bool-cases (r.exists time setup d)) [
        | inl e ↦ rw (eq, e) i
        | inr e ↦
            rw (eq, e)
              (IsKept-IsQuiet
                (rw law.set_lem (record {
                  tiers = record { sets = λ n. refl; hashes = λ n. refl };
                  rooms = λ n id. refl;
                  index = refl;
                  made = refl;
                }))
                i)
      ]

  -- A text that is no code names no room.
  decoded-IsKept :
      (room_id : Text) (d : D) (next : CodeAllocation → D)
      → IsKept time (law.view d)
      → ((code : CodeAllocation) (capacity : ℕ)
          → tier_capacity code.code_len ≡ some capacity
          → code.local_id < capacity
          → IsKept time (law.view (next code)))
      → (decoded : Option CodeAllocation) → decode_room_id room_id ≡ decoded
      → IsKept time (law.view (elim decoded [ none ↦ d | some code ↦ next code ]))
  decoded-IsKept room_id d next i k none e = i
  decoded-IsKept room_id d next i k (some code) e =
      let (capacity, valid, inside) =
        encode_local_id_range code.code_len code.local_id room_id (encode-decode room_id code e) in
      k code capacity valid inside

  execute-IsKept :
      (command : Command P L Setup) (d : D)
      → IsKept time (law.view d)
      → IsKept time (law.view (execute r codec use_expiry_index time command d))
  unfolding execute
  execute-IsKept initializes d i = alloc_init-IsKept r law codec use_expiry_index time d i
  execute-IsKept (creates now_ms ttl_ms room) d i =
      create-IsKept r law codec use_expiry_index time now_ms ttl_ms room d i
  execute-IsKept (frees room_id) d i =
      decoded-IsKept room_id d
        (λ code. (clip_free r use_expiry_index code.code_len code.local_id d).0) i
        (λ code capacity valid inside.
          free-IsKept r law codec use_expiry_index time code.code_len capacity code.local_id d i
            valid inside)
        (decode_room_id room_id) refl
  execute-IsKept (reclaims now_ms limit) d i =
      reclaim-IsKept r law codec use_expiry_index time now_ms limit d i
  execute-IsKept (writes room_id now_ms ttl_ms envelope) d i =
      decoded-IsKept room_id d
        (λ code.
          (clip_write r codec time use_expiry_index room_id code.code_len code.local_id now_ms
            ttl_ms envelope d).0)
        i
        (λ code capacity valid inside.
          write-IsKept room_id code.code_len capacity code.local_id now_ms ttl_ms envelope d i valid
            inside)
        (decode_room_id room_id) refl
  execute-IsKept (puts_login id state ttl_ms) d i =
      IsKept-IsQuiet
        (set_px-IsQuiet r law codec use_expiry_index time (login id) (codec.login_json state) ttl_ms
          d (λ n j. refl) (λ n. (refl, refl)) refl refl)
        i
  execute-IsKept (puts_session id value ttl_ms) d i =
      IsKept-IsQuiet
        (set_px-IsQuiet r law codec use_expiry_index time (session id) (codec.session_json value)
          ttl_ms d (λ n j. refl) (λ n. (refl, refl)) refl refl)
        i
  execute-IsKept (deletes_login id) d i =
      delete-IsKept (login id) d (λ n j. refl) (λ n. (refl, refl)) refl refl i
  execute-IsKept (deletes_session id) d i =
      delete-IsKept (session id) d (λ n j. refl) (λ n. (refl, refl)) refl refl i
  execute-IsKept (puts_setup drawn) d i = setup-IsKept (codec.setup_json drawn) d i

module _ {D V P L Setup : Type 0} (r : Redis D V) (law : IsRedis r) (codec : Codec V P L Setup)
    (use_expiry_index : Bool) where
  run-IsKept_from :
      (time : ℕ) (commands : List (ℕ × Command P L Setup)) (d : D)
      → InOrder time commands
      → IsKept time (law.view d)
      → IsKept (last_time time commands) (law.view (run r codec use_expiry_index commands d))
  unfolding run
  run-IsKept_from time [] d o i = i
  run-IsKept_from time ((next, command) ∷ rest) d (later, o) i =
      run-IsKept_from next rest (execute r codec use_expiry_index next command d) o (
        execute-IsKept r law codec use_expiry_index next command d
          (IsKept-le time next (law.view d) later i))

  first-IsKept :
      (time : ℕ) (d : D)
      → (law.view d).strings sentinel ≡ none
      → ((n id : ℕ) → (law.view d).strings (clip n id) ≡ none)
      → (law.view d).sets expiring ≡ []
      → IsKept time (law.view (execute r codec use_expiry_index time initializes d))
  unfolding execute alloc_init members
  first-IsKept time d absent rooms index =
      let missing : r.exists time sentinel d ≡ false =
        law.exists_lem time sentinel d ∙ rw absent refl in
      let (mirrors, fresh, again) =
        alloc_init-full_tiers r law codec.initialized time time d (rw absent refl) in
      let seeded = init_tiers r capacities d in
      let untouched = init_tiers_rooms r law capacities d in
      let started : execute r codec use_expiry_index time initializes d
          ≡ r.set sentinel codec.initialized seeded =
        rw (execute, missing) refl in
      rw (started, law.set_lem)
        (record {
          allocator = full_tiers;
          valid = new-IsValid.1;
          mirrors = rw (alloc_init, missing, law.set_lem) at mirrors;
          kept = λ n id h. rw (untouched.0 n id, rooms n id) refl;
          places = rw (untouched.1, index) tt;
          initialized = λ later. (codec.initialized, refl);
        })

  -- On a database with no sentinel, no rooms and an empty expiry index, once the tiers are made,
  -- whatever scripts and commands of the store's methods Redis runs one after another, for any
  -- number of servers and with a clock that does not go back, the database mirrors a valid
  -- allocator in which no id of a room that has not expired is free, the expiry index names ids of
  -- tiers or no id, and the sentinel stands.
  pub run-IsKept :
      (time : ℕ) (commands : List (ℕ × Command P L Setup)) (d : D)
      → (law.view d).strings sentinel ≡ none
      → ((n id : ℕ) → (law.view d).strings (clip n id) ≡ none)
      → (law.view d).sets expiring ≡ []
      → InOrder time commands
      → IsKept (last_time time commands) (
          law.view (
            run r codec use_expiry_index commands
              (execute r codec use_expiry_index time initializes d)))
  run-IsKept time commands d absent rooms index o =
      run-IsKept_from time commands (execute r codec use_expiry_index time initializes d) o
        (first-IsKept time d absent rooms index)
