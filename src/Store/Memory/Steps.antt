-- ===== src/Store/Memory/Steps.antt =====
-- Every method keeps the invariant of the memory store, on every branch, and so does any sequence
-- of calls from `new`.
use scpy.Prelude.{
  ℕ, ◌+◌, ◌%◌, ◌^◌, ◌≡◌, refl, ◌∙◌, inl, inr, arith, ◌==◌, leb, ltb, Option, some, some_inj,
  Bool-cases, Option-cases, Text, List, [], ◌∷◌,
}
use scpy.HashMap.{lookup}
use scpy.Time.{Clock}
use scpy.Auth.{StoredOpaqueLoginState, StoredOpaqueSession}
use scpy.Crypto.{CipherEnvelope}
use scpy.Alloc.Code.RoundTrip.{encode_local_id_range}
use scpy.Alloc.Code.{CodeAllocation}
use scpy.Alloc.Tier.{TieredAllocator}
use scpy.Alloc.Tier.Invariant.Allocate.{Outcome, allocated, exhausted, allocate-Outcome}
use scpy.Alloc.Tier.Invariant.Fresh.{full_tiers, new-IsValid}
use scpy.Store.Types.{StoredRoom, new_record}
use scpy.Store.Memory.{
  MemoryRoomStore, remove_if_expired, admit, create, get, get_registration, write, update,
  updated_record, put_login_state, take_login_state, put_session, get_session, delete_session, new,
}
use scpy.Store.Memory.Invariant.{
  IsConsistent, evict-IsConsistent, admit-IsConsistent, rewrite-IsConsistent,
}

module _ {P L : Type 0} (s : MemoryRoomStore P L) (c : IsConsistent s) where
  pub remove_if_expired-IsConsistent :
      (room_id : Text) (now : ℕ) → IsConsistent (remove_if_expired s room_id now).0
  unfolding remove_if_expired
  remove_if_expired-IsConsistent room_id now = elim (Option-cases (lookup room_id s.rooms)) [
    | inl e ↦ rw (e, remove_if_expired) c
    | inr (entry, e) ↦ elim (Bool-cases (leb entry.expires_at now)) [
      | inl expired ↦ rw (e, remove_if_expired, expired) (evict-IsConsistent s c room_id entry e)
      | inr live ↦ rw (e, remove_if_expired, live) c
    ]
  ]

  admit-Outcome :
      (clock : Clock) (room : StoredRoom P) (ttl : ℕ)
      {out : TieredAllocator × Option CodeAllocation}
      → Outcome s.allocator out
      → IsConsistent (admit clock s room ttl out).0
  unfolding admit new_record
  admit-Outcome clock room ttl (exhausted none_free) = c
  admit-Outcome clock room ttl (allocated a' code i) =
      admit-IsConsistent s c a' code _ i (i.encoded, refl)

  pub create-IsConsistent :
      (clock : Clock) (room : StoredRoom P) (ttl : ℕ) → IsConsistent (create clock s room ttl).0
  unfolding create
  create-IsConsistent clock room ttl =
      admit-Outcome clock room ttl (allocate-Outcome s.allocator c.alloc)

  pub get-IsConsistent : (clock : Clock) (room_id : Text) → IsConsistent (get clock s room_id).0
  unfolding get
  get-IsConsistent clock room_id =
      let evicted = remove_if_expired-IsConsistent room_id clock.now in
      elim (Option-cases (lookup room_id s.rooms)) [
        | inl e ↦ rw (e, get) c
        | inr (entry, e) ↦ elim (Bool-cases (ltb clock.now entry.expires_at)) [
          | inl live ↦ rw (e, get, live) c
          | inr expired ↦ rw (e, get, expired) evicted
        ]
      ]

  write-IsConsistent :
      (clock : Clock) (room_id : Text) (envelope : CipherEnvelope) (ttl : ℕ)
      → IsConsistent (write clock s room_id envelope ttl).0
  unfolding write updated_record
  write-IsConsistent clock room_id envelope ttl = elim (Option-cases (lookup room_id s.rooms)) [
    | inl e ↦ rw (e, write) c
    | inr (entry, e) ↦
        elim (Bool-cases (envelope.version == (entry.room_record.content_version + 1) % 2 ^ 64)) [
          | inl next ↦
              rw (e, write, next)
                (rewrite-IsConsistent s c room_id entry _ e (c.keyed room_id entry e))
          | inr stale ↦ rw (e, write, stale) c
        ]
  ]

  pub update-IsConsistent :
      (clock : Clock) (room_id : Text) (envelope : CipherEnvelope) (ttl : ℕ)
      → IsConsistent (update clock s room_id envelope ttl).0
  unfolding update
  update-IsConsistent clock room_id envelope ttl =
      let evicted = remove_if_expired-IsConsistent room_id clock.now in
      let written = write-IsConsistent clock room_id envelope ttl in
      elim (Option-cases (lookup room_id s.rooms)) [
        | inl e ↦ rw (e, update) c
        | inr (entry, e) ↦ elim (Bool-cases (leb entry.expires_at clock.now)) [
          | inl expired ↦ rw (e, update, expired) evicted
          | inr live ↦ rw (e, update, live) written
        ]
      ]

-- One call of the trait's methods, and the store after it.
pub data Call (P L : Type 0) : Type 0 where
  creates : StoredRoom P → ℕ → Call P L
  gets gets_registration : Text → Call P L
  updates : Text → CipherEnvelope → ℕ → Call P L
  puts_login_state : Text → StoredOpaqueLoginState L → ℕ → Call P L
  takes_login_state : Text → Call P L
  puts_session : Text → StoredOpaqueSession → ℕ → Call P L
  gets_session deletes_session : Text → Call P L

module _ {P L : Type 0} where
  unfoldable pub step : MemoryRoomStore P L → Clock × Call P L → MemoryRoomStore P L
  step s (clock, creates room ttl) = (create clock s room ttl).0
  step s (clock, gets room_id) = (get clock s room_id).0
  step s (clock, gets_registration room_id) = (get_registration clock s room_id).0
  step s (clock, updates room_id envelope ttl) = (update clock s room_id envelope ttl).0
  step s (clock, puts_login_state key state ttl) = (put_login_state clock s key state ttl).0
  step s (clock, takes_login_state key) = (take_login_state clock s key).0
  step s (clock, puts_session key session ttl) = (put_session clock s key session ttl).0
  step s (clock, gets_session key) = (get_session clock s key).0
  step s (clock, deletes_session key) = (delete_session s key).0

  unfoldable pub run : MemoryRoomStore P L → List (Clock × Call P L) → MemoryRoomStore P L
  run s [] = s
  run s (call ∷ calls) = run (step s call) calls

  -- The parts of the store that the invariant is about.
  same_rooms :
      (s s' : MemoryRoomStore P L)
      → s'.rooms ≡ s.rooms
      → s'.allocator ≡ s.allocator
      → IsConsistent s
      → IsConsistent s'
  same_rooms s s' r a c = record {
    alloc = rw a c.alloc;
    keyed = λ k e h. c.keyed k e (rw r at h);
    exact = λ n id code h. rw (r, a) (c.exact n id code h);
  }

  pub step-IsConsistent :
      (s : MemoryRoomStore P L) (call : Clock × Call P L)
      → IsConsistent s
      → IsConsistent (step s call)
  unfolding step
  step-IsConsistent s (clock, creates room ttl) c = create-IsConsistent s c clock room ttl
  step-IsConsistent s (clock, gets room_id) c = get-IsConsistent s c clock room_id
  step-IsConsistent s (clock, gets_registration room_id) c =
      unfold get_registration in get-IsConsistent s c clock room_id
  step-IsConsistent s (clock, updates room_id envelope ttl) c =
      update-IsConsistent s c clock room_id envelope ttl
  step-IsConsistent s (clock, puts_login_state key state ttl) c =
      same_rooms s _ (unfold put_login_state in refl) (unfold put_login_state in refl) c
  step-IsConsistent s (clock, takes_login_state key) c =
      same_rooms s _ (unfold take_login_state in ground arith)
        (unfold take_login_state in ground arith) c
  step-IsConsistent s (clock, puts_session key session ttl) c =
      same_rooms s _ (unfold put_session in refl) (unfold put_session in refl) c
  step-IsConsistent s (clock, gets_session key) c =
      same_rooms s _ (unfold get_session in refl) (unfold get_session in refl) c
  step-IsConsistent s (clock, deletes_session key) c =
      same_rooms s _ (unfold delete_session in refl) (unfold delete_session in refl) c

  pub run-IsConsistent :
      (s : MemoryRoomStore P L) (calls : List (Clock × Call P L))
      → IsConsistent s
      → IsConsistent (run s calls)
  unfolding run
  run-IsConsistent s [] c = c
  run-IsConsistent s (call ∷ calls) c =
      run-IsConsistent (step s call) calls (step-IsConsistent s call c)

  pub new-IsConsistent : (s : MemoryRoomStore P L) → new ≡ some s → IsConsistent s
  unfolding new
  new-IsConsistent s h =
      let fresh : MemoryRoomStore P L = record {
        rooms = [];
        login_states = [];
        sessions = [];
        allocator = full_tiers;
      } in
      let same : fresh ≡ s = some_inj (rw (new-IsValid.0) at h) in
      rw (← same) (record {
        alloc = new-IsValid.1;
        keyed = λ code entry found. absurd (unfold lookup in cc);
        exact = λ n id code h.
            let (capacity, valid, inside) = encode_local_id_range n id code h in
            new-IsValid.2 n id ∙ unfold lookup in rw valid (ground arith);
      })

  -- Whatever calls of the trait's methods are made, at whatever clocks, on the store that `new`
  -- builds, every tier of the allocator stays in order, each room stands under the code of its id,
  -- and the free ids are exactly those without a stored room.
  pub run-new :
      (s : MemoryRoomStore P L) (calls : List (Clock × Call P L))
      → new ≡ some s
      → IsConsistent (run s calls)
  run-new s calls h = run-IsConsistent s calls (new-IsConsistent s h)
