-- ===== src/Store/Memory/Others.antt =====
-- What a call of a method leaves of the rooms that it is not an update of.
use scpy.Prelude.{
  ℕ, ◌≤◌, ◌+◌, ◌%◌, ◌^◌, ◌≡◌, refl, false, ◌∙◌, inl, inr, arith, leb, ◌==◌, some, Bool-cases,
  Option-cases, Text, text_eq, text_eq_iff,
}
use scpy.HashMap.{lookup}
use scpy.HashMap.Laws.{lookup-insert, lookup-remove}
use scpy.Time.{Clock}
use scpy.Crypto.{CipherEnvelope}
use scpy.Store.Types.{StoredRoom, StoredRoomRecord, Result}
use scpy.Store.Memory.{
  MemoryRoomStore, remove_if_expired, get_registration, write, update, put_login_state,
  take_login_state, put_session, get_session, delete_session,
}
use scpy.Store.Memory.Invariant.{IsConsistent}
use scpy.Store.Memory.Rooms.{Created, stored, refused, create-Created}
use scpy.Store.Memory.Steps.{
  Call, creates, gets, gets_registration, updates, puts_login_state, takes_login_state,
  puts_session, gets_session, deletes_session, step, step-IsConsistent,
}
use scpy.Store.Memory.Values.{room_at, get-room_at}

module _ {P L : Type 0} (clock : Clock) (s : MemoryRoomStore P L) (room_id k : Text)
    (other : text_eq room_id k ≡ false) where
  remove_if_expired-other :
      (now : ℕ) → lookup k (remove_if_expired s room_id now).0.rooms ≡ lookup k s.rooms
  unfolding remove_if_expired
  remove_if_expired-other now = elim (Option-cases (lookup room_id s.rooms)) [
    | inl e ↦ rw (e, remove_if_expired) refl
    | inr (entry, e) ↦ elim (Bool-cases (leb entry.expires_at now)) [
      | inl expired ↦
          rw (e, remove_if_expired, expired, lookup-remove room_id k s.rooms, other) refl
      | inr live ↦ rw (e, remove_if_expired, live) refl
    ]
  ]

  write-other :
      (envelope : CipherEnvelope) (ttl : ℕ)
      → lookup k (write clock s room_id envelope ttl).0.rooms ≡ lookup k s.rooms
  unfolding write
  write-other envelope ttl = elim (Option-cases (lookup room_id s.rooms)) [
    | inl e ↦ rw (e, write) refl
    | inr (entry, e) ↦
        elim (Bool-cases (envelope.version == (entry.room_record.content_version + 1) % 2 ^ 64)) [
          | inl next ↦ rw (e, write, next, lookup-insert room_id k _ s.rooms, other) refl
          | inr stale ↦ rw (e, write, stale) refl
        ]
  ]

  update-other :
      (envelope : CipherEnvelope) (ttl : ℕ)
      → lookup k (update clock s room_id envelope ttl).0.rooms ≡ lookup k s.rooms
  unfolding update
  update-other envelope ttl =
      let evicted = remove_if_expired-other clock.now in
      let written = write-other envelope ttl in
      elim (Option-cases (lookup room_id s.rooms)) [
        | inl e ↦ rw (e, update) refl
        | inr (entry, e) ↦ elim (Bool-cases (leb entry.expires_at clock.now)) [
          | inl expired ↦ rw (e, update, expired) evicted
          | inr live ↦ rw (e, update, live) written
        ]
      ]

-- A call that is no update of a room, or an update of one that may be updated.
abbrev pub MayCall : {P L : Type 0} → (Text → Type 0) → Call P L → Type 0
MayCall may_update (updates room_id envelope ttl) = may_update room_id
MayCall may_update _ = Unit

-- Not an update of a room.
abbrev IsOther : {P L : Type 0} → Text → Call P L → Type 0
IsOther k = MayCall (λ room_id. text_eq room_id k ≡ false)

-- A consistent store in which a reader of a room finds at a time what it finds in another store.
pub record Keeps {P L : Type 0} (k : Text) (now : ℕ) (before after : MemoryRoomStore P L)
    : Type 0 where
  pub consistent : IsConsistent after
  pub kept : (r : StoredRoomRecord P) → room_at before now k ≡ some r → room_at after now k ≡ some r

module _ {P L : Type 0} (k : Text) (now : ℕ) where
  Created-kept :
      (clock : Clock) (s : MemoryRoomStore P L) (room : StoredRoom P) (ttl : ℕ)
      {out : MemoryRoomStore P L × Result (StoredRoomRecord P)}
      → Created clock s room ttl out
      → (r : StoredRoomRecord P) → room_at s now k ≡ some r
      → room_at out.0 now k ≡ some r
  Created-kept clock s room ttl (refused none_free) r h = h
  Created-kept clock s room ttl (stored s' new same encoded vacant rooms rest) r h =
      elim (Bool-cases (text_eq new.room_id k)) [
        | inl here ↦
            let named = (text_eq_iff new.room_id k).0 here in
            absurd (let gone = rw named at vacant in let none_live = rw gone at h in cc)
        | inr there ↦ rw (rooms k, there) h
      ]

  step-kept :
      (s : MemoryRoomStore P L) (call : Clock × Call P L)
      → IsConsistent s
      → call.0.now ≤ now
      → IsOther k call.1
      → (r : StoredRoomRecord P) → room_at s now k ≡ some r
      → room_at (step s call) now k ≡ some r
  unfolding step
  step-kept s (clock, creates room ttl) c late other r h =
      Created-kept clock s room ttl (create-Created s c clock room ttl) r h
  step-kept s (clock, gets room_id) c late other r h =
      (get-room_at clock s room_id).1 now k late ∙ h
  step-kept s (clock, gets_registration room_id) c late other r h =
      unfold get_registration in (get-room_at clock s room_id).1 now k late ∙ h
  step-kept s (clock, updates room_id envelope ttl) c late other r h =
      rw (update-other clock s room_id k other envelope ttl) h
  step-kept s (clock, puts_login_state key state ttl) c late other r h = unfold put_login_state in h
  step-kept s (clock, takes_login_state key) c late other r h =
      unfold take_login_state in ground arith
  step-kept s (clock, puts_session key session ttl) c late other r h = unfold put_session in h
  step-kept s (clock, gets_session key) c late other r h = unfold get_session in h
  step-kept s (clock, deletes_session key) c late other r h = unfold delete_session in h

  -- A call that is not an update of the room keeps what a reader of it finds from the call's clock
  -- on, as long as that is a room.
  pub step-Keeps :
      (before s : MemoryRoomStore P L) (call : Clock × Call P L)
      → call.0.now ≤ now
      → IsOther k call.1
      → Keeps k now before s
      → Keeps k now before (step s call)
  step-Keeps before s call late other h = record {
    consistent = step-IsConsistent s call h.consistent;
    kept = λ r found. step-kept s call h.consistent late other r (h.kept r found);
  }
