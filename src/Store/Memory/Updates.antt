-- ===== src/Store/Memory/Updates.antt =====
-- The optimistic versions of the memory store: which updates go through, and what is read after them.
use scpy.Prelude.{
  ℕ, ◌+◌, ◌%◌, ◌^◌, ◌<◌, ◌≡◌, refl, ap, subst, ◌∙◌, ◌≢◌, inl, inr, true, false, arith, ◌==◌, leb,
  Option, none, some, Bool-cases, Option-cases, Text, text_eq, text_eq_refl, if◌then◌else◌,
}
use scpy.HashMap.{lookup, insert}
use scpy.HashMap.Laws.{lookup-insert}
use scpy.Time.{Clock, expires_after}
use scpy.Crypto.{CipherEnvelope}
use scpy.Store.Types.{StoredRoomRecord, StoreError, version_conflict, Result, ok, err, ok_some}
use scpy.Store.Memory.{
  ExpiringRoom, MemoryRoomStore, remove_if_expired, get, write, update, updated_record,
}
use scpy.Store.Memory.Rooms.{get_live}

abbrev next_version : ℕ → ℕ
next_version current = (current + 1) % 2 ^ 64

module _ {P L : Type 0} (s : MemoryRoomStore P L) (clock : Clock) (room_id : Text)
    (envelope : CipherEnvelope) (ttl : ℕ) where
  -- The room that a successful update wrote, and the one that it was before.
  pub record IsWritten (s' : MemoryRoomStore P L) (r : StoredRoomRecord P) : Type 0 where
    pub old : ExpiringRoom P
    pub was_stored : lookup room_id s.rooms ≡ some old
    pub was_live : clock.now < old.expires_at
    pub next : envelope.version ≡ next_version old.room_record.content_version
    pub result : r ≡ updated_record clock old.room_record envelope ttl
    pub now_stored :
        (k : Text)
        → lookup k s'.rooms ≡ (
            if text_eq room_id k
            then some (record { room_record = r; expires_at = expires_after clock ttl })
            else lookup k s.rooms)
    pub rest :
        (s'.sessions ≡ s.sessions)
        × (s'.login_states ≡ s.login_states)
        × (s'.allocator ≡ s.allocator)

  module _ (entry : ExpiringRoom P) (found : lookup room_id s.rooms ≡ some entry)
      (live : clock.now < entry.expires_at) where
    abbrev after : MemoryRoomStore P L
    after = record s {
      rooms =
          insert room_id
            (record {
              room_record = updated_record clock entry.room_record envelope ttl;
              expires_at = expires_after clock ttl;
            })
            s.rooms;
    }

    update_next :
        envelope.version ≡ next_version entry.room_record.content_version
        → update clock s room_id envelope ttl
          ≡ (after, ok (some (updated_record clock entry.room_record envelope ttl)))
    unfolding update write
    update_next h =
        let in_time : leb entry.expires_at clock.now ≡ false = ground arith in
        let same : (envelope.version == (entry.room_record.content_version + 1) % 2 ^ 64) ≡ true =
          ground arith in
        rw (found, update, in_time, found, write, same) refl

    update_stale :
        envelope.version ≢ next_version entry.room_record.content_version
        → update clock s room_id envelope ttl
          ≡ (s, err (version_conflict entry.room_record.content_version envelope.version))
    unfolding update write
    update_stale h =
        let in_time : leb entry.expires_at clock.now ≡ false = ground arith in
        let other : (envelope.version == (entry.room_record.content_version + 1) % 2 ^ 64) ≡ false =
          ground arith in
        rw (found, update, in_time, found, write, other) refl

  -- What a call of `update` can come to.
  data Updated : MemoryRoomStore P L × Result (Option (StoredRoomRecord P)) → Type 0 where
    nothing : (s' : MemoryRoomStore P L) → Updated (s', ok none)
    written :
        (s' : MemoryRoomStore P L) (r : StoredRoomRecord P)
        → IsWritten s' r
        → Updated (s', ok (some r))
    conflict :
        (entry : ExpiringRoom P)
        → lookup room_id s.rooms ≡ some entry
        → clock.now < entry.expires_at
        → envelope.version ≢ next_version entry.room_record.content_version
        → Updated (s, err (version_conflict entry.room_record.content_version envelope.version))

  update-Updated : Updated (update clock s room_id envelope ttl)
  update-Updated = elim (Option-cases (lookup room_id s.rooms)) [
    | inl e ↦
        let same : update clock s room_id envelope ttl ≡ (s, ok none) =
          unfold update in rw (e, update) refl in
        rw same (nothing s)
    | inr (entry, e) ↦ elim (Bool-cases (leb entry.expires_at clock.now)) [
      | inl expired ↦
          let s' = (remove_if_expired s room_id clock.now).0 in
          let same : update clock s room_id envelope ttl ≡ (s', ok none) =
            unfold update in rw (e, update, expired) refl in
          rw same (nothing s')
      | inr live ↦
          elim (Bool-cases (envelope.version == next_version entry.room_record.content_version)) [
            | inl next ↦ rw (update_next entry e (ground arith) (ground arith)) (
                written _ _ (record {
                  old = entry;
                  was_stored = e;
                  was_live = ground arith;
                  next = ground arith;
                  result = refl;
                  now_stored = λ k. lookup-insert room_id k _ s.rooms;
                  rest = (refl, refl, refl);
                }))
            | inr stale ↦
                rw (update_stale entry e (ground arith) (ground arith))
                  (conflict entry e (ground arith) (ground arith))
          ]
    ]
  ]

module _ {P L : Type 0} (s : MemoryRoomStore P L) (clock : Clock) (room_id : Text)
    (envelope : CipherEnvelope) (ttl : ℕ) where
  Updated-IsWritten :
      {out : MemoryRoomStore P L × Result (Option (StoredRoomRecord P))} (r : StoredRoomRecord P)
      → Updated s clock room_id envelope ttl out
      → out.1 ≡ ok (some r)
      → IsWritten s clock room_id envelope ttl out.0 r
  Updated-IsWritten r (nothing s') h = absurd (cc)
  Updated-IsWritten r (written s' r' w) h =
      subst (IsWritten s clock room_id envelope ttl s') (ok_some h) w
  Updated-IsWritten r (conflict entry e live stale) h = absurd (cc)

  -- An `update` that answers with a record replaced a live room whose version is one less in u64
  -- arithmetic, kept what the update does not write, and changed no other room, no session, no
  -- login state and no allocation.
  pub update-IsWritten :
      (r : StoredRoomRecord P)
      → (update clock s room_id envelope ttl).1 ≡ ok (some r)
      → IsWritten s clock room_id envelope ttl (update clock s room_id envelope ttl).0 r
  update-IsWritten r = Updated-IsWritten r (update-Updated s clock room_id envelope ttl)

  -- A conflict changes nothing, and tells the version that stands against the one attempted.
  abbrev pub Conflict : MemoryRoomStore P L → StoreError → Type 0
  Conflict s' e =
      (s' ≡ s)
      × ((entry : ExpiringRoom P) × (lookup room_id s.rooms ≡ some entry)
          × (e ≡ version_conflict entry.room_record.content_version envelope.version)
          × (envelope.version ≢ next_version entry.room_record.content_version))

  Updated-Conflict :
      {out : MemoryRoomStore P L × Result (Option (StoredRoomRecord P))} (e : StoreError)
      → Updated s clock room_id envelope ttl out
      → out.1 ≡ err e
      → Conflict out.0 e
  Updated-Conflict e (nothing s') h = absurd (cc)
  Updated-Conflict e (written s' r w) h = absurd (cc)
  Updated-Conflict e (conflict entry found live stale) h = (refl, (entry, found, cc, stale))

  -- An `update` that fails changes nothing, and its error is the conflict between the version of
  -- the stored room and the one attempted, which is not the next.
  pub update_fails :
      (e : StoreError)
      → (update clock s room_id envelope ttl).1 ≡ err e
      → Conflict (update clock s room_id envelope ttl).0 e
  update_fails e = Updated-Conflict e (update-Updated s clock room_id envelope ttl)

  module _ (r : StoredRoomRecord P)
      (done : (update clock s room_id envelope ttl).1 ≡ ok (some r)) where
    abbrev s' : MemoryRoomStore P L
    s' = (update clock s room_id envelope ttl).0

    abbrev new_entry : ExpiringRoom P
    new_entry = record { room_record = r; expires_at = expires_after clock ttl }

    found_after : lookup room_id s'.rooms ≡ some new_entry
    found_after = (update-IsWritten r done).now_stored room_id ∙ rw (text_eq_refl room_id) refl

    -- After an `update` that answered with a record, `get` answers with that record until the room
    -- expires; its envelope and its version are those of the update.
    pub get-update :
        (clock' : Clock)
        → clock'.now < expires_after clock ttl
        → (get clock' s' room_id ≡ (s', ok (some r)))
          × (r.envelope ≡ envelope)
          × (r.content_version ≡ envelope.version)
    get-update clock' live =
        let w = update-IsWritten r done in
        (
          get_live s' clock' room_id new_entry found_after live,
          ap (λ (x : StoredRoomRecord P). x.envelope) w.result ∙ unfold updated_record in refl,
          ap (λ (x : StoredRoomRecord P). x.content_version) w.result
              ∙ unfold updated_record in refl,
        )

    -- After an `update` that answered with a record, a second one with the same version, before the
    -- room expires, fails with a version conflict and changes nothing.
    pub update_once :
        (clock' : Clock) (other : CipherEnvelope) (ttl' : ℕ)
        → clock'.now < expires_after clock ttl
        → other.version ≡ envelope.version
        → update clock' s' room_id other ttl'
          ≡ (s', err (version_conflict envelope.version other.version))
    update_once clock' other ttl' live same =
        let version : r.content_version ≡ envelope.version = (get-update clock' live).2 in
        update_stale s' clock' room_id other ttl' new_entry found_after live
          (λ e. absurd (omega arith))
        ∙ rw version refl
