-- ===== src/Api/Router/Guarded.antt =====
-- src/api.rs: what the requests of the API do to the rooms of a server over the memory store.
use scpy.Prelude.{
  ℕ, ◌≤◌, ◌≡◌, refl, subst, false, ◌⊎◌, inl, inr, some, some_inj, Bool, Bool-cases, Option-cases,
  Text, text_eq, text_eq_iff, List, [], ◌∷◌, ◌==◌, arith,
}
use scpy.Time.{Clock}
use scpy.Opaque.{Opaque}
use scpy.Protocol.{UpdateClipboardRequest}
use scpy.Store.Types.{StoredRoomRecord}
use scpy.Store.Memory
use scpy.Store.Memory.{MemoryRoomStore}
use scpy.Store.Memory.Invariant.{IsConsistent}
use scpy.Store.Memory.Steps.{Call, step, step-IsConsistent, new-IsConsistent}
use scpy.Store.Memory.Others.{MayCall, Keeps, step-Keeps}
use scpy.Store.Memory.Instance.{memory, memory-IsLawful}
use scpy.Store.Memory.Values.{room_at}
use scpy.Api.State
use scpy.Api.State.{Broadcast, AppState, over_memory}
use scpy.Api.Handlers.{
  register_start, login_start, login_finish, create_room, get_room, update_clipboard, room_events,
  authorized,
}
use scpy.Api.Handlers.Guards.{has_session, is_authorized-has_session}
use scpy.Api.Router.{
  Request, get_healthz, get_architecture, post_register_start, post_login_start, post_login_finish,
  post_rooms, get_rooms, post_clipboard, get_events, Arrival, respond_as, respond, serve,
}
use scpy.Api.Router.Keepers.{
  register_start-IsKeeper, create_room-IsKeeper, is_authorized-IsKeeper, login_start-IsKeeper,
  login_finish-IsKeeper, get_room-IsKeeper, room_events-IsKeeper, update_clipboard-IsKeeper,
}

respond_as_state : {A X Y : Type 0} (f : X → Y) (p : A × (ℕ ⊎ X)) → (respond_as f p).0 ≡ p.0
respond_as_state f (a, inl status) = refl
respond_as_state f (a, inr x) = refl

module _ (o : Opaque) {Sender Receiver : Type 0} (broadcast : Broadcast Sender Receiver)
    (is_header_value : Text → Bool) where
  abbrev Store : Type 0
  Store = MemoryRoomStore o.PasswordFile o.ServerLogin

  abbrev Server : Type 0
  Server = AppState o.ServerSetup Store Sender

  module _ (IsTimely : Clock → Type 0) (may_update : Text → Type 0) (Keeping : Store → Type 0)
      (step-Keeping : (s : Store) (call : Clock × Call o.PasswordFile o.ServerLogin)
        → IsTimely call.0
        → MayCall may_update call.1
        → Keeping s
        → Keeping (step s call))
      (t : Arrival) (is_first : IsTimely t.first) (is_second : IsTimely t.second) where
    -- What the store's calls keep, a request keeps whose update, if it is one, keeps it.
    respond-IsKeeper :
        (request : Request o) (a : Server)
        → ((room_id : Text) (update : UpdateClipboardRequest)
            → request ≡ post_clipboard room_id update
            → Keeping
                (update_clipboard o memory broadcast t.first t.second t.cookies room_id update
                  a).0.store)
        → Keeping a.store
        → Keeping (respond o memory broadcast is_header_value request t a).0.store
    unfolding respond
    respond-IsKeeper get_healthz a updates h = h
    respond-IsKeeper get_architecture a updates h = h
    respond-IsKeeper (post_register_start request) a updates h =
        let kept : Keeping (register_start o memory broadcast t.random request a).0.store =
          register_start-IsKeeper o broadcast IsTimely may_update Keeping step-Keeping t.random
            request a h in
        grind arith
    respond-IsKeeper (post_login_start request) a updates h =
        let kept : Keeping
            (login_start o memory broadcast t.first t.second t.random t.token_bytes request
              a).0.store =
          login_start-IsKeeper o broadcast IsTimely may_update Keeping step-Keeping t.first t.second
            is_first is_second t.random t.token_bytes request a h in
        grind arith
    respond-IsKeeper (post_login_finish request) a updates h =
        let kept : Keeping
            (login_finish o memory broadcast is_header_value t.first t.second t.token_bytes request
              a).0.store =
          login_finish-IsKeeper o broadcast IsTimely may_update Keeping step-Keeping t.first
            t.second is_first is_second is_header_value t.token_bytes request a h in
        grind arith
    respond-IsKeeper (post_rooms request) a updates h =
        let kept : Keeping (create_room o memory broadcast t.first request a).0.store =
          create_room-IsKeeper o broadcast IsTimely may_update Keeping step-Keeping t.first request
            is_first a h in
        grind arith
    respond-IsKeeper (get_rooms room_id) a updates h =
        let kept : Keeping
            (get_room o memory broadcast t.first t.second t.cookies room_id a).0.store =
          get_room-IsKeeper o broadcast IsTimely may_update Keeping step-Keeping t.first t.second
            is_first is_second t.cookies room_id a h in
        grind arith
    respond-IsKeeper (post_clipboard room_id request) a updates h =
        let kept : Keeping
            (update_clipboard o memory broadcast t.first t.second t.cookies room_id request
              a).0.store =
          updates room_id request refl in
        grind arith
    respond-IsKeeper (get_events room_id) a updates h =
        let kept : Keeping
            (room_events o memory broadcast t.first t.second t.cookies room_id a).0.store =
          room_events-IsKeeper o broadcast IsTimely may_update Keeping step-Keeping t.first t.second
            is_first is_second t.cookies room_id a h in
        grind arith

  -- Any update keeps the store consistent.
  serve-IsConsistent :
      (requests : List (Request o × Arrival)) (a : Server)
      → IsConsistent a.store
      → IsConsistent (serve o memory broadcast is_header_value requests a).store
  unfolding serve
  serve-IsConsistent [] a c = c
  serve-IsConsistent ((request, t) ∷ requests) a c =
      let always : Clock → Type 0 = λ clock. Unit in
      let any : Text → Type 0 = λ room_id. Unit in
      let keeps : (s : Store) (call : Clock × Call o.PasswordFile o.ServerLogin)
          → Unit
          → MayCall any call.1
          → IsConsistent s
          → IsConsistent (step s call) =
        λ s call timely may c. step-IsConsistent s call c in
      serve-IsConsistent requests _ (
        respond-IsKeeper always any IsConsistent keeps t tt tt request a
          (λ room_id update e.
            update_clipboard-IsKeeper o broadcast always any IsConsistent keeps t.first t.second tt
              tt t.cookies room_id update tt a c)
          c)

  over_memory-IsConsistent :
      (setup : o.ServerSetup) (room_ttl : ℕ) (a : Server)
      → over_memory setup room_ttl ≡ some a
      → IsConsistent a.store
  unfolding over_memory State.new
  over_memory-IsConsistent setup room_ttl a h =
      elim (Option-cases (Memory.new {P = o.PasswordFile} {L = o.ServerLogin})) [
        | inl e ↦ absurd (let none_made = rw (over_memory, e) at h in cc)
        | inr (s, e) ↦
            let same : State.new s setup room_ttl State.default_login_ttl State.default_session_ttl
                ≡ a =
              some_inj (rw (over_memory, e) at h) in
            subst (λ (b : Server). IsConsistent b.store) same (new-IsConsistent s e)
      ]

  module _ (k : Text) (now : ℕ) (before : Store) where
    abbrev IsPast : Clock → Type 0
    IsPast clock = clock.now ≤ now

    abbrev IsOtherRoom : Text → Type 0
    IsOtherRoom room_id = text_eq room_id k ≡ false

    -- Without a session of the room the handler of its updates leaves it.
    update_clipboard-Keeps :
        (t : Arrival) (first_past : t.first.now ≤ now) (second_past : t.second.now ≤ now)
        (room_id : Text) (request : UpdateClipboardRequest) (a : Server)
        → has_session o memory broadcast memory-IsLawful a.store t.first.now t.cookies k ≡ false
        → Keeps k now before a.store
        → Keeps k now before
            (update_clipboard o memory broadcast t.first t.second t.cookies room_id request
              a).0.store
    unfolding update_clipboard authorized
    update_clipboard-Keeps t first_past second_past room_id request a no_session h =
        elim (Bool-cases (text_eq room_id k)) [
          | inr other ↦
              update_clipboard-IsKeeper o broadcast IsPast IsOtherRoom (Keeps k now before)
                (step-Keeps k now before) t.first t.second first_past second_past t.cookies room_id
                request other a h
          | inl here ↦
              let same = (text_eq_iff room_id k).0 here in
              let answers =
                (is_authorized-has_session o memory broadcast memory-IsLawful t.first t.cookies k
                  a).0 in
              let guarded =
                is_authorized-IsKeeper o broadcast IsPast IsOtherRoom (Keeps k now before)
                  (step-Keeps k now before) t.first t.cookies k first_past a h in
              elim (Bool-cases (request.envelope.version == 0)) [
                | inl zero ↦ rw zero h
                | inr positive ↦ rw (positive, same, answers, no_session) guarded
              ]
        ]

  -- Whatever requests a server over the memory store has served one after another since its start,
  -- a request whose cookies name no live session of a room leaves a room that a reader would find
  -- under that id at a time no earlier than the request's clocks as it is, whatever route it takes.
  pub respond-serve :
      (setup : o.ServerSetup) (room_ttl : ℕ) (start : Server)
      → over_memory setup room_ttl ≡ some start
      → (requests : List (Request o × Arrival))
      → let a = serve o memory broadcast is_header_value requests start in
        (request : Request o) (t : Arrival) (k : Text)
        → has_session o memory broadcast memory-IsLawful a.store t.first.now t.cookies k ≡ false
        → (now : ℕ) → t.first.now ≤ now
        → t.second.now ≤ now
        → (r : StoredRoomRecord o.PasswordFile) → room_at a.store now k ≡ some r
        → room_at (respond o memory broadcast is_header_value request t a).0.store now k ≡ some r
  respond-serve setup room_ttl start h requests request t k no_session now first_past second_past =
      let a = serve o memory broadcast is_header_value requests start in
      let here : Keeps k now a.store a.store = record {
        consistent =
            serve-IsConsistent requests start (over_memory-IsConsistent setup room_ttl start h);
        kept = λ r found. found;
      } in
      (respond-IsKeeper (IsPast k now a.store) (IsOtherRoom k now a.store) (Keeps k now a.store)
        (step-Keeps k now a.store) t first_past second_past request a
        (λ room_id update e.
          update_clipboard-Keeps k now a.store t first_past second_past room_id update a no_session
            here)
        here).kept
