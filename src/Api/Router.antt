-- ===== src/Api/Router.antt =====
-- src/api.rs: the routes of `api_router` with their handlers, and the two handlers of constants. A
-- request is what the router `axum` has matched and decoded; the state is shared by all requests.
pub mod Keepers
pub mod Refused
pub mod Guarded
use scpy.Prelude.{ℕ, ◌⊎◌, inl, inr, Option, Text, List, [], ◌∷◌, codes, Bool}
use scpy.Time.{Clock}
use scpy.Opaque.{Opaque}
use scpy.Protocol.{
  OpaqueRegistrationStartRequest, OpaqueRegistrationStartResponse, OpaqueLoginStartRequest,
  OpaqueLoginStartResponse, OpaqueLoginFinishRequest, OpaqueLoginFinishResponse, CreateRoomRequest,
  CreateRoomResponse, GetRoomResponse, UpdateClipboardRequest, UpdateClipboardResponse,
}
use scpy.Store.Trait.{RoomStore}
use scpy.Api.State
use scpy.Api.State.{Broadcast}
use scpy.Api.Handlers.{
  Handler, answer, register_start, login_start, login_finish, create_room, get_room,
  update_clipboard, room_events,
}

pub record HealthResponse : Type 0 where
  pub status : Text
  pub service : Text
  pub mode : Text

abbrev healthz : HealthResponse
healthz = record { status = codes "ok"; service = codes "scpy.app"; mode = codes "blind-sse-api" }

pub record ArchitectureResponse : Type 0 where
  pub brand : Text
  pub runtime : Text
  pub server : Text
  pub frontend : Text
  pub rendering_model : Text
  pub sync_transport : Text
  pub security_model : Text
  pub seo_mode : Text

abbrev architecture : ArchitectureResponse
architecture = record {
  brand = codes "scpy.app";
  runtime = codes "tokio";
  server = codes "axum";
  frontend = codes "leptos";
  rendering_model = codes "ssr-plus-hydrate";
  sync_transport = codes "server-sent-events";
  security_model = codes "e2ee-zero-knowledge-v1-plus-opaque";
  seo_mode = codes "public-ssr-private-noindex";
}

-- The routes with their paths' and bodies' parts, in the order of `api_router`.
pub data Request (o : Opaque) : Type 0 where
  get_healthz get_architecture : Request o
  post_register_start : OpaqueRegistrationStartRequest o → Request o
  post_login_start : OpaqueLoginStartRequest o → Request o
  post_login_finish : OpaqueLoginFinishRequest o → Request o
  post_rooms : CreateRoomRequest o → Request o
  get_rooms : Text → Request o
  post_clipboard : Text → UpdateClipboardRequest → Request o
  get_events : Text → Request o

pub data Response (o : Opaque) (Receiver : Type 0) : Type 0 where
  of_healthz : HealthResponse → Response o Receiver
  of_architecture : ArchitectureResponse → Response o Receiver
  of_register_start : OpaqueRegistrationStartResponse o → Response o Receiver
  of_login_start : OpaqueLoginStartResponse o → Response o Receiver
  of_login_finish : OpaqueLoginFinishResponse × Text → Response o Receiver
  of_rooms : ℕ × CreateRoomResponse → Response o Receiver
  of_room : GetRoomResponse → Response o Receiver
  of_clipboard : UpdateClipboardResponse → Response o Receiver
  of_events : Receiver → Response o Receiver

-- What a handler has besides its route: the cookie header, the clock at its first and at its second
-- call of the store, and the bytes it draws.
pub record Arrival : Type 0 where
  pub cookies : Option Text
  pub first : Clock
  pub second : Clock
  pub random : List ℕ
  pub token_bytes : List ℕ

abbrev pub respond_as : {A X Y : Type 0} → (X → Y) → A × (ℕ ⊎ X) → A × (ℕ ⊎ Y)
respond_as f (a, inl status) = (a, inl status)
respond_as f (a, inr x) = (a, inr (f x))

module _ (o : Opaque) {S Sender Receiver : Type 0}
    (rooms : RoomStore o.PasswordFile o.ServerLogin S) (broadcast : Broadcast Sender Receiver)
    (is_header_value : Text → Bool) where
  -- `api_router`: the handler of a route.
  unfoldable pub respond :
      Request o → Arrival → Handler (State.State o rooms broadcast) (Response o Receiver)
  respond get_healthz t a = answer (of_healthz healthz) a
  respond get_architecture t a = answer (of_architecture architecture) a
  respond (post_register_start request) t a =
      respond_as of_register_start (register_start o rooms broadcast t.random request a)
  respond (post_login_start request) t a =
      respond_as of_login_start
        (login_start o rooms broadcast t.first t.second t.random t.token_bytes request a)
  respond (post_login_finish request) t a =
      respond_as of_login_finish
        (login_finish o rooms broadcast is_header_value t.first t.second t.token_bytes request a)
  respond (post_rooms request) t a =
      respond_as of_rooms (create_room o rooms broadcast t.first request a)
  respond (get_rooms room_id) t a =
      respond_as of_room (get_room o rooms broadcast t.first t.second t.cookies room_id a)
  respond (post_clipboard room_id request) t a =
      respond_as of_clipboard
        (update_clipboard o rooms broadcast t.first t.second t.cookies room_id request a)
  respond (get_events room_id) t a =
      respond_as of_events (room_events o rooms broadcast t.first t.second t.cookies room_id a)

  -- The state after requests that are served one after another.
  unfoldable pub serve :
      List (Request o × Arrival) → State.State o rooms broadcast → State.State o rooms broadcast
  serve [] a = a
  serve ((request, t) ∷ requests) a = serve requests (respond request t a).0
