-- ===== src/Pages/Room/Invariant.antt =====
-- The signals of `RoomPage` that belong together: the key, the lock and the stream.
use scpy.Prelude.{
  ℕ, ◌≡◌, ◌||◌, not, refl, Bool, true, false, Option, none, some, List, [], ◌∷◌, Text, ◌⊎◌, inl,
  inr, if◌then◌else◌, Bool-cases, Option-cases,
}
use scpy.Protocol.{ClipboardEvent}
use scpy.Crypto.{Primitives}
use scpy.Pages.Room.{
  RoomPage, opened, close_room_stream, lock, unlock_room, Unlocked, StreamSetup, connected,
  no_connection, no_listener, attach_room_stream, unlock_finished, save_update, save_finished,
  read_event, received, on_clipboard, on_error, PageEvent, password_typed, clipboard_typed,
  unlock_clicked, save_clicked, stream_error, unlock_ended, save_ended, clipboard_received, step,
  run,
}

abbrev pub is_some : Option Text → Bool
is_some none = false
is_some (some text) = true

-- The page is unlocked when it has a key, and a stream that is open decrypts with that key.
pub record IsPage (page : RoomPage) : Type 0 where
  pub lock_lem : page.unlocked ≡ is_some page.room_key
  pub stream_lem : (key : Text) → page.stream ≡ some key → page.room_key ≡ some key

-- A page with the same key, lock and stream.
record IsSamePage (page page' : RoomPage) : Type 0 where
  key : page'.room_key ≡ page.room_key
  unlocked : page'.unlocked ≡ page.unlocked
  stream : page'.stream ≡ page.stream

IsPage-IsSamePage : {page page' : RoomPage} → IsSamePage page page' → IsPage page → IsPage page'
IsPage-IsSamePage s i = record {
  lock_lem = rw (s.unlocked, s.key) i.lock_lem;
  stream_lem = λ key h. rw s.key (i.stream_lem key (rw s.stream at h));
}

lock-IsPage : (status : Text) (page : RoomPage) → IsPage (lock status page)
unfolding lock close_room_stream
lock-IsPage status page = record { lock_lem = refl; stream_lem = λ key h. absurd (cc) }

unlock_room-IsPage : (page : RoomPage) → IsPage page → IsPage (unlock_room page)
unfolding unlock_room
unlock_room-IsPage page i = elim (Bool-cases (scpy.Crypto.blank_from [] page.password)) [
  | inl e ↦ rw (unlock_room, e) (lock-IsPage _ page)
  | inr e ↦
      rw (unlock_room, e)
        (IsPage-IsSamePage (record { key = refl; unlocked = refl; stream = refl }) i)
]

unlock_finished-IsPage :
    (setup : StreamSetup) (result : Text ⊎ Unlocked) (page : RoomPage)
    → IsPage (unlock_finished setup result page)
unfolding unlock_finished attach_room_stream lock close_room_stream
unlock_finished-IsPage setup (inl error) page = record {
  lock_lem = refl;
  stream_lem = λ key h. absurd (cc);
}
unlock_finished-IsPage connected (inr opens) page = record {
  lock_lem = refl;
  stream_lem = λ key h. h;
}
unlock_finished-IsPage (no_connection error) (inr opens) page = record {
  lock_lem = refl;
  stream_lem = λ key h. absurd (cc);
}
unlock_finished-IsPage (no_listener error) (inr opens) page = record {
  lock_lem = refl;
  stream_lem = λ key h. absurd (cc);
}

save_update-IsSamePage : (page : RoomPage) → IsSamePage page (save_update page).0
unfolding save_update
save_update-IsSamePage page = elim (Option-cases page.room_key) [
  | inl e ↦ rw (save_update, e) (record { key = e; unlocked = refl; stream = refl })
  | inr (key, e) ↦ rw (save_update, e) (record { key = e; unlocked = refl; stream = refl })
]

received-IsSamePage :
    (result : Text ⊎ (Text × ℕ)) (page : RoomPage) → IsSamePage page (received result page)
received-IsSamePage (inl error) page = record { key = refl; unlocked = refl; stream = refl }
received-IsSamePage (inr (decrypted, version)) page = record {
  key = refl;
  unlocked = refl;
  stream = refl;
}

on_clipboard-IsSamePage :
    (p : Primitives) (key : Text) (payload : Option (Text ⊎ ClipboardEvent)) (page : RoomPage)
    → IsSamePage page (on_clipboard p key payload page)
unfolding on_clipboard
on_clipboard-IsSamePage p key none page = record { key = refl; unlocked = refl; stream = refl }
on_clipboard-IsSamePage p key (some payload) page =
    received-IsSamePage (read_event p key payload) page

-- An event of a stream that may be closed.
stream_step :
    (page : RoomPage) (next : Text → RoomPage)
    → IsPage page
    → ((key : Text) → IsSamePage page (next key))
    → (stream : Option Text) → IsPage (elim stream [ none ↦ page | some key ↦ next key ])
stream_step page next i s none = i
stream_step page next i s (some key) = IsPage-IsSamePage (s key) i

either-IsPage :
    (b : Bool) (page page' : RoomPage)
    → IsPage page
    → IsPage page'
    → IsPage (if b then page else page')
either-IsPage true page page' i i' = i
either-IsPage false page page' i i' = i'

module _ (p : Primitives) where
  pub step-IsPage : (page : RoomPage) (event : PageEvent) → IsPage page → IsPage (step p page event)
  unfolding step save_finished on_error
  step-IsPage page (password_typed text) i =
      IsPage-IsSamePage (record { key = refl; unlocked = refl; stream = refl }) i
  step-IsPage page (clipboard_typed text) i =
      IsPage-IsSamePage (record { key = refl; unlocked = refl; stream = refl }) i
  step-IsPage page unlock_clicked i =
      either-IsPage page.loading page (unlock_room page) i (unlock_room-IsPage page i)
  step-IsPage page save_clicked i =
      either-IsPage (not page.unlocked || page.saving) page (save_update page).0 i
        (IsPage-IsSamePage (save_update-IsSamePage page) i)
  step-IsPage page stream_error i =
      stream_step page (λ key. on_error page) i
        (λ key. record { key = refl; unlocked = refl; stream = refl }) page.stream
  step-IsPage page (unlock_ended setup result) i = unlock_finished-IsPage setup result page
  step-IsPage page (save_ended (inl error)) i =
      IsPage-IsSamePage (record { key = refl; unlocked = refl; stream = refl }) i
  step-IsPage page (save_ended (inr response)) i =
      IsPage-IsSamePage (record { key = refl; unlocked = refl; stream = refl }) i
  step-IsPage page (clipboard_received payload) i =
      stream_step page (λ key. on_clipboard p key payload page) i
        (λ key. on_clipboard-IsSamePage p key payload page) page.stream

  run-IsPage_from :
      (page : RoomPage) (events : List PageEvent) → IsPage page → IsPage (run p page events)
  unfolding run
  run-IsPage_from page [] i = i
  run-IsPage_from page (event ∷ rest) i =
      run-IsPage_from (step p page event) rest (step-IsPage page event i)

  -- Whatever happens to a page from its start on, it is unlocked exactly while it has a key, and a
  -- stream that is open decrypts with the page's key.
  pub run-IsPage : (events : List PageEvent) → IsPage (run p opened events)
  run-IsPage events =
      run-IsPage_from opened events (record { lock_lem = refl; stream_lem = λ key h. absurd (cc) })
