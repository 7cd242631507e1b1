-- ===== src/Crypto/RoundTrip.antt =====
-- crates/scpy-crypto/src/lib.rs: what is encrypted is decrypted, and the password of a room unlocks
-- the key that the room was created with.
use scpy.Prelude.{
  ℕ, ◌≡◌, refl, sym, ap, true, ◌⊎◌, inl, inr, Option, none, some, [], Text, ◌==◌, arith, length,
}
use mathlib.Core.Sum.{inr-injective}
use scpy.Crypto.{
  CryptoError, authentication_failed, KdfParams, RoomMeta, CipherEnvelope, CreatedRoom, Primitives,
  Draws, ◌>>=◌, or_error, is_utf8, to_be_bytes, room_key_len, nonce_len, salt_len, wrap_key,
  create_room, unlock_room_key, encrypt_clipboard, decrypt_clipboard, decode_fixed, ensure_password,
  validate_schema, random_array, derive_wrapping_key,
}

-- What the libraries document: decoding undoes encoding, and decryption undoes encryption.
pub record IsSound (p : Primitives) : Type 0 where
  pub decode-encode : (bytes : Text) → p.decode (p.encode bytes) ≡ some bytes
  pub decrypt-encrypt :
      (key nonce associated message ciphertext : Text)
      → p.encrypt key nonce associated message ≡ some ciphertext
      → p.decrypt key nonce associated ciphertext ≡ some message

-- The generator fills the array that it is given.
abbrev pub HasLength : ℕ → Option Text → Type 0
HasLength n drawn = (bytes : Text) → drawn ≡ some bytes → length bytes ≡ n

inr_inj : {A : Type 0} {a b : A} → Path (CryptoError ⊎ A) (inr a) (inr b) → a ≡ b
inr_inj e = inr-injective _ _ e

bind_inv :
    {A B : Type 0} (m : CryptoError ⊎ A) (f : A → CryptoError ⊎ B) (b : B)
    → (m >>= f) ≡ inr b
    → (a : A) × (m ≡ inr a) × (f a ≡ inr b)
bind_inv (inl e) f b h = absurd (cc)
bind_inv (inr a) f b h = (a, refl, h)

or_error_inv :
    {A : Type 0} (e : CryptoError) (o : Option A) (a : A) → or_error e o ≡ inr a → o ≡ some a
or_error_inv e none a h = absurd (cc)
or_error_inv e (some b) a h = ap some (inr_inj h)

module _ (p : Primitives) (sound : IsSound p) where
  decode_fixed-encode :
      (n : ℕ) (bytes : Text) → length bytes ≡ n → decode_fixed p n (p.encode bytes) ≡ inr bytes
  unfolding decode_fixed
  decode_fixed-encode n bytes h =
      let exact : (length bytes == n) ≡ true = ground arith in
      rw (sound.decode-encode bytes, exact) refl

  -- With ciphers and an encoding that are undone by their inverses, and a nonce drawn at its
  -- length, an envelope that `encrypt_clipboard` made of UTF-8 text has the version given and
  -- decrypts under the same key to that text.
  pub decrypt-encrypt_clipboard :
      (drawn : Option Text) (room_key plaintext : Text) (version : ℕ) (envelope : CipherEnvelope)
      → HasLength nonce_len drawn
      → is_utf8 plaintext ≡ true
      → encrypt_clipboard p drawn room_key plaintext version ≡ inr envelope
      → (decrypt_clipboard p room_key envelope ≡ inr plaintext) × (envelope.version ≡ version)
  unfolding encrypt_clipboard
  decrypt-encrypt_clipboard drawn room_key plaintext version envelope fits valid h =
      let (nonce, drew, h') = bind_inv (random_array p drawn) _ envelope h in
      let (ciphertext, made, h'') = bind_inv (or_error authentication_failed _) _ envelope h' in
      let same = inr_inj h'' in
      let back =
        sound.decrypt-encrypt room_key nonce (to_be_bytes version) plaintext ciphertext
          (or_error_inv _ _ ciphertext made) in
      let nonce_back =
        decode_fixed-encode nonce_len nonce (fits nonce (or_error_inv _ drawn nonce drew)) in
      (
        rw (← same) (
            unfold decrypt_clipboard in
            rw (nonce_back, sound.decode-encode ciphertext, back, valid) refl),
        ap (λ (e : CipherEnvelope). e.version) (sym same),
      )

  unlock_room_key-wrap_key :
      (password salt wrap_nonce room_key : Text) (kdf : KdfParams) (meta : RoomMeta)
      → length salt ≡ salt_len
      → length wrap_nonce ≡ nonce_len
      → length room_key ≡ room_key_len
      → ensure_password password ≡ inr tt
      → wrap_key p password salt wrap_nonce room_key kdf ≡ inr meta
      → unlock_room_key p password meta ≡ inr room_key
  unfolding wrap_key
  unlock_room_key-wrap_key password salt wrap_nonce room_key kdf meta s n k valid h =
      let (wrapping_key, derived, h') =
        bind_inv (derive_wrapping_key p password salt kdf) _ meta h in
      let (wrapped, made, h'') = bind_inv (or_error authentication_failed _) _ meta h' in
      let same = inr_inj h'' in
      let back =
        sound.decrypt-encrypt wrapping_key wrap_nonce [] room_key wrapped
          (or_error_inv _ _ wrapped made) in
      let exact : (length room_key == room_key_len) ≡ true = ground arith in
      rw (← same) (
        unfold unlock_room_key validate_schema in
        rw
          (
            valid,
            decode_fixed-encode salt_len salt s,
            decode_fixed-encode nonce_len wrap_nonce n,
            sound.decode-encode wrapped,
            derived,
            back,
            exact,
          )
          refl)

  -- With ciphers and an encoding that are undone by their inverses, and arrays drawn at their
  -- lengths, the password of a room that `create_room` made unlocks its key, that key decrypts its
  -- envelope to the text, if the text is UTF-8, and the envelope has version 1.
  pub unlock_room_key-create_room :
      (draws : Draws) (password plaintext : Text) (kdf : KdfParams) (room : CreatedRoom)
      → HasLength salt_len draws.salt
      → HasLength nonce_len draws.wrap_nonce
      → HasLength room_key_len draws.room_key
      → HasLength nonce_len draws.nonce
      → is_utf8 plaintext ≡ true
      → create_room p draws password plaintext kdf ≡ inr room
      → (unlock_room_key p password room.meta ≡ inr room.room_key)
        × (decrypt_clipboard p room.room_key room.envelope ≡ inr plaintext)
        × (room.envelope.version ≡ 1)
  unfolding create_room
  unlock_room_key-create_room draws password plaintext kdf room s w k n utf8 h =
      let (one, valid, h1) = bind_inv (ensure_password password) _ room h in
      let (salt, drew_salt, h2) = bind_inv (random_array p draws.salt) _ room h1 in
      let (wrap_nonce, drew_nonce, h3) = bind_inv (random_array p draws.wrap_nonce) _ room h2 in
      let (room_key, drew_key, h4) = bind_inv (random_array p draws.room_key) _ room h3 in
      let (meta, wrapped, h5) =
        bind_inv (wrap_key p password salt wrap_nonce room_key kdf) _ room h4 in
      let (envelope, encrypted, h6) =
        bind_inv (encrypt_clipboard p draws.nonce room_key plaintext 1) _ room h5 in
      let same = inr_inj h6 in
      let unlocked =
        unlock_room_key-wrap_key password salt wrap_nonce room_key kdf meta
          (s salt (or_error_inv _ draws.salt salt drew_salt))
          (w wrap_nonce (or_error_inv _ draws.wrap_nonce wrap_nonce drew_nonce))
          (k room_key (or_error_inv _ draws.room_key room_key drew_key)) valid wrapped in
      let read =
        decrypt-encrypt_clipboard draws.nonce room_key plaintext 1 envelope n utf8 encrypted in
      rw (← same) (unlocked, read.0, read.1)
