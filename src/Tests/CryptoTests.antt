-- ===== src/Tests/CryptoTests.antt =====
-- crates/scpy-crypto/src/lib.rs: rooms created and unlocked, over the simplest ciphers.
use scpy.Prelude.{
  ℕ, ◌≡◌, refl, sym, some_inj, length, Option, none, some, Text, [], ◌∷◌, ◌++◌, inl, inr, codes,
  true, false,
}
use scpy.Crypto.{
  KdfParams, CipherEnvelope, RoomMeta, CreatedRoom, Primitives, Draws, empty_password, is_utf8,
  ensure_password, create_room, unlock_room_key, encrypt_clipboard, decrypt_clipboard,
}
use scpy.Crypto.RoundTrip.{IsSound, HasLength}
use scpy.Tests.StoreTests.{room_meta}

-- Ciphers that leave the message as it is.
abbrev pub plain : Primitives
plain = record {
  hash_password = λ kdf password salt. some password;
  encrypt = λ key nonce associated message. some message;
  decrypt = λ key nonce associated ciphertext. some ciphertext;
  encode = λ bytes. bytes;
  decode = λ text. some text;
}

pub plain-IsSound : IsSound plain
plain-IsSound = record {
  decode-encode = λ bytes. refl;
  decrypt-encrypt = λ key nonce associated message ciphertext e. sym e;
}

abbrev pub eight : Text
eight = codes "12345678"

abbrev pub draws : Draws
draws = record {
  salt = some (eight ++ eight);
  wrap_nonce = some (eight ++ (eight ++ eight));
  room_key = some (eight ++ (eight ++ (eight ++ eight)));
  nonce = some (eight ++ (eight ++ eight));
}

abbrev pub created : CreatedRoom
created = record {
  meta = record {
    schema_version = 1;
    kdf = room_meta.kdf;
    kdf_salt_b64 = eight ++ eight;
    wrapped_room_key_nonce_b64 = eight ++ (eight ++ eight);
    wrapped_room_key_b64 = eight ++ (eight ++ (eight ++ eight));
  };
  envelope = record {
    version = 1;
    nonce_b64 = eight ++ (eight ++ eight);
    ciphertext_b64 = codes "note";
  };
  room_key = eight ++ (eight ++ (eight ++ eight));
}

created_lem : create_room plain draws (codes "secret") (codes "note") room_meta.kdf ≡ inr created
unfolding create_room ensure_password scpy.Crypto.blank_from scpy.Crypto.is_whitespace
    scpy.Prelude.text_eq scpy.Crypto.wrap_key encrypt_clipboard
created_lem = refl

-- A no-break space is white space, and a surrogate is no character.
blank_password : ensure_password (32 ∷ 194 ∷ 160 ∷ []) ≡ inl empty_password
unfolding ensure_password scpy.Crypto.blank_from scpy.Crypto.is_whitespace scpy.Prelude.text_eq
blank_password = refl

surrogate : is_utf8 (237 ∷ 160 ∷ 128 ∷ []) ≡ false
unfolding scpy.Crypto.utf8_from scpy.Crypto.utf8_step scpy.Crypto.first_byte
surrogate = refl

pub note_utf8 : is_utf8 (codes "note") ≡ true
unfolding scpy.Crypto.utf8_from scpy.Crypto.utf8_step scpy.Crypto.first_byte
note_utf8 = refl

encrypted_lem :
    encrypt_clipboard plain draws.nonce created.room_key (codes "note") 1 ≡ inr created.envelope
unfolding encrypt_clipboard
encrypted_lem = refl

fits_self : (n : ℕ) (drawn : Text) → length drawn ≡ n → HasLength n (some drawn)
fits_self n drawn h bytes e = rw (some_inj e) at h

pub salt_fits : HasLength 16 draws.salt
salt_fits = fits_self 16 (eight ++ eight) refl

pub nonce_fits : HasLength 24 draws.nonce
nonce_fits = fits_self 24 (eight ++ (eight ++ eight)) refl

pub key_fits : HasLength 32 draws.room_key
key_fits = fits_self 32 (eight ++ (eight ++ (eight ++ eight))) refl
