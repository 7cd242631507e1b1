-- ===== src/Store/Redis/Database.antt =====
-- Redis as src/store.rs and the scripts under redis/ use it. The service is the record `Redis`, whose
-- fields are the commands; `IsRedis` says what they are documented to do, by their effect on three
-- kinds of values: strings that may expire, sorted sets and hashes.
use scpy.Prelude.{
  ℕ, ◌+◌, ◌-◌, ◌^◌, ◌≤◌, ◌<◌, ◌≡◌, Bool, true, false, ◌&&◌, ◌||◌, Option, none, some, List, [], ◌∷◌,
  ltb, leb, ◌==◌, Text, text_eq, if◌then◌else◌,
}

-- The keys, without the prefix that all of them have. Different formats never give the same key.
pub data Key : Type 0 where
  sentinel expiring setup : Key
  starts ends : (code_len : ℕ) → Key
  clip : (code_len local_id : ℕ) → Key
  login session : Text → Key

abbrev pub key_eq : Key → Key → Bool
key_eq sentinel sentinel = true
key_eq expiring expiring = true
key_eq setup setup = true
key_eq (starts n) (starts m) = n == m
key_eq (ends n) (ends m) = n == m
key_eq (clip n id) (clip m id') = n == m && id == id'
key_eq (login a) (login b) = text_eq a b
key_eq (session a) (session b) = text_eq a b
key_eq _ _ = false

-- A string that the scripts put into a set or a hash: a number as `tostring` prints it, two numbers
-- with a colon between them, or any other.
pub data Member : Type 0 where
  number : ℕ → Member
  pair : (code_len local_id : ℕ) → Member
  other : Text → Member

abbrev pub member_eq : Member → Member → Bool
member_eq (number a) (number b) = a == b
member_eq (pair a b) (pair c d) = a == c && b == d
member_eq (other a) (other b) = text_eq a b
member_eq _ _ = false

abbrev pub tonumber : Member → Option ℕ
tonumber (number n) = some n
tonumber (pair n id) = none
tonumber (other text) = none

-- The commands, each with the fixed arguments that the code gives it. `ℕ` before a key is the
-- server's clock in milliseconds, where a string may have expired.
pub record Redis (D V : Type 0) : Type 0 where
  pub exists : ℕ → Key → D → Bool
  pub get : ℕ → Key → D → Option V
  pub set : Key → V → D → D
  pub set_px : ℕ → Key → V → ℕ → D → D
  -- Whether the server takes a lifetime that a script gives `SET` at a time.
  pub accepts_px : (time ttl : ℕ) → Bool
  pub setnx : ℕ → Key → V → D → D × Bool
  pub del : Key → D → D
  pub zadd : Key → ℕ → Member → D → D
  pub zrem : Key → Member → D → D
  -- `ZRANGE key 0 -1`, and `ZRANGE key 0 0`.
  pub zrange : Key → D → List Member
  pub zrange_first : Key → D → Option Member
  -- `ZRANGEBYSCORE key -inf score LIMIT 0 limit`, and `ZRANGEBYSCORE key score score LIMIT 0 1`.
  pub zrange_up_to : Key → ℕ → ℕ → D → List Member
  pub zrange_at : Key → ℕ → D → Option Member
  -- `ZREVRANGEBYSCORE key score -inf LIMIT 0 1`.
  pub zrevrange_up_to : Key → ℕ → D → Option Member
  pub hset : Key → Member → Member → D → D
  pub hget : Key → Member → D → Option Member
  pub hdel : Key → Member → D → D

-- A string with the time at which it expires, if it does.
abbrev pub Entry : Type 0 → Type 0
Entry V = V × Option ℕ

-- What a database holds.
pub record Contents (V : Type 0) : Type 0 where
  pub strings : Key → Option (Entry V)
  pub sets : Key → List (ℕ × Member)
  pub hashes : Key → Member → Option Member

abbrev pub unexpired : {V : Type 0} → ℕ → Option (Entry V) → Option V
unexpired time none = none
unexpired time (some (v, none)) = some v
unexpired time (some (v, some expiry)) = if ltb time expiry then some v else none

-- A map with the value at one key replaced.
abbrev pub at_key : {A : Type 0} → Key → A → (Key → A) → Key → A
at_key k a f j = if key_eq k j then a else f j

-- A key that holds no set and no hash any more, and one that holds a string in place of what it held.
abbrev pub emptied : {V : Type 0} → Key → Contents V → Contents V
emptied k c = record c { sets = at_key k [] c.sets; hashes = at_key k (λ field. none) c.hashes }

abbrev pub stored : {V : Type 0} → Key → Entry V → Contents V → Contents V
stored k entry c = record (emptied k c) { strings = at_key k (some entry) c.strings }

abbrev pub at_field : Member → Option Member → (Member → Option Member) → Member → Option Member
at_field field value f other_field = if member_eq field other_field then value else f other_field

-- Sorted sets: in the order of the scores, and of the strings where the scores are equal.
unfoldable pub zset_remove : Member → List (ℕ × Member) → List (ℕ × Member)
zset_remove m [] = []
zset_remove m ((s, k) ∷ rest) = if member_eq k m then rest else (s, k) ∷ zset_remove m rest

unfoldable pub zset_insert :
    (Member → Member → Bool) → ℕ → Member → List (ℕ × Member) → List (ℕ × Member)
zset_insert before s m [] = (s, m) ∷ []
zset_insert before s m ((t, k) ∷ rest) =
    if ltb s t || s == t && before m k
    then (s, m) ∷ (t, k) ∷ rest
    else (t, k) ∷ zset_insert before s m rest

unfoldable pub zset_up_to : ℕ → List (ℕ × Member) → List Member
zset_up_to score [] = []
zset_up_to score ((s, m) ∷ rest) =
    let later = zset_up_to score rest in if leb s score then m ∷ later else []

unfoldable pub zset_at : ℕ → List (ℕ × Member) → Option Member
zset_at score [] = none
zset_at score ((s, m) ∷ rest) = if s == score then some m else zset_at score rest

abbrev pub first_of {ℓ} : {A : Type ℓ} → List A → Option A
first_of [] = none
first_of (a ∷ rest) = some a

unfoldable pub last_of {ℓ} : {A : Type ℓ} → List A → Option A
last_of [] = none
last_of (a ∷ rest) = elim (last_of rest) [ none ↦ some a | some b ↦ some b ]

unfoldable pub take {ℓ} : {A : Type ℓ} → ℕ → List A → List A
take n [] = []
take n (a ∷ rest) = if n == 0 then [] else a ∷ take (n - 1) rest

unfoldable pub members : List (ℕ × Member) → List Member
members [] = []
members ((s, m) ∷ rest) = m ∷ members rest

module _ {D V : Type 0} (r : Redis D V) where
  pub record IsRedis : Type 0 where
    -- How the server orders strings.
    pub before : Member → Member → Bool
    pub view : D → Contents V
    pub exists_lem :
        (time : ℕ) (k : Key) (d : D)
        → r.exists time k d
          ≡ (elim (unexpired time ((view d).strings k)) [ none ↦ false | some v ↦ true ])
    pub get_lem :
        (time : ℕ) (k : Key) (d : D) → r.get time k d ≡ unexpired time ((view d).strings k)
    pub set_lem : (k : Key) (v : V) (d : D) → view (r.set k v d) ≡ stored k (v, none) (view d)
    pub set_px_lem :
        (time : ℕ) (k : Key) (v : V) (ttl : ℕ) (d : D)
        → view (r.set_px time k v ttl d) ≡ stored k (v, some (time + ttl)) (view d)
    pub accepts_px_lem :
        (time ttl : ℕ) → 1 ≤ ttl → time + ttl < 10 ^ 14 → r.accepts_px time ttl ≡ true
    pub setnx_lem :
        (time : ℕ) (k : Key) (v : V) (d : D)
        → r.setnx time k v d ≡ (if r.exists time k d then (d, false) else (r.set k v d, true))
    pub del_lem :
        (k : Key) (d : D)
        → view (r.del k d)
          ≡ record (emptied k (view d)) { strings = at_key k none ((view d).strings) }
    pub zadd_lem :
        (k : Key) (s : ℕ) (m : Member) (d : D)
        → view (r.zadd k s m d) ≡ record (view d) {
          sets =
              at_key k (zset_insert before s m (zset_remove m ((view d).sets k))) ((view d).sets);
        }
    pub zrem_lem :
        (k : Key) (m : Member) (d : D)
        → view (r.zrem k m d)
          ≡ record (view d) { sets = at_key k (zset_remove m ((view d).sets k)) ((view d).sets) }
    pub zrange_lem : (k : Key) (d : D) → r.zrange k d ≡ members ((view d).sets k)
    pub zrange_first_lem :
        (k : Key) (d : D) → r.zrange_first k d ≡ first_of (members ((view d).sets k))
    pub zrange_up_to_lem :
        (k : Key) (score limit : ℕ) (d : D)
        → r.zrange_up_to k score limit d ≡ take limit (zset_up_to score ((view d).sets k))
    pub zrange_at_lem :
        (k : Key) (score : ℕ) (d : D) → r.zrange_at k score d ≡ zset_at score ((view d).sets k)
    pub zrevrange_up_to_lem :
        (k : Key) (score : ℕ) (d : D)
        → r.zrevrange_up_to k score d ≡ last_of (zset_up_to score ((view d).sets k))
    pub hset_lem :
        (k : Key) (field value : Member) (d : D)
        → view (r.hset k field value d) ≡ record (view d) {
          hashes = at_key k (at_field field (some value) ((view d).hashes k)) ((view d).hashes);
        }
    pub hget_lem : (k : Key) (field : Member) (d : D) → r.hget k field d ≡ (view d).hashes k field
    pub hdel_lem :
        (k : Key) (field : Member) (d : D)
        → view (r.hdel k field d) ≡ record (view d) {
          hashes = at_key k (at_field field none ((view d).hashes k)) ((view d).hashes);
        }
