-- ===== src/Lib.antt =====
-- scpy is a clipboard that two browsers share under a short code. The server keeps, for each room,
-- a record with an encrypted envelope; a room is given a code of three to six characters, a login
-- of the OPAQUE protocol opens it, and every change of its envelope goes to the room's subscribers.
--
-- The parts of the program, and the files that model them:
-- - src/allocator.rs, the codes. Alloc/Feistel is the Feistel permutation of words
--   (`feistel_encrypt`, `feistel_decrypt`, `round_function`, `splitmix64`), Alloc/Walk the loop
--   that applies it until the value is in range, Alloc/Code the codes of ids (`encode_local_id`,
--   `decode_room_id`, `permute_local_id`), Alloc/Tier the free ids of the four tiers as maps of
--   intervals (`TieredAllocator`).
-- - src/store.rs, the rooms. Store/Types has its records and errors, Store/Action the monad of its
--   methods, Store/Trait the trait `RoomStore` with what its callers rely on, Store/Memory the
--   `MemoryRoomStore`, one function for each method, and Store/Memory/Tasks the same methods as
--   tasks that stop at each lock they await.
-- - src/store.rs and redis/, the rooms in Redis. Store/Redis is `RedisRoomStore`, one function for
--   each method, and Store/Redis/Requests its requests; Store/Redis/Scripts are the Lua scripts
--   that it invokes; Store/Redis/Database is the service: the record `Redis` of its commands, and
--   `IsRedis`, what they are documented to do. Intervals, Edits, Merges and Mirror relate the keys
--   of a tier to the map of intervals of src/allocator.rs, Refines has the scripts against the
--   allocator's methods, Laws the store's methods, and Commands, Kept and Runs what any servers
--   send to one database.
-- - src/app.rs, the pages. Pages/Landing is `LandingPage`, Pages/Room is `RoomPage` with its
--   handlers, its tasks and its live updates, Pages/Remote the requests that both send.
-- - src/api.rs, the server. Api/State is `AppState` with its methods, Api/Reclaimer its constructor
--   over Redis with the task that reclaims, Api/Cookie the session cookie, Api/Handlers the
--   handlers and their statuses, Api/Router the routes of `api_router` with what each calls.
-- - src/main.rs, the settings of the process: Config.
-- - src/auth.rs and src/protocol.rs, the messages: Auth and Protocol.
-- - crates/scpy-crypto/src/lib.rs, the client's encryption: Crypto, a function for each of its own;
--   the libraries for the ciphers, the key derivation and base64 are the record `Primitives`, and
--   what is drawn is the record `Draws`.
-- - Time, BTree and HashMap are the parts of the standard library that these use.
-- A handler of the API calls a method of the state, which calls the store with a clock; the memory
-- store calls the allocator when it creates a room and when it evicts one, and the Redis store
-- invokes scripts that keep the same free ids in the database. A page encrypts, posts to a handler,
-- and decrypts what the room's channel sends it.
--
-- Numbers are natural numbers, with the wrap-around of u64 written out where an operation may reach
-- it. A `String` is the list of its bytes. A map is an association list in which a key is looked up
-- by its first entry; the allocator's maps are in the order of their keys. Time is an argument: a
-- `Clock` holds what the clocks give during one call, and a `Duration` its nanoseconds. Randomness
-- is an argument too. The library `opaque_ke` is the record `Opaque`, the broadcast channels of
-- tokio are the record `Broadcast`, and `HeaderValue::from_str` is a test of the text.
--
-- The Redis server runs one command or script after another, so each is a function on the database;
-- a method of the store is a sequence of them. What becomes of a request is an argument: it is
-- answered, it does not reach the server, or its answer is lost after it was carried out. A run of
-- commands lets the requests of methods come in between one another in any order. A script that
-- fails answers with nothing and keeps what it had written. A string may expire, by the server's
-- clock at the request. Numbers in a script are doubles, exact below 2 ^ 53, and `cjson` writes 14
-- of their digits and an empty array as an object: what it makes of a record and of a script's
-- answer is the record `Codec`, and `fits_json` and `fits_answer` are the tests under which it is
-- assumed to be read back; the ids have at most 11 digits. A script whose `SET` is given a lifetime
-- that the server refuses fails at that command, after it has taken an id; the lifetimes that the
-- client itself gives, a minute and half an hour, are in range. A set holds numbers, pairs of
-- numbers, or other strings, which no script writes; a key holds one kind of value.
--
-- A page is a record of its signals, and what happens to it is a sequence of events; a task that
-- waits for the server has an event for its end, so other events may come in between. The client's
-- half of `opaque_ke` is the record `OpaqueClient`, and what the server answers to a page is the
-- record `Remote`.
--
-- The methods of the memory store take and release their locks more than once. Store/Memory runs
-- each of them from its start to its end with no other task in between; in Store/Memory/Tasks a
-- method is a task, a turn of a task goes from one lock to the next, and a run is any sequence of
-- calls and turns. A request that is dropped is a task that has no more turns. A turn holds its
-- locks to its end, so it is one step. Api/Router serves requests one after another, each from its
-- start to its end; turns of requests that come in between one another are modelled for the store.
-- The walk of the permutation runs on fuel, 2 ^ 36 steps: the words have at most 36 bits, so a
-- permutation of them returns to the range within as many steps.
--
-- Not modelled: redis/clip_refresh.lua, which nothing invokes; the time-outs of the Redis client
-- and the opening of its connection; the markup of src/app.rs, its copying of the share link and
-- its texts of JavaScript errors; the configuration of Leptos, the log and the listening of
-- src/main.rs; the router of src/server.rs and src/lib.rs, which is library calls; the timer of the
-- reclaiming task, whose ticks are an argument; and the matching of paths and the decoding of JSON
-- by axum, after which a request is a constructor of `Request`. A build with overflow checks panics
-- where the version of a room is u64::MAX and is updated; the model wraps around.
pub mod Prelude
pub mod Bits
pub mod BTree
pub mod HashMap
pub mod Time
pub mod Auth
pub mod Crypto
pub mod Config
pub mod Alloc
pub mod Opaque
pub mod Pages
pub mod Protocol
pub mod Store
pub mod Api
pub mod Tests
