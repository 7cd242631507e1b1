-- ===== src/Api/Reclaimer/Drains.antt =====
-- The reclaiming task clears the expiry index of the rooms that are gone, through errors too.
use scpy.Prelude.{
  ℕ, ◌+◌, ◌*◌, ◌≤◌, ◌≡◌, refl, inl, inr, ◌⊎◌, true, Option, some, arith, List, [], ◌∷◌, length,
  text_eq, Text,
}
use scpy.Time.{Clock, now_unix_ms}
use scpy.Alloc.Tier.{TieredAllocator}
use scpy.Alloc.Tier.Invariant.{IsValid, is_free}
use scpy.Store.Redis.{Trip, Delivery, answered, refused, lost, reclaim_expired, max_one}
use scpy.Store.Redis.Database.{
  expiring, clip, Member, number, pair, other, Redis, IsRedis, Key, Entry, members, take,
  zset_up_to,
}
use scpy.Store.Redis.Scripts.{Codec, Counts, clip_reclaim_expired, reclaim_members}
use scpy.Store.Redis.Commands.{unexpired_later}
use scpy.Store.Redis.Index.{ArePlaces, ArePlaces-take, ArePlaces-zset_up_to}
use scpy.Store.Redis.Mirror.{IsMirror}
use scpy.Store.Redis.Refines.Reclaimed.{AreGone, AreFree}
use scpy.Store.Redis.Refines.Drain.{
  rest_after, InScoreOrder, InScoreOrder-rest_after, length-rest_after, AreGone-rest_after,
  AreGone-take, AreFree-split, AreFree-keeps,
}
use scpy.Store.Redis.Refines.Drained.{IsDrained, reclaim_members-IsDrained}
use scpy.Api.Reclaimer.{reclaimer}

-- Whether a request gets to the server.
abbrev pub arrives : Delivery → ℕ
arrives answered = 1
arrives (refused message) = 0
arrives (lost message) = 1

abbrev pub arrivals : List (Clock × Trip) → ℕ
arrivals [] = 0
arrivals ((clock, trip) ∷ ticks) = arrives trip.delivery + arrivals ticks

-- The ticks come after a time of the server, and their clocks lie between two times.
abbrev pub AreTimely : (time due latest : ℕ) → List (Clock × Trip) → Type 0
AreTimely time due latest [] = Unit {0}
AreTimely time due latest ((clock, trip) ∷ ticks) =
    (time ≤ trip.time)
    × (due ≤ now_unix_ms clock)
    × (now_unix_ms clock ≤ latest)
    × AreTimely time due latest ticks

Delivery-cases :
    (x : Delivery)
    → ((message : Text) × (x ≡ refused message))
      ⊎ ((x ≡ answered) ⊎ ((message : Text) × (x ≡ lost message)))
Delivery-cases answered = inr (inl refl)
Delivery-cases (refused message) = inl (message, refl)
Delivery-cases (lost message) = inr (inr (message, refl))

arrived :
    (trip : Trip)
    → (trip.delivery ≡ answered) ⊎ ((message : Text) × (trip.delivery ≡ lost message))
    → arrives trip.delivery ≡ 1
arrived trip (inl h) = rw h refl
arrived trip (inr (message, h)) = rw h refl

module _ {D V P L Setup : Type 0} (r : Redis D V) (codec : Codec V P L Setup) (limit : ℕ)
    (clock : Clock) (trip : Trip) (d : D) where
  -- What a tick does to the database.
  tick_refused :
      (message : Text)
      → trip.delivery ≡ refused message
      → (reclaim_expired r codec true clock trip limit d).0 ≡ d
  unfolding reclaim_expired
  tick_refused message h = rw (reclaim_expired, h) refl

  tick_arrived :
      (d' : D) (c : Counts)
      → (trip.delivery ≡ answered) ⊎ ((message : Text) × (trip.delivery ≡ lost message))
      → reclaim_members r trip.time
          (r.zrange_up_to expiring (now_unix_ms clock) (max_one limit) d)
          (record { reclaimed = 0; cleaned = 0; scanned = 0 })
          d
        ≡ (d', some c)
      → (reclaim_expired r codec true clock trip limit d).0 ≡ d'
  unfolding reclaim_expired clip_reclaim_expired text_eq
  tick_arrived d' c (inl h) e = rw (reclaim_expired, h, clip_reclaim_expired, e, e) refl
  tick_arrived d' c (inr (message, h)) e =
      rw (reclaim_expired, h, clip_reclaim_expired, e) (rw e refl)

AreGone-later :
    {V : Type 0} (time later : ℕ) (strings : Key → Option (Entry V)) (list : List Member)
    → time ≤ later
    → AreGone time strings list
    → AreGone later strings list
AreGone-later time later strings [] h g = tt
AreGone-later time later strings (number n ∷ rest) h (g, gs) =
    (tt, AreGone-later time later strings rest h gs)
AreGone-later time later strings (other text ∷ rest) h (g, gs) =
    (tt, AreGone-later time later strings rest h gs)
AreGone-later time later strings (pair n id ∷ rest) h (g, gs) = (
  unexpired_later time later (strings (clip n id)) h g,
  AreGone-later time later strings rest h gs,
)

empty_of_length : (list : List Member) → length list ≤ 0 → list ≡ []
empty_of_length [] h = refl
empty_of_length (m ∷ rest) h = absurd (omega arith)

-- What the task has done to a database.
pub record IsCleared {D V : Type 0} (r : Redis D V) (law : IsRedis r) (due : ℕ) (d d' : D)
    (a : TieredAllocator) : Type 0 where
  pub allocator : TieredAllocator
  pub valid : IsValid allocator
  pub mirrors : IsMirror (law.view d') allocator
  pub empty : zset_up_to due ((law.view d').sets expiring) ≡ []
  pub free : AreFree allocator (zset_up_to due ((law.view d).sets expiring))
  pub keeps : (n id : ℕ) → is_free a n id ≡ true → is_free allocator n id ≡ true

module _ {D V P L Setup : Type 0} (r : Redis D V) (law : IsRedis r) (codec : Codec V P L Setup)
    (limit time due latest : ℕ) where
  -- One tick that arrives, on an index in the order of its scores.
  arrival :
      (clock : Clock) (trip : Trip) (d : D) (a : TieredAllocator)
      → (trip.delivery ≡ answered) ⊎ ((message : Text) × (trip.delivery ≡ lost message))
      → IsValid a
      → IsMirror (law.view d) a
      → ArePlaces (members ((law.view d).sets expiring))
      → AreGone trip.time (law.view d).strings (zset_up_to latest ((law.view d).sets expiring))
      → now_unix_ms clock ≤ latest
      → (a' : TieredAllocator) × IsDrained trip.time
          (law.view d)
          (law.view (reclaim_expired r codec true clock trip limit d).0)
          a
          a'
          (take (max_one limit) (zset_up_to (now_unix_ms clock) ((law.view d).sets expiring)))
          (rest_after (max_one limit) (now_unix_ms clock) ((law.view d).sets expiring))
  arrival clock trip d a came v mirror places gone h =
      let list = (law.view d).sets expiring in
      let k = max_one limit in
      let now = now_unix_ms clock in
      let (a', c, d', done, drained) =
        reclaim_members-IsDrained r law trip.time k now list
          (record { reclaimed = 0; cleaned = 0; scanned = 0 }) d a v mirror refl
          (ArePlaces-take k (zset_up_to now list) (ArePlaces-zset_up_to now list places))
          (AreGone-take trip.time (law.view d).strings k now latest list h gone) in
      (
        a',
        rw (tick_arrived r codec limit clock trip d d' c came (rw law.zrange_up_to_lem done))
            drained,
      )

  -- Where a database mirrors a valid allocator, its expiry index is in the order of its scores and
  -- names ids of tiers or no id, and the rooms that it names up to a latest time are gone: after
  -- ticks of the reclaiming task whose clocks lie between a time and the latest, and of which
  -- enough reach the server, at the limit each, for the members due at that time, whatever becomes
  -- of their answers, nothing in the index is due at that time, the ids that were named by what was
  -- due are free, and free ids stay free.
  pub reclaimer-IsCleared :
      (low : ℕ) (ticks : List (Clock × Trip)) (d : D) (a : TieredAllocator)
      → IsValid a
      → IsMirror (law.view d) a
      → ArePlaces (members ((law.view d).sets expiring))
      → InScoreOrder low ((law.view d).sets expiring)
      → AreGone time (law.view d).strings (zset_up_to latest ((law.view d).sets expiring))
      → AreTimely time due latest ticks
      → length (zset_up_to due ((law.view d).sets expiring)) ≤ arrivals ticks * max_one limit
      → IsCleared r law due d (reclaimer r codec limit ticks d).0 a
  unfolding reclaimer
  reclaimer-IsCleared low [] d a v mirror places order gone timely few =
      let none_due =
        empty_of_length (zset_up_to due ((law.view d).sets expiring)) (omega (arith, few)) in
      record {
        allocator = a;
        valid = v;
        mirrors = mirror;
        empty = none_due;
        free = rw none_due tt;
        keeps = λ n id h. h;
      }
  reclaimer-IsCleared low ((clock, trip) ∷ ticks) d a v mirror places order gone
        (after, begun, ended, timely) few =
      elim (Delivery-cases trip.delivery) [
        | inl (message, h) ↦ rw (tick_refused r codec limit clock trip d message h) (
            reclaimer-IsCleared low ticks d a v mirror places order gone timely
              (omega (arith, rw h at few)))
        | inr came ↦
            let list = (law.view d).sets expiring in
            let k = max_one limit in
            let now = now_unix_ms clock in
            let one : arrives trip.delivery ≡ 1 = arrived trip came in
            let later =
              AreGone-later time trip.time (law.view d).strings (zset_up_to latest list) after
                gone in
            let (a', drained) = arrival clock trip d a came v mirror places later ended in
            let d' = (reclaim_expired r codec true clock trip limit d).0 in
            let i =
              reclaimer-IsCleared low ticks d' a' drained.reclaimed.valid drained.reclaimed.mirrors
                (drained.reclaimed.index places)
                (rw drained.index (InScoreOrder-rest_after low k now list order))
                (rw (drained.index, drained.reclaimed.strings)
                  (AreGone-rest_after time (law.view d).strings k now latest list ended gone))
                timely
                (rw drained.index (
                  omega
                    (arith, rw one at few, length-rest_after low k due now list begun order))) in
            record {
              allocator = i.allocator;
              valid = i.valid;
              mirrors = i.mirrors;
              empty = i.empty;
              free =
                  AreFree-split i.allocator low k due now list begun order
                    (AreFree-keeps a' i.allocator (take k (zset_up_to now list)) i.keeps
                      drained.free)
                    (rw drained.index at i.free);
              keeps = λ n id h. i.keeps n id (drained.reclaimed.keeps n id h);
            }
      ]
