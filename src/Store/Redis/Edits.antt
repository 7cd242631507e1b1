-- ===== src/Store/Redis/Edits.antt =====
-- What the scripts write of a tier, against the map of intervals that it mirrors.
use scpy.Prelude.{ℕ, ◌≡◌, refl, ◌∙◌, sym, true, false, none, some, arith, ◌==◌}
use scpy.BTree.{BTree, insert, remove, get}
use scpy.BTree.Laws.{get-insert}
use scpy.Store.Redis.Database.{Key, starts, ends, key_eq, number, Redis, IsRedis, Contents}
use scpy.Store.Redis.Intervals.{
  IsAscending, IsTierOf, zset_remove-starts_of, zset_remove_absent, zset_insert-starts_of,
  starts_of-insert, get-remove,
}

-- From one database to another only a tier has changed, and it mirrors a map.
pub record IsEdit {V : Type 0} (c c' : Contents V) (code_len : ℕ) (tier : BTree ℕ) : Type 0 where
  pub mirrors : IsTierOf c' code_len tier
  pub strings : c'.strings ≡ c.strings
  pub sets : (k : Key) → key_eq (starts code_len) k ≡ false → c'.sets k ≡ c.sets k
  pub hashes : (k : Key) → key_eq (ends code_len) k ≡ false → c'.hashes k ≡ c.hashes k

pub IsEdit-trans :
    {V : Type 0} {c c' c'' : Contents V} {code_len : ℕ} {tier tier' : BTree ℕ}
    → IsEdit c c' code_len tier
    → IsEdit c' c'' code_len tier'
    → IsEdit c c'' code_len tier'
IsEdit-trans e e' = record {
  mirrors = e'.mirrors;
  strings = e'.strings ∙ e.strings;
  sets = λ k h. e'.sets k h ∙ e.sets k h;
  hashes = λ k h. e'.hashes k h ∙ e.hashes k h;
}

module _ {D V : Type 0} (r : Redis D V) (law : IsRedis r) (d : D) (code_len k v : ℕ)
    (tier : BTree ℕ) (t : IsTierOf (law.view d) code_len tier) where
  same : (code_len == code_len) ≡ true
  same = ground arith

  pub put_new :
      get k tier ≡ none
      → IsEdit
          (law.view d)
          (law.view (
            r.hset (ends code_len) (number k) (number v) (r.zadd (starts code_len) k (number k) d)))
          code_len
          (insert k v tier)
  put_new absent =
      rw (law.hset_lem, law.zadd_lem)
        (record {
          mirrors = record {
            set_lem =
                rw (same, t.set_lem, zset_remove_absent k tier absent)
                  (zset_insert-starts_of law.before k v tier absent);
            hash_lem =
                λ start. rw same (ground (arith, t.hash_lem start, get-insert k start v tier));
          };
          strings = refl;
          sets = λ j h. rw h refl;
          hashes = λ j h. rw h refl;
        })

  pub put_old :
      (low w : ℕ)
      → IsAscending low tier
      → get k tier ≡ some w
      → IsEdit
          (law.view d)
          (law.view (r.hset (ends code_len) (number k) (number v) d))
          code_len
          (insert k v tier)
  put_old low w o found = rw law.hset_lem (record {
    mirrors = record {
      set_lem = t.set_lem ∙ sym (starts_of-insert low k v w tier o found);
      hash_lem = λ start. rw same (ground (arith, t.hash_lem start, get-insert k start v tier));
    };
    strings = refl;
    sets = λ j h. refl;
    hashes = λ j h. rw h refl;
  })

  pub drop_start :
      (low : ℕ)
      → IsAscending low tier
      → IsEdit
          (law.view d)
          (law.view (r.hdel (ends code_len) (number k) (r.zrem (starts code_len) (number k) d)))
          code_len
          (remove k tier)
  drop_start low o =
      rw (law.hdel_lem, law.zrem_lem)
        (record {
          mirrors = record {
            set_lem = rw (same, t.set_lem) (zset_remove-starts_of k tier);
            hash_lem =
                λ start. rw same (ground (arith, t.hash_lem start, get-remove low k start tier o));
          };
          strings = refl;
          sets = λ j h. rw h refl;
          hashes = λ j h. rw h refl;
        })
