-- ===== src/Services.antt =====
-- What the services call and do not implement: Redis, PostgreSQL behind TypeORM, bcrypt, SHA-256
-- and JSON web tokens. `Services` holds the operations, as parameters of the model; what the code
-- relies on of them stands in `IsRedis` and `IsDatabase`.
pub mod Memory
use skill_up.Base.{
  ℕ, suc, ◌+◌, ◌-◌, ◌<◌, ◌≡◌, Bool, true, false, Option, none, some, List, if◌then◌else◌, ◌⊎◌, ◌≢◌,
  take, drop, length,
}
use skill_up.Text.{Text, text_eq}
use skill_up.Text.Decimal.{print}
use skill_up.Shared.{User, OutboxMessage}

-- The reply of TTL: -2, -1, or the seconds that remain.
pub data Ttl : Type 0 where
  missing persistent : Ttl
  seconds : ℕ → Ttl

pub record Services : Type 1 where
  -- Redis: strings, hashes and sorted sets, with the time to live of a key.
  pub Store : Type 0
  pub get : Text → Store → Option Text
  pub ttl : Text → Store → Ttl
  pub set_ex : Text → Text → ℕ → Store → Store
  pub set : Text → Text → Store → Store
  pub exists : Text → Store → ℕ
  pub del : Text → Store → Store
  pub incr : Text → Store → ℕ × Store
  pub expire : Text → ℕ → Store → Store
  pub hset : Text → List (Text × Text) → Store → Store
  pub hgetall : Text → Store → List (Text × Text)
  pub zadd : Text → ℕ → Text → Store → Store
  pub zcard : Text → Store → ℕ
  pub zrange : Text → ℕ → ℕ → Store → List Text
  pub zremrangebyrank : Text → ℕ → ℕ → Store → Store
  -- PostgreSQL: the tables, and the queries that the providers make.
  pub Rows : Type 0
  pub find_user : (User → Bool) → Rows → Option User
  pub save_user : User → Rows → Rows
  pub save_outbox : OutboxMessage → Rows → Rows
  -- Cryptography.
  pub sha256 : Text → Text
  pub bcrypt_hash : Text → Text → Text
  pub bcrypt_compare : Text → Text → Bool
  pub jwt_sign : List (Text × Text) → Text → Text

abbrev pub same_id : Text → User → Bool
same_id i u = text_eq u.id i

-- The documented behaviour of the Redis commands that the code relies on.
pub record IsRedis (S : Services) : Type 0 where
  pub get-set_ex :
      (j k v : Text) (t : ℕ) (s : S.Store)
      → 0 < t
      → S.get j (S.set_ex k v t s) ≡ (if text_eq k j then some v else S.get j s)
  pub get-set :
      (j k v : Text) (s : S.Store)
      → S.get j (S.set k v s) ≡ (if text_eq k j then some v else S.get j s)
  pub exists-set_ex :
      (j k v : Text) (t : ℕ) (s : S.Store)
      → 0 < t
      → S.exists j (S.set_ex k v t s) ≡ (if text_eq k j then 1 else S.exists j s)
  pub get-del :
      (j k : Text) (s : S.Store) → S.get j (S.del k s) ≡ (if text_eq k j then none else S.get j s)
  pub get-incr :
      (j k : Text) (s : S.Store)
      → S.get j ((S.incr k s).1)
        ≡ (if text_eq k j then some (print ((S.incr k s).0)) else S.get j s)
  pub incr_first : (k : Text) (s : S.Store) → S.get k s ≡ none → (S.incr k s).0 ≡ 1
  pub incr_next :
      (k : Text) (s : S.Store) (n : ℕ) → S.get k s ≡ some (print n) → (S.incr k s).0 ≡ suc n
  pub get-expire : (j k : Text) (t : ℕ) (s : S.Store) → 0 < t → S.get j (S.expire k t s) ≡ S.get j s
  pub get-hset :
      (j k : Text) (d : List (Text × Text)) (s : S.Store) → S.get j (S.hset k d s) ≡ S.get j s
  pub get-zadd :
      (j k : Text) (sc : ℕ) (m : Text) (s : S.Store) → S.get j (S.zadd k sc m s) ≡ S.get j s
  pub get-zremrangebyrank :
      (j k : Text) (start stop : ℕ) (s : S.Store)
      → S.get j (S.zremrangebyrank k start stop s) ≡ S.get j s
  pub ttl-set_ex :
      (j k v : Text) (t : ℕ) (s : S.Store)
      → 0 < t
      → S.ttl j (S.set_ex k v t s) ≡ (if text_eq k j then seconds t else S.ttl j s)
  pub ttl-expire :
      (k : Text) (t : ℕ) (s : S.Store)
      → 0 < t
      → S.get k s ≢ none
      → S.ttl k (S.expire k t s) ≡ seconds t

-- The documented behaviour of the repository calls that the code relies on.
pub record IsDatabase (S : Services) : Type 0 where
  pub find-sound : (p : User → Bool) (u : User) (t : S.Rows) → S.find_user p t ≡ some u → p u ≡ true
  pub find-row :
      (p : User → Bool) (u : User) (t : S.Rows)
      → S.find_user p t ≡ some u
      → S.find_user (same_id u.id) t ≡ some u
  pub find-none :
      (p : User → Bool) (u : User) (t : S.Rows)
      → S.find_user p t ≡ none
      → S.find_user (same_id u.id) t ≡ some u
      → p u ≡ false
  pub find-save_user :
      (i : Text) (u : User) (t : S.Rows)
      → S.find_user (same_id i) (S.save_user u t)
        ≡ (if text_eq u.id i then some u else S.find_user (same_id i) t)
  pub find-save_user_new :
      (p : User → Bool) (u : User) (t : S.Rows)
      → p u ≡ true
      → S.find_user p t ≡ none
      → S.find_user p (S.save_user u t) ≡ some u
  pub find-save_outbox :
      (p : User → Bool) (m : OutboxMessage) (t : S.Rows)
      → S.find_user p (S.save_outbox m t) ≡ S.find_user p t
