-- ===== src/Session/Sets.antt =====
-- Sorted sets and hashes of Redis, as far as the session script relies on them.
use skill_up.Base.{
  ℕ, suc, ◌<◌, ◌≡◌, Bool, true, false, ◌&&◌, ◌||◌, List, [], ◌∷◌, map, if◌then◌else◌, ltb, ◌==◌,
  take, drop, length,
}
use skill_up.Text.{Text, text_eq}
use skill_up.Services.{Services}

-- Redis orders members of one score by their bytes.
unfoldable pub text_lt : Text → Text → Bool
text_lt [] [] = false
text_lt [] (y ∷ ys) = true
text_lt (x ∷ xs) [] = false
text_lt (x ∷ xs) (y ∷ ys) = ltb x y || (x == y && text_lt xs ys)

abbrev pub Entries : Type 0
Entries = List (ℕ × Text)

unfoldable pub without : Text → Entries → Entries
without m [] = []
without m (e ∷ es) = if text_eq e.1 m then without m es else e ∷ without m es

unfoldable pub insert_ranked : ℕ → Text → Entries → Entries
unfolding text_lt
insert_ranked sc m [] = (sc, m) ∷ []
insert_ranked sc m (e ∷ es) =
    if ltb sc e.0 || (sc == e.0 && text_lt m e.1)
    then (sc, m) ∷ e ∷ es
    else e ∷ insert_ranked sc m es

-- A member is in the set once: ZADD moves it to its new rank.
unfoldable pub zinsert : ℕ → Text → Entries → Entries
zinsert sc m es = insert_ranked sc m (without m es)

-- The documented behaviour of the commands; `entries` is a set from its lowest rank up.
pub record IsSortedSets (S : Services) : Type 0 where
  pub entries : Text → S.Store → Entries
  pub zcard_lem : (k : Text) (s : S.Store) → S.zcard k s ≡ length (entries k s)
  pub zrange_lem :
      (k : Text) (stop : ℕ) (s : S.Store)
      → S.zrange k 0 stop s ≡ map (λ e. e.1) (take (suc stop) (entries k s))
  pub entries-zadd :
      (k : Text) (sc : ℕ) (m : Text) (s : S.Store)
      → entries k (S.zadd k sc m s) ≡ zinsert sc m (entries k s)
  pub entries-zremrangebyrank :
      (k : Text) (stop : ℕ) (s : S.Store)
      → entries k (S.zremrangebyrank k 0 stop s) ≡ drop (suc stop) (entries k s)
  pub entries-hset :
      (j k : Text) (d : List (Text × Text)) (s : S.Store) → entries j (S.hset k d s) ≡ entries j s
  pub entries-expire :
      (j k : Text) (t : ℕ) (s : S.Store) → 0 < t → entries j (S.expire k t s) ≡ entries j s
  pub entries-del :
      (j k : Text) (s : S.Store) → text_eq k j ≡ false → entries j (S.del k s) ≡ entries j s
  pub hgetall-hset :
      (j k : Text) (d : List (Text × Text)) (s : S.Store)
      → S.hgetall k s ≡ []
      → S.hgetall j (S.hset k d s) ≡ (if text_eq k j then d else S.hgetall j s)
  pub hgetall-expire :
      (j k : Text) (t : ℕ) (s : S.Store) → 0 < t → S.hgetall j (S.expire k t s) ≡ S.hgetall j s
  pub hgetall-zadd :
      (j k : Text) (sc : ℕ) (m : Text) (s : S.Store) → S.hgetall j (S.zadd k sc m s) ≡ S.hgetall j s
  pub hgetall-zremrangebyrank :
      (j k : Text) (start stop : ℕ) (s : S.Store)
      → S.hgetall j (S.zremrangebyrank k start stop s) ≡ S.hgetall j s
  pub hgetall-del :
      (j k : Text) (s : S.Store)
      → S.hgetall j (S.del k s) ≡ (if text_eq k j then [] else S.hgetall j s)
