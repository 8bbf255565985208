-- ===== src/Services/Memory.antt =====
-- Services held in memory, with which the laws are shown to be possible and the witnesses run. The
-- clock of this Redis stands still.
use skill_up.Base.{
  ℕ, suc, ◌≡◌, refl, sym, subst, ◌∙◌, ap, Bool, true, false, Option, none, some, List, [], ◌∷◌,
  ◌++◌, map, if◌then◌else◌, take, drop, length, Bool-cases, inl, inr,
}
use mathlib.Core.Bool.{false≢true}
use skill_up.Text.{Text, text_eq, text_eq_refl, text_eq_iff, text_eq→eq}
use skill_up.Text.Decimal.{print, parse_int, parse_int-print}
use skill_up.Shared.{User, OutboxMessage}
use skill_up.Services.{Services, Ttl, IsRedis, IsDatabase, same_id}
use skill_up.Session.Sets.{Entries, zinsert, IsSortedSets}

pub record Cells : Type 0 where
  pub strings : Text → Option Text
  pub times : Text → Ttl
  pub hashes : Text → List (Text × Text)
  pub sets : Text → Entries

abbrev pub update {ℓ} : {A : Type ℓ} → (Text → A) → Text → A → Text → A
update f k v j = if text_eq k j then v else f j

-- The rows by their ids; the id of a row is its place.
pub record Table : Type 0 where
  pub ids : List Text
  pub row : Text → User
  pub messages : List OutboxMessage

abbrev pub at_id : (Text → User) → Text → User
at_id row i = record (row i) { id = i }

unfoldable pub scan : (User → Bool) → (Text → User) → List Text → Option User
scan p row [] = none
scan p row (i ∷ is) = if p (at_id row i) then some (at_id row i) else scan p row is

abbrev value_of : Option Text → ℕ
value_of none = 0
value_of (some t) = elim (parse_int t) [ none ↦ 0 | some n ↦ n ]

-- Whether a key has a string.
abbrev present : Option Text → ℕ
present none = 0
present (some t) = 1

present-update :
    (f : Text → Option Text) (j k v : Text)
    → present (update f k (some v) j) ≡ (if text_eq k j then 1 else present (f j))
present-update f j k v = elim (Bool-cases (text_eq k j)) [
  | inl same ↦ rw same refl
  | inr other ↦ rw other refl
]

-- The parts of the model that a witness chooses: the hashes and the token.
abbrev pub memory : Services
memory = record {
  Store = Cells;
  get = λ k s. s.strings k;
  ttl = λ k s. s.times k;
  set_ex = λ k v t s. record s {
    strings = update s.strings k (some v);
    times = update s.times k (Ttl.seconds t);
  };
  set = λ k v s. record s { strings = update s.strings k (some v) };
  exists = λ k s. present (s.strings k);
  del = λ k s. record s {
    strings = update s.strings k none;
    hashes = update s.hashes k [];
    sets = update s.sets k [];
  };
  incr = λ k s. (
    suc (value_of (s.strings k)),
    record s { strings = update s.strings k (some (print (suc (value_of (s.strings k))))) },
  );
  expire = λ k t s. record s { times = update s.times k (Ttl.seconds t) };
  hset = λ k d s. record s { hashes = update s.hashes k (s.hashes k ++ d) };
  hgetall = λ k s. s.hashes k;
  zadd = λ k sc m s. record s { sets = update s.sets k (zinsert sc m (s.sets k)) };
  zcard = λ k s. length (s.sets k);
  zrange = λ k i j s. map (λ e. e.1) (drop i (take (suc j) (s.sets k)));
  zremrangebyrank =
      λ k i j s. record s { sets = update s.sets k (take i (s.sets k) ++ drop (suc j) (s.sets k)) };
  Rows = Table;
  find_user = λ p t. scan p t.row t.ids;
  save_user = λ u t. record t { ids = u.id ∷ t.ids; row = update t.row u.id u };
  save_outbox = λ m t. record t { messages = m ∷ t.messages };
  sha256 = λ t. t;
  bcrypt_hash = λ password salt. password;
  bcrypt_compare = λ password hash. text_eq password hash;
  jwt_sign = λ payload secret. secret;
}

pub memory_redis : IsRedis memory
memory_redis = record {
  get-set_ex = λ j k v t s h. refl;
  get-set = λ j k v s. refl;
  exists-set_ex = λ j k v t s h. present-update s.strings j k v;
  get-del = λ j k s. refl;
  get-incr = λ j k s. refl;
  incr_first = λ k s h. ap (λ o. suc (value_of o)) h;
  incr_next = λ k s n h.
      ap (λ o. suc (value_of o)) h
      ∙ ap (λ o. suc (elim o [ none ↦ 0 | some m ↦ m ])) (parse_int-print n);
  get-expire = λ j k t s h. refl;
  get-hset = λ j k d s. refl;
  get-zadd = λ j k sc m s. refl;
  get-zremrangebyrank = λ j k start stop s. refl;
  ttl-set_ex = λ j k v t s h. refl;
  ttl-expire = λ k t s h present. rw (text_eq_refl k);
}

unfoldable pub memory_sets : IsSortedSets memory
memory_sets = record {
  entries = λ k s. s.sets k;
  zcard_lem = λ k s. refl;
  zrange_lem = λ k stop s. refl;
  entries-zadd = λ k sc m s. rw (text_eq_refl k);
  entries-zremrangebyrank = λ k stop s. rw (text_eq_refl k);
  entries-hset = λ j k d s. refl;
  entries-expire = λ j k t s h. refl;
  entries-del = λ j k s h. rw h;
  hgetall-hset = λ j k d s h. rw h;
  hgetall-expire = λ j k t s h. refl;
  hgetall-zadd = λ j k sc m s. refl;
  hgetall-zremrangebyrank = λ j k start stop s. refl;
  hgetall-del = λ j k s. refl;
}

some_eq : {x y : User} → some x ≡ some y → x ≡ y
some_eq h = cc

scan_sound :
    (p : User → Bool) (row : Text → User) (is : List Text) (u : User)
    → scan p row is ≡ some u
    → (p u ≡ true) × (u ≡ at_id row u.id)
unfolding scan
scan_sound p row [] u h = cc
scan_sound p row (i ∷ is) u h = elim (Bool-cases (p (at_id row i))) [
  | inl hit ↦
      let e : at_id row i ≡ u = some_eq (rw hit at h) in
      subst (λ v. (p v ≡ true) × (v ≡ at_id row v.id)) e (hit, refl)
  | inr miss ↦ scan_sound p row is u (rw miss at h)
]

scan-row :
    (p : User → Bool) (row : Text → User) (is : List Text) (u : User)
    → scan p row is ≡ some u
    → scan (same_id u.id) row is ≡ some u
unfolding scan
scan-row p row [] u h = cc
scan-row p row (i ∷ is) u h = elim (Bool-cases (text_eq i u.id)) [
  | inl same ↦
      let e : i ≡ u.id = text_eq→eq i u.id same in
      rw same (ap some (ap (at_id row) e ∙ sym (scan_sound p row (i ∷ is) u h).1))
  | inr other ↦ rw other (elim (Bool-cases (p (at_id row i))) [
    | inl hit ↦
        let e : at_id row i ≡ u = some_eq (rw hit at h) in
        let same : i ≡ u.id = ap (λ v. v.id) e in
        absurd (false≢true (sym other ∙ (text_eq_iff i u.id).1 same))
    | inr miss ↦ scan-row p row is u (rw miss at h)
  ])
]

scan-none :
    (p : User → Bool) (row : Text → User) (is : List Text) (u : User)
    → scan p row is ≡ none
    → scan (same_id u.id) row is ≡ some u
    → p u ≡ false
unfolding scan
scan-none p row [] u e h = cc
scan-none p row (i ∷ is) u e h = elim (Bool-cases (p (at_id row i))) [
  | inl hit ↦ cc (rw hit at e)
  | inr miss ↦ elim (Bool-cases (text_eq i u.id)) [
    | inl same ↦
        let found : at_id row i ≡ u = some_eq (rw same at h) in subst (λ v. p v ≡ false) found miss
    | inr other ↦ scan-none p row is u (rw miss at e) (rw other at h)
  ]
]

scan-update :
    (i : Text) (u : User) (row : Text → User) (is : List Text)
    → text_eq u.id i ≡ false
    → scan (same_id i) (update row u.id u) is ≡ scan (same_id i) row is
unfolding scan
scan-update i u row [] h = refl
scan-update i u row (j ∷ is) h = elim (Bool-cases (text_eq j i)) [
  | inl here ↦ let e : j ≡ i = text_eq→eq j i here in rw (e, text_eq_refl i, h)
  | inr there ↦ rw there (scan-update i u row is h)
]

scan-save :
    (i : Text) (u : User) (row : Text → User) (is : List Text)
    → scan (same_id i) (update row u.id u) (u.id ∷ is)
      ≡ (if text_eq u.id i then some u else scan (same_id i) row is)
unfolding scan
scan-save i u row is = elim (Bool-cases (text_eq u.id i)) [
  | inl here ↦ rw (here, text_eq_refl u.id)
  | inr there ↦ rw there (scan-update i u row is there)
]

pub memory-IsDatabase : IsDatabase memory
unfolding scan
memory-IsDatabase = record {
  find-sound = λ p u t h. (scan_sound p t.row t.ids u h).0;
  find-row = λ p u t h. scan-row p t.row t.ids u h;
  find-none = λ p u t e h. scan-none p t.row t.ids u e h;
  find-save_user = λ i u t. scan-save i u t.row t.ids;
  find-save_user_new = λ p u t h e. rw (text_eq_refl u.id, h);
  find-save_outbox = λ p m t. refl;
}
