-- ===== src/Values/Spread.antt =====
-- What is read from an object after a property is set, and after another object is spread over it.
use skill_up.Base.{◌≡◌, refl, Bool, true, false, if◌then◌else◌, Bool-cases, inl, inr}
use skill_up.Text.{Text, text_eq, text_eq_refl, text_eq→eq}
use skill_up.Values.{Value, Object, empty, property, has, get, put, spread}

if_again :
    (b : Bool) (x y z : Value) → (if b then x else z) ≡ (if b then x else (if b then y else z))
if_again true x y z = refl
if_again false x y z = refl

pub get-put :
    (j k : Text) (v : Value) (o : Object) → get j (put k v o) ≡ (if text_eq k j then v else get j o)
unfolding get put
get-put j k v empty = refl
get-put j k v (property i w o) = elim (Bool-cases (text_eq i k)) [
  | inl same ↦ rw (same, text_eq→eq i k same, get) (if_again (text_eq k j) v w (get j o))
  | inr other ↦ elim (Bool-cases (text_eq k j)) [
    | inl match ↦ rw (other, get, get-put j k v o, match, ← text_eq→eq k j match, other) refl
    | inr apart ↦ rw (other, get, get-put j k v o, apart) refl
  ]
]

-- No name occurs twice.
abbrev pub Distinct : Object → Type 0
Distinct empty = Unit
Distinct (property k v o) = (has k o ≡ false) × Distinct o

-- The properties of the second object win.
pub get-spread :
    (j : Text) (o p : Object)
    → Distinct p
    → get j (spread o p) ≡ (if has j p then get j p else get j o)
unfolding get has spread
get-spread j o empty d = refl
get-spread j o (property k v p) (fresh, d) = elim (Bool-cases (text_eq k j)) [
  | inl same ↦
      rw
        (
          ← text_eq→eq k j same,
          text_eq_refl k,
          get-spread k (put k v o) p d,
          fresh,
          get-put k k v o,
          text_eq_refl k,
        )
        refl
  | inr other ↦ rw (other, get-spread j (put k v o) p d, get-put j k v o, other) refl
]
