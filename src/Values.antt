-- ===== src/Values.antt =====
-- JavaScript values, as the publisher and the mail service handle them: `in`, `||`, `o.k` and the
-- spread of one object over another. Functions, arrays and prototypes are left out.
pub mod Spread
use skill_up.Base.{
  ℕ, zero, suc, Bool, true, false, ◌||◌, Option, none, some, [], ◌∷◌, if◌then◌else◌,
}
use skill_up.Text.{Text, text_eq}

mutual
  pub data Value : Type 0 where
    undefined null : Value
    text : Text → Value
    number : ℕ → Value
    boolean : Bool → Value
    object : Object → Value

  -- The properties of an object, the oldest first.
  pub data Object : Type 0 where
    empty : Object
    property : Text → Value → Object → Object

-- `k in o`
unfoldable pub has : Text → Object → Bool
has k empty = false
has k (property j v o) = text_eq j k || has k o

-- `o.k`
unfoldable pub get : Text → Object → Value
get k empty = undefined
get k (property j v o) = let rest = get k o in if text_eq j k then v else rest

-- `o.k = v`
unfoldable pub put : Text → Value → Object → Object
put k v empty = property k v empty
put k v (property j w o) =
    let rest = put k v o in if text_eq j k then property j v o else property j w rest

-- `{ ...o, ...p }`
unfoldable pub spread : Object → Object → Object
unfolding put
spread o empty = o
spread o (property k v p) = spread (put k v o) p

abbrev pub truthy : Value → Bool
truthy undefined = false
truthy null = false
truthy (text []) = false
truthy (text (c ∷ s)) = true
truthy (number zero) = false
truthy (number (suc n)) = true
truthy (boolean b) = b
truthy (object o) = true

-- `v || w`
abbrev pub or_value : Value → Value → Value
or_value v w = if truthy v then v else w

-- `v.k`, which throws on undefined and null; the other primitive values have no such property.
unfoldable pub read : Value → Text → Option Value
unfolding get
read undefined k = none
read null k = none
read (object o) k = some (get k o)
read v k = some undefined
