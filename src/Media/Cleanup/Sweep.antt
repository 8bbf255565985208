-- ===== src/Media/Cleanup/Sweep.antt =====
-- Which objects a sweep removes.
use skill_up.Base.{
  ℕ, ◌+◌, ◌-◌, leb, arith, All, Bool-cases, inl, inr, ◌≡◌, refl, ap, ◌∙◌, Bool, true, false, not,
  ◌&&◌, ◌||◌, Option, none, some, List, [], ◌∷◌, if◌then◌else◌,
}
use skill_up.Text.{Text, codes, text_eq, text_eq_refl, text_eq→eq, starts_with}
use skill_up.Media.{Minio, IsObjectStore, same_place}
use skill_up.Media
use skill_up.Media.Consumer.{or_kept}
use skill_up.Media.Cleanup.{
  Item, temp_prefix, max_temp_age_ms, modified, is_expired, Cleaner, visit_named, sweep,
  clean_expired_temp_uploads,
}

and_false : (x : Bool) → (x && false) ≡ false
and_false true = refl
and_false false = refl

-- A name under a prefix, or no name.
abbrev pub Under : Text → Text → Type 0
Under p [] = Unit
Under p (c ∷ n) = starts_with p (c ∷ n) ≡ true

-- The documented behaviour of the listing: what it gives has the prefix that was asked for.
pub record IsListing (C : Minio) (list_objects_v2 : Text → Text → C.Objects → List Item)
    : Type 0 where
  pub prefixed :
      (b p : Text) (o : C.Objects) → All (λ (i : Item). Under p i.name) (list_objects_v2 b p o)

-- The item was modified at least two hours before; one without a time counts as new.
abbrev pub two_hours_old : ℕ → Option ℕ → Bool
two_hours_old now none = false
two_hours_old now (some t) = leb (t + 7200000) now

is_expired_lem : (now : ℕ) (i : Item) → is_expired now i ≡ two_hours_old now i.last_modified
unfolding is_expired
is_expired_lem now i = aged i.last_modified
  where
    aged : (o : Option ℕ) → leb max_temp_age_ms (now - modified now o) ≡ two_hours_old now o
    aged none = ground arith
    aged (some t) = ground arith

module _ (C : Minio) (store : IsObjectStore C) (c : ℕ) (b : Text) (down : Text → Bool)
    (now : ℕ) where
  abbrev has_name : Text → Bool
  has_name [] = false
  has_name (d ∷ n) = true

  -- An item of the listing is due where it has a name, is two hours old, and MinIO deletes it.
  abbrev pub is_due : Text → Item → Bool
  is_due name i = has_name name && (two_hours_old now i.last_modified && not (down name))

  -- Some item of this name is due.
  abbrev pub due : Text → List Item → Bool
  due j [] = false
  due j (i ∷ is) = (is_due i.name i && text_eq i.name j) || due j is

  visit_one :
      (name j : Text) (i : Item) (o : C.Objects)
      → C.get_object (c ∷ b) j (visit_named C (c ∷ b) down now name i o)
        ≡ (if is_due name i && text_eq name j then none else C.get_object (c ∷ b) j o)
  unfolding visit_named Media.delete_object
  visit_one [] j i o = refl
  visit_one (d ∷ n) j i o =
      rw (is_expired_lem now i) (chosen (two_hours_old now i.last_modified) (down (d ∷ n)))
    where
      chosen :
          (old refuses : Bool)
          → C.get_object (c ∷ b) j (
              if old
              then or_kept o (if refuses then none else some (C.remove_object (c ∷ b) (d ∷ n) o))
              else o)
            ≡ (if (true && (old && not refuses)) && text_eq (d ∷ n) j
                then none
                else C.get_object (c ∷ b) j o)
      chosen true true = refl
      chosen true false =
          rw (store.get-remove_object (c ∷ b) j (c ∷ b) (d ∷ n) o, text_eq_refl (c ∷ b)) refl
      chosen false refuses = refl

  -- Sweeps one after the other.
  both :
      {A : Type 0} (x y : Bool) (a : Option A)
      → (if y then none else if x then none else a) ≡ (if x || y then none else a)
  both true true a = refl
  both true false a = refl
  both false true a = refl
  both false false a = refl

  sweep_lem :
      (items : List Item) (j : Text) (o : C.Objects)
      → C.get_object (c ∷ b) j (sweep C (c ∷ b) down now items o)
        ≡ (if due j items then none else C.get_object (c ∷ b) j o)
  unfolding sweep
  sweep_lem [] j o = refl
  sweep_lem (i ∷ is) j o =
      sweep_lem is j (visit_named C (c ∷ b) down now i.name i o)
      ∙ ap (λ x. if due j is then none else x) (visit_one i.name j i o)
      ∙ both (is_due i.name i && text_eq i.name j) (due j is) (C.get_object (c ∷ b) j o)

  -- Nothing that is listed under a prefix is due for a key without it.
  due-Under :
      (p j : Text) (items : List Item)
      → All (λ (i : Item). Under p i.name) items
      → starts_with p j ≡ false
      → due j items ≡ false
  due-Under p j [] h out = refl
  due-Under p j (i ∷ is) (h, hs) out = rw (named i.name h, due-Under p j is hs out) refl
    where
      named : (name : Text) → Under p name → (is_due name i && text_eq name j) ≡ false
      named [] h = refl
      named (d ∷ n) h = elim (Bool-cases (text_eq (d ∷ n) j)) [
        | inl same ↦ cc (h, ap (starts_with p) (text_eq→eq (d ∷ n) j same), out)
        | inr other ↦ rw other (and_false (is_due (d ∷ n) i))
      ]

  -- A sweep that starts with the flag down leaves the flag down; it has removed exactly those objects
  -- whose key stands under `temp_uploads/` and is that of an item of the listing which was modified two
  -- hours ago or earlier and which MinIO deletes.
  pub clean-due :
      (list_objects_v2 : Text → Text → C.Objects → List Item)
      → IsListing C list_objects_v2
      → (s : Cleaner C) (j : Text) → s.is_cleaning ≡ false
      → let prefix = codes "temp_uploads/" in
        let items = list_objects_v2 (c ∷ b) prefix s.objects in
        let s' = clean_expired_temp_uploads C (c ∷ b) down now list_objects_v2 s in
        (s'.is_cleaning ≡ false)
        × (C.get_object (c ∷ b) j s'.objects ≡ (
            if starts_with prefix j && due j items then none else C.get_object (c ∷ b) j s.objects))
  unfolding clean_expired_temp_uploads
  clean-due list_objects_v2 law s j h =
      let items = list_objects_v2 (c ∷ b) temp_prefix s.objects in
      let e =
        idle s.is_cleaning s
          (record { is_cleaning = false; objects = sweep C (c ∷ b) down now items s.objects }) h in
      (
        ap (λ (x : Cleaner C). x.is_cleaning) e,
        ap (λ (x : Cleaner C). C.get_object (c ∷ b) j x.objects) e
            ∙ sweep_lem items j s.objects
            ∙ ap (λ x. if x then none else C.get_object (c ∷ b) j s.objects)
                (inside (starts_with temp_prefix j) (due j items)
                  (due-Under temp_prefix j items (law.prefixed (c ∷ b) temp_prefix s.objects))),
      )
    where
      idle : (busy : Bool) (s r : Cleaner C) → busy ≡ false → (if busy then s else r) ≡ r
      idle busy s r h = rw h refl

      inside : (x y : Bool) → (x ≡ false → y ≡ false) → y ≡ (x && y)
      inside true y h = refl
      inside false y h = h refl
