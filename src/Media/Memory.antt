-- ===== src/Media/Memory.antt =====
-- A MinIO and a sharp held in memory, with which the laws are shown to be possible and the witnesses
-- run. An image here is its size and its orientation, and the first byte of a file chooses the latter.
use skill_up.Base.{
  ℕ, ◌+◌, ◌%◌, ◌<◌, ◌≡◌, refl, Bool, true, false, ◌&&◌, ◌==◌, Option, none, some, [], ◌∷◌,
  if◌then◌else◌, leb, length, arith, abs, le→leb, lt→leb_false,
}
use skill_up.Text.{Text}
use skill_up.Media.{Minio, Stat, IsObjectStore, same_place}
use skill_up.Media.Image.{Sharp, IsSharp}

abbrev pub Bin : Type 0
Bin = Text → Text → Option (Text × Text)

abbrev stat_of : Option (Text × Text) → Option Stat
stat_of none = none
stat_of (some (data_, type)) = some (record { size = length data_; content_type = type })

abbrev data_of : Option (Text × Text) → Option Text
data_of none = none
data_of (some (data_, type)) = some data_

abbrev pub minio : Minio
minio = record {
  Objects = Bin;
  presigned_put_object = λ b k t. k;
  presigned_get_object = λ b k t. k;
  stat_object = λ b k o. stat_of (o b k);
  get_object = λ b k o. data_of (o b k);
  put_object =
      λ b k data_ type o b' k'. if same_place b k b' k' then some (data_, type) else o b' k';
  remove_object = λ b k o b' k'. if same_place b k b' k' then none else o b' k';
}

pub minio-IsObjectStore : IsObjectStore minio
minio-IsObjectStore = record {
  stat-put_object =
      λ b k b' k' data_ type o. through stat_of (same_place b' k' b k) (some (data_, type)) (o b k);
  stat-remove_object = λ b k b' k' o. through stat_of (same_place b' k' b k) none (o b k);
  get-put_object =
      λ b k b' k' data_ type o. through data_of (same_place b' k' b k) (some (data_, type)) (o b k);
  get-remove_object = λ b k b' k' o. through data_of (same_place b' k' b k) none (o b k);
}
  where
    through :
        {A B : Type 0} (f : A → B) (c : Bool) (x y : A)
        → f (if c then x else y) ≡ (if c then f x else f y)
    through f true x y = refl
    through f false x y = refl

pub record Picture : Type 0 where
  pub width : ℕ
  pub height : ℕ
  pub orientation : ℕ

abbrev pub on_side : Picture → Picture
on_side i = record i { width = i.height; height = i.width }

abbrev pub picture : Text → Option Picture
picture [] = none
picture (c ∷ s) = some (record { width = 40; height = 20; orientation = c })

abbrev pub sharp : Sharp
sharp = record {
  Image = Picture;
  open_image = picture;
  width = λ i. i.width;
  height = λ i. i.height;
  orientation = λ i. i.orientation;
  rotate = λ a i. if abs a % 180 == 0 then i else on_side i;
  auto_orient = λ i. if leb i.orientation 4 then i else on_side i;
  extract = λ l t w h i. if leb (l + w) i.width && leb (t + h) i.height then some i else none;
  resize = λ i. i;
  resize_attention = λ i. i;
  to_webp = λ i. some (1 ∷ []);
}

pub sharp-IsSharp : IsSharp sharp
sharp-IsSharp = record {
  rotate_half = λ a i h. turned (abs a % 180 == 0) i (half (abs a) h);
  rotate_quarter = λ a i h. aside (abs a % 180 == 0) i (quarter (abs a) h);
  orient_upright = λ i h. turned (leb i.orientation 4) i (le→leb i.orientation 4 h);
  orient_sideways = λ i h. aside (leb i.orientation 4) i (lt→leb_false i.orientation 4 h);
  extract_inside =
      λ l t w h i a b c d. (i, rw (le→leb (l + w) i.width c, le→leb (t + h) i.height d) refl);
  extract_wide = λ l t w h i a. rw (lt→leb_false (l + w) i.width a) refl;
  to_webp_some = λ i. (1 ∷ [], refl);
  open_size = λ b i e. sized b i e;
}
  where
    half : (n : ℕ) → n % 180 ≡ 0 → (n % 180 == 0) ≡ true
    half n h = ground arith

    quarter : (n : ℕ) → n % 180 ≡ 90 → (n % 180 == 0) ≡ false
    quarter n h = ground arith

    turned :
        (c : Bool) (i : Picture)
        → c ≡ true
        → ((if c then i else on_side i).width ≡ i.width)
          × ((if c then i else on_side i).height ≡ i.height)
    turned true i e = (refl, refl)
    turned false i e = cc

    aside :
        (c : Bool) (i : Picture)
        → c ≡ false
        → ((if c then i else on_side i).width ≡ i.height)
          × ((if c then i else on_side i).height ≡ i.width)
    aside true i e = cc
    aside false i e = (refl, refl)

    sized : (b : Text) (i : Picture) → picture b ≡ some i → (0 < i.width) × (0 < i.height)
    sized [] i e = cc
    sized (c ∷ s) i e =
        let w : 40 ≡ i.width = cc in
        let h : 20 ≡ i.height = cc in (omega (arith, w), omega (arith, h))
