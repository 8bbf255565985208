-- ===== src/Media/Image.antt =====
-- apps/media-service/src/processors/image-processor.service.ts: `processProfileAvatar`. The library
-- sharp is a parameter, with its documented behaviour in `IsSharp`. The crop is in natural numbers,
-- as the DTO of the registration checks it, so `Math.round` leaves it as it is.
pub mod Crop
pub mod Total
use skill_up.Base.{
  ℕ, zero, suc, ◌+◌, ◌-◌, ◌%◌, ◌≤◌, ◌<◌, ◌≡◌, min, max, Bool, true, false, not, ◌&&◌, ◌==◌, Option,
  none, some, if◌then◌else◌, ltb, ℤ, pos, negsuc, abs,
}
use skill_up.Text.{Text}

pub record Transformations : Type 0 where
  pub crop_x : Option ℕ
  pub crop_x_alias : Option ℕ
  pub crop_y : Option ℕ
  pub crop_y_alias : Option ℕ
  pub crop_width : Option ℕ
  pub crop_width_alias : Option ℕ
  pub crop_height : Option ℕ
  pub crop_height_alias : Option ℕ
  pub rotate : Option ℤ

-- The operations of a pipeline of sharp; `none` is a rejection.
pub record Sharp : Type 1 where
  pub Image : Type 0
  pub open_image : Text → Option Image
  pub width : Image → ℕ
  pub height : Image → ℕ
  -- The orientation tag of EXIF, from 1 to 8.
  pub orientation : Image → ℕ
  pub rotate : ℤ → Image → Image
  pub auto_orient : Image → Image
  pub extract : ℕ → ℕ → ℕ → ℕ → Image → Option Image
  -- `resize(500, 500)`, and the same with `fit: 'cover'` and the strategy of attention.
  pub resize : Image → Image
  pub resize_attention : Image → Image
  -- The circular mask and the conversion to WebP.
  pub to_webp : Image → Option Text

pub record IsSharp (L : Sharp) : Type 0 where
  pub rotate_half :
      (a : ℤ) (i : L.Image)
      → abs a % 180 ≡ 0
      → (L.width (L.rotate a i) ≡ L.width i) × (L.height (L.rotate a i) ≡ L.height i)
  pub rotate_quarter :
      (a : ℤ) (i : L.Image)
      → abs a % 180 ≡ 90
      → (L.width (L.rotate a i) ≡ L.height i) × (L.height (L.rotate a i) ≡ L.width i)
  pub orient_upright :
      (i : L.Image)
      → L.orientation i ≤ 4
      → (L.width (L.auto_orient i) ≡ L.width i) × (L.height (L.auto_orient i) ≡ L.height i)
  pub orient_sideways :
      (i : L.Image)
      → 4 < L.orientation i
      → (L.width (L.auto_orient i) ≡ L.height i) × (L.height (L.auto_orient i) ≡ L.width i)
  pub extract_inside :
      (l t w h : ℕ) (i : L.Image)
      → 0 < w
      → 0 < h
      → l + w ≤ L.width i
      → t + h ≤ L.height i
      → (j : L.Image) × (L.extract l t w h i ≡ some j)
  pub extract_wide : (l t w h : ℕ) (i : L.Image) → L.width i < l + w → L.extract l t w h i ≡ none
  pub to_webp_some : (i : L.Image) → (out : Text) × (L.to_webp i ≡ some out)
  pub open_size :
      (b : Text) (i : L.Image) → L.open_image b ≡ some i → (0 < L.width i) × (0 < L.height i)

-- `a ?? b`
abbrev pub or_given {ℓ} : {A : Type ℓ} → Option A → Option A → Option A
or_given none b = b
or_given (some a) b = some a

-- What the clamped crop asks of the pipeline.
pub data Plan : Type 0 where
  crop : ℕ → ℕ → ℕ → ℕ → Plan
  attention : Plan

abbrev pub or_500 : ℕ → ℕ
or_500 n = if n == 0 then 500 else n

abbrev pub offset : Option ℕ → ℕ
offset none = 0
offset (some n) = n

-- The clamped area; `attention` is the fallback of an empty one.
unfoldable pub clamp : ℕ → ℕ → ℕ → ℕ → ℕ → ℕ → Plan
clamp img_width img_height x y w h =
    let left = max 0 (min x (img_width - 1)) in
    let top = max 0 (min y (img_height - 1)) in
    let width = min w (img_width - left) in
    let height = min h (img_height - top) in
    if ltb 0 width && ltb 0 height then crop left top width height else attention

unfoldable pub plan_area : ℕ → ℕ → Option ℕ → Option ℕ → Option ℕ → Option ℕ → Plan
plan_area img_width img_height x y none h = attention
plan_area img_width img_height x y (some w) none = attention
plan_area img_width img_height x y (some w) (some h) =
    if ltb 0 w && ltb 0 h then clamp img_width img_height (offset x) (offset y) w h else attention

unfoldable pub plan_of : ℕ → ℕ → Transformations → Plan
plan_of img_width img_height t =
    plan_area img_width img_height (or_given t.crop_x t.crop_x_alias)
      (or_given t.crop_y t.crop_y_alias) (or_given t.crop_width t.crop_width_alias)
      (or_given t.crop_height t.crop_height_alias)

-- `if (transformations?.rotate)`: a rotation by 0 is none.
abbrev pub rotation : Option ℤ → Option ℤ
rotation none = none
rotation (some a) = if abs a == 0 then none else some a

-- The size that the code works with, behind its rotation.
unfoldable pub turned : Option ℤ → ℕ → ℕ → ℕ × ℕ
turned none w h = (w, h)
turned (some a) w h = if abs a % 180 == 0 then (w, h) else (h, w)

module _ (L : Sharp) where
  unfoldable pub orient : Option ℤ → L.Image → L.Image
  orient none i = L.auto_orient i
  orient (some a) i = L.rotate a i

  unfoldable pub apply_plan : Plan → L.Image → Option L.Image
  apply_plan (crop l t w h) i = elim (L.extract l t w h i) [
    | none ↦ none
    | some j ↦ some (L.resize j)
  ]
  apply_plan attention i = some (L.resize_attention i)

  -- The crop or the fallback, the mask and the conversion.
  unfoldable pub render : Transformations → L.Image → ℕ × ℕ → Option Text
  render t i (w, h) = elim (apply_plan (plan_of w h t) i) [ none ↦ none | some j ↦ L.to_webp j ]

  unfoldable pub process_image : Transformations → L.Image → Option Text
  process_image t i =
      render t (orient (rotation t.rotate) i)
        (turned (rotation t.rotate) (or_500 (L.width i)) (or_500 (L.height i)))

  unfoldable pub process_profile_avatar : Text → Transformations → Option Text
  process_profile_avatar buffer t = elim (L.open_image buffer) [
    | none ↦ none
    | some i ↦ process_image t i
  ]
