-- ===== src/Media/Image/Total.antt =====
-- Which images the processing of an avatar takes and which it rejects.
use skill_up.Base.{
  ℕ, ◌+◌, ◌%◌, ◌≤◌, ◌<◌, ◌≡◌, refl, ap, ◌∙◌, true, false, ◌&&◌, ◌==◌, Option, none, some, ltb,
  arith, ◌⊎◌, inl, inr, Bool-cases, ℤ, abs,
}
use skill_up.Text.{Text}
use skill_up.Media.Image.{
  Transformations, Sharp, IsSharp, Plan, crop, or_given, or_500, offset, clamp, plan_area, plan_of,
  rotation, turned, orient, apply_plan, render, process_image, process_profile_avatar,
}
use skill_up.Media.Image.Crop.{clamp_inside, clamp_exact}

module _ (L : Sharp) (law : IsSharp L) where
  -- Turned by quarters, or, where no turn is asked for, stored upright.
  abbrev pub Upright : Option ℤ → L.Image → Type 0
  Upright none i = L.orientation i ≤ 4
  Upright (some a) i = abs a % 90 ≡ 0

  quarter : (a : ℤ) → abs a % 90 ≡ 0 → (abs a % 180 ≡ 0) ⊎ (abs a % 180 ≡ 90)
  quarter a h = split (abs a) h
    where
      nonzero : (n : ℕ) → (n % 180 == 0) ≡ false → 0 < n % 180
      nonzero n e = ground arith

      split : (n : ℕ) → n % 90 ≡ 0 → (n % 180 ≡ 0) ⊎ (n % 180 ≡ 90)
      split n h = elim (Bool-cases (n % 180 == 0)) [
        | inl e ↦ inl (ground arith)
        | inr e ↦ inr (omega (arith, nonzero n e))
      ]

  turned_lem :
      (o : Option ℤ) (i : L.Image)
      → Upright o i
      → turned o (L.width i) (L.height i) ≡ (L.width (orient L o i), L.height (orient L o i))
  unfolding turned orient
  turned_lem none i h = let (a, b) = law.orient_upright i h in rw (a, b) refl
  turned_lem (some a) i h = elim (quarter a h) [
    | inl half ↦ let (x, y) = law.rotate_half a i half in rw (half, x, y) refl
    | inr side ↦ let (x, y) = law.rotate_quarter a i side in rw (side, x, y) refl
  ]

  orient_size :
      (o : Option ℤ) (i : L.Image)
      → Upright o i
      → 0 < L.width i
      → 0 < L.height i
      → (0 < L.width (orient L o i)) × (0 < L.height (orient L o i))
  unfolding orient
  orient_size none i h a b =
      let (x, y) = law.orient_upright i h in (omega (arith, x), omega (arith, y))
  orient_size (some d) i h a b = elim (quarter d h) [
    | inl half ↦ let (x, y) = law.rotate_half d i half in (omega (arith, x), omega (arith, y))
    | inr side ↦ let (x, y) = law.rotate_quarter d i side in (omega (arith, x), omega (arith, y))
  ]

  both_positive : (w h : ℕ) → (ltb 0 w && ltb 0 h) ≡ true → (0 < w) × (0 < h)
  both_positive w h e = (ground arith, ground arith)

  plan_given :
      (W H : ℕ) (x y : Option ℕ) (w h : ℕ)
      → (ltb 0 w && ltb 0 h) ≡ true
      → plan_area W H x y (some w) (some h) ≡ clamp W H (offset x) (offset y) w h
  unfolding plan_area
  plan_given W H x y w h given = rw given refl

  apply_crop :
      (l t w h : ℕ) (i j : L.Image)
      → L.extract l t w h i ≡ some j
      → apply_plan L (crop l t w h) i ≡ some (L.resize j)
  unfolding apply_plan
  apply_crop l t w h i j e = rw (apply_plan, e) refl

  apply_area :
      (i : L.Image) (x y w h : Option ℕ)
      → 0 < L.width i
      → 0 < L.height i
      → (j : L.Image) × (apply_plan L (plan_area (L.width i) (L.height i) x y w h) i ≡ some j)
  unfolding apply_plan plan_area
  apply_area i x y none h a b = (L.resize_attention i, refl)
  apply_area i x y (some w) none a b = (L.resize_attention i, refl)
  apply_area i x y (some w) (some h) a b = elim (Bool-cases (ltb 0 w && ltb 0 h)) [
    | inr empty ↦ (L.resize_attention i, rw empty refl)
    | inl given ↦
        let (c, d) = both_positive w h given in
        let (l, t, w', h', e, p, q, u, v, _, _) =
          clamp_inside (L.width i) (L.height i) (offset x) (offset y) w h a b c d in
        let (j, k) = law.extract_inside l t w' h' i p q u v in
        (
          L.resize j,
          ap (λ (p : Plan). apply_plan L p i)
                (plan_given (L.width i) (L.height i) x y w h given ∙ e)
              ∙ apply_crop l t w' h' i j k,
        )
  ]

  or_500_lem : (n : ℕ) → 0 < n → or_500 n ≡ n
  or_500_lem n h = ground arith

  -- Of an image that is not empty the code works with the stored size.
  stored_size :
      (o : Option ℤ) (i : L.Image)
      → 0 < L.width i
      → 0 < L.height i
      → turned o (or_500 (L.width i)) (or_500 (L.height i)) ≡ turned o (L.width i) (L.height i)
  stored_size o i a b =
      ap (λ m. turned o m (or_500 (L.height i))) (or_500_lem (L.width i) a)
      ∙ ap (turned o (L.width i)) (or_500_lem (L.height i) b)

  rendered :
      (t : Transformations) (i : L.Image) (w h : ℕ) (j : L.Image)
      → apply_plan L (plan_of w h t) i ≡ some j
      → render L t i (w, h) ≡ L.to_webp j
  unfolding render
  rendered t i w h j e = rw (render, e) refl

  -- An image that can be read is processed whatever the crop, if it is turned by quarters or, where no
  -- turn is asked for, its EXIF orientation is upright.
  pub process-some :
      (buffer : Text) (t : Transformations) (i : L.Image)
      → L.open_image buffer ≡ some i
      → Upright (rotation t.rotate) i
      → (out : Text) × (process_profile_avatar L buffer t ≡ some out)
  unfolding process_profile_avatar process_image plan_of
  process-some buffer t i e h =
      let (a, b) = law.open_size buffer i e in
      let o = rotation t.rotate in
      let (a', b') = orient_size o i h a b in
      let (j, k) =
        apply_area (orient L o i) (or_given t.crop_x t.crop_x_alias)
          (or_given t.crop_y t.crop_y_alias) (or_given t.crop_width t.crop_width_alias)
          (or_given t.crop_height t.crop_height_alias) a' b' in
      let (out, done) = law.to_webp_some j in
      (
        out,
        rw (process_profile_avatar, e)
            (ap (render L t (orient L o i)) (stored_size o i a b ∙ turned_lem o i h)
              ∙ rendered t (orient L o i) (L.width (orient L o i)) (L.height (orient L o i)) j k
              ∙ done),
      )

  planned :
      (W H : ℕ) (t : Transformations) (x y w h : ℕ)
      → or_given t.crop_x t.crop_x_alias ≡ some x
      → or_given t.crop_y t.crop_y_alias ≡ some y
      → or_given t.crop_width t.crop_width_alias ≡ some w
      → or_given t.crop_height t.crop_height_alias ≡ some h
      → 0 < w
      → 0 < h
      → plan_of W H t ≡ clamp W H x y w h
  unfolding plan_of
  planned W H t x y w h cx cy cw ch p q =
      rw (plan_of, cx, cy, cw, ch) (plan_given W H (some x) (some y) w h (positive_both w h p q))
    where
      positive_both : (w h : ℕ) → 0 < w → 0 < h → (ltb 0 w && ltb 0 h) ≡ true
      positive_both w h p q = ground arith

  cut_render :
      (t : Transformations) (i : L.Image) (W H l u w h : ℕ)
      → plan_of W H t ≡ crop l u w h
      → L.extract l u w h i ≡ none
      → render L t i (W, H) ≡ none
  unfolding render apply_plan
  cut_render t i W H l u w h e k = rw (render, e, apply_plan, k) refl

  unturned :
      (buffer : Text) (t : Transformations) (i : L.Image)
      → L.open_image buffer ≡ some i
      → rotation t.rotate ≡ none
      → process_profile_avatar L buffer t
        ≡ render L t (L.auto_orient i) (turned none (or_500 (L.width i)) (or_500 (L.height i)))
  unfolding process_profile_avatar process_image orient
  unturned buffer t i e r = rw (process_profile_avatar, e, process_image, r) refl

  -- Where no turn is asked for, an image whose EXIF orientation lies on its side is rejected if the crop,
  -- inside the image as it is stored, is wider than the image is once it stands upright.
  pub sideways_rejected :
      (buffer : Text) (t : Transformations) (i : L.Image) (x y w h : ℕ)
      → L.open_image buffer ≡ some i
      → rotation t.rotate ≡ none
      → 4 < L.orientation i
      → or_given t.crop_x t.crop_x_alias ≡ some x
      → or_given t.crop_y t.crop_y_alias ≡ some y
      → or_given t.crop_width t.crop_width_alias ≡ some w
      → or_given t.crop_height t.crop_height_alias ≡ some h
      → 0 < w
      → 0 < h
      → x + w ≤ L.width i
      → y + h ≤ L.height i
      → L.height i < x + w
      → process_profile_avatar L buffer t ≡ none
  unfolding turned
  sideways_rejected buffer t i x y w h e r o cx cy cw ch p q u v wide =
      let (a, b) = law.open_size buffer i e in
      let (a', b') = law.orient_sideways i o in
      let cut = law.extract_wide x y w h (L.auto_orient i) (omega (arith, a')) in
      unturned buffer t i e r
      ∙ ap (render L t (L.auto_orient i)) (stored_size none i a b)
      ∙ cut_render t (L.auto_orient i) (L.width i) (L.height i) x y w h
          (planned (L.width i) (L.height i) t x y w h cx cy cw ch p q
            ∙ clamp_exact (L.width i) (L.height i) x y w h p q u v)
          cut
