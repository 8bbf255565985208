-- ===== src/Media/Image/Crop.antt =====
-- The clamped crop and the borders of the image.
use skill_up.Base.{ℕ, ◌+◌, ◌-◌, ◌≤◌, ◌<◌, ◌≡◌, min, max, arith}
use skill_up.Media.Image.{crop, clamp}

unfold_clamp :
    (W H x y w h : ℕ)
    → 0 < W
    → 0 < H
    → 0 < w
    → 0 < h
    → clamp W H x y w h
      ≡ crop
          (max 0 (min x (W - 1)))
          (max 0 (min y (H - 1)))
          (min w (W - max 0 (min x (W - 1))))
          (min h (H - max 0 (min y (H - 1))))
unfolding clamp
unfold_clamp W H x y w h a b c d = ground arith

-- In an image that is not empty an area that is not empty is cropped, never left to the fallback:
-- the crop is not empty, inside the borders, and not larger than what was asked for.
pub clamp_inside :
    (W H x y w h : ℕ)
    → 0 < W
    → 0 < H
    → 0 < w
    → 0 < h
    → (l : ℕ) × (t : ℕ) × (w' : ℕ) × (h' : ℕ) × (clamp W H x y w h ≡ crop l t w' h')
      × (0 < w')
      × (0 < h')
      × (l + w' ≤ W)
      × (t + h' ≤ H)
      × (w' ≤ w)
      × (h' ≤ h)
clamp_inside W H x y w h a b c d = (
  _,
  _,
  _,
  _,
  unfold_clamp W H x y w h a b c d,
  omega arith,
  omega arith,
  omega arith,
  omega arith,
  omega arith,
  omega arith,
)

-- An area inside the image is cropped as it was asked for.
pub clamp_exact :
    (W H x y w h : ℕ) → 0 < w → 0 < h → x + w ≤ W → y + h ≤ H → clamp W H x y w h ≡ crop x y w h
unfolding clamp
clamp_exact W H x y w h a b c d = ground arith
