-- ===== src/Convert/Pixels.antt =====
-- The macros of src/frame.c that convert two pixels. `int` is an integer here: the intermediate
-- values stay far below 2 ^ 31.
pub mod Chroma
pub mod Order
use usb_video_class.Base.{ℕ, List, [], ◌∷◌, ◌++◌, leb, if◌then◌else◌}
use usb_video_class.Base.Int.{ℤ, pos, negsuc, sub_ℕ, ◌+ℤ◌, ◌-ℤ◌, ◌*ℤ◌, asr14}

unfoldable pub sat : ℤ → ℕ
sat (pos i) = if leb 255 i then 255 else i
sat (negsuc i) = 0

-- A chroma byte minus 128.
unfoldable pub centred : ℕ → ℤ
centred v = sub_ℕ v 128

-- The macros' `r`, `g` and `b`, of U and V.
unfoldable pub red : ℕ → ℤ
red v = asr14 (22987 *ℤ centred v)

unfoldable pub green : ℕ → ℕ → ℤ
green u v = asr14 (pos 0 -ℤ 5636 *ℤ centred u -ℤ 11698 *ℤ centred v)

unfoldable pub blue : ℕ → ℤ
blue u = asr14 (29049 *ℤ centred u)

unfoldable pub iyuyv2rgb_2 : ℕ → ℕ → ℕ → ℕ → List ℕ
iyuyv2rgb_2 y u z v =
    let r = red v in
    let g = green u v in
    let b = blue u in
    sat (pos y +ℤ r)
    ∷ sat (pos y +ℤ g)
    ∷ sat (pos y +ℤ b)
    ∷ sat (pos z +ℤ r)
    ∷ sat (pos z +ℤ g)
    ∷ sat (pos z +ℤ b)
    ∷ []

unfoldable pub iyuyv2bgr_2 : ℕ → ℕ → ℕ → ℕ → List ℕ
iyuyv2bgr_2 y u z v =
    let r = red v in
    let g = green u v in
    let b = blue u in
    sat (pos y +ℤ b)
    ∷ sat (pos y +ℤ g)
    ∷ sat (pos y +ℤ r)
    ∷ sat (pos z +ℤ b)
    ∷ sat (pos z +ℤ g)
    ∷ sat (pos z +ℤ r)
    ∷ []

unfoldable pub iuyvy2rgb_2 : ℕ → ℕ → ℕ → ℕ → List ℕ
iuyvy2rgb_2 u y v z =
    let r = red v in
    let g = green u v in
    let b = blue u in
    sat (pos y +ℤ r)
    ∷ sat (pos y +ℤ g)
    ∷ sat (pos y +ℤ b)
    ∷ sat (pos z +ℤ r)
    ∷ sat (pos z +ℤ g)
    ∷ sat (pos z +ℤ b)
    ∷ []

unfoldable pub iuyvy2bgr_2 : ℕ → ℕ → ℕ → ℕ → List ℕ
iuyvy2bgr_2 u y v z =
    let r = red v in
    let g = green u v in
    let b = blue u in
    sat (pos y +ℤ b)
    ∷ sat (pos y +ℤ g)
    ∷ sat (pos y +ℤ r)
    ∷ sat (pos z +ℤ b)
    ∷ sat (pos z +ℤ g)
    ∷ sat (pos z +ℤ r)
    ∷ []

-- A macro for two pixels, for every four bytes.
unfoldable pub each_4 : (ℕ → ℕ → ℕ → ℕ → List ℕ) → List ℕ → List ℕ
each_4 macro (a ∷ b ∷ c ∷ d ∷ bytes) = macro a b c d ++ each_4 macro bytes
each_4 macro bytes = []
