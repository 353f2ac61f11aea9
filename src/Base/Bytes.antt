-- ===== src/Base/Bytes.antt =====
-- The conversion macros of include/libuvc/libuvc_internal.h, on values below 2 ^ 32.
use Prim.Native.Nat.{ℕ, suc, ◌+◌, ◌-◌, ◌*◌, ◌/◌, ◌%◌, ◌^◌, ◌≤◌, ◌<◌}
use mathlib.Core.Path.{◌≡◌}
use mathlib.Core.List.{List, [], ◌∷◌}
use mathlib.Core.Option.{Option, some}
use native.Mathlib.Omega.{arith}
use usb_video_class.Base.Outcome.{◌>>=◌}
use usb_video_class.Base.Lists.{length, get_elem?, get_elem?-lt}
use usb_video_class.Base.Tests.{ltb, if◌then◌else◌}

abbrev pub u8_mod : ℕ
u8_mod = 2 ^ 8

abbrev pub u16_mod : ℕ
u16_mod = 2 ^ 16

abbrev pub u32_mod : ℕ
u32_mod = 2 ^ 32

-- `size_t` and `uint64_t`.
abbrev pub u64_mod : ℕ
u64_mod = 2 ^ 64

-- `DW_TO_INT` and `SW_TO_SHORT` of the bytes at the pointer, as a bit pattern.
abbrev pub dw_to_int : ℕ → ℕ → ℕ → ℕ → ℕ
dw_to_int a b c d = a + b * 2 ^ 8 + c * 2 ^ 16 + d * 2 ^ 24

abbrev pub sw_to_short : ℕ → ℕ → ℕ
sw_to_short a b = a + b * 2 ^ 8

-- The four bytes that `INT_TO_DW` stores, and the two of `SHORT_TO_SW`.
abbrev pub int_to_dw : ℕ → List ℕ
int_to_dw i =
    (i % u8_mod) ∷ (i / 2 ^ 8 % u8_mod) ∷ (i / 2 ^ 16 % u8_mod) ∷ (i / 2 ^ 24 % u8_mod) ∷ []

abbrev pub short_to_sw : ℕ → List ℕ
short_to_sw s = (s % u8_mod) ∷ (s / 2 ^ 8 % u8_mod) ∷ []

-- `DW_TO_INT (p + off)` and `SW_TO_SHORT (p + off)` of a buffer.
unfoldable pub read_dw : List ℕ → ℕ → Option ℕ
read_dw p off = do
  a ← get_elem? p off
  b ← get_elem? p (suc off)
  c ← get_elem? p (suc (suc off))
  d ← get_elem? p (suc (suc (suc off)))
  some (dw_to_int a b c d)

unfoldable pub read_sw : List ℕ → ℕ → Option ℕ
read_sw p off = do a ← get_elem? p off; b ← get_elem? p (suc off); some (sw_to_short a b)

-- The `int` that `DW_TO_INT` makes, stored in a `uint64_t`: the sign bit is extended.
abbrev pub sign_extend : ℕ → ℕ
sign_extend w = if ltb w (2 ^ 31) then w else w + (2 ^ 64 - 2 ^ 32)

pub read_dw-in_range :
    (p : List ℕ) (off : ℕ) → off + 4 ≤ length p → (w : ℕ) × (read_dw p off ≡ some w)
unfolding read_dw
read_dw-in_range p off h =
    let (a, pa) = get_elem?-lt p off (omega arith) in
    let (b, pb) = get_elem?-lt p (suc off) (omega arith) in
    let (c, pc) = get_elem?-lt p (suc (suc off)) (omega arith) in
    let (d, pd) = get_elem?-lt p (suc (suc (suc off))) (omega arith) in
    (dw_to_int a b c d, rw (pa, pb, pc, pd))

pub read_sw-in_range :
    (p : List ℕ) (off : ℕ) → off + 2 ≤ length p → (w : ℕ) × (read_sw p off ≡ some w)
unfolding read_sw
read_sw-in_range p off h =
    let (a, pa) = get_elem?-lt p off (omega arith) in
    let (b, pb) = get_elem?-lt p (suc off) (omega arith) in (sw_to_short a b, rw (pa, pb))

-- A word is read back from its bytes.
pub dw_bytes :
    (i : ℕ)
    → i < 2 ^ 32
    → dw_to_int (i % u8_mod) (i / 2 ^ 8 % u8_mod) (i / 2 ^ 16 % u8_mod) (i / 2 ^ 24 % u8_mod) ≡ i
dw_bytes i h = omega arith

pub sw_bytes : (i : ℕ) → i < 2 ^ 16 → sw_to_short (i % u8_mod) (i / 2 ^ 8 % u8_mod) ≡ i
sw_bytes i h = omega arith
