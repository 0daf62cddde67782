-- ===== src/Float/Int.antt =====
-- Signed integers over the native numbers, under the library's names, for `Fixed`.
use Prim.Native.Nat.{◌+◌, ◌-◌, ◌*◌, ◌/◌}
use meme_agent.Base.{ℕ, suc, Bool, true, false, ltb, leb, if◌then◌else◌}

-- `negsuc n` is -(n + 1).
pub data ℤ : Type 0 where
  pos : ℕ → ℤ
  negsuc : ℕ → ℤ

abbrev pub pos_part : ℤ → ℕ
pos_part (pos n) = n
pos_part (negsuc n) = 0

abbrev pub neg_part : ℤ → ℕ
neg_part (pos n) = 0
neg_part (negsuc n) = suc n

abbrev pub sub_ℕ : ℕ → ℕ → ℤ
sub_ℕ a b = if leb b a then pos (a - b) else negsuc (b - a - 1)

infixl 65 ◌+ℤ◌ ◌-ℤ◌
unfoldable pub ◌+ℤ◌ : ℤ → ℤ → ℤ
a +ℤ b = sub_ℕ (pos_part a + pos_part b) (neg_part a + neg_part b)

unfoldable pub ◌-ℤ◌ : ℤ → ℤ → ℤ
a -ℤ b = sub_ℕ (pos_part a + neg_part b) (neg_part a + pos_part b)

abbrev pub leb_ℤ : ℤ → ℤ → Bool
leb_ℤ a b = leb (pos_part a + neg_part b) (pos_part b + neg_part a)

abbrev pub ltb_ℤ : ℤ → ℤ → Bool
ltb_ℤ a b = ltb (pos_part a + neg_part b) (pos_part b + neg_part a)

-- The absolute value, and whether two signs agree.
abbrev pub size : ℤ → ℕ
size a = pos_part a + neg_part a

abbrev pub same_sign : ℤ → ℤ → Bool
same_sign (pos _) (pos _) = true
same_sign (negsuc _) (negsuc _) = true
same_sign _ _ = false

-- Products and quotients in units of 1/scale, cut towards zero.
unfoldable pub scaled_times : ℕ → ℤ → ℤ → ℤ
scaled_times scale a b =
    let positive = (pos_part a * pos_part b + neg_part a * neg_part b) / scale in
    let negative = (pos_part a * neg_part b + neg_part a * pos_part b) / scale in
    sub_ℕ positive negative

unfoldable pub scaled_quotient : ℕ → ℤ → ℤ → ℤ
scaled_quotient scale a b =
    let q = size a * scale / size b in if same_sign a b then pos q else sub_ℕ 0 q
