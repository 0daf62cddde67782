-- ===== src/Float/Fixed.antt =====
-- Decimal fixed-point numbers with nine places: a value of `FloatOps` that runs and meets the laws.
use Prim.Native.Nat.{◌+◌, ◌-◌, ◌*◌, ◌/◌, ◌%◌, ◌^◌}
use meme_agent.Base.{
  ℕ, suc, ◌≡◌, true, refl, ◌⊎◌, ◌&&◌, ◌≤◌, not, arith, ltb, nat_eq, ◌||◌, if◌then◌else◌,
}
use meme_agent.Float.{FloatOps, IsOrdered, ◌≼◌, lt, le}
use meme_agent.Float.Int.{
  ℤ, pos, negsuc, sub_ℕ, ◌+ℤ◌, ◌-ℤ◌, leb_ℤ, ltb_ℤ, size, scaled_times, scaled_quotient,
}

pub record Fixed : Type 0 where
  pub units : ℤ

abbrev pub scale : ℕ
scale = 1_000_000_000

abbrev pub of_ℤ : ℤ → Fixed
of_ℤ a = record { units = a }

-- Half to even, on a number of units.
abbrev pub round_half_even : ℕ → ℕ → ℕ
round_half_even unit m =
    let q = m / unit in
    let r = m % unit in
    if ltb (2 * r) unit || (nat_eq (2 * r) unit && nat_eq (q % 2) 0)
    then q * unit
    else (q + 1) * unit

abbrev pub round_ℤ : ℕ → ℤ → ℤ
round_ℤ unit (pos m) = pos (round_half_even unit m)
round_ℤ unit (negsuc m) = sub_ℕ 0 (round_half_even unit (suc m))

instance abbrev pub fixed_ops : FloatOps Fixed
fixed_ops = record {
  plus = λ a b. of_ℤ (a.units +ℤ b.units);
  minus = λ a b. of_ℤ (a.units -ℤ b.units);
  times = λ a b. of_ℤ (scaled_times scale a.units b.units);
  quotient = λ a b. of_ℤ (scaled_quotient scale a.units b.units);
  negate = λ a. of_ℤ (pos 0 -ℤ a.units);
  less = λ a b. ltb_ℤ a.units b.units;
  less_eq = λ a b. leb_ℤ a.units b.units;
  is_zero = λ a. nat_eq (size a.units) 0;
  dec = λ m e. of_ℤ (pos (m * scale / 10 ^ e));
  seconds = λ a b. of_ℤ (sub_ℕ (1000 * a) (1000 * b));
  round_to = λ k a. of_ℤ (round_ℤ (10 ^ (9 - k)) a.units);
  ratio = λ a b. of_ℤ (pos (a * scale / b));
}

round_mono_ℕ : (a b : ℕ) → a ≤ b → round_half_even 1000 a ≤ round_half_even 1000 b
round_mono_ℕ a b h = ground arith

le_refl : (a : Fixed) → a ≼ a
le_refl a = ground arith

le_trans : (a b c : Fixed) → a ≼ b → b ≼ c → a ≼ c
le_trans a b c h k = ground arith

le_total : (a b : Fixed) → (a ≼ b) ⊎ (b ≼ a)
le_total a b = ground arith

lt-eq-not-le : (a b : Fixed) → lt a b ≡ not (le b a)
lt-eq-not-le a b = ground arith

add_mono_ℤ : (a b c d : ℤ) → leb_ℤ a b ≡ true → leb_ℤ c d ≡ true → leb_ℤ (a +ℤ c) (b +ℤ d) ≡ true
unfolding ◌+ℤ◌
add_mono_ℤ a b c d h k = ground arith

sub_nonneg_ℤ : (a b : ℤ) → leb_ℤ b a ≡ true → leb_ℤ (pos 0) (a -ℤ b) ≡ true
unfolding ◌-ℤ◌
sub_nonneg_ℤ a b h = ground arith

sub-le_ℤ : (a b : ℤ) → leb_ℤ (pos 0) b ≡ true → leb_ℤ (a -ℤ b) a ≡ true
unfolding ◌-ℤ◌
sub-le_ℤ a b h = ground arith

sub_nonpos_ℤ : (a b : ℤ) → leb_ℤ a b ≡ true → leb_ℤ (a -ℤ b) (pos 0) ≡ true
unfolding ◌-ℤ◌
sub_nonpos_ℤ a b h = ground arith

add_zero-le_ℤ : (a : ℤ) → leb_ℤ (a +ℤ pos 0) a ≡ true
unfolding ◌+ℤ◌
add_zero-le_ℤ a = ground arith

le-add_zero_ℤ : (a : ℤ) → leb_ℤ a (a +ℤ pos 0) ≡ true
unfolding ◌+ℤ◌
le-add_zero_ℤ a = ground arith

round_mono_ℤ : (a b : ℤ) → leb_ℤ a b ≡ true → leb_ℤ (round_ℤ 1000 a) (round_ℤ 1000 b) ≡ true
round_mono_ℤ (pos a) (pos b) h = ground (arith, round_mono_ℕ a b)
round_mono_ℤ (negsuc a) (negsuc b) h = ground (arith, round_mono_ℕ (suc b) (suc a))
round_mono_ℤ (negsuc a) (pos b) h = ground arith
round_mono_ℤ (pos a) (negsuc b) h = ground arith

pub Fixed-IsOrdered : IsOrdered Fixed
Fixed-IsOrdered = record {
  le_refl = le_refl;
  le_trans = le_trans;
  le_total = le_total;
  lt-eq-not-le = lt-eq-not-le;
  add_mono = λ a b c d. add_mono_ℤ a.units b.units c.units d.units;
  round_mono = λ a b. round_mono_ℤ a.units b.units;
  sub_nonneg = λ a b. sub_nonneg_ℤ a.units b.units;
  sub-le = λ a b. sub-le_ℤ a.units b.units;
  sub_nonpos = λ a b. sub_nonpos_ℤ a.units b.units;
  pos_nonzero = λ a. ground arith;
  round_zero = refl;
  zero_le_dec = λ m e. ground arith;
  add_zero-le = λ a. add_zero-le_ℤ a.units;
  le-add_zero = λ a. le-add_zero_ℤ a.units;
}
