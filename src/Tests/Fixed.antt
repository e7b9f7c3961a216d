-- ===== src/Tests/Fixed.antt =====
-- A runtime to evaluate with: floats are integers of a millionth.
use model_relay.Prelude.{
  ℕ, zero, suc, ◌+◌, ◌-◌, ◌*◌, ◌/◌, Bool, true, false, none, some, leb, if◌then◌else◌,
}
use model_relay.Prelude.Int.{ℤ, pos, negsuc}
use model_relay.Python.Runtime.{Runtime}

abbrev unit : ℕ
unit = 1_000_000

abbrev magnitude : ℤ → ℕ
magnitude (pos n) = n
magnitude (negsuc n) = suc n

abbrev is_negative : ℤ → Bool
is_negative (pos _) = false
is_negative (negsuc _) = true

abbrev differ : Bool → Bool → Bool
differ true b = if b then false else true
differ false b = b

abbrev signed : Bool → ℕ → ℤ
signed true (suc n) = negsuc n
signed _ n = pos n

abbrev difference : ℕ → ℕ → ℤ
difference a b = if leb b a then pos (a - b) else negsuc (b - a - 1)

abbrev plus : ℤ → ℤ → ℤ
plus (pos a) (pos b) = pos (a + b)
plus (pos a) (negsuc b) = difference a (suc b)
plus (negsuc a) (pos b) = difference b (suc a)
plus (negsuc a) (negsuc b) = negsuc (suc (a + b))

abbrev negated : ℤ → ℤ
negated (pos zero) = pos zero
negated (pos (suc n)) = negsuc n
negated (negsuc n) = pos (suc n)

abbrev times : ℤ → ℤ → ℤ
times a b = signed (differ (is_negative a) (is_negative b)) (magnitude a * magnitude b / unit)

abbrev over : ℤ → ℤ → ℤ
over a b = signed (differ (is_negative a) (is_negative b)) (magnitude a * unit / magnitude b)

abbrev at_most_ℤ : ℤ → ℤ → Bool
at_most_ℤ (pos a) (pos b) = leb a b
at_most_ℤ (pos a) (negsuc b) = false
at_most_ℤ (negsuc a) (pos b) = true
at_most_ℤ (negsuc a) (negsuc b) = leb b a

abbrev below : ℤ → ℤ → Bool
below a b = if at_most_ℤ b a then false else true

abbrev pub fixed : Runtime
fixed = record {
  F = ℤ;
  of_int = λ n. some (signed (is_negative n) (magnitude n * unit));
  of_text = λ s. none;
  of_nat = λ n. pos (n * unit);
  ratio = λ m n. pos (m * unit / n);
  decimal = λ m n. pos (m * unit / n);
  is_finite = λ x. true;
  lt = below;
  le = at_most_ℤ;
  add = plus;
  sub = λ a b. plus a (negated b);
  mul = times;
  div = over;
  round = λ x n. x;
  trunc = λ x. some (signed (is_negative x) (magnitude x / unit));
  int_of_text = λ s. none;
  repr = λ v. "";
}
