-- ===== src/Float/Sample.antt =====
-- A concrete instance of the floating-point interface, for the tests: `f32` is the integer or the
-- bit pattern that it was made of, and `f64` is a natural number or NaN,
-- with the microsecond as its unit of time.
use ocdscope.Prelude.{
  ℕ, ◌+◌, ◌-◌, ◌*◌, ◌/◌, ◌≡◌, ◌⊎◌, Bool, true, false, Option, none, some, ltb, leb, arith,
}
use ocdscope.Prelude.Int.{ℤ, pos, negsuc}
use ocdscope.Float.{Floats, IsIeee}

abbrev compare_by : (ℕ → ℕ → Bool) → Option ℕ → Option ℕ → Bool
compare_by f none y = false
compare_by f (some x) none = false
compare_by f (some x) (some y) = f x y

abbrev pub apply : (ℕ → ℕ → ℕ) → Option ℕ → Option ℕ → Option ℕ
apply f none y = none
apply f (some x) none = none
apply f (some x) (some y) = some (f x y)

abbrev whole : ℤ → Option ℕ
whole (pos n) = some n
whole (negsuc n) = none

abbrev pub numbers : Floats
numbers = record {
  F32 = ℤ;
  F64 = Option ℕ;
  bits_f32 = pos;
  int_f32 = λ z. z;
  widen = whole;
  nat_f64 = some;
  lt = compare_by ltb;
  le = compare_by leb;
  add = apply (λ a b. a + b);
  sub = apply (λ a b. a - b);
  mul = apply (λ a b. a * b);
  div = apply (λ a b. a / b);
  micro = some 1;
}

abbrev pub IsNumber : Option ℕ → Type 0
IsNumber none = ⊥
IsNumber (some n) = Unit

pub lt_or_ge :
    (a b : Option ℕ)
    → IsNumber a
    → IsNumber b
    → (compare_by ltb a b ≡ true) ⊎ (compare_by leb b a ≡ true)
lt_or_ge none b h k = absurd h
lt_or_ge (some a) none h k = absurd k
lt_or_ge (some a) (some b) h k = ground arith

pub not_le : (a b : Option ℕ) → compare_by ltb a b ≡ true → compare_by leb b a ≡ false
not_le none b h = absurd (cc)
not_le (some a) none h = absurd (cc)
not_le (some a) (some b) h = ground arith

pub lt→le : (a b : Option ℕ) → compare_by ltb a b ≡ true → compare_by leb a b ≡ true
lt→le none b h = h
lt→le (some a) none h = h
lt→le (some a) (some b) h = ground arith

pub le_trans :
    (a b c : Option ℕ)
    → compare_by leb a b ≡ true
    → compare_by leb b c ≡ true
    → compare_by leb a c ≡ true
le_trans none b c h k = h
le_trans (some a) none c h k = absurd (cc)
le_trans (some a) (some b) none h k = k
le_trans (some a) (some b) (some c) h k = ground arith

abbrev pub numbers-IsIeee : IsIeee numbers
numbers-IsIeee = record {
  IsNumber = IsNumber;
  lt_or_ge = lt_or_ge;
  not_le = not_le;
  lt→le = lt→le;
  le_trans = le_trans;
}
