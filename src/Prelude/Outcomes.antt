-- ===== src/Prelude/Outcomes.antt =====
-- The outcome of fallible Rust code: a value, an error value, or a panic of the thread.
use Prim.Native.Nat.{ℕ, ◌+◌, ◌-◌, ◌≤◌}
use mathlib.Core.Path.{◌≡◌, ap, ◌∙◌}
use mathlib.Core.Bool.{Bool, true, false, ◌&&◌}
use mathlib.Core.List.{List, ◌++◌}
use mathlib.Core.Option.{Option, none, some}
use native.Mathlib.Omega.{arith}
use ocdscope.Prelude.Tests.{leb, le→leb, if◌then◌else◌}
use ocdscope.Prelude.Lists.{
  length, take, drop, take-length_append, drop-length_append, length-append,
}

pub data Outcome {ℓ κ} (E : Type ℓ) (A : Type κ) : Type (ℓ ⊔ κ) where
  ok : A → Outcome E A
  err : E → Outcome E A
  panic : Outcome E A

infixl 5 ◌>>=◌ ◌>>◌
abbrev pub ◌>>=◌ {ℓ κ ν} :
    {E : Type ℓ} {A : Type κ} {B : Type ν} → Outcome E A → (A → Outcome E B) → Outcome E B
ok a >>= f = f a
err e >>= f = err e
panic >>= f = panic

abbrev pub ◌>>◌ {ℓ κ} : {E : Type ℓ} {B : Type κ} → Outcome E (Unit {0}) → Outcome E B → Outcome E B
m >> k = m >>= λ _. k

-- `if test { return Err(e) }`
abbrev pub refuse {ℓ} : {E : Type ℓ} → Bool → E → Outcome E (Unit {0})
refuse true e = err e
refuse false e = ok tt

-- `debug_assert!`, which is compiled in debug builds only.
unfoldable pub debug_assert {ℓ} : {E : Type ℓ} → Bool → Bool → Outcome E (Unit {0})
debug_assert true false = panic
debug_assert true true = ok tt
debug_assert false test = ok tt

-- `option.ok_or(e)?`
abbrev pub ok_or {ℓ κ} : {E : Type ℓ} {A : Type κ} → Option A → E → Outcome E A
ok_or none e = err e
ok_or (some a) e = ok a

-- `option.expect(..)` and `option.unwrap()`
abbrev pub expect {ℓ κ} : {E : Type ℓ} {A : Type κ} → Option A → Outcome E A
expect none = panic
expect (some a) = ok a

-- `&xs[a..b]`
unfoldable pub slice {ℓ κ} : {E : Type ℓ} {A : Type κ} → ℕ → ℕ → List A → Outcome E (List A)
slice a b xs = if leb a b && leb b (length xs) then ok (take (b - a) (drop a xs)) else panic

-- `&xs[a..]`
unfoldable pub slice_from {ℓ κ} : {E : Type ℓ} {A : Type κ} → ℕ → List A → Outcome E (List A)
slice_from a xs = if leb a (length xs) then ok (drop a xs) else panic

-- A slice that covers the middle of a text is the middle.
pub slice_middle {ℓ κ} :
    {E : Type ℓ} {A : Type κ} (xs ys zs : List A) (a b : ℕ)
    → a ≡ length xs
    → b ≡ a + length ys
    → slice {E = E} a b (xs ++ (ys ++ zs)) ≡ ok ys
unfolding slice
slice_middle xs ys zs a b p q =
    let fits : leb b (length (xs ++ (ys ++ zs))) ≡ true =
      le→leb _ _ (omega (arith, length-append xs (ys ++ zs), length-append ys zs)) in
    let ordered : leb a b ≡ true = le→leb _ _ (omega arith) in
    let width : b - a ≡ length ys = omega arith in
    rw (fits, ordered, width, p, drop-length_append) (rw take-length_append)

-- A slice in range is cut out, and the only other outcome is a panic.
pub slice_in_range {ℓ κ} :
    {E : Type ℓ} {A : Type κ} (a b : ℕ) (xs : List A)
    → a ≤ b
    → b ≤ length xs
    → slice {E = E} a b xs ≡ ok (take (b - a) (drop a xs))
unfolding slice
slice_in_range a b xs p q = rw (le→leb a b p, le→leb b (length xs) q)

pub slice_from_in_range {ℓ κ} :
    {E : Type ℓ} {A : Type κ} (a : ℕ) (xs : List A)
    → a ≤ length xs
    → slice_from {E = E} a xs ≡ ok (drop a xs)
unfolding slice_from
slice_from_in_range a xs p = rw (le→leb a (length xs) p)

-- If the outcome is a value, it satisfies `P`.
abbrev pub Ensures {ℓ κ ν} : {E : Type ℓ} {A : Type κ} → Outcome E A → (A → Type ν) → Type ν
Ensures (ok a) P = P a
Ensures (err e) P = Unit
Ensures panic P = Unit

pub Ensures-Unit {ℓ κ} : {E : Type ℓ} {A : Type κ} (m : Outcome E A) → Ensures m (λ _. Unit {0})
Ensures-Unit (ok a) = tt
Ensures-Unit (err e) = tt
Ensures-Unit panic = tt

pub Ensures->>= {ℓ κ ν μ ρ} :
    {E : Type ℓ} {A : Type κ} {B : Type ν} (P : A → Type μ) (Q : B → Type ρ) (m : Outcome E A)
    (f : A → Outcome E B)
    → Ensures m P
    → ((a : A) → P a → Ensures (f a) Q)
    → Ensures (m >>= f) Q
Ensures->>= P Q (ok a) f h k = k a h
Ensures->>= P Q (err e) f h k = tt
Ensures->>= P Q panic f h k = tt

pub Ensures-eq_ok {ℓ κ ν} :
    {E : Type ℓ} {A : Type κ} (P : A → Type ν) (m : Outcome E A) {a : A}
    → Ensures m P
    → m ≡ ok a
    → P a
Ensures-eq_ok P m h e = rw e at h

pub slice_front {ℓ κ} :
    {E : Type ℓ} {A : Type κ} (n : ℕ) (xs : List A)
    → n ≤ length xs
    → slice {E = E} 0 n xs ≡ ok (take n xs)
slice_front n xs h = slice_in_range 0 n xs (omega arith) h ∙ ap (λ m. ok (take m xs)) (omega arith)
