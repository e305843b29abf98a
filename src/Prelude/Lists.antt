-- ===== src/Prelude/Lists.antt =====
-- Lists measured and indexed by native numbers, under the library's names.
use Prim.Native.Nat.{ℕ, zero, suc, ◌+◌, ◌-◌, ◌<◌, ◌≤◌, min}
use mathlib.Core.Path.{◌≡◌, refl, ap}
use mathlib.Core.Logic.{◌≢◌}
use mathlib.Core.Bool.{Bool, true, false}
use mathlib.Core.List.{List, [], ◌∷◌, ◌++◌}
use mathlib.Core.Option.{Option, none, some}
use native.Mathlib.Omega.{arith}
use ocdscope.Prelude.Tests.{◌==◌}

module _ {ℓ} {A : Type ℓ} where
  abbrev pub length : List A → ℕ
  length [] = 0
  length (x ∷ xs) = suc (length xs)

  abbrev pub get_elem? : List A → ℕ → Option A
  get_elem? [] i = none
  get_elem? (x ∷ xs) zero = some x
  get_elem? (x ∷ xs) (suc i) = get_elem? xs i

  abbrev pub take : ℕ → List A → List A
  take zero xs = []
  take (suc n) [] = []
  take (suc n) (x ∷ xs) = x ∷ take n xs

  abbrev pub drop : ℕ → List A → List A
  drop zero xs = xs
  drop (suc n) [] = []
  drop (suc n) (x ∷ xs) = drop n xs

  pub length-append : (xs ys : List A) → length (xs ++ ys) ≡ length xs + length ys
  length-append [] ys = omega arith
  length-append (x ∷ xs) ys = omega (arith, length-append xs ys)

  pub take-append-drop : (n : ℕ) (xs : List A) → take n xs ++ drop n xs ≡ xs
  take-append-drop zero xs = refl
  take-append-drop (suc n) [] = refl
  take-append-drop (suc n) (x ∷ xs) = rw (take-append-drop n xs)

  pub length-take : (n : ℕ) (xs : List A) → length (take n xs) ≡ min n (length xs)
  length-take zero xs = omega arith
  length-take (suc n) [] = omega arith
  length-take (suc n) (x ∷ xs) = omega (arith, length-take n xs)

  pub length-drop : (n : ℕ) (xs : List A) → length (drop n xs) ≡ length xs - n
  length-drop zero xs = omega arith
  length-drop (suc n) [] = omega arith
  length-drop (suc n) (x ∷ xs) = omega (arith, length-drop n xs)

  pub take-length_append : (xs ys : List A) → take (length xs) (xs ++ ys) ≡ xs
  take-length_append [] ys = refl
  take-length_append (x ∷ xs) ys = ap (λ t. x ∷ t) (take-length_append xs ys)

  pub drop-length_append : (xs ys : List A) → drop (length xs) (xs ++ ys) ≡ ys
  drop-length_append [] ys = refl
  drop-length_append (x ∷ xs) ys = drop-length_append xs ys

  pub take-append_le : (n : ℕ) (xs ys : List A) → n ≤ length xs → take n (xs ++ ys) ≡ take n xs
  take-append_le zero xs ys h = refl
  take-append_le (suc n) [] ys h = absurd (omega arith)
  take-append_le (suc n) (x ∷ xs) ys h = ap (λ t. x ∷ t) (take-append_le n xs ys (omega arith))

  pub drop-append_le :
      (n : ℕ) (xs ys : List A) → n ≤ length xs → drop n (xs ++ ys) ≡ drop n xs ++ ys
  drop-append_le zero xs ys h = refl
  drop-append_le (suc n) [] ys h = absurd (omega arith)
  drop-append_le (suc n) (x ∷ xs) ys h = drop-append_le n xs ys (omega arith)

  -- `iter().position(p)`: the index of the first element that passes the test.
  unfoldable pub position : (A → Bool) → List A → Option ℕ
  position p [] = none
  position p (x ∷ xs) = elim (p x) [
    | true ↦ some 0
    | false ↦ elim (position p xs) [ none ↦ none | some i ↦ some (suc i) ]
  ]

module _ {ℓ κ} {A : Type ℓ} (P : A → Type κ) where
  -- A predicate at every element, by recursion.
  abbrev pub All : List A → Type κ
  All [] = Unit
  All (x ∷ xs) = P x × All xs

  pub All-append : (xs ys : List A) → All xs → All ys → All (xs ++ ys)
  All-append [] ys _ hy = hy
  All-append (x ∷ xs) ys (px, hx) hy = (px, All-append xs ys hx hy)

  pub All-append_left : (xs ys : List A) → All (xs ++ ys) → All xs
  All-append_left [] ys h = tt
  All-append_left (x ∷ xs) ys (px, h) = (px, All-append_left xs ys h)

  pub All-append_right : (xs ys : List A) → All (xs ++ ys) → All ys
  All-append_right [] ys h = h
  All-append_right (x ∷ xs) ys (px, h) = All-append_right xs ys h

-- Every value of the list is another than `b`.
abbrev pub Lacks : ℕ → List ℕ → Type 0
Lacks b = All (λ c. c ≢ b)

-- The first byte `b` stands behind bytes that are all others.
pub position-append :
    (b : ℕ) (xs ys : List ℕ) → Lacks b xs → position (λ c. c == b) (xs ++ b ∷ ys) ≡ some (length xs)
unfolding position
position-append b [] ys h = ground arith
position-append b (x ∷ xs) ys (hx, h) = ground (arith, position-append b xs ys h)

-- Where a byte is found the list is split at it.
pub position-eq-some :
    (b : ℕ) (xs : List ℕ) {i : ℕ}
    → position (λ c. c == b) xs ≡ some i
    → (i < length xs) × Lacks b (take i xs) × (xs ≡ take i xs ++ b ∷ drop (suc i) xs)
unfolding position
position-eq-some b [] e = cc
position-eq-some b (x ∷ xs) {i = zero} e = ground arith
position-eq-some b (x ∷ xs) {i = suc i} e = ground (arith, position-eq-some b xs {i = i})

-- Behind another byte the search goes on.
pub position-cons_none :
    (b x : ℕ) (xs : List ℕ)
    → x ≢ b
    → position (λ c. c == b) xs ≡ none
    → position (λ c. c == b) (x ∷ xs) ≡ none
unfolding position
position-cons_none b x xs h e = ground arith

pub position-cons_some :
    (b x : ℕ) (xs : List ℕ) {i : ℕ}
    → x ≢ b
    → position (λ c. c == b) xs ≡ some i
    → position (λ c. c == b) (x ∷ xs) ≡ some (suc i)
unfolding position
position-cons_some b x xs h e = ground arith
