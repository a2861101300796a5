-- ===== src/Base/Lists.antt =====
-- Lists measured by native numbers, and the predicates and searches the components share.
use Prim.Native.Nat.{ℕ, zero, suc, ◌+◌, ◌≤◌}
use mathlib.Core.Path.{◌≡◌, refl}
use mathlib.Core.Logic.{inl, inr}
use mathlib.Core.Bool.{Bool, true, false, ◌||◌}
use mathlib.Core.List.{List, [], ◌∷◌, ◌++◌, map}
use mathlib.Core.Option.{Option, none, some}
use native.Mathlib.Omega.{arith}
use mathlib.Core.Path.{subst}
use joysteed_maa_s.Base.Tests.{if◌then◌else◌, Bool-cases}

module _ {ℓ} {A : Type ℓ} where
  abbrev pub length : List A → ℕ
  length [] = 0
  length (x ∷ xs) = suc (length xs)

  abbrev pub All {κ} : (A → Type κ) → List A → Type κ
  All P [] = Unit
  All P (x ∷ xs) = P x × All P xs

  abbrev pub any : (A → Bool) → List A → Bool
  any p [] = false
  any p (x ∷ xs) = p x || any p xs

  -- The rows that pass a test, as a `WHERE` clause or a Go filter loop keeps them.
  abbrev pub select : (A → Bool) → List A → List A
  select p [] = []
  select p (x ∷ xs) = let rest = select p xs in if p x then x ∷ rest else rest

  -- The first row that passes a test.
  abbrev pub find : (A → Bool) → List A → Option A
  find p [] = none
  find p (x ∷ xs) = let rest = find p xs in if p x then some x else rest

  -- `f` applied to each row that passes a test, as `UPDATE ... WHERE` does.
  abbrev pub update_where : (A → Bool) → (A → A) → List A → List A
  update_where p f [] = []
  update_where p f (x ∷ xs) = (if p x then f x else x) ∷ update_where p f xs

  abbrev pub last : A → List A → A
  last x [] = x
  last x (y ∷ ys) = last y ys

  abbrev pub take : ℕ → List A → List A
  take zero xs = []
  take (suc n) [] = []
  take (suc n) (x ∷ xs) = x ∷ take n xs

  abbrev pub drop : ℕ → List A → List A
  drop zero xs = xs
  drop (suc n) [] = []
  drop (suc n) (x ∷ xs) = drop n xs

  pub length-append : (xs ys : List A) → length (xs ++ ys) ≡ length xs + length ys
  length-append [] ys = omega arith
  length-append (x ∷ xs) ys = omega (arith, length-append xs ys)

  pub length-take-le : (n : ℕ) (xs : List A) → length (take n xs) ≤ n
  length-take-le zero xs = omega arith
  length-take-le (suc n) [] = omega arith
  length-take-le (suc n) (x ∷ xs) = omega (arith, length-take-le n xs)

  pub any-append : (p : A → Bool) (xs ys : List A) → any p (xs ++ ys) ≡ (any p xs || any p ys)
  any-append p [] ys = refl
  any-append p (x ∷ xs) ys = ground (arith, any-append p xs ys)

  pub find-true : (p : A → Bool) (xs : List A) (x : A) → find p xs ≡ some x → p x ≡ true
  find-true p [] x h = ground arith
  find-true p (y ∷ ys) x h = ground (arith, find-true p ys x)

  pub any-find-none : (p : A → Bool) (xs : List A) → find p xs ≡ none → any p xs ≡ false
  any-find-none p [] h = refl
  any-find-none p (x ∷ xs) h = ground (arith, any-find-none p xs)

  pub any-of_find : (p : A → Bool) (xs : List A) → any p xs ≡ false → find p xs ≡ none
  any-of_find p [] h = refl
  any-of_find p (x ∷ xs) h = ground (arith, any-of_find p xs)

  pub any_weaken :
      (p q : A → Bool) (xs : List A)
      → ((x : A) → p x ≡ true → q x ≡ true)
      → any q xs ≡ false
      → any p xs ≡ false
  any_weaken p q [] implies h = refl
  any_weaken p q (x ∷ xs) implies h = ground (arith, implies x, any_weaken p q xs implies)

  pub any-find-some :
      (p : A → Bool) (xs : List A) → any p xs ≡ true → (x : A) × (find p xs ≡ some x)
  any-find-some p [] h = ground arith
  any-find-some p (x ∷ xs) h = elim (Bool-cases (p x)) [
    | inl e ↦ (x, rw e)
    | inr e ↦ let (y, q) = any-find-some p xs (ground arith) in (y, rw e q)
  ]

  pub select-All {κ} :
      (P : A → Type κ) (p : A → Bool) (xs : List A) → All P xs → All P (select p xs)
  select-All P p [] h = h
  select-All P p (x ∷ xs) h = ground (arith, select-All P p xs)

  pub All-find {κ} :
      (P : A → Type κ) (p : A → Bool) (xs : List A) (x : A) → All P xs → find p xs ≡ some x → P x
  All-find P p [] x h e = absurd (ground arith)
  All-find P p (y ∷ ys) x h e = elim (Bool-cases (p y)) [
    | inl q ↦ let same : y ≡ x = ground arith in subst P same h.0
    | inr q ↦ All-find P p ys x h.1 (ground arith)
  ]

  pub All-update_where {κ} :
      (P : A → Type κ) (p : A → Bool) (f : A → A) (xs : List A)
      → ((x : A) → p x ≡ true → P x → P (f x))
      → All P xs
      → All P (update_where p f xs)
  All-update_where P p f [] keep h = h
  All-update_where P p f (x ∷ xs) keep h =
      (All-update_where_head (p x) refl, All-update_where P p f xs keep h.1)
    where
      All-update_where_head : (b : Bool) → p x ≡ b → P (if b then f x else x)
      All-update_where_head true e = keep x e h.0
      All-update_where_head false e = h.0

  -- An update that keeps a test's answers reaches the row that the test finds.
  pub find-update_where :
      (p q : A → Bool) (f : A → A) (xs : List A)
      → ((x : A) → p (f x) ≡ p x)
      → find p (update_where q f xs)
        ≡ elim (find p xs) [ none ↦ none | some x ↦ some (if q x then f x else x) ]
  find-update_where p q f [] keep = refl
  find-update_where p q f (x ∷ xs) keep = ground (arith, keep x, find-update_where p q f xs keep)

  pub any-find :
      (p q : A → Bool) (xs : List A) (x : A)
      → ((y : A) → p y ≡ true → q y ≡ true)
      → find p xs ≡ some x
      → any q xs ≡ true
  any-find p q [] x implies e = absurd (ground arith)
  any-find p q (y ∷ xs) x implies e = ground (arith, implies y, any-find p q xs x implies)

any_or {ℓ} :
    {B : Type ℓ} (p q : B → Bool) (ys : List B)
    → (any (λ y. p y) ys || any (λ y. q y) ys) ≡ any (λ y. p y || q y) ys
any_or p q [] = refl
any_or p q (y ∷ ys) = ground (arith, any_or p q ys)

-- Whether some pair passes a test does not depend on which list is walked first.
pub any_swap {ℓ κ} :
    {A : Type ℓ} {B : Type κ} (p : A → B → Bool) (xs : List A) (ys : List B)
    → any (λ x. any (λ y. p x y) ys) xs ≡ any (λ y. any (λ x. p x y) xs) ys
any_swap p [] [] = refl
any_swap p [] (y ∷ ys) = any_swap p [] ys
any_swap p (x ∷ xs) ys = rw (any_swap p xs ys) (any_or (p x) (λ y. any (λ x'. p x' y) xs) ys)

pub any-map {ℓ κ} :
    {A : Type ℓ} {B : Type κ} (p : B → Bool) (f : A → B) (xs : List A)
    → any p (map f xs) ≡ any (λ x. p (f x)) xs
any-map p f [] = refl
any-map p f (x ∷ xs) = ground (arith, any-map p f xs)
