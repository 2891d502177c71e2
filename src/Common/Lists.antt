-- ===== src/Common/Lists.antt =====
-- Lists measured, indexed and counted by native numbers, under the library's names.
use Prim.Native.Nat.{ℕ, zero, suc, ◌+◌, ◌-◌, ◌≤◌, ◌<◌}
use mathlib.Core.Path.{◌≡◌, refl, ap}
use mathlib.Core.Bool.{Bool}
use mathlib.Core.List.{List, [], ◌∷◌, ◌++◌, map}
use mathlib.Core.Option.{Option, none, some}
use native.Mathlib.Omega.{arith}
use mathlib.Core.Logic.{inl, inr}
use rayavriti_netmonitor.Common.Tests.{if◌then◌else◌, Bool-cases}

module _ {ℓ} {A : Type ℓ} where
  abbrev pub length : List A → ℕ
  length [] = 0
  length (x ∷ xs) = suc (length xs)

  abbrev pub get_elem? : List A → ℕ → Option A
  get_elem? [] i = none
  get_elem? (x ∷ xs) zero = some x
  get_elem? (x ∷ xs) (suc i) = get_elem? xs i

  -- A write out of bounds changes nothing.
  abbrev pub set : List A → ℕ → A → List A
  set [] i v = []
  set (x ∷ xs) zero v = v ∷ xs
  set (x ∷ xs) (suc i) v = x ∷ set xs i v

  abbrev pub drop : ℕ → List A → List A
  drop zero xs = xs
  drop (suc n) [] = []
  drop (suc n) (x ∷ xs) = drop n xs

  abbrev pub take : ℕ → List A → List A
  take zero xs = []
  take (suc n) [] = []
  take (suc n) (x ∷ xs) = x ∷ take n xs

  -- The elements before those of another list, in reverse.
  abbrev pub reverse_onto : List A → List A → List A
  reverse_onto [] ys = ys
  reverse_onto (x ∷ xs) ys = reverse_onto xs (x ∷ ys)

  abbrev pub replicate : ℕ → A → List A
  replicate zero a = []
  replicate (suc n) a = a ∷ replicate n a

  -- How many elements pass a test.
  abbrev pub count_if : (A → Bool) → List A → ℕ
  count_if p [] = 0
  count_if p (x ∷ xs) = (if p x then 1 else 0) + count_if p xs

  -- The elements that pass a test, in order.
  abbrev pub select : (A → Bool) → List A → List A
  select p [] = []
  select p (x ∷ xs) = let rest = select p xs in if p x then x ∷ rest else rest

  pub length-append : (xs ys : List A) → length (xs ++ ys) ≡ length xs + length ys
  length-append [] ys = omega arith
  length-append (x ∷ xs) ys = omega (arith, length-append xs ys)

  pub length-drop : (n : ℕ) (xs : List A) → length (drop n xs) ≡ length xs - n
  length-drop zero xs = omega arith
  length-drop (suc n) [] = omega arith
  length-drop (suc n) (x ∷ xs) = omega (arith, length-drop n xs)

  pub length-take-drop : (n : ℕ) (xs : List A) → length (take n xs) + length (drop n xs) ≡ length xs
  length-take-drop zero xs = omega arith
  length-take-drop (suc n) [] = omega arith
  length-take-drop (suc n) (x ∷ xs) = omega (arith, length-take-drop n xs)

  pub count_if-take-drop :
      (p : A → Bool) (n : ℕ) (xs : List A)
      → count_if p (take n xs) + count_if p (drop n xs) ≡ count_if p xs
  count_if-take-drop p zero xs = omega arith
  count_if-take-drop p (suc n) [] = omega arith
  count_if-take-drop p (suc n) (x ∷ xs) = omega (arith, count_if-take-drop p n xs)

  pub length-reverse_onto : (xs ys : List A) → length (reverse_onto xs ys) ≡ length xs + length ys
  length-reverse_onto [] ys = omega arith
  length-reverse_onto (x ∷ xs) ys = omega (arith, length-reverse_onto xs (x ∷ ys))

  pub length-take : (n : ℕ) (xs : List A) → length (take n xs) ≤ n
  length-take zero xs = omega arith
  length-take (suc n) [] = omega arith
  length-take (suc n) (x ∷ xs) = omega (arith, length-take n xs)

  pub drop-short : (n : ℕ) (xs : List A) → length xs ≤ n → drop n xs ≡ []
  drop-short zero [] h = refl
  drop-short zero (x ∷ xs) h = let bad : ⊥ = omega (arith, h) in elim bad [ ]
  drop-short (suc n) [] h = refl
  drop-short (suc n) (x ∷ xs) h = drop-short n xs (omega (arith, h))

  -- A short prefix is the whole list.
  pub take-short : (n : ℕ) (xs : List A) → length (take n xs) < n → length xs < n
  take-short zero xs h = let bad : ⊥ = omega (arith, h) in elim bad [ ]
  take-short (suc n) [] h = omega arith
  take-short (suc n) (x ∷ xs) h = omega (arith, take-short n xs (omega (arith, h)))

  -- Enough elements are all.
  pub take-length : (n : ℕ) (xs : List A) → length xs ≤ n → take n xs ≡ xs
  take-length zero [] h = refl
  take-length zero (x ∷ xs) h = let bad : ⊥ = omega (arith, h) in elim bad [ ]
  take-length (suc n) [] h = refl
  take-length (suc n) (x ∷ xs) h = ap (◌∷◌ x) (take-length n xs (omega (arith, h)))

  pub count_if-reverse_onto :
      (p : A → Bool) (xs ys : List A)
      → count_if p (reverse_onto xs ys) ≡ count_if p xs + count_if p ys
  count_if-reverse_onto p [] ys = omega arith
  count_if-reverse_onto p (x ∷ xs) ys = omega (arith, count_if-reverse_onto p xs (x ∷ ys))

  pub count_if-le-length : (p : A → Bool) (xs : List A) → count_if p xs ≤ length xs
  count_if-le-length p [] = omega arith
  count_if-le-length p (x ∷ xs) = ground (arith, count_if-le-length p xs)

  pub count_if-append :
      (p : A → Bool) (xs ys : List A) → count_if p (xs ++ ys) ≡ count_if p xs + count_if p ys
  count_if-append p [] ys = omega arith
  count_if-append p (x ∷ xs) ys = omega (arith, count_if-append p xs ys)

  -- A stronger test passes fewer elements.
  pub count_if_mono :
      (p q : A → Bool) (xs : List A)
      → ((x : A) → (if p x then 1 else 0) ≤ (if q x then 1 else 0))
      → count_if p xs ≤ count_if q xs
  count_if_mono p q [] h = omega arith
  count_if_mono p q (x ∷ xs) h = omega (arith, h x, count_if_mono p q xs h)

  pub length-select : (p : A → Bool) (xs : List A) → length (select p xs) ≡ count_if p xs
  length-select p [] = refl
  length-select p (x ∷ xs) = ground (arith, length-select p xs)

  pub count_if-select : (p q : A → Bool) (xs : List A) → count_if p (select q xs) ≤ count_if p xs
  count_if-select p q [] = omega arith
  count_if-select p q (x ∷ xs) = ground (arith, count_if-select p q xs)

  -- Replacing an element moves a count by the two elements' shares.
  pub count_if-set :
      (p : A → Bool) (xs : List A) (i : ℕ) (old new : A)
      → get_elem? xs i ≡ some old
      → count_if p (set xs i new) + (if p old then 1 else 0)
        ≡ count_if p xs + (if p new then 1 else 0)
  count_if-set p [] i old new h = ground arith
  count_if-set p (x ∷ xs) zero old new h = ground arith
  count_if-set p (x ∷ xs) (suc i) old new h = omega (arith, count_if-set p xs i old new h)

  pub count_if-replicate :
      (p : A → Bool) (n : ℕ) (a : A) → count_if p (replicate n a) ≡ (if p a then n else 0)
  count_if-replicate p zero a = ground arith
  count_if-replicate p (suc n) a = ground (arith, count_if-replicate p n a)

  pub count_if-get_elem? :
      (p : A → Bool) (xs : List A) (i : ℕ) (x : A)
      → get_elem? xs i ≡ some x
      → (if p x then 1 else 0) ≤ count_if p xs
  count_if-get_elem? p [] i x h = ground arith
  count_if-get_elem? p (y ∷ xs) zero x h = ground arith
  count_if-get_elem? p (y ∷ xs) (suc i) x h = omega (arith, count_if-get_elem? p xs i x h)

  pub length-set : (xs : List A) (i : ℕ) (v : A) → length (set xs i v) ≡ length xs
  length-set [] i v = refl
  length-set (x ∷ xs) zero v = refl
  length-set (x ∷ xs) (suc i) v = ap suc (length-set xs i v)

-- A property of every element.
module _ {ℓ κ} {A : Type ℓ} (P : A → Type κ) where
  abbrev pub All : List A → Type κ
  All [] = Unit
  All (x ∷ xs) = P x × All xs

  -- An element between two lists, put in, taken out and looked at.
  pub All-insert :
      (before after : List A) (x : A) → P x → All (before ++ after) → All (before ++ x ∷ after)
  All-insert [] after x p all = (p, all)
  All-insert (y ∷ before) after x p (q, all) = (q, All-insert before after x p all)

  pub All-remove :
      (before after : List A) (x : A) → All (before ++ x ∷ after) → All (before ++ after)
  All-remove [] after x (p, all) = all
  All-remove (y ∷ before) after x (q, all) = (q, All-remove before after x all)

  pub All-at : (before after : List A) (x : A) → All (before ++ x ∷ after) → P x
  All-at [] after x (p, all) = p
  All-at (y ∷ before) after x (q, all) = All-at before after x all

  pub All-snoc : (xs : List A) (x : A) → All xs → P x → All (xs ++ x ∷ [])
  All-snoc [] x all p = (p, tt)
  All-snoc (y ∷ xs) x (q, all) p = (q, All-snoc xs x all p)

  pub All-map : (f : A → A) (xs : List A) → ((x : A) → P x → P (f x)) → All xs → All (map f xs)
  All-map f [] h all = tt
  All-map f (x ∷ xs) h (p, all) = (h x p, All-map f xs h all)

  pub All-select : (q : A → Bool) (xs : List A) → All xs → All (select q xs)
  All-select q [] all = tt
  All-select q (x ∷ xs) (p, all) = elim (Bool-cases (q x)) [
    | inl e ↦ rw e (p, All-select q xs all)
    | inr e ↦ rw e (All-select q xs all)
  ]

pub All-imp {ℓ κ} :
    {A : Type ℓ} (P Q : A → Type κ) (xs : List A) → ((x : A) → P x → Q x) → All P xs → All Q xs
All-imp P Q [] h all = tt
All-imp P Q (x ∷ xs) h (p, all) = (h x p, All-imp P Q xs h all)
