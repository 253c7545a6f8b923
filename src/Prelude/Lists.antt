-- ===== src/Prelude/Lists.antt =====
-- Lists of addresses and ids: `Vec` of the contract host, measured by native numbers.
use Prim.Native.Nat.{ℕ, zero, suc, ◌+◌, ◌-◌}
use mathlib.Core.Path.{◌≡◌, refl, ap}
use mathlib.Core.Bool.{Bool, true, false, ◌||◌}
use mathlib.Core.List.{List, [], ◌∷◌, ◌++◌}
use native.Mathlib.Omega.{arith}
use comebackhere_contracts.Prelude.Tests.{◌==◌, if◌then◌else◌}

module _ {ℓ} {A : Type ℓ} where
  abbrev pub length : List A → ℕ
  length [] = 0
  length (x ∷ xs) = suc (length xs)

  abbrev pub is_empty : List A → Bool
  is_empty [] = true
  is_empty (x ∷ xs) = false

  abbrev pub take : ℕ → List A → List A
  take zero xs = []
  take (suc n) [] = []
  take (suc n) (x ∷ xs) = x ∷ take n xs

  abbrev pub drop : ℕ → List A → List A
  drop zero xs = xs
  drop (suc n) [] = []
  drop (suc n) (x ∷ xs) = drop n xs

  abbrev pub push_back : List A → A → List A
  push_back xs a = xs ++ (a ∷ [])

  pub append-push_back : (xs : List A) (x : A) (ys : List A) → push_back xs x ++ ys ≡ xs ++ (x ∷ ys)
  append-push_back [] x ys = refl
  append-push_back (a ∷ xs) x ys = ap (λ l. a ∷ l) (append-push_back xs x ys)

  pub length-append : (xs ys : List A) → length (xs ++ ys) ≡ length xs + length ys
  length-append [] ys = omega arith
  length-append (x ∷ xs) ys = omega (arith, length-append xs ys)

  pub length-drop : (n : ℕ) (xs : List A) → length (drop n xs) ≡ length xs - n
  length-drop zero xs = omega arith
  length-drop (suc n) [] = omega arith
  length-drop (suc n) (x ∷ xs) = omega (arith, length-drop n xs)

abbrev pub contains : List ℕ → ℕ → Bool
contains [] a = false
contains (x ∷ xs) a = x == a || contains xs a

-- The copy loop `if x != a { updated.push_back(x) }`.
abbrev pub without : List ℕ → ℕ → List ℕ
without [] a = []
without (x ∷ xs) a = let rest = without xs a in if x == a then rest else x ∷ rest

-- `remove(first_index_of(a))`
abbrev pub remove_first : List ℕ → ℕ → List ℕ
remove_first [] a = []
remove_first (x ∷ xs) a = let rest = x ∷ remove_first xs a in if x == a then xs else rest

-- No address or id is listed twice.
abbrev pub Distinct : List ℕ → Type 0
Distinct [] = Unit
Distinct (x ∷ xs) = (contains xs x ≡ false) × Distinct xs

pub contains-push_back :
    (xs : List ℕ) (a b : ℕ) → contains (push_back xs a) b ≡ (contains xs b || a == b)
contains-push_back [] a b = ground arith
contains-push_back (x ∷ xs) a b = ground (arith, contains-push_back xs a b)

pub contains-without :
    (xs : List ℕ) (a b : ℕ) → contains (without xs a) b ≡ (if a == b then false else contains xs b)
contains-without [] a b = ground arith
contains-without (x ∷ xs) a b = ground (arith, contains-without xs a b)

pub push_back-Distinct :
    (xs : List ℕ) (a : ℕ) → Distinct xs → contains xs a ≡ false → Distinct (push_back xs a)
push_back-Distinct [] a d h = (refl, tt)
push_back-Distinct (x ∷ xs) a d h =
    ground (arith, contains-push_back xs a x, push_back-Distinct xs a d.1)

pub without-Distinct : (xs : List ℕ) (a : ℕ) → Distinct xs → Distinct (without xs a)
without-Distinct [] a d = tt
without-Distinct (x ∷ xs) a d = ground (arith, contains-without xs a x, without-Distinct xs a d.1)

pub contains-remove_first :
    (xs : List ℕ) (a b : ℕ) → contains xs b ≡ false → contains (remove_first xs a) b ≡ false
contains-remove_first [] a b h = refl
contains-remove_first (x ∷ xs) a b h = ground (arith, contains-remove_first xs a b)

pub remove_first-Distinct : (xs : List ℕ) (a : ℕ) → Distinct xs → Distinct (remove_first xs a)
remove_first-Distinct [] a d = tt
remove_first-Distinct (x ∷ xs) a d =
    ground (arith, contains-remove_first xs a x, remove_first-Distinct xs a d.1)

pub contains-remove_first_self :
    (xs : List ℕ) (a : ℕ) → Distinct xs → contains (remove_first xs a) a ≡ false
contains-remove_first_self [] a d = refl
contains-remove_first_self (x ∷ xs) a d = ground (arith, contains-remove_first_self xs a d.1)

pub remove_first-push_back :
    (xs : List ℕ) (a : ℕ) → contains xs a ≡ false → remove_first (push_back xs a) a ≡ xs
remove_first-push_back [] a h = ground arith
remove_first-push_back (x ∷ xs) a h = ground (arith, remove_first-push_back xs a)
