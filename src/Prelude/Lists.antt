-- ===== src/Prelude/Lists.antt =====
-- Lists by native indices, and the C++ containers that are kept as lists.
use Prim.Native.Nat.{ℕ, zero, suc, ◌+◌, ◌≤◌, ◌<◌}
use mathlib.Core.Path.{◌≡◌, refl, ap}
use mathlib.Core.Logic.{◌⊎◌, ◌≢◌, inl, inr}
use mathlib.Core.Bool.{Bool, true, false, ◌||◌}
use mathlib.Core.Option.{Option, none, some}
use mathlib.Core.List.{List, [], ◌∷◌, ◌++◌}
use native.Mathlib.Omega.{arith}
use distributed_systems_chub.Prelude.Tests.{Eq, ◌==◌, if◌then◌else◌}
use distributed_systems_chub.Prelude.Int.{ℤ, pos, negsuc}

module _ {ℓ} {A : Type ℓ} where
  abbrev pub length : List A → ℕ
  length [] = 0
  length (x ∷ xs) = suc (length xs)

  abbrev pub get_elem? : List A → ℕ → Option A
  get_elem? [] i = none
  get_elem? (x ∷ xs) zero = some x
  get_elem? (x ∷ xs) (suc i) = get_elem? xs i

  -- A write out of bounds changes nothing.
  abbrev pub set : List A → ℕ → A → List A
  set [] i v = []
  set (x ∷ xs) zero v = v ∷ xs
  set (x ∷ xs) (suc i) v = x ∷ set xs i v

  abbrev pub drop : ℕ → List A → List A
  drop zero xs = xs
  drop (suc n) [] = []
  drop (suc n) (x ∷ xs) = drop n xs

  -- `v.at(i)` for an `int` index: a negative one becomes a `size_t` beyond every size.
  abbrev pub at_int : List A → ℤ → Option A
  at_int xs (pos i) = get_elem? xs i
  at_int xs (negsuc i) = none

  abbrev pub set_int : List A → ℤ → A → List A
  set_int xs (pos i) v = set xs i v
  set_int xs (negsuc i) v = xs

  abbrev pub is_empty : List A → Bool
  is_empty [] = true
  is_empty (x ∷ xs) = false

  pub length-append : (xs ys : List A) → length (xs ++ ys) ≡ length xs + length ys
  length-append [] ys = omega arith
  length-append (x ∷ xs) ys = omega (arith, length-append xs ys)

  pub length-set : (xs : List A) (i : ℕ) (v : A) → length (set xs i v) ≡ length xs
  length-set [] i v = refl
  length-set (x ∷ xs) zero v = refl
  length-set (x ∷ xs) (suc i) v = omega (arith, length-set xs i v)

  pub length-set_int : (xs : List A) (i : ℤ) (v : A) → length (set_int xs i v) ≡ length xs
  length-set_int xs (pos i) v = length-set xs i v
  length-set_int xs (negsuc i) v = refl

  pub get_elem?-length : (xs ys : List A) (y : A) → get_elem? (xs ++ y ∷ ys) (length xs) ≡ some y
  get_elem?-length [] ys y = refl
  get_elem?-length (x ∷ xs) ys y = get_elem?-length xs ys y

  pub get_elem?-append_one :
      (xs : List A) (y x : A) (i : ℕ)
      → get_elem? (xs ++ y ∷ []) i ≡ some x
      → (get_elem? xs i ≡ some x) ⊎ (y ≡ x)
  get_elem?-append_one [] y x zero h = inr (cc)
  get_elem?-append_one [] y x (suc i) h = inl h
  get_elem?-append_one (z ∷ xs) y x zero h = inl h
  get_elem?-append_one (z ∷ xs) y x (suc i) h = get_elem?-append_one xs y x i h

  pub get_elem?-append :
      (xs ys : List A) (i : ℕ) (x : A) → get_elem? xs i ≡ some x → get_elem? (xs ++ ys) i ≡ some x
  get_elem?-append [] ys i x h = cc
  get_elem?-append (y ∷ xs) ys zero x h = h
  get_elem?-append (y ∷ xs) ys (suc i) x h = get_elem?-append xs ys i x h

  pub at_int-append :
      (xs ys : List A) (i : ℤ) (x : A) → at_int xs i ≡ some x → at_int (xs ++ ys) i ≡ some x
  at_int-append xs ys (pos i) x h = get_elem?-append xs ys i x h
  at_int-append xs ys (negsuc i) x h = cc

  pub get_elem?_lt : (xs : List A) (i : ℕ) → i < length xs → (x : A) × (get_elem? xs i ≡ some x)
  get_elem?_lt [] i h = absurd (omega arith)
  get_elem?_lt (x ∷ xs) zero h = (x, refl)
  get_elem?_lt (x ∷ xs) (suc i) h = get_elem?_lt xs i (omega arith)

  pub get_elem?-set_cases :
      (ks : List A) (i j : ℕ) (v k : A)
      → get_elem? (set ks i v) j ≡ some k
      → ((j ≡ i) × (v ≡ k)) ⊎ ((j ≢ i) × (get_elem? ks j ≡ some k))
  get_elem?-set_cases [] i j v k h = cc
  get_elem?-set_cases (x ∷ ks) zero zero v k h = inl (refl, cc)
  get_elem?-set_cases (x ∷ ks) zero (suc j) v k h = inr ((λ e. omega arith), h)
  get_elem?-set_cases (x ∷ ks) (suc i) zero v k h = inr ((λ e. omega arith), h)
  get_elem?-set_cases (x ∷ ks) (suc i) (suc j) v k h = elim (get_elem?-set_cases ks i j v k h) [
    | inl (p, q) ↦ inl (ap suc p, q)
    | inr (n, q) ↦ inr ((λ e. n (omega arith)), q)
  ]

  pub get_elem?-set_self :
      (ks : List A) (i : ℕ) (v k : A) → get_elem? ks i ≡ some k → get_elem? (set ks i v) i ≡ some v
  get_elem?-set_self [] i v k h = cc
  get_elem?-set_self (x ∷ ks) zero v k h = refl
  get_elem?-set_self (x ∷ ks) (suc i) v k h = get_elem?-set_self ks i v k h

  pub set-get_elem? : (ks : List A) (i : ℕ) (k : A) → get_elem? ks i ≡ some k → set ks i k ≡ ks
  set-get_elem? [] i k h = refl
  set-get_elem? (x ∷ ks) zero k h = cc
  set-get_elem? (x ∷ ks) (suc i) k h = ap (λ l. x ∷ l) (set-get_elem? ks i k h)

  pub get_elem?-set_other :
      (ks : List A) (i j : ℕ) (v : A) → j ≢ i → get_elem? (set ks i v) j ≡ get_elem? ks j
  get_elem?-set_other [] i j v n = refl
  get_elem?-set_other (x ∷ ks) zero zero v n = absurd (n refl)
  get_elem?-set_other (x ∷ ks) zero (suc j) v n = refl
  get_elem?-set_other (x ∷ ks) (suc i) zero v n = refl
  get_elem?-set_other (x ∷ ks) (suc i) (suc j) v n =
      get_elem?-set_other ks i j v (λ e. n (ap suc e))

module _ {ℓ} {A : Type ℓ} ⦃e : Eq A⦄ where
  -- std::unordered_set: `contains`, `insert` and `erase` by value.
  unfoldable pub contains : List A → A → Bool
  contains [] a = false
  contains (x ∷ xs) a = x == a || contains xs a

  unfoldable pub insert : A → List A → List A
  insert a xs = if contains xs a then xs else a ∷ xs

  unfoldable pub erase : A → List A → List A
  erase a [] = []
  erase a (x ∷ xs) = let rest = erase a xs in if x == a then rest else x ∷ rest

  pub contains-insert :
      (a b : A) (xs : List A) → contains (insert a xs) b ≡ (a == b || contains xs b)
  unfolding insert contains
  contains-insert a b xs = ground (arith)

  pub contains-erase :
      (a b : A) (xs : List A) → contains (erase a xs) b ≡ (if a == b then false else contains xs b)
  unfolding erase contains
  contains-erase a b [] = ground arith
  contains-erase a b (x ∷ xs) = ground (arith, contains-erase a b xs)

  pub length-erase : (a : A) (xs : List A) → length (erase a xs) ≤ length xs
  unfolding erase
  length-erase a [] = omega arith
  length-erase a (x ∷ xs) = ground (arith, length-erase a xs)

  -- The test, when the equality is known.
  pub eq_true : {a b : A} → a ≡ b → (a == b) ≡ true
  eq_true p = ground arith

  pub eq_false : {a b : A} → ¬ (a ≡ b) → (a == b) ≡ false
  eq_false n = ground arith
