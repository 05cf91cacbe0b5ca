-- ===== src/Dict.antt =====
-- std::unordered_map as an association list. The order of the list stands for the order in which
-- the map is iterated, which the program does not rely on.
use distributed_systems_chub.Prelude.{
  inr, inl, ◌⊎◌, ◌≢◌, ◌≡◌, Option, none, some, List, [], ◌∷◌, arith, Eq, ◌==◌, if◌then◌else◌,
}

abbrev pub Dict {ℓ κ} : Type ℓ → Type κ → Type (ℓ ⊔ κ)
Dict K V = List (K × V)

module _ {ℓ κ} {K : Type ℓ} {V : Type κ} ⦃e : Eq K⦄ where
  -- m.find(k), m.at(k): `none` is end(), and std::out_of_range
  unfoldable pub get : Dict K V → K → Option V
  get [] k = none
  get ((j, v) ∷ m) k = if j == k then some v else get m k

  -- m[k] = v
  unfoldable pub put : Dict K V → K → V → Dict K V
  put [] k v = (k, v) ∷ []
  put ((j, w) ∷ m) k v = if j == k then (k, v) ∷ m else (j, w) ∷ put m k v

  -- m.erase(k)
  unfoldable pub remove : Dict K V → K → Dict K V
  remove [] k = []
  remove ((j, w) ∷ m) k = let rest = remove m k in if j == k then rest else (j, w) ∷ rest

  pub get-put :
      (m : Dict K V) (k j : K) (v : V) → get (put m k v) j ≡ (if k == j then some v else get m j)
  unfolding get put
  get-put [] k j v = ground arith
  get-put ((i, w) ∷ m) k j v = ground (arith, get-put m k j v)

  pub put-put_self : (m : Dict K V) (k : K) (v w : V) → put (put m k v) k w ≡ put m k w
  unfolding put
  put-put_self [] k v w = ground arith
  put-put_self ((j, u) ∷ m) k v w = ground (arith, put-put_self m k v w)

  pub get-remove :
      (m : Dict K V) (k j : K) → get (remove m k) j ≡ (if k == j then none else get m j)
  unfolding get remove
  get-remove [] k j = ground arith
  get-remove ((i, w) ∷ m) k j = ground (arith, get-remove m k j)

  pub get-put_self : (m : Dict K V) (k : K) (v : V) → get (put m k v) k ≡ some v
  get-put_self m k v = ground (arith, get-put m k k v)

  pub get-put_other : (m : Dict K V) (k j : K) (v : V) → k ≢ j → get (put m k v) j ≡ get m j
  get-put_other m k j v h = ground (arith, get-put m k j v)

  -- What is found after a change was there before, or was put.
  pub get-put_cases :
      (m : Dict K V) (k j : K) (v w : V)
      → get (put m k v) j ≡ some w
      → ((k ≡ j) × (v ≡ w)) ⊎ (get m j ≡ some w)
  get-put_cases m k j v w h = elim (e.dec k j) [
    | yes q ↦ inl (q, ground (arith, get-put m k j v))
    | no n ↦ inr (ground (arith, get-put m k j v))
  ]

  pub get-remove_found :
      (m : Dict K V) (k j : K) (w : V) → get (remove m k) j ≡ some w → get m j ≡ some w
  get-remove_found m k j w h = ground (arith, get-remove m k j)
