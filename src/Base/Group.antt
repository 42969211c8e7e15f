-- ===== src/Base/Group.antt =====
-- Tables that hold one computed value for each of some distinct keys.
use agentkubenetwork.Base.{
  ◌≡◌, refl, ◌≢◌, ite, Bool, false, ◌||◌, if◌then◌else◌, none, some, List, [], ◌∷◌, map, test,
  arith,
}
use agentkubenetwork.Base.Map.{get, put}

module _ {ℓ} {K : Type ℓ} (d : Discrete K) where
  abbrev pub has : K → List K → Bool
  has k [] = false
  has k (j ∷ js) = test (d j k) || has k js

  abbrev pub Distinct : List K → Type 0
  Distinct [] = Unit
  Distinct (k ∷ ks) = (has k ks ≡ false) × Distinct ks

  -- A key is added at the end, unless it is there.
  unfoldable pub insert_key : K → List K → List K
  insert_key k [] = k ∷ []
  insert_key k (j ∷ js) = ite (d j k) (j ∷ js) (j ∷ insert_key k js)

  pub has-insert_key :
      (k j : K) (ks : List K) → has j (insert_key k ks) ≡ (test (d k j) || has j ks)
  unfolding insert_key
  has-insert_key k j [] = refl
  has-insert_key k j (i ∷ is) = ground (arith, has-insert_key k j is)

  pub insert_key-Distinct : (k : K) (ks : List K) → Distinct ks → Distinct (insert_key k ks)
  unfolding insert_key
  insert_key-Distinct k [] h = (refl, tt)
  insert_key-Distinct k (j ∷ js) h =
      ground (arith, has-insert_key k j js, insert_key-Distinct k js h.1)

  unfoldable pub distinct_keys : List K → List K → List K
  distinct_keys acc [] = acc
  distinct_keys acc (k ∷ ks) = distinct_keys (insert_key k acc) ks

  pub distinct_keys-Distinct : (acc ks : List K) → Distinct acc → Distinct (distinct_keys acc ks)
  unfolding distinct_keys
  distinct_keys-Distinct acc [] h = h
  distinct_keys-Distinct acc (k ∷ ks) h =
      distinct_keys-Distinct (insert_key k acc) ks (insert_key-Distinct k acc h)

  pub has-distinct_keys :
      (j : K) (acc ks : List K) → has j (distinct_keys acc ks) ≡ (has j acc || has j ks)
  unfolding distinct_keys
  has-distinct_keys j acc [] = ground arith
  has-distinct_keys j acc (k ∷ ks) =
      ground (arith, has-distinct_keys j (insert_key k acc) ks, has-insert_key k j acc)

module _ {ℓ} {K V : Type ℓ} where
  abbrev pub tabulate : (K → V) → List K → List (K × V)
  tabulate g ks = map (λ k. (k, g k)) ks

module _ {ℓ} {K V : Type ℓ} (d : Discrete K) where
  pub get-tabulate :
      (g : K → V) (k : K) (ks : List K)
      → get d k (tabulate g ks) ≡ (if has d k ks then some (g k) else none)
  unfolding get
  get-tabulate g k [] = refl
  get-tabulate g k (j ∷ js) = ground (arith, get-tabulate g k js)

  tabulate-eq :
      (g h : K → V) (k : K) (ks : List K)
      → ((j : K) → j ≢ k → h j ≡ g j)
      → has d k ks ≡ false
      → tabulate g ks ≡ tabulate h ks
  tabulate-eq g h k [] same e = refl
  tabulate-eq g h k (j ∷ js) same e = ground (arith, same j, tabulate-eq g h k js same)

  -- An update of one key's value, and of no other's.
  pub put-tabulate :
      (g h : K → V) (k : K) (ks : List K)
      → ((j : K) → j ≢ k → h j ≡ g j)
      → Distinct d ks
      → put d k (h k) (tabulate g ks) ≡ tabulate h (insert_key d k ks)
  unfolding put insert_key
  put-tabulate g h k [] same e = refl
  put-tabulate g h k (j ∷ js) same e =
      ground (arith, same j, tabulate-eq g h k js same, put-tabulate g h k js same e.1)
