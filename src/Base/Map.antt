-- ===== src/Base/Map.antt =====
-- A Go map as an association list. `get`, `put` and `del` are m[k], m[k] = v and delete(m, k);
-- the order of the list stands for no order of the map.
use agentkubenetwork.Base.{◌≡◌, refl, ite, Option, none, some, List, [], ◌∷◌, arith}

module _ {ℓ} {K V : Type ℓ} (d : Discrete K) where
  unfoldable pub get : K → List (K × V) → Option V
  get k [] = none
  get k ((j, v) ∷ m) = ite (d j k) (some v) (get k m)

  unfoldable pub put : K → V → List (K × V) → List (K × V)
  put k v [] = (k, v) ∷ []
  put k v ((j, w) ∷ m) = ite (d j k) ((k, v) ∷ m) ((j, w) ∷ put k v m)

  unfoldable pub del : K → List (K × V) → List (K × V)
  del k [] = []
  del k ((j, w) ∷ m) = ite (d j k) (del k m) ((j, w) ∷ del k m)

  pub get-put :
      (k j : K) (v : V) (m : List (K × V)) → get j (put k v m) ≡ ite (d k j) (some v) (get j m)
  unfolding get put
  get-put k j v [] = refl
  get-put k j v ((i, w) ∷ m) = ground (arith, get-put k j v m)

  pub get-del : (k j : K) (m : List (K × V)) → get j (del k m) ≡ ite (d k j) none (get j m)
  unfolding get del
  get-del k j [] = ground arith
  get-del k j ((i, w) ∷ m) = ground (arith, get-del k j m)
