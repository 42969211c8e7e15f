-- ===== src/Base/Keyed.antt =====
-- Tables under a write and under a filter: their keys, their length, and what holds of all entries.
use agentkubenetwork.Base.{
  ◌+◌, ◌≤◌, ◌≡◌, ◌≢◌, refl, subst, ite, Bool, true, false, if◌then◌else◌, none, some, List, [], ◌∷◌,
  map, keep, length, All, arith,
}
use agentkubenetwork.Base.Map.{get, put, del}
use agentkubenetwork.Base.Group.{has, Distinct, insert_key}

module _ {K V : Type 0} (d : Discrete K) where
  pub get-has : (k : K) (m : List (K × V)) → has d k (map (λ kv. kv.0) m) ≡ false → get d k m ≡ none
  unfolding get
  get-has k [] h = refl
  get-has k ((j, w) ∷ m) h = ground (arith, get-has k m)

  pub keys_of-put :
      (k : K) (v : V) (m : List (K × V))
      → map (λ kv. kv.0) (put d k v m) ≡ insert_key d k (map (λ kv. kv.0) m)
  unfolding put insert_key
  keys_of-put k v [] = refl
  keys_of-put k v ((j, w) ∷ m) = ground (arith, keys_of-put k v m)

  pub length-put :
      (k : K) (v : V) (m : List (K × V))
      → (length (put d k v m) ≤ length m + 1) × (get d k m ≢ none → length (put d k v m) ≡ length m)
  unfolding put get
  length-put k v [] = ground arith
  length-put k v ((j, w) ∷ m) = ground (arith, length-put k v m)

  pub All-put :
      (P : K × V → Type 0) (k : K) (v : V) (m : List (K × V))
      → P (k, v)
      → All P m
      → All P (put d k v m)
  unfolding put
  All-put P k v [] h a = (h, tt)
  All-put P k v ((j, w) ∷ m) h a =
      elim (d j k) as (λ t. All P (ite t ((k, v) ∷ m) ((j, w) ∷ put d k v m))) [
        | yes e ↦ (h, a.1)
        | no e ↦ (a.0, All-put P k v m h a.1)
      ]

  pub All-get :
      (P : K × V → Type 0) (k : K) (v : V) (m : List (K × V))
      → get d k m ≡ some v
      → All P m
      → P (k, v)
  unfolding get
  All-get P k v [] e a = absurd (cc)
  All-get P k v ((j, w) ∷ m) e a = elim (d j k) [
    | yes q ↦ subst P (ground arith) a.0
    | no q ↦ All-get P k v m (ground arith) a.1
  ]

  pub has-keep :
      (p : K × V → Bool) (k : K) (m : List (K × V))
      → has d k (map (λ kv. kv.0) m) ≡ false
      → has d k (map (λ kv. kv.0) (keep p m)) ≡ false
  has-keep p k [] h = refl
  has-keep p k (kv ∷ m) h = ground (arith, has-keep p k m)

  pub keep-Distinct :
      (p : K × V → Bool) (m : List (K × V))
      → Distinct d (map (λ kv. kv.0) m)
      → Distinct d (map (λ kv. kv.0) (keep p m))
  keep-Distinct p [] h = tt
  keep-Distinct p (kv ∷ m) h = ground (arith, has-keep p kv.0 m, keep-Distinct p m)

module _ {K V : Type 0} (d : Discrete K) where
  has-del :
      (k j : K) (m : List (K × V))
      → has d j (map (λ kv. kv.0) m) ≡ false
      → has d j (map (λ kv. kv.0) (del d k m)) ≡ false
  unfolding del
  has-del k j [] h = refl
  has-del k j ((i, w) ∷ m) h = ground (arith, has-del k j m)

  pub del-Distinct :
      (k : K) (m : List (K × V))
      → Distinct d (map (λ kv. kv.0) m)
      → Distinct d (map (λ kv. kv.0) (del d k m))
  unfolding del
  del-Distinct k [] h = tt
  del-Distinct k ((j, w) ∷ m) h = ground (arith, has-del k j m, del-Distinct k m)

  del_absent : (k : K) (m : List (K × V)) → has d k (map (λ kv. kv.0) m) ≡ false → del d k m ≡ m
  unfolding del
  del_absent k [] h = refl
  del_absent k ((j, w) ∷ m) h = ground (arith, del_absent k m)

  pub length-del_le : (k : K) (m : List (K × V)) → length (del d k m) ≤ length m
  unfolding del
  length-del_le k [] = omega arith
  length-del_le k ((j, w) ∷ m) = ground (arith, length-del_le k m)

  pub All-del : (P : K × V → Type 0) (k : K) (m : List (K × V)) → All P m → All P (del d k m)
  unfolding del
  All-del P k [] a = tt
  All-del P k ((j, w) ∷ m) a =
      elim (d j k) as (λ t. All P (ite t (del d k m) ((j, w) ∷ del d k m))) [
        | yes e ↦ All-del P k m a.1
        | no e ↦ (a.0, All-del P k m a.1)
      ]

  pub del_absent_key : (k : K) (m : List (K × V)) → get d k m ≡ none → del d k m ≡ m
  unfolding del get
  del_absent_key k [] h = refl
  del_absent_key k ((j, w) ∷ m) h = ground (arith, del_absent_key k m)

  -- A filter adds no key.
  pub get-keep_absent :
      (p : K × V → Bool) (k : K) (m : List (K × V)) → get d k m ≡ none → get d k (keep p m) ≡ none
  unfolding get
  get-keep_absent p k [] h = refl
  get-keep_absent p k (kv ∷ m) h = ground (arith, get-keep_absent p k m)

  -- Of distinct keys, a deletion takes exactly one entry away.
  pub length-del :
      (k : K) (m : List (K × V))
      → Distinct d (map (λ kv. kv.0) m)
      → get d k m ≢ none
      → length (del d k m) + 1 ≡ length m
  unfolding del get
  length-del k [] h e = absurd (e refl)
  length-del k ((j, w) ∷ m) h e = ground (arith, length-del k m, del_absent k m)

  pub length-put_new :
      (k : K) (v : V) (m : List (K × V)) → get d k m ≡ none → length (put d k v m) ≡ length m + 1
  unfolding put get
  length-put_new k v [] e = omega arith
  length-put_new k v ((j, w) ∷ m) e = ground (arith, length-put_new k v m)

module _ {A : Type 0} (p : A → Bool) where
  pub length-keep : (xs : List A) → length (keep p xs) ≤ length xs
  length-keep [] = omega arith
  length-keep (x ∷ xs) = ground (arith, length-keep xs)

  pub All-keep : (P : A → Type 0) (xs : List A) → All P xs → All P (keep p xs)
  All-keep P [] h = tt
  All-keep P (x ∷ xs) h = elim (p x) as (λ b. All P (if b then x ∷ keep p xs else keep p xs)) [
    | true ↦ (h.0, All-keep P xs h.1)
    | false ↦ All-keep P xs h.1
  ]

  pub keep_passes : (xs : List A) → All (λ x. p x ≡ true) (keep p xs)
  keep_passes [] = tt
  keep_passes (x ∷ xs) = ground (arith, keep_passes xs)

pub All-imp :
    {A : Type 0} {P Q : A → Type 0} (f : (x : A) → P x → Q x) (xs : List A) → All P xs → All Q xs
All-imp f [] h = tt
All-imp f (x ∷ xs) h = (f x h.0, All-imp f xs h.1)
