-- ===== src/Dns/Correlator/Deadlines.antt =====
-- The heap of deadlines as a list: look-up by key, insertion and removal, and what both keep.
use agentkubenetwork.Base.{
  ℕ, ◌+◌, ◌≤◌, ◌<◌, ◌≡◌, ◌≢◌, refl, sym, subst, ◌==◌, false, ite, List, [], ◌∷◌, length, All,
  Option, none, some, arith, Bool-cases, inl, inr,
}
use agentkubenetwork.Base.Keyed.{All-imp}
use agentkubenetwork.Dns.Types.{PendingKey, PendingKey-discrete, PendingQuery}
use agentkubenetwork.Dns.Correlator.{push, query_less, remove_deadline}

-- The query of a key among the deadlines.
unfoldable pub find_key : PendingKey → List PendingQuery → Option PendingQuery
find_key k [] = none
find_key k (q ∷ qs) = ite (PendingKey-discrete q.key k) (some q) (find_key k qs)

-- No key and no sequence twice.
abbrev pub Apart : List PendingQuery → Type 0
Apart [] = Unit
Apart (q ∷ qs) = All (λ p. (p.key ≢ q.key) × (p.sequence ≢ q.sequence)) qs × Apart qs

-- Older captures first.
abbrev pub Ascending : List PendingQuery → Type 0
Ascending [] = Unit
Ascending (q ∷ qs) = All (λ p. q.fragment.observed_at ≤ p.fragment.observed_at) qs × Ascending qs

pub find_key-key :
    (k : PendingKey) (qs : List PendingQuery) (q : PendingQuery)
    → find_key k qs ≡ some q
    → q.key ≡ k
unfolding find_key
find_key-key k [] q e = absurd (cc)
find_key-key k (p ∷ ps) q e = ground (arith, find_key-key k ps q)

pub All-find_key :
    (P : PendingQuery → Type 0) (k : PendingKey) (qs : List PendingQuery) (q : PendingQuery)
    → find_key k qs ≡ some q
    → All P qs
    → P q
unfolding find_key
All-find_key P k [] q e a = absurd (cc)
All-find_key P k (p ∷ ps) q e a = elim (PendingKey-discrete p.key k) [
  | yes h ↦ subst P (ground arith) a.0
  | no h ↦ All-find_key P k ps q (ground arith) a.1
]

pub find_key_absent :
    (k : PendingKey) (qs : List PendingQuery) → All (λ p. p.key ≢ k) qs → find_key k qs ≡ none
unfolding find_key
find_key_absent k [] a = refl
find_key_absent k (p ∷ ps) a = ground (arith, find_key_absent k ps a.1)

pub find_key-remove_deadline :
    (k j : PendingKey) (qs : List PendingQuery) (q : PendingQuery)
    → Apart qs
    → find_key k qs ≡ some q
    → find_key j (remove_deadline q.sequence qs)
      ≡ ite (PendingKey-discrete k j) none (find_key j qs)
unfolding find_key remove_deadline
find_key-remove_deadline k j [] q a e = absurd (cc)
find_key-remove_deadline k j (p ∷ ps) q a e = elim (PendingKey-discrete p.key k) [
  | yes h ↦ ground (arith, h, find_key_absent p.key ps (All-imp (λ x n. n.0) ps a.0))
  | no h ↦
      let found : find_key k ps ≡ some q = ground (arith, h) in
      let other = All-find_key _ k ps q found a.0 in
      ground
        (arith, h, other, find_key-remove_deadline k j ps q a.1 found, find_key-key k ps q found)
]

pub length-remove_deadline :
    (k : PendingKey) (qs : List PendingQuery) (q : PendingQuery)
    → find_key k qs ≡ some q
    → length (remove_deadline q.sequence qs) + 1 ≡ length qs
unfolding find_key remove_deadline
length-remove_deadline k [] q e = absurd (cc)
length-remove_deadline k (p ∷ ps) q e = ground (arith, length-remove_deadline k ps q)

pub All-remove_deadline :
    (P : PendingQuery → Type 0) (n : ℕ) (qs : List PendingQuery)
    → All P qs
    → All P (remove_deadline n qs)
unfolding remove_deadline
All-remove_deadline P n [] a = tt
All-remove_deadline P n (p ∷ ps) a = elim (Bool-cases (p.sequence == n)) [
  | inl e ↦ simp e a.1
  | inr e ↦ simp e (a.0, All-remove_deadline P n ps a.1)
]

pub remove_deadline-Apart :
    (n : ℕ) (qs : List PendingQuery) → Apart qs → Apart (remove_deadline n qs)
unfolding remove_deadline
remove_deadline-Apart n [] a = tt
remove_deadline-Apart n (p ∷ ps) a = elim (Bool-cases (p.sequence == n)) [
  | inl e ↦ simp e a.1
  | inr e ↦ simp e (All-remove_deadline _ n ps a.0, remove_deadline-Apart n ps a.1)
]

pub remove_deadline-Ascending :
    (n : ℕ) (qs : List PendingQuery) → Ascending qs → Ascending (remove_deadline n qs)
unfolding remove_deadline
remove_deadline-Ascending n [] a = tt
remove_deadline-Ascending n (p ∷ ps) a = elim (Bool-cases (p.sequence == n)) [
  | inl e ↦ simp e a.1
  | inr e ↦ simp e (All-remove_deadline _ n ps a.0, remove_deadline-Ascending n ps a.1)
]

pub All-push :
    (P : PendingQuery → Type 0) (q : PendingQuery) (qs : List PendingQuery)
    → P q
    → All P qs
    → All P (push q qs)
unfolding push
All-push P q [] h a = (h, tt)
All-push P q (p ∷ ps) h a = elim (Bool-cases (query_less p q)) [
  | inl e ↦ simp e (a.0, All-push P q ps h a.1)
  | inr e ↦ simp e (h, a)
]

pub length-push : (q : PendingQuery) (qs : List PendingQuery) → length (push q qs) ≡ length qs + 1
unfolding push
length-push q [] = omega arith
length-push q (p ∷ ps) = ground (arith, length-push q ps)

-- A query with a new key and sequence.
abbrev pub IsNew : PendingQuery → List PendingQuery → Type 0
IsNew q = All (λ p. (p.key ≢ q.key) × (p.sequence ≢ q.sequence))

pub push-Apart :
    (q : PendingQuery) (qs : List PendingQuery) → IsNew q qs → Apart qs → Apart (push q qs)
unfolding push
push-Apart q [] n a = (tt, tt)
push-Apart q (p ∷ ps) n a = elim (Bool-cases (query_less p q)) [
  | inl e ↦
      simp e (All-push _ q ps (λ h. n.0.0 (sym h), λ h. n.0.1 (sym h)) a.0, push-Apart q ps n.1 a.1)
  | inr e ↦ simp e (n, a)
]

ascending_from :
    (q p : PendingQuery) (ps : List PendingQuery)
    → query_less p q ≡ false
    → All (λ x. p.fragment.observed_at ≤ x.fragment.observed_at) ps
    → All (λ x. q.fragment.observed_at ≤ x.fragment.observed_at) (p ∷ ps)
ascending_from q p ps e a =
    let first : q.fragment.observed_at ≤ p.fragment.observed_at = ground (arith, e) in
    (first, All-imp (λ x h. omega (arith, first, h)) ps a)

pub push-Ascending :
    (q : PendingQuery) (qs : List PendingQuery) → Ascending qs → Ascending (push q qs)
unfolding push
push-Ascending q [] a = (tt, tt)
push-Ascending q (p ∷ ps) a = elim (Bool-cases (query_less p q)) [
  | inl e ↦ simp e (All-push _ q ps (ground (arith, e)) a.0, push-Ascending q ps a.1)
  | inr e ↦ simp e (ascending_from q p ps e a.0, a)
]

pub find_key-push :
    (j : PendingKey) (q : PendingQuery) (qs : List PendingQuery)
    → find_key q.key qs ≡ none
    → find_key j (push q qs) ≡ ite (PendingKey-discrete q.key j) (some q) (find_key j qs)
unfolding find_key push
find_key-push j q [] e = refl
find_key-push j q (p ∷ ps) e = ground (arith, find_key-push j q ps)

-- A key that is not found, with a sequence above all, is new.
pub find_key-IsNew :
    (q : PendingQuery) (qs : List PendingQuery) (last : ℕ)
    → find_key q.key qs ≡ none
    → All (λ p. p.sequence ≤ last) qs
    → last < q.sequence
    → IsNew q qs
unfolding find_key
find_key-IsNew q [] last e a h = tt
find_key-IsNew q (p ∷ ps) last e a h = ground (arith, find_key-IsNew q ps last)
