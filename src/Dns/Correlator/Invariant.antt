-- ===== src/Dns/Correlator/Invariant.antt =====
-- What every correlator keeps: the map and the heap hold the same queries, one for each key, in the
-- heap's order, and no more of them than allowed.
use agentkubenetwork.Base.{
  ℕ, ◌≤◌, ◌≡◌, ◌≢◌, refl, sym, ap, ◌∙◌, ite, List, [], ◌∷◌, map, length, All, none, some, arith,
  Bool-cases, inl, inr,
}
use agentkubenetwork.Base.Map.{get, get-del}
use agentkubenetwork.Base.Int.{ℤ}
use agentkubenetwork.Base.Group.{Distinct}
use agentkubenetwork.Base.Keyed.{del-Distinct, length-del}
use agentkubenetwork.Dns.Types.{Transaction, PendingKey, PendingKey-discrete, PendingQuery}
use agentkubenetwork.Dns.Correlator.{
  Correlator, new_correlator_with_config, remove_deadline, remove, expire_from, expire, is_aged,
  drain,
}
use agentkubenetwork.Dns.Correlator.Deadlines.{
  find_key, Apart, Ascending, find_key-remove_deadline, length-remove_deadline, All-remove_deadline,
  remove_deadline-Apart, remove_deadline-Ascending,
}

pub record Inv (c : Correlator) : Type 0 where
  pub distinct : Distinct PendingKey-discrete (map (λ kq. kq.0) c.pending)
  pub linked : (k : PendingKey) → get PendingKey-discrete k c.pending ≡ find_key k c.deadlines
  pub equal : length c.pending ≡ length c.deadlines
  pub within : length c.pending ≤ c.max_pending
  pub apart : Apart c.deadlines
  pub ascending : Ascending c.deadlines
  pub stamped : All (λ q. q.sequence ≤ c.sequence) c.deadlines

pub new_correlator-Inv : (timeout cap : ℤ) → Inv (new_correlator_with_config timeout cap)
unfolding new_correlator_with_config get find_key
new_correlator-Inv timeout cap = record {
  distinct = tt;
  linked = λ k. refl;
  equal = refl;
  within = omega arith;
  apart = tt;
  ascending = tt;
  stamped = tt;
}

-- A pending query is removed from the map and from the heap alike.
pub remove-Inv :
    (c : Correlator) (q : PendingQuery)
    → Inv c
    → find_key q.key c.deadlines ≡ some q
    → Inv (remove c q)
unfolding remove
remove-Inv c q v e =
    let held : get PendingKey-discrete q.key c.pending ≢ none = ground (arith, v.linked q.key, e) in
    let fewer = length-del PendingKey-discrete q.key c.pending v.distinct held in
    record {
      distinct = del-Distinct PendingKey-discrete q.key c.pending v.distinct;
      linked = λ k.
          get-del PendingKey-discrete q.key k c.pending
          ∙ ap (ite (PendingKey-discrete q.key k) none) (v.linked k)
          ∙ sym (find_key-remove_deadline q.key k c.deadlines q v.apart e);
      equal = omega (arith, fewer, v.equal, length-remove_deadline q.key c.deadlines q e);
      within = omega (arith, fewer, v.within);
      apart = remove_deadline-Apart q.sequence c.deadlines v.apart;
      ascending = remove_deadline-Ascending q.sequence c.deadlines v.ascending;
      stamped = All-remove_deadline _ q.sequence c.deadlines v.stamped;
    }

find_key_head :
    (q : PendingQuery) (qs ds : List PendingQuery) → ds ≡ q ∷ qs → find_key q.key ds ≡ some q
unfolding find_key
find_key_head q qs ds e = rw e (ground arith)

pub deadlines-remove :
    (c : Correlator) (q : PendingQuery) (qs : List PendingQuery)
    → c.deadlines ≡ q ∷ qs
    → (remove c q).deadlines ≡ qs
unfolding remove remove_deadline
deadlines-remove c q qs e = rw e (ground arith)

pub remove_head-Inv :
    (c : Correlator) (q : PendingQuery) (qs : List PendingQuery)
    → c.deadlines ≡ q ∷ qs
    → Inv c
    → Inv (remove c q)
remove_head-Inv c q qs e v = remove-Inv c q v (find_key_head q qs c.deadlines e)

expire_from-Inv :
    (c : Correlator) (now : ℕ) (qs : List PendingQuery)
    → c.deadlines ≡ qs
    → Inv c
    → Inv (expire_from c now qs).0
unfolding expire_from
expire_from-Inv c now [] e v = v
expire_from-Inv c now (q ∷ qs) e v = elim (Bool-cases (is_aged c.timeout now q)) [
  | inl aged ↦
      rw aged (
        expire_from-Inv (remove c q) now qs (deadlines-remove c q qs e)
          (remove_head-Inv c q qs e v))
  | inr fresh ↦ rw fresh v
]

pub expire-Inv : (c : Correlator) (now : ℕ) → Inv c → Inv (expire c now).0
unfolding expire
expire-Inv c now v = expire_from-Inv c now c.deadlines refl v

pub drain-Inv :
    (report : PendingQuery → Transaction) (c : Correlator) (qs : List PendingQuery)
    → c.deadlines ≡ qs
    → Inv c
    → Inv (drain report c qs).0
unfolding drain
drain-Inv report c [] e v = v
drain-Inv report c (q ∷ qs) e v =
    drain-Inv report (remove c q) qs (deadlines-remove c q qs e) (remove_head-Inv c q qs e v)
