-- ===== src/Dns/Correlator/History.antt =====
-- The correlator over a history of calls. Sequences are 64-bit: fewer than 2^64 calls give distinct ones.
use agentkubenetwork.Base.{
  ℕ, suc, ◌+◌, ◌≤◌, ◌<◌, ◌≡◌, refl, sym, ap, subst, ◌∙◌, leb, ite, List, [], ◌∷◌, ◌++◌, length,
  Option, u64, add64, none, some, Result, ok, err, arith, Bytes, Bool-cases, inl, inr, leb-false,
}
use agentkubenetwork.Base.Map.{get, get-put}
use agentkubenetwork.Base.Int.{ℤ}
use agentkubenetwork.Base.Group.{Distinct, insert_key-Distinct}
use agentkubenetwork.Base.Keyed.{length-put_new, keys_of-put, All-imp}
use agentkubenetwork.Dns.Types.{Fragment, Message, Transaction, PendingKey-discrete, PendingQuery}
use agentkubenetwork.Dns.Message.{parse, ParseError}
use agentkubenetwork.Dns.Transactions.{
  at_capture_end, unanswered, query_key, response_key, snapshot_fragment,
}
use agentkubenetwork.Dns.Correlator.{
  Correlator, new_correlator_with_config, remove, expire_from, expire, admit, answer, handle,
  process_datagram, drain, finish, flush,
}
use agentkubenetwork.Dns.Correlator.Deadlines.{
  find_key, find_key-key, All-push, length-push, push-Apart, push-Ascending, find_key-push,
  find_key-IsNew,
}
use agentkubenetwork.Dns.Correlator.Invariant.{
  Inv, new_correlator-Inv, remove-Inv, expire-Inv, drain-Inv,
}

next_sequence : (n : ℕ) → suc n < u64 → add64 n 1 ≡ suc n
next_sequence n b = omega (arith, b)

sequence-new : (timeout cap : ℤ) → (new_correlator_with_config timeout cap).sequence ≡ 0
unfolding new_correlator_with_config
sequence-new timeout cap = refl

sequence-remove : (c : Correlator) (q : PendingQuery) → (remove c q).sequence ≡ c.sequence
unfolding remove
sequence-remove c q = refl

sequence-expire_from :
    (c : Correlator) (now : ℕ) (qs : List PendingQuery)
    → (expire_from c now qs).0.sequence ≡ c.sequence
unfolding expire_from
sequence-expire_from c now [] = refl
sequence-expire_from c now (q ∷ qs) =
    ground (arith, sequence-expire_from (remove c q) now qs, sequence-remove c q)

pub sequence-expire : (c : Correlator) (now : ℕ) → (expire c now).0.sequence ≡ c.sequence
unfolding expire
sequence-expire c now = sequence-expire_from c now c.deadlines

sequence-drain :
    (report : PendingQuery → Transaction) (c : Correlator) (qs : List PendingQuery)
    → (drain report c qs).0.sequence ≡ c.sequence
unfolding drain
sequence-drain report c [] = refl
sequence-drain report c (q ∷ qs) = sequence-drain report (remove c q) qs ∙ sequence-remove c q

sequence-admit :
    (c : Correlator) (f : Fragment) (m : Message) (found : Option PendingQuery)
    → (admit c f m found).0.sequence ≤ suc c.sequence
unfolding admit
sequence-admit c f m (some q) = omega arith
sequence-admit c f m none = ground arith

sequence-answer :
    (c : Correlator) (f : Fragment) (m : Message) (found : Option PendingQuery)
    → (answer c f m found).0.sequence ≤ suc c.sequence
unfolding answer
sequence-answer c f m (some q) = omega (arith, sequence-remove c q)
sequence-answer c f m none = omega arith

pub sequence-handle :
    (c : Correlator) (f : Fragment) (payload : Bytes) (r : Result ParseError Message)
    → (handle c f payload r).0.sequence ≤ suc c.sequence
unfolding handle
sequence-handle c f payload (err e) = omega arith
sequence-handle c f payload (ok m) = elim (Bool-cases m.response) [
  | inl h ↦ simp h (sequence-answer c f m (get PendingKey-discrete (response_key f m) c.pending))
  | inr h ↦ simp h (sequence-admit c f m (get PendingKey-discrete (query_key f m) c.pending))
]

admit-Inv :
    (c : Correlator) (f : Fragment) (m : Message) (found : Option PendingQuery)
    → get PendingKey-discrete (query_key f m) c.pending ≡ found
    → suc c.sequence < u64
    → Inv c
    → Inv (admit c f m found).0
unfolding admit
admit-Inv c f m (some q) e b v = v
admit-Inv c f m none e b v = elim (Bool-cases (leb c.max_pending (length c.pending))) [
  | inl full ↦ rw full v
  | inr room ↦
      let k = query_key f m in
      let q : PendingQuery = record {
        fragment = f;
        message = m;
        key = k;
        sequence = add64 c.sequence 1;
      } in
      let next : add64 c.sequence 1 ≡ suc c.sequence = next_sequence c.sequence b in
      let absent = sym (v.linked k) ∙ e in
      let fresh = find_key-IsNew q c.deadlines c.sequence absent v.stamped (omega (arith, next)) in
      let longer = length-put_new PendingKey-discrete k q c.pending e in
      rw room (record {
        distinct =
            subst (Distinct PendingKey-discrete)
              (sym (keys_of-put PendingKey-discrete k q c.pending))
              (insert_key-Distinct PendingKey-discrete k _ v.distinct);
        linked = λ j.
            get-put PendingKey-discrete k j q c.pending
            ∙ ap (ite (PendingKey-discrete k j) (some q)) (v.linked j)
            ∙ sym (find_key-push j q c.deadlines absent);
        equal = omega (arith, longer, v.equal, length-push q c.deadlines);
        within = omega (arith, longer, leb-false _ _ room);
        apart = push-Apart q c.deadlines fresh v.apart;
        ascending = push-Ascending q c.deadlines v.ascending;
        stamped =
            All-push _ q c.deadlines (omega arith)
              (All-imp (λ x h. omega (arith, next, h)) c.deadlines v.stamped);
      })
]

answer-Inv :
    (c : Correlator) (f : Fragment) (m : Message) (found : Option PendingQuery)
    → get PendingKey-discrete (response_key f m) c.pending ≡ found
    → Inv c
    → Inv (answer c f m found).0
unfolding answer
answer-Inv c f m none e v = v
answer-Inv c f m (some q) e v =
    let k = response_key f m in
    let found = sym (v.linked k) ∙ e in
    remove-Inv c q v (
      subst (λ j. find_key j c.deadlines ≡ some q) (sym (find_key-key k c.deadlines q found)) found)

handle-Inv :
    (c : Correlator) (f : Fragment) (payload : Bytes) (r : Result ParseError Message)
    → suc c.sequence < u64
    → Inv c
    → Inv (handle c f payload r).0
unfolding handle
handle-Inv c f payload (err e) b v = v
handle-Inv c f payload (ok m) b v = elim (Bool-cases m.response) [
  | inl h ↦ simp h (answer-Inv c f m _ refl v)
  | inr h ↦ simp h (admit-Inv c f m _ refl b v)
]

pub process_datagram-Inv :
    (c : Correlator) (f : Fragment) → suc c.sequence < u64 → Inv c → Inv (process_datagram c f).0
unfolding process_datagram
process_datagram-Inv c f b v =
    let same = sequence-expire c f.observed_at in
    handle-Inv (expire c f.observed_at).0 (snapshot_fragment f) f.payload (parse f.payload)
      (omega (arith, b, same)) (expire-Inv c f.observed_at v)

finish-Inv : (c : Correlator) (now : ℕ) → Inv c → Inv (finish c now).0
unfolding finish
finish-Inv c now v =
    drain-Inv _ (expire c now).0 (expire c now).0.deadlines refl (expire-Inv c now v)

pub data Call : Type 0 where
  datagram : Fragment → Call
  expires finishes : ℕ → Call
  flushes : Call

unfoldable pub step : Correlator → Call → Correlator × List Transaction
step c (datagram f) = process_datagram c f
step c (expires now) = expire c now
step c (finishes now) = finish c now
step c flushes = flush c

unfoldable pub run : Correlator → List Call → Correlator × List Transaction
run c [] = (c, [])
run c (x ∷ xs) = let (d, ts) = step c x in let (e, us) = run d xs in (e, ts ++ us)

step-Inv : (c : Correlator) (x : Call) → suc c.sequence < u64 → Inv c → Inv (step c x).0
unfolding step flush
step-Inv c (datagram f) b v = process_datagram-Inv c f b v
step-Inv c (expires now) b v = expire-Inv c now v
step-Inv c (finishes now) b v = finish-Inv c now v
step-Inv c flushes b v = drain-Inv _ c c.deadlines refl v

sequence-step : (c : Correlator) (x : Call) → (step c x).0.sequence ≤ suc c.sequence
unfolding step flush finish process_datagram
sequence-step c (datagram f) = omega (
  arith,
  sequence-expire c f.observed_at,
  sequence-handle (expire c f.observed_at).0 (snapshot_fragment f) f.payload (parse f.payload),
)
sequence-step c (expires now) = omega (arith, sequence-expire c now)
sequence-step c (finishes now) =
    let d = (expire c now).0 in
    omega (arith, sequence-expire c now, sequence-drain at_capture_end d d.deadlines)
sequence-step c flushes = omega (arith, sequence-drain unanswered c c.deadlines)

run-Inv :
    (c : Correlator) (xs : List Call) → c.sequence + length xs < u64 → Inv c → Inv (run c xs).0
unfolding run
run-Inv c [] b v = v
run-Inv c (x ∷ xs) b v =
    run-Inv (step c x).0 xs (omega (arith, b, sequence-step c x))
      (step-Inv c x (omega (arith, b)) v)

-- After fewer than 2^64 datagrams and calls of Expire, Finish and Flush: the map and the heap hold the
-- same queries, each key and each sequence once, at most `max_pending` of them, the older captures
-- first.
pub run-new_correlator-Inv :
    (timeout cap : ℤ) (xs : List Call)
    → length xs < u64
    → Inv (run (new_correlator_with_config timeout cap) xs).0
run-new_correlator-Inv timeout cap xs b =
    run-Inv _ xs (omega (arith, b, sequence-new timeout cap)) (new_correlator-Inv timeout cap)
