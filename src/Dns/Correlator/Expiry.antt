-- ===== src/Dns/Correlator/Expiry.antt =====
-- Which queries an expiry and the end of the capture report, and how a response is matched.
use agentkubenetwork.Base.{
  ℕ, ◌-◌, ◌≡◌, refl, sym, ap, subst, ok, ◌∙◌, ltb, Bool, true, false, List, [], ◌∷◌, ◌++◌, map,
  keep, length, All, none, some, Bytes, arith, Bool-cases, inl, inr,
}
use agentkubenetwork.Base.Map.{get, get-del}
use agentkubenetwork.Base.Keyed.{All-imp}
use agentkubenetwork.Dns.Types.{
  Fragment, Message, Transaction, PendingKey, PendingKey-discrete, PendingQuery,
}
use agentkubenetwork.Dns.Message.{parse}
use mathlib.Core.Path.{ap₂}
use agentkubenetwork.Dns.Transactions.{
  unanswered, at_capture_end, snapshot_fragment, matched, response_key,
}
use agentkubenetwork.Dns.Correlator.{
  Correlator, remove, expire_from, expire, is_aged, drain, finish, process_datagram, handle, answer,
}
use agentkubenetwork.Dns.Correlator.Deadlines.{find_key, find_key-key, Ascending}
use agentkubenetwork.Dns.Correlator.Invariant.{Inv, deadlines-remove, expire-Inv, drain-Inv}

nothing_of_length : {A : Type 0} (xs : List A) → length xs ≡ 0 → xs ≡ []
nothing_of_length [] e = refl
nothing_of_length (x ∷ xs) e = absurd (omega (arith, e))

abbrev pub is_fresh : ℕ → ℕ → PendingQuery → Bool
is_fresh timeout now q = ltb (now - q.fragment.observed_at) timeout

keep_nothing :
    {A : Type 0} (p : A → Bool) (xs : List A) → All (λ x. p x ≡ false) xs → keep p xs ≡ []
keep_nothing p [] a = refl
keep_nothing p (x ∷ xs) a = ground (arith, a.0, keep_nothing p xs a.1)

keep_whole : {A : Type 0} (p : A → Bool) (xs : List A) → All (λ x. p x ≡ true) xs → keep p xs ≡ xs
keep_whole p [] a = refl
keep_whole p (x ∷ xs) a = ground (arith, a.0, keep_whole p xs a.1)

-- Behind a fresh query all are fresh.
fresh_behind :
    (timeout now : ℕ) (q : PendingQuery) (qs : List PendingQuery)
    → is_aged timeout now q ≡ false
    → Ascending (q ∷ qs)
    → All (λ p. is_fresh timeout now p ≡ true) (q ∷ qs)
fresh_behind timeout now q qs e a =
    (ground (arith, e), All-imp (λ p h. ground (arith, e, h)) qs a.0)

record Splits (c : Correlator) (now : ℕ) (qs : List PendingQuery) : Type 0 where
  reports : (expire_from c now qs).1 ≡ map unanswered (keep (is_aged c.timeout now) qs)
  keeps : (expire_from c now qs).0.deadlines ≡ keep (is_fresh c.timeout now) qs

timeout-remove : (c : Correlator) (q : PendingQuery) → (remove c q).timeout ≡ c.timeout
unfolding remove
timeout-remove c q = refl

expire_from-Splits :
    (c : Correlator) (now : ℕ) (qs : List PendingQuery)
    → c.deadlines ≡ qs
    → Ascending qs
    → Splits c now qs
unfolding expire_from
expire_from-Splits c now [] e a = record { reports = refl; keeps = e }
expire_from-Splits c now (q ∷ qs) e a = elim (Bool-cases (is_aged c.timeout now q)) [
  | inl aged ↦
      let ih = expire_from-Splits (remove c q) now qs (deadlines-remove c q qs e) a.1 in
      record {
        reports = ground (arith, aged, ih.reports, timeout-remove c q);
        keeps = ground (arith, aged, ih.keeps, timeout-remove c q);
      }
  | inr fresh ↦
      let all = fresh_behind c.timeout now q qs fresh a in
      record {
        reports = ground (
          arith,
          fresh,
          keep_nothing (is_aged c.timeout now) qs (All-imp (λ p h. ground (arith, h)) qs all.1),
        );
        keeps = ground (arith, fresh, e, keep_whole (is_fresh c.timeout now) qs all.1);
      }
]

-- An expiry reports exactly the pending queries whose age has reached the timeout, oldest first, and
-- keeps exactly the others.
pub expire_exact :
    (c : Correlator) (now : ℕ)
    → Inv c
    → ((expire c now).1 ≡ map unanswered (keep (is_aged c.timeout now) c.deadlines))
      × ((expire c now).0.deadlines ≡ keep (is_fresh c.timeout now) c.deadlines)
unfolding expire
expire_exact c now v =
    let s = expire_from-Splits c now c.deadlines refl v.ascending in (s.reports, s.keeps)

drain_exact :
    (report : PendingQuery → Transaction) (c : Correlator) (qs : List PendingQuery)
    → c.deadlines ≡ qs
    → ((drain report c qs).1 ≡ map report qs) × ((drain report c qs).0.deadlines ≡ [])
unfolding drain
drain_exact report c [] e = (refl, e)
drain_exact report c (q ∷ qs) e =
    let ih = drain_exact report (remove c q) qs (deadlines-remove c q qs e) in
    (ap (◌∷◌ (report q)) ih.0, ih.1)

-- At the end of the capture every pending query is reported once: those that have timed out as
-- unanswered, the others as incomplete. None is left.
pub finish_exact :
    (c : Correlator) (now : ℕ)
    → Inv c
    → ((finish c now).1
        ≡ map unanswered (keep (is_aged c.timeout now) c.deadlines)
          ++ map at_capture_end (keep (is_fresh c.timeout now) c.deadlines))
      × ((finish c now).0.deadlines ≡ [])
      × ((finish c now).0.pending ≡ [])
unfolding finish
finish_exact c now v =
    let x = expire_exact c now v in
    let d = (expire c now).0 in
    let r = drain_exact at_capture_end d d.deadlines refl in
    let w = drain-Inv at_capture_end d d.deadlines refl (expire-Inv c now v) in
    (
      ap₂ (◌++◌) x.0 (r.0 ∙ ap (map at_capture_end) x.1),
      r.1,
      nothing_of_length _ (omega (arith, w.equal, ap length r.1)),
    )

find_key-keep :
    (p : PendingQuery → Bool) (k : PendingKey) (q : PendingQuery) (qs : List PendingQuery)
    → find_key k qs ≡ some q
    → p q ≡ true
    → find_key k (keep p qs) ≡ some q
unfolding find_key
find_key-keep p k q [] e h = absurd (cc)
find_key-keep p k q (x ∷ xs) e h = elim (PendingKey-discrete x.key k) [
  | yes y ↦ ground (arith, y, h)
  | no n ↦ ground (arith, n, find_key-keep p k q xs (ground (arith, n)) h)
]

-- A query that has not timed out is still pending after an expiry.
pub still_pending :
    (c : Correlator) (now : ℕ) (k : PendingKey) (q : PendingQuery)
    → Inv c
    → get PendingKey-discrete k c.pending ≡ some q
    → is_fresh c.timeout now q ≡ true
    → get PendingKey-discrete k (expire c now).0.pending ≡ some q
still_pending c now k q v pending fresh =
    (expire-Inv c now v).linked k
    ∙ ap (find_key k) (expire_exact c now v).1
    ∙ find_key-keep _ k q c.deadlines (sym (v.linked k) ∙ pending) fresh

handle_match :
    (c : Correlator) (f : Fragment) (payload : Bytes) (m : Message) (q : PendingQuery)
    → get PendingKey-discrete (response_key f m) c.pending ≡ some q
    → m.response ≡ true
    → handle c f payload (ok m) ≡ (remove c q, matched q f m ∷ [])
unfolding handle answer
handle_match c f payload m q e isr = ground (arith, e, isr)

pending-remove :
    (c : Correlator) (q : PendingQuery) → get PendingKey-discrete q.key (remove c q).pending ≡ none
unfolding remove
pending-remove c q = ground (arith, get-del PendingKey-discrete q.key q.key c.pending)

-- A response whose query is pending and has not timed out: the queries that time out at its capture are
-- reported, then what `matched` makes of the two; and its key is no longer pending.
pub process_datagram_match :
    (c : Correlator) (f : Fragment) (m : Message) (q : PendingQuery)
    → Inv c
    → parse f.payload ≡ ok m
    → m.response ≡ true
    → get PendingKey-discrete (response_key (snapshot_fragment f) m) c.pending ≡ some q
    → is_fresh c.timeout f.observed_at q ≡ true
    → ((process_datagram c f).1
        ≡ map unanswered (keep (is_aged c.timeout f.observed_at) c.deadlines)
          ++ matched q (snapshot_fragment f) m ∷ [])
      × (get PendingKey-discrete
            (response_key (snapshot_fragment f) m)
            (process_datagram c f).0.pending
          ≡ none)
unfolding process_datagram
process_datagram_match c f m q v parsed isr pending fresh =
    let k = response_key (snapshot_fragment f) m in
    let x = expire_exact c f.observed_at v in
    let d = (expire c f.observed_at).0 in
    let w = expire-Inv c f.observed_at v in
    let still : get PendingKey-discrete k d.pending ≡ some q =
      still_pending c f.observed_at k q v pending fresh in
    let same : q.key ≡ k = find_key-key k d.deadlines q (sym (w.linked k) ∙ still) in
    let done =
      ap (handle d (snapshot_fragment f) f.payload) parsed
      ∙ handle_match d (snapshot_fragment f) f.payload m q still isr in
    (
      ap₂ (◌++◌) x.0 (ap (λ r. r.1) done),
      ap (λ r. get PendingKey-discrete k r.0.pending) done
          ∙ subst (λ j. get PendingKey-discrete j (remove d q).pending ≡ none) same
              (pending-remove d q),
    )
