-- ===== src/Dns/Correlator/Waiting.antt =====
-- A query that waits while other datagrams come.
use agentkubenetwork.Base.{
  ℕ, ◌<◌, ◌≡◌, ◌≢◌, refl, sym, ap, ok, ◌∙◌, leb, Bool, true, false, List, [], ◌∷◌, add64, if_cases,
  Result, err, keep, length, none, some, Option, Bytes, arith,
}
use agentkubenetwork.Base.Map.{get, get-put, get-del}
use agentkubenetwork.Base.Keyed.{length-keep}
use agentkubenetwork.Dns.Types.{
  Fragment, Message, Transaction, PendingKey, PendingKey-discrete, PendingQuery,
}
use agentkubenetwork.Dns.Message.{parse, ParseError}
use agentkubenetwork.Dns.Transactions.{snapshot_fragment, query_key, response_key}
use agentkubenetwork.Dns.Correlator.{
  Correlator, expire, is_aged, process_datagram, handle, admit, answer, remove, expire_from,
}
use agentkubenetwork.Dns.Correlator.Deadlines.{find_key, find_key-key}
use agentkubenetwork.Dns.Correlator.Invariant.{Inv, expire-Inv}
use agentkubenetwork.Dns.Correlator.Expiry.{is_fresh, still_pending, expire_exact}

-- What no call changes.
abbrev pub SameBounds : Correlator → Correlator → Type 0
SameBounds c d = (d.timeout ≡ c.timeout) × (d.max_pending ≡ c.max_pending)

remove-SameBounds : (c : Correlator) (q : PendingQuery) → SameBounds c (remove c q)
unfolding remove
remove-SameBounds c q = (refl, refl)

expire_from-SameBounds :
    (c : Correlator) (now : ℕ) (qs : List PendingQuery) → SameBounds c (expire_from c now qs).0
unfolding expire_from
expire_from-SameBounds c now [] = (refl, refl)
expire_from-SameBounds c now (q ∷ qs) =
    let v = expire_from-SameBounds (remove c q) now qs in
    let w = remove-SameBounds c q in
    if_cases (λ (r : Correlator × List Transaction). SameBounds c r.0) (is_aged c.timeout now q)
      (λ e. (v.0 ∙ w.0, v.1 ∙ w.1)) (λ e. (refl, refl))

answer-SameBounds :
    (c : Correlator) (f : Fragment) (m : Message) (found : Option PendingQuery)
    → SameBounds c (answer c f m found).0
unfolding answer
answer-SameBounds c f m none = (refl, refl)
answer-SameBounds c f m (some q) = remove-SameBounds c q

admit-SameBounds :
    (c : Correlator) (f : Fragment) (m : Message) (found : Option PendingQuery)
    → SameBounds c (admit c f m found).0
unfolding admit
admit-SameBounds c f m none =
    if_cases (λ (r : Correlator × List Transaction). SameBounds c r.0)
      (leb c.max_pending (length c.pending)) (λ e. (refl, refl)) (λ e. (refl, refl))
admit-SameBounds c f m (some q) = (refl, refl)

handle-SameBounds :
    (c : Correlator) (f : Fragment) (payload : Bytes) (r : Result ParseError Message)
    → SameBounds c (handle c f payload r).0
unfolding handle
handle-SameBounds c f payload (err e) = (refl, refl)
handle-SameBounds c f payload (ok m) =
    if_cases (λ (r : Correlator × List Transaction). SameBounds c r.0) m.response
      (λ e. answer-SameBounds c f m _) (λ e. admit-SameBounds c f m _)

pub process_datagram-SameBounds :
    (c : Correlator) (f : Fragment) → SameBounds c (process_datagram c f).0
unfolding process_datagram expire
process_datagram-SameBounds c f =
    let v =
      handle-SameBounds (expire c f.observed_at).0 (snapshot_fragment f) f.payload
        (parse f.payload) in
    let w = expire_from-SameBounds c f.observed_at c.deadlines in (v.0 ∙ w.0, v.1 ∙ w.1)

-- A datagram that is of another exchange.
abbrev pub IsOther : PendingKey → Fragment → Type 0
IsOther k f = (m : Message) → parse f.payload ≡ ok m → (query_key f m ≢ k) × (response_key f m ≢ k)

pending-remove_other :
    (c : Correlator) (k : PendingKey) (q : PendingQuery)
    → q.key ≢ k
    → get PendingKey-discrete k (remove c q).pending ≡ get PendingKey-discrete k c.pending
unfolding remove
pending-remove_other c k q other =
    ground (arith, get-del PendingKey-discrete q.key k c.pending, other)

answer_other :
    (c : Correlator) (f : Fragment) (m : Message) (k : PendingKey) (found : Option PendingQuery)
    → Inv c
    → get PendingKey-discrete (response_key f m) c.pending ≡ found
    → response_key f m ≢ k
    → get PendingKey-discrete k (answer c f m found).0.pending ≡ get PendingKey-discrete k c.pending
unfolding answer
answer_other c f m k none v e other = refl
answer_other c f m k (some q) v e other =
    let same : q.key ≡ response_key f m =
      find_key-key (response_key f m) c.deadlines q (sym (v.linked (response_key f m)) ∙ e) in
    pending-remove_other c k q (λ h. other (sym same ∙ h))

-- What is kept of a query.
abbrev kept : Correlator → Fragment → Message → PendingQuery
kept c f m = record {
  fragment = f;
  message = m;
  key = query_key f m;
  sequence = add64 c.sequence 1;
}

admit_other :
    (c : Correlator) (f : Fragment) (m : Message) (k : PendingKey) (found : Option PendingQuery)
    → query_key f m ≢ k
    → get PendingKey-discrete k (admit c f m found).0.pending ≡ get PendingKey-discrete k c.pending
unfolding admit
admit_other c f m k (some q) other = refl
admit_other c f m k none other =
    if_cases
      (λ (r : Correlator × List Transaction).
        get PendingKey-discrete k r.0.pending ≡ get PendingKey-discrete k c.pending)
      (leb c.max_pending (length c.pending)) (λ e. refl)
      (λ e.
        ground (arith, get-put PendingKey-discrete (query_key f m) k (kept c f m) c.pending, other))

handle_other :
    (c : Correlator) (f : Fragment) (payload : Bytes) (k : PendingKey)
    (r : Result ParseError Message)
    → Inv c
    → ((m : Message) → r ≡ ok m → (query_key f m ≢ k) × (response_key f m ≢ k))
    → get PendingKey-discrete k (handle c f payload r).0.pending
      ≡ get PendingKey-discrete k c.pending
unfolding handle
handle_other c f payload k (err e) v other = refl
handle_other c f payload k (ok m) v other =
    if_cases
      (λ (r : Correlator × List Transaction).
        get PendingKey-discrete k r.0.pending ≡ get PendingKey-discrete k c.pending)
      m.response (λ e. answer_other c f m k _ v refl (other m refl).1)
      (λ e. admit_other c f m k _ (other m refl).0)

-- Another exchange's datagram leaves a query pending that has not timed out.
pub process_datagram_other :
    (c : Correlator) (f : Fragment) (k : PendingKey) (q : PendingQuery)
    → Inv c
    → IsOther k f
    → get PendingKey-discrete k c.pending ≡ some q
    → is_fresh c.timeout f.observed_at q ≡ true
    → get PendingKey-discrete k (process_datagram c f).0.pending ≡ some q
unfolding process_datagram snapshot_fragment
process_datagram_other c f k q v other pending fresh =
    handle_other (expire c f.observed_at).0 (snapshot_fragment f) f.payload k (parse f.payload)
      (expire-Inv c f.observed_at v) other
    ∙ still_pending c f.observed_at k q v pending fresh

-- What is kept of a query: its fragment, without payload and command line.
abbrev pub Holds : Correlator → PendingKey → Fragment → Type 0
Holds c k f =
    (q : PendingQuery) × (get PendingKey-discrete k c.pending ≡ some q)
    × (q.fragment ≡ snapshot_fragment f)

admit-Holds :
    (c : Correlator) (f : Fragment) (m : Message) (found : Option PendingQuery)
    → found ≡ none
    → length c.pending < c.max_pending
    → (q : PendingQuery) × (get PendingKey-discrete (query_key f m) (admit c f m found).0.pending
        ≡ some q)
      × (q.fragment ≡ f)
unfolding admit
admit-Holds c f m (some q) e room = absurd (cc)
admit-Holds c f m none e room =
    if_cases
      (λ (r : Correlator × List Transaction).
        (q : PendingQuery) × (get PendingKey-discrete (query_key f m) r.0.pending ≡ some q)
        × (q.fragment ≡ f))
      (leb c.max_pending (length c.pending)) (λ e. absurd (ground arith))
      (λ e. (
        kept c f m,
        ground (
          arith,
          get-put PendingKey-discrete (query_key f m) (query_key f m) (kept c f m) c.pending,
        ),
        refl,
      ))

handle_query :
    (c : Correlator) (f : Fragment) (payload : Bytes) (m : Message)
    → m.response ≡ false
    → handle c f payload (ok m) ≡ admit c f m (get PendingKey-discrete (query_key f m) c.pending)
unfolding handle
handle_query c f payload m e = ground (arith, e)

find_key-keep_absent :
    (p : PendingQuery → Bool) (k : PendingKey) (qs : List PendingQuery)
    → find_key k qs ≡ none
    → find_key k (keep p qs) ≡ none
unfolding find_key
find_key-keep_absent p k [] e = refl
find_key-keep_absent p k (q ∷ qs) e = ground (arith, e, find_key-keep_absent p k qs)

pub process_datagram-Holds :
    (c : Correlator) (f : Fragment) (m : Message)
    → Inv c
    → parse f.payload ≡ ok m
    → m.response ≡ false
    → get PendingKey-discrete (query_key f m) c.pending ≡ none
    → length c.pending < c.max_pending
    → Holds (process_datagram c f).0 (query_key f m) f
unfolding process_datagram expire snapshot_fragment
process_datagram-Holds c f m v parsed asks new room =
    let k = query_key f m in
    let d = (expire c f.observed_at).0 in
    let w = expire-Inv c f.observed_at v in
    let split = expire_exact c f.observed_at v in
    let b = expire_from-SameBounds c f.observed_at c.deadlines in
    let gone : get PendingKey-discrete k d.pending ≡ none =
      w.linked k
      ∙ ap (find_key k) split.1
      ∙ find_key-keep_absent _ k c.deadlines (sym (v.linked k) ∙ new) in
    let fits : length d.pending < d.max_pending = omega (
      arith,
      w.equal,
      ap length split.1,
      length-keep (is_fresh c.timeout f.observed_at) c.deadlines,
      v.equal,
      b.1,
      room,
    ) in
    let done : (process_datagram c f).0
        ≡ (admit d (snapshot_fragment f) m (get PendingKey-discrete k d.pending)).0 =
      ap (λ r. (handle d (snapshot_fragment f) f.payload r).0) parsed
      ∙ ap (λ (r : Correlator × List Transaction). r.0)
          (handle_query d (snapshot_fragment f) f.payload m asks) in
    let held =
      admit-Holds d (snapshot_fragment f) m (get PendingKey-discrete k d.pending) gone fits in
    (held.0, ap (λ (e : Correlator). get PendingKey-discrete k e.pending) done ∙ held.1, held.2)
