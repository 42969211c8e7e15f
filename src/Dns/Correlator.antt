-- ===== src/Dns/Correlator.antt =====
-- internal/dns/dns.go and pending.go: the correlator. The heap of deadlines is the list of its queries
-- in the order of `Less`, by capture time and then by sequence: sequences are distinct, so the order of
-- a heap's minima is determined. A difference of instants that Go would report as negative is 0 here;
-- it is only compared with a positive timeout.
pub mod Deadlines
pub mod Expiry
pub mod Invariant
pub mod History
pub mod Exchange
pub mod Waiting
use agentkubenetwork.Base.{
  ℕ, zero, suc, ◌+◌, ◌-◌, ◌/◌, ◌%◌, ◌==◌, ltb, leb, not, ◌&&◌, Bool, true, false, if◌then◌else◌,
  List, [], ◌∷◌, ◌++◌, map, keep, length, Option, add64, none, some, Bytes, Result, ok, err,
}
use agentkubenetwork.Base.Int.{ℤ, pos, positive_or}
use agentkubenetwork.Base.Map.{get, put, del}
use agentkubenetwork.Base.Text.{codes}
use agentkubenetwork.Flow.Types.{Process}
use agentkubenetwork.Flow.Window.{without_cmdline}
use agentkubenetwork.Dns.Types.{
  Fragment, Message, Transaction, Outcome, response, no_response, parse_failed, incomplete, Reason,
  no_reason, capture_ended, state_capacity, PendingKey, PendingKey-discrete, PendingQuery,
}
use agentkubenetwork.Dns.Transactions.{
  snapshot_fragment, query_key, response_key, no_response_of, unanswered, at_capture_end, oriented,
  parse_failure, response_of, matched,
}
use agentkubenetwork.Dns.Message.{parse, ParseError, response_code_string, query_type_string}

pub record Correlator : Type 0 where
  pub timeout : ℕ
  pub max_pending : ℕ
  pub pending : List (PendingKey × PendingQuery)
  pub deadlines : List PendingQuery
  pub sequence : ℕ

unfoldable pub new_correlator_with_config : ℤ → ℤ → Correlator
new_correlator_with_config timeout max_pending = record {
  timeout = positive_or 5000000000 timeout;
  max_pending = positive_or 16384 max_pending;
  pending = [];
  deadlines = [];
  sequence = 0;
}

pub new_correlator : ℤ → Correlator
unfolding new_correlator_with_config
new_correlator timeout = new_correlator_with_config timeout (pos 0)

-- `pendingHeap.Less`.
abbrev pub query_less : PendingQuery → PendingQuery → Bool
query_less a b =
    if a.fragment.observed_at == b.fragment.observed_at
    then ltb a.sequence b.sequence
    else ltb a.fragment.observed_at b.fragment.observed_at

-- `heap.Push`.
unfoldable pub push : PendingQuery → List PendingQuery → List PendingQuery
push q [] = q ∷ []
push q (p ∷ ps) = if query_less p q then p ∷ push q ps else q ∷ p ∷ ps

-- `heap.Remove` of the query with a sequence.
unfoldable pub remove_deadline : ℕ → List PendingQuery → List PendingQuery
remove_deadline n [] = []
remove_deadline n (p ∷ ps) = if p.sequence == n then ps else p ∷ remove_deadline n ps

pub remove : Correlator → PendingQuery → Correlator
remove c q = record c {
  deadlines = remove_deadline q.sequence c.deadlines;
  pending = del PendingKey-discrete q.key c.pending;
}

abbrev pub is_aged : ℕ → ℕ → PendingQuery → Bool
is_aged timeout now q = not (ltb (now - q.fragment.observed_at) timeout)

-- The loop of `expire`, over the heap's order: it stops at the first query that has not aged.
unfoldable pub expire_from : Correlator → ℕ → List PendingQuery → Correlator × List Transaction
expire_from c now [] = (c, [])
expire_from c now (q ∷ qs) =
    let (d, rest) = expire_from (remove c q) now qs in
    if is_aged c.timeout now q then (d, unanswered q ∷ rest) else (c, [])

unfoldable pub expire : Correlator → ℕ → Correlator × List Transaction
unfolding expire_from remove
expire c now = expire_from c now c.deadlines

-- A query: a duplicate of a pending one changes nothing, and without room it is reported at once.
unfoldable pub admit :
    Correlator → Fragment → Message → Option PendingQuery → Correlator × List Transaction
admit c f m (some earlier) = (c, [])
admit c f m none =
    if leb c.max_pending (length c.pending)
    then (c, record (no_response_of f m) { outcome = incomplete; reason = state_capacity } ∷ [])
    else let q : PendingQuery = record {
      fragment = f;
      message = m;
      key = query_key f m;
      sequence = add64 c.sequence 1;
    } in
      (
        record c {
          sequence = add64 c.sequence 1;
          pending = put PendingKey-discrete (query_key f m) q c.pending;
          deadlines = push q c.deadlines;
        },
        [],
      )

unfoldable pub answer :
    Correlator → Fragment → Message → Option PendingQuery → Correlator × List Transaction
unfolding remove
answer c f m none = (c, response_of f m ∷ [])
answer c f m (some q) = (remove c q, matched q f m ∷ [])

-- Past the expiry: a failure to parse, a query, or a response.
unfoldable pub handle :
    Correlator → Fragment → Bytes → Result ParseError Message → Correlator × List Transaction
handle c f payload (err e) = (c, parse_failure (oriented f payload) ∷ [])
handle c f payload (ok m) =
    if m.response
    then answer c f m (get PendingKey-discrete (response_key f m) c.pending)
    else admit c f m (get PendingKey-discrete (query_key f m) c.pending)

unfoldable pub process_datagram : Correlator → Fragment → Correlator × List Transaction
process_datagram c f =
    let (d, expired) = expire c f.observed_at in
    let (e, final) = handle d (snapshot_fragment f) f.payload (parse f.payload) in
    (e, expired ++ final)

-- The loops of `Finish` and `Flush`: every query that is left, in the heap's order.
unfoldable pub drain :
    (PendingQuery → Transaction) → Correlator → List PendingQuery → Correlator × List Transaction
drain report c [] = (c, [])
drain report c (q ∷ qs) = let (d, rest) = drain report (remove c q) qs in (d, report q ∷ rest)

unfoldable pub finish : Correlator → ℕ → Correlator × List Transaction
unfolding drain
finish c now =
    let (d, expired) = expire c now in
    let (e, rest) = drain at_capture_end d d.deadlines in (e, expired ++ rest)

pub flush : Correlator → Correlator × List Transaction
unfolding drain
flush c = drain unanswered c c.deadlines
