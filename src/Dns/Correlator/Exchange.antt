-- ===== src/Dns/Correlator/Exchange.antt =====
-- A query and its response, from datagram to transaction.
use agentkubenetwork.Base.{
  ℕ, suc, ◌+◌, ◌-◌, ◌*◌, ◌≤◌, ◌<◌, ◌≡◌, ◌≢◌, ◌⊎◌, refl, sym, ap, subst, ok, ◌∙◌, true, false, List,
  [], ◌∷◌, ◌++◌, map, All, keep, length, none, some, arith, u64,
}
use agentkubenetwork.Base.Map.{get}
use agentkubenetwork.Base.Text.{codes}
use agentkubenetwork.Flow.Types.{Process}
use agentkubenetwork.Dns.Types.{
  Fragment, Message, Transaction, response, no_reason, PendingKey, PendingKey-discrete,
  PendingQuery,
}
use agentkubenetwork.Dns.Message.{parse, response_code_string, query_type_string}
use agentkubenetwork.Dns.Transactions.{
  unanswered, snapshot_fragment, snapshot_process, matched, response_of, query_key, response_key,
}
use agentkubenetwork.Dns.Correlator.{Correlator, expire, is_aged, process_datagram}
use agentkubenetwork.Dns.Correlator.Invariant.{Inv}
use agentkubenetwork.Dns.Correlator.History.{process_datagram-Inv, sequence-expire, sequence-handle}
use agentkubenetwork.Dns.Correlator.Expiry.{is_fresh, process_datagram_match}
use agentkubenetwork.Dns.Correlator.Waiting.{
  process_datagram-SameBounds, IsOther, process_datagram_other, process_datagram-Holds,
}

-- A response to a query: the same question and ID between the same two ends, seen by the same observer.
pub record Answers (f : Fragment) (m : Message) (g : Fragment) (n : Message) : Type 0 where
  pub to_client : g.destination ≡ f.source
  pub from_server : g.source ≡ f.destination
  pub id : n.id ≡ m.id
  pub name : n.question_name ≡ m.question_name
  pub type : n.question_type ≡ m.question_type
  pub observer : g.observer_pid ≡ f.observer_pid
  pub node : g.node_name ≡ f.node_name

-- What is reported of a query and its response: who asked whom and what, by the query; the response's
-- code and capture; and the time between them, if both have one.
pub record Matches (f : Fragment) (m : Message) (g : Fragment) (n : Message) (t : Transaction)
    : Type 0 where
  pub observed_at : t.observed_at ≡ g.observed_at
  pub node_name : t.node_name ≡ f.node_name
  pub observer_pid : t.observer_pid ≡ f.observer_pid
  pub no_process : f.process ≡ none → t.process ≡ none
  pub process : (p : Process) → f.process ≡ some p → t.process ≡ some (record p { cmdline = [] })
  pub client_resolved : t.client_resolved ≡ f.source_resolved
  pub server_resolved : t.server_resolved ≡ f.destination_resolved
  pub client_pod : t.client_pod ≡ f.source_pod
  pub server_pod : t.server_pod ≡ f.destination_pod
  pub observer_pod : t.observer_pod ≡ f.observer_pod
  pub protocol : t.protocol ≡ codes "udp"
  pub client : t.client ≡ f.source
  pub server : t.server ≡ f.destination
  pub query_name : t.query_name ≡ m.question_name
  pub query_type : t.query_type ≡ query_type_string m.question_type
  pub outcome : t.outcome ≡ response
  pub reason : t.reason ≡ no_reason
  pub response_code : t.response_code ≡ response_code_string n.response_code
  pub measured :
      f.kernel_timestamp_ns ≢ 0
      → f.kernel_timestamp_ns ≤ g.kernel_timestamp_ns
      → (t.latency_measured ≡ true)
        × (f.kernel_timestamp_ns + t.latency_micros * 1000 ≤ g.kernel_timestamp_ns)
        × (g.kernel_timestamp_ns < f.kernel_timestamp_ns + (t.latency_micros + 1) * 1000)
  pub unmeasured :
      (f.kernel_timestamp_ns ≡ 0) ⊎ (g.kernel_timestamp_ns < f.kernel_timestamp_ns)
      → (t.latency_measured ≡ false) × (t.latency_micros ≡ 0)

matched-Matches :
    (q : PendingQuery) (f : Fragment) (m : Message) (g : Fragment) (n : Message)
    → q.fragment ≡ snapshot_fragment f
    → Answers f m g n
    → Matches f m g n (matched q (snapshot_fragment g) n)
unfolding matched response_of snapshot_fragment
matched-Matches q f m g n e a =
    let kept : q.fragment.kernel_timestamp_ns ≡ f.kernel_timestamp_ns =
      ap (λ (x : Fragment). x.kernel_timestamp_ns) e in
    record {
      observed_at = refl;
      node_name = a.node;
      observer_pid = a.observer;
      no_process = λ h. ap (λ (x : Fragment). x.process) e ∙ ap snapshot_process h;
      process = λ p h. ap (λ (x : Fragment). x.process) e ∙ ap snapshot_process h;
      client_resolved = ap (λ (x : Fragment). x.source_resolved) e;
      server_resolved = ap (λ (x : Fragment). x.destination_resolved) e;
      client_pod = ap (λ (x : Fragment). x.source_pod) e;
      server_pod = ap (λ (x : Fragment). x.destination_pod) e;
      observer_pod = ap (λ (x : Fragment). x.observer_pod) e;
      protocol = refl;
      client = a.to_client;
      server = a.from_server;
      query_name = a.name;
      query_type = ap query_type_string a.type;
      outcome = refl;
      reason = refl;
      response_code = refl;
      measured = λ h l. ground (arith, kept, h, l);
      unmeasured = λ h. ground (arith, kept, h);
    }

-- The state after a list of datagrams.
abbrev pub after : Correlator → List Fragment → Correlator
after c [] = c
after c (h ∷ hs) = after (process_datagram c h).0 hs

-- Datagrams of other exchanges, captured before a query of a given time has timed out.
abbrev pub Others : PendingKey → ℕ → ℕ → List Fragment → Type 0
Others k asked_at timeout hs = All (λ h. IsOther k h × (h.observed_at - asked_at < timeout)) hs

sequence-process_datagram :
    (c : Correlator) (f : Fragment) → (process_datagram c f).0.sequence ≤ suc c.sequence
unfolding process_datagram
sequence-process_datagram c f = omega (
  arith,
  sequence-handle (expire c f.observed_at).0 (snapshot_fragment f) f.payload (parse f.payload),
  sequence-expire c f.observed_at,
)

after-Others :
    (c : Correlator) (k : PendingKey) (q : PendingQuery) (timeout : ℕ) (hs : List Fragment)
    → Inv c
    → c.sequence + length hs < u64 - 1
    → timeout ≡ c.timeout
    → get PendingKey-discrete k c.pending ≡ some q
    → Others k q.fragment.observed_at timeout hs
    → Inv (after c hs)
      × (get PendingKey-discrete k (after c hs).pending ≡ some q)
      × ((after c hs).timeout ≡ timeout)
after-Others c k q timeout [] v b t pending o = (v, pending, sym t)
after-Others c k q timeout (h ∷ hs) v b t pending o =
    let fresh : is_fresh c.timeout h.observed_at q ≡ true = ground (arith, o.0.1, t) in
    after-Others (process_datagram c h).0 k q timeout hs
      (process_datagram-Inv c h (omega (arith, b)) v)
      (omega (arith, b, sequence-process_datagram c h))
      (t ∙ sym (process_datagram-SameBounds c h).0)
      (process_datagram_other c h k q v o.0.0 pending fresh) o.1

Answers-key :
    (f : Fragment) (m : Message) (g : Fragment) (n : Message)
    → Answers f m g n
    → response_key (snapshot_fragment g) n ≡ query_key f m
unfolding snapshot_fragment
Answers-key f m g n a = cc (a.to_client, a.from_server, a.id, a.name, a.type, a.observer, a.node)

-- A query that is new to a correlator with room, whatever datagrams of other exchanges follow, and then
-- a response to it, of the same question and ID between the same two ends and before the query has timed
-- out: the response is reported once, after the queries that time out at its capture, as the answer to
-- this query, its fields as `Matches` gives them from the two datagrams; then the key of the query is no
-- longer pending. The sequence has to have room for one number per datagram.
pub query_response :
    (c : Correlator) (f : Fragment) (m : Message) (hs : List Fragment) (g : Fragment) (n : Message)
    → Inv c
    → c.sequence + length hs + 2 < u64
    → parse f.payload ≡ ok m
    → m.response ≡ false
    → get PendingKey-discrete (query_key f m) c.pending ≡ none
    → length c.pending < c.max_pending
    → Others (query_key f m) f.observed_at c.timeout hs
    → parse g.payload ≡ ok n
    → n.response ≡ true
    → Answers f m g n
    → g.observed_at - f.observed_at < c.timeout
    → let d = after (process_datagram c f).0 hs in
      ((t : Transaction) × ((process_datagram d g).1
          ≡ map unanswered (keep (is_aged d.timeout g.observed_at) d.deadlines) ++ t ∷ [])
        × Matches f m g n t)
      × (get PendingKey-discrete (query_key f m) (process_datagram d g).0.pending ≡ none)
unfolding snapshot_fragment
query_response c f m hs g n v b parsed asks new room others parsed' isr a soon =
    let k = query_key f m in
    let held = process_datagram-Holds c f m v parsed asks new room in
    let q = held.0 in
    let same_time : q.fragment.observed_at ≡ f.observed_at =
      ap (λ (x : Fragment). x.observed_at) held.2 in
    let d = after (process_datagram c f).0 hs in
    let w =
      after-Others (process_datagram c f).0 k q c.timeout hs
        (process_datagram-Inv c f (omega (arith, b)) v)
        (omega (arith, b, sequence-process_datagram c f)) (sym (process_datagram-SameBounds c f).0)
        held.1 (subst (λ s. Others k s c.timeout hs) (sym same_time) others) in
    let key = Answers-key f m g n a in
    let fresh : is_fresh d.timeout g.observed_at q ≡ true = ground (arith, soon, w.2, same_time) in
    let r =
      process_datagram_match d g n q w.0 parsed' isr
        (subst (λ j. get PendingKey-discrete j d.pending ≡ some q) (sym key) w.1) fresh in
    (
      (matched q (snapshot_fragment g) n, r.0, matched-Matches q f m g n held.2 a),
      subst (λ j. get PendingKey-discrete j (process_datagram d g).0.pending ≡ none) key r.1,
    )
