-- ===== src/Dns/Tests.antt =====
-- Concrete runs of internal/dns, and its theorems at concrete inputs.
use agentkubenetwork.Base.{
  ℕ, ◌+◌, ◌*◌, ◌≡◌, ◌≢◌, refl, List, [], ◌∷◌, ◌++◌, map, keep, none, Bytes, ok, err, arith, ap,
  bytes_discrete, ℕ_discrete,
}
use agentkubenetwork.Base.Int.{pos}
use agentkubenetwork.Base.Text.{codes}
use agentkubenetwork.Base.Map.{get, put}
use agentkubenetwork.Flow.Types.{Endpoint, Endpoint-discrete}
use agentkubenetwork.Dns.Types.{
  Fragment, Message, PendingKey-discrete, PendingKey, PendingQuery, Transaction,
}
use agentkubenetwork.Dns.Message.{
  parse, header_message, stuck, valid_question_name, all_visible, parse_name, parse_label,
  with_question,
}
use agentkubenetwork.Dns.Message.Names.{parse-IsSupported, IsSupported}
use agentkubenetwork.Dns.Message.RoundTrip.{parse-encode, encode_labels, join_labels}
use agentkubenetwork.Dns.Transactions.{unanswered, at_capture_end, snapshot_fragment, query_key}
use agentkubenetwork.Dns.Correlator.{
  Correlator, new_correlator_with_config, process_datagram, expire, finish, is_aged, handle, admit,
  push, expire_from,
}
use agentkubenetwork.Dns.Correlator.Invariant.{Inv, new_correlator-Inv}
use agentkubenetwork.Dns.Correlator.History.{Call, datagram, run, run-new_correlator-Inv, step}
use agentkubenetwork.Dns.Correlator.Expiry.{expire_exact, finish_exact, is_fresh}
use agentkubenetwork.Dns.Correlator.Exchange.{Matches, after, query_response}

abbrev header : ℕ → Bytes
header flags = 7 ∷ 9 ∷ flags ∷ 0 ∷ 0 ∷ 1 ∷ 0 ∷ 0 ∷ 0 ∷ 0 ∷ 0 ∷ 0 ∷ []

abbrev labels : List Bytes
labels = codes "ns" ∷ codes "io" ∷ []

-- The question "ns.io", type A.
abbrev asked : ℕ → Bytes
asked flags = header flags ++ (encode_labels labels ++ (0 ∷ 1 ∷ 0 ∷ 1 ∷ []))

abbrev client : Endpoint
client = record { address = codes "c"; port = 4000 }

abbrev server : Endpoint
server = record { address = codes "s"; port = 53 }

abbrev fragment : Bytes → ℕ → Endpoint → Endpoint → Fragment
fragment payload time source destination = record {
  observed_at = time;
  kernel_timestamp_ns = time;
  node_name = [];
  observer_pid = 1;
  process = none;
  source_resolved = none;
  destination_resolved = none;
  source_pod = none;
  destination_pod = none;
  observer_pod = none;
  source = source;
  destination = destination;
  payload = payload;
}

abbrev query : Fragment
query = fragment (asked 0) 1000 client server

abbrev reply : Fragment
reply = fragment (asked 128) 6000 server client

abbrev calls : List Call
calls = datagram query ∷ []

-- A query is pending after its datagram.
abbrev waiting : Correlator
waiting = (run (new_correlator_with_config (pos 100000) (pos 4)) calls).0

parse-IsSupported_example :
    (parse (asked 0) ≢ err stuck)
    × ((m : Message) → parse (asked 0) ≡ ok m → IsSupported m.question_name)
parse-IsSupported_example = parse-IsSupported (asked 0)

parse-encode_example :
    parse (asked 0)
    ≡ ok (record (header_message (asked 0)) {
      question_name = join_labels [] labels;
      question_type = 0 * 256 + 1;
    })
unfolding all_visible
parse-encode_example =
    parse-encode (asked 0) (header 0) [] labels 0 1 0 1 refl refl (λ e. absurd (omega (arith, e)))
      ((omega arith, omega arith, refl), ((omega arith, omega arith, refl), tt)) (omega arith)

run-new_correlator-Inv_example : Inv (run (new_correlator_with_config (pos 100000) (pos 4)) calls).0
run-new_correlator-Inv_example = run-new_correlator-Inv (pos 100000) (pos 4) calls (omega arith)

abbrev first : PendingQuery
unfolding snapshot_fragment
first = record {
  fragment = snapshot_fragment query;
  message = record (header_message (asked 0)) { question_name = codes "ns.io"; question_type = 1 };
  key =
      query_key query
        (record (header_message (asked 0)) { question_name = codes "ns.io"; question_type = 1 });
  sequence = 1;
}

abbrev answered : Message
answered = record (header_message (asked 128)) { question_name = codes "ns.io"; question_type = 1 }

parse_test : parse (asked 128) ≡ ok answered
unfolding parse parse_name parse_label with_question valid_question_name all_visible
parse_test = refl

waiting_test : waiting.deadlines ≡ first ∷ []
unfolding run step new_correlator_with_config process_datagram expire expire_from handle admit parse
    parse_name parse_label with_question valid_question_name all_visible snapshot_fragment get put
    push PendingKey-discrete Endpoint-discrete bytes_discrete ℕ_discrete
waiting_test = refl

abbrev asking : Message
asking = record (header_message (asked 0)) { question_name = codes "ns.io"; question_type = 1 }

asking_test : parse (asked 0) ≡ ok asking
unfolding parse parse_name parse_label with_question valid_question_name all_visible
asking_test = refl

abbrev start : Correlator
start = new_correlator_with_config (pos 100000) (pos 4)

-- The same question of another client, between the query and its response.
abbrev another : Fragment
another = fragment (asked 0) 2000 (record client { port = 4001 }) server

query_response_example :
    let d = after (process_datagram start query).0 (another ∷ []) in
    ((t : Transaction) × ((process_datagram d reply).1
        ≡ map unanswered (keep (is_aged d.timeout reply.observed_at) d.deadlines) ++ t ∷ [])
      × Matches query asking reply answered t)
    × (get PendingKey-discrete (query_key query asking) (process_datagram d reply).0.pending ≡ none)
unfolding new_correlator_with_config get
query_response_example =
    query_response start query asking (another ∷ []) reply answered
      (new_correlator-Inv (pos 100000) (pos 4)) (omega arith) asking_test refl refl (omega arith)
      (
        (
          λ m e. (
            λ h. absurd (omega (arith, ap (λ (k : PendingKey). k.client.port) h)),
            λ h. absurd (omega (arith, ap (λ (k : PendingKey). k.client.port) h)),
          ),
          omega arith,
        ),
        tt,
      )
      parse_test refl
      (record {
        to_client = refl;
        from_server = refl;
        id = refl;
        name = refl;
        type = refl;
        observer = refl;
        node = refl;
      })
      (omega arith)

expire_exact_example :
    ((expire waiting 101000).1
      ≡ map unanswered (keep (is_aged waiting.timeout 101000) waiting.deadlines))
    × ((expire waiting 101000).0.deadlines
        ≡ keep (is_fresh waiting.timeout 101000) waiting.deadlines)
expire_exact_example =
    expire_exact waiting 101000 (run-new_correlator-Inv (pos 100000) (pos 4) calls (omega arith))

finish_exact_example :
    ((finish waiting 2000).1
      ≡ map unanswered (keep (is_aged waiting.timeout 2000) waiting.deadlines)
        ++ map at_capture_end (keep (is_fresh waiting.timeout 2000) waiting.deadlines))
    × ((finish waiting 2000).0.deadlines ≡ [])
    × ((finish waiting 2000).0.pending ≡ [])
finish_exact_example =
    finish_exact waiting 2000 (run-new_correlator-Inv (pos 100000) (pos 4) calls (omega arith))
