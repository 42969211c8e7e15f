-- ===== src/L7/Tests.antt =====
-- Concrete runs of internal/l7, and its theorems at concrete inputs.
use agentkubenetwork.Base.{
  ℕ, suc, ◌+◌, ◌==◌, ◌<◌, ◌≡◌, refl, List, [], ◌∷◌, ◌++◌, map, replicate, if◌then◌else◌, Option,
  none, some, Bytes, arith, bytes_discrete, ℕ_discrete, All, ap, ◌<◌, ◌++◌, ap,
}
use agentkubenetwork.Base.Int.{pos}
use agentkubenetwork.Base.Text.{codes}
use agentkubenetwork.Base.Map.{get, put, del}
use agentkubenetwork.Flow.Types.{Endpoint, Endpoint-discrete}
use agentkubenetwork.L7.Types.{
  Fragment, Output, Transaction, ConnectionKey, transaction, dropped, ConnectionKey-discrete,
  TransportKey-discrete, DirectionKey-discrete, StreamKey-discrete,
}
use agentkubenetwork.L7.Text.{split_spaces, parse_u16}
use agentkubenetwork.L7.Http1.{
  first_line, is_http_method, request_path, with_method, request_parts, parse_http1_request,
  contains_pipelined_http1_request, response_parts, parse_http1_response,
}
use agentkubenetwork.L7.Http2.{
  DirectionState, unpad, without_priority, http2_headers_fragment, new_direction_state, decoded,
  pass_frame, start_block, headers_frame, take_frame, frame_round, frames_from, feed_frames,
  buffered, feed,
}
use agentkubenetwork.L7.Fields.{
  read_field, read_fields, http2_identity, endpoint_less, make_transport_key,
}
use agentkubenetwork.L7.Reports.{http1, request_key, http1_transaction, http2_transaction}
use agentkubenetwork.L7.State.{Config, Correlator, tracked_connections, new_correlator, expire}
use agentkubenetwork.L7.Exchange.{take_request, answer, take_response, take_http1}
use agentkubenetwork.L7.Streams.{open_stream, close_stream, take_identity, take_blocks}
use agentkubenetwork.L7.Http2.Bounds.{Drained, feed-Drained}
use agentkubenetwork.L7.Http2.Chunks.{Agrees, feed-feed}
use agentkubenetwork.L7.Invariant.{IsSafe}
use agentkubenetwork.L7.Invariant.History.{run, run-new_correlator-IsSafe}
use agentkubenetwork.L7.Correlator.Matching.{request_response}
use agentkubenetwork.L7.Correlator.Pairing.{pending_of, Matches}
use agentkubenetwork.L7.Correlator.Overlap.{pipelined-is_full}
use agentkubenetwork.L7.Correlator.Expiry.{IsFresh, waiting-IsFresh}
use agentkubenetwork.L7.Correlator.{
  preface, take_fed, take_direction, take_http2, take_fragment, process_fragment,
}

abbrev config : Config
config = record {
  max_path_bytes = pos 5;
  max_http2_buffered_bytes = pos 100;
  max_http2_header_block_bytes = pos 50;
  state_ttl = pos 1000;
  sweep_every = 4;
  max_tracked_connections = pos 3;
  max_http2_streams = pos 2;
}

-- A decoder that counts its blocks: a block that starts with 1 is a request, any other a response.
abbrev decode : ℕ → Bytes → ℕ × Option (List (Bytes × Bytes))
decode n [] = (suc n, none)
decode n (b ∷ rest) = (
  suc n,
  some (
      if b == 1
      then (codes ":method", codes "GET") ∷ (codes ":path", codes "/x") ∷ []
      else (codes ":status", codes "204") ∷ []),
)

abbrev client : Endpoint
client = record { address = codes "a"; port = 4000 }

abbrev server : Endpoint
server = record { address = codes "b"; port = 80 }

abbrev fragment : Bytes → ℕ → Endpoint → Endpoint → Fragment
fragment payload time source destination = record {
  observed_at = time;
  kernel_timestamp_ns = time;
  node_name = [];
  observer_pid = 1;
  source = codes "openssl";
  source_endpoint = source;
  destination_endpoint = destination;
  total_length = 0;
  payload = payload;
  tcp_sequence = 0;
  process = none;
  source_resolved = none;
  destination_resolved = none;
  source_pod = none;
  destination_pod = none;
  observer_pod = none;
}

abbrev crlf : Bytes
crlf = 13 ∷ 10 ∷ []

abbrev get_line : Bytes
get_line = codes "GET /path?q=1 HTTP/1.1" ++ crlf

abbrev ok_line : Bytes
ok_line = codes "HTTP/1.1 200 OK" ++ crlf

abbrev start : Correlator ℕ
unfolding new_correlator
start = new_correlator config

parse_http1_request_test : parse_http1_request get_line 5 ≡ some (codes "GET", codes "/path")
unfolding parse_http1_request request_parts first_line split_spaces is_http_method request_path
    with_method bytes_discrete ℕ_discrete
parse_http1_request_test = refl

parse_http1_response_test : parse_http1_response ok_line ≡ some 200
unfolding parse_http1_response response_parts first_line split_spaces parse_u16
parse_http1_response_test = refl

-- A HEADERS frame of stream 1 with its block complete, and a frame that is cut.
abbrev request_frame : Bytes
request_frame = (0 ∷ 0 ∷ 2 ∷ 1 ∷ 4 ∷ []) ++ (0 ∷ 0 ∷ 0 ∷ 1 ∷ []) ++ (1 ∷ 7 ∷ [])

abbrev response_frame : Bytes
response_frame = (0 ∷ 0 ∷ 1 ∷ 1 ∷ 4 ∷ []) ++ (0 ∷ 0 ∷ 0 ∷ 1 ∷ []) ++ (2 ∷ [])

abbrev request : Fragment
request = fragment get_line 1000 client server

abbrev response : Fragment
response = fragment ok_line 4000 server client

abbrev direction : DirectionState ℕ
unfolding new_direction_state
direction = new_direction_state 0 100 50

process_fragment_http1_test :
    (run 0 decode start (request ∷ response ∷ [])).1
    ≡ transaction
        (http1_transaction response (pending_of request (codes "GET") (codes "/path")) 200)
      ∷ []
unfolding run process_fragment take_fragment expire take_http1 take_request take_response answer
    parse_http1_request request_parts first_line split_spaces is_http_method request_path
    with_method bytes_discrete ℕ_discrete contains_pipelined_http1_request parse_http1_response
    response_parts parse_u16 put get del ConnectionKey-discrete TransportKey-discrete
    Endpoint-discrete endpoint_less make_transport_key start
process_fragment_http1_test = refl

feed-Drained_example :
    Drained 100 50 (feed decode direction (request_frame ++ (0 ∷ 0 ∷ [])) 5 request)
unfolding new_direction_state
feed-Drained_example =
    feed-Drained decode direction (request_frame ++ (0 ∷ 0 ∷ [])) 5 request
      (record { bytes = omega arith; block = omega arith })

feed-feed_example :
    Agrees decode
      (feed decode direction (request_frame ++ (0 ∷ 0 ∷ [])) 5 request)
      (feed decode direction ((request_frame ++ (0 ∷ 0 ∷ [])) ++ (1 ∷ 1 ∷ [])) 6 request)
      (1 ∷ 1 ∷ [])
      7
      request
unfolding new_direction_state feed feed_frames buffered frames_from frame_round take_frame
    headers_frame start_block decoded http2_headers_fragment unpad without_priority pass_frame
feed-feed_example =
    feed-feed decode direction (request_frame ++ (0 ∷ 0 ∷ [])) (1 ∷ 1 ∷ []) 6 5 7 request request
      request refl

run-new_correlator-IsSafe_example :
    IsSafe (run 0 decode (new_correlator config) (request ∷ response ∷ [])).0
run-new_correlator-IsSafe_example =
    run-new_correlator-IsSafe 0 decode config (request ∷ response ∷ [])

-- A request of another client.
abbrev another : Fragment
another = fragment get_line 1200 (record client { port = 4001 }) server

-- The response within the time to live.
abbrev reply : Fragment
reply = fragment ok_line 1900 server client

request_response_example :
    let first = process_fragment 0 decode start request in
    let d = (run 0 decode first.0 (another ∷ [])).0 in
    let second = process_fragment 0 decode d reply in
    (first.1 ≡ (expire start request).1)
    × ((t : Transaction) × (second.1 ≡ (expire d reply).1 ++ transaction t ∷ [])
        × Matches request reply (codes "GET") (codes "/path") 200 t)
    × (get ConnectionKey-discrete (request_key request) second.0.http1 ≡ none)
unfolding run process_fragment take_fragment expire take_http1 take_request parse_http1_request
    request_parts first_line split_spaces is_http_method request_path with_method bytes_discrete
    ℕ_discrete contains_pipelined_http1_request parse_http1_response response_parts parse_u16 put
    get del ConnectionKey-discrete TransportKey-discrete Endpoint-discrete endpoint_less
    make_transport_key start
request_response_example =
    request_response 0 decode start request (another ∷ []) reply (codes "GET") (codes "/path") 200
      refl (record { request = refl; single = refl; unknown = refl; clear = refl; room = refl })
      (
        (
          λ h. absurd (omega (arith, ap (λ (k : ConnectionKey). k.client.port) h)),
          λ h. absurd (omega (arith, ap (λ (k : ConnectionKey). k.client.port) h)),
          omega arith,
        ),
        tt,
      )
      (record {
        no_request = refl;
        response = refl;
        final = omega arith;
        to_client = refl;
        from_server = refl;
        node = refl;
        observer = refl;
        source = refl;
        later = omega arith;
      })
      (omega arith) refl

-- A state in which the request waits.
abbrev waiting : Correlator ℕ
unfolding take_request start put
waiting = (take_request start request (codes "GET") (codes "/path")).0

abbrev crowded : Correlator ℕ
unfolding start
crowded = record start { max_tracked_connections = 0 }

abbrev two_requests : Fragment
two_requests = fragment (get_line ++ crlf ++ get_line) 1000 client server

pipelined-is_full_example :
    (tracked_connections (take_fragment 0 decode crowded two_requests).0
      ≡ tracked_connections crowded + 1)
    × (crowded.max_tracked_connections
        < tracked_connections (take_fragment 0 decode crowded two_requests).0)
unfolding take_request parse_http1_request request_parts first_line split_spaces is_http_method
    request_path with_method bytes_discrete ℕ_discrete contains_pipelined_http1_request
    parse_http1_response response_parts parse_u16 put get del ConnectionKey-discrete
    TransportKey-discrete Endpoint-discrete endpoint_less make_transport_key start crowded
pipelined-is_full_example =
    pipelined-is_full 0 decode crowded two_requests (codes "GET", codes "/path") refl refl refl refl
      refl refl

waiting-IsFresh_example :
    All
      (λ e. IsFresh 5000 waiting.state_ttl_ns e.1.started_ns)
      (run 0 decode waiting (replicate 4 (fragment ok_line 5000 server client))).0.http1
unfolding waiting start get contains_pipelined_http1_request
waiting-IsFresh_example =
    waiting-IsFresh 0 decode 5000 (omega arith) waiting
      (replicate 4 (fragment ok_line 5000 server client))
      (omega arith, (omega arith, (omega arith, (omega arith, tt)))) (omega arith) (omega arith)
      (omega arith) (omega arith)

abbrev kind_of : Output → ℕ
kind_of (transaction t) = t.status_code
kind_of (dropped d) = 0

-- A connection from its preface on: a request and the response on its stream.
process_fragment_http2_test :
    map
      (λ o. kind_of o)
      (run 0 decode start (
        fragment (preface ++ request_frame) 1000 client server
        ∷ fragment response_frame 4000 server client
        ∷ [])).1
    ≡ 204 ∷ []
unfolding run process_fragment take_fragment expire take_http2 take_direction take_fed take_blocks
    take_identity open_stream close_stream http2_transaction feed feed_frames buffered frames_from
    frame_round take_frame headers_frame start_block decoded http2_headers_fragment unpad
    without_priority pass_frame new_direction_state http2_identity read_fields read_field put get
    del DirectionKey-discrete StreamKey-discrete ConnectionKey-discrete TransportKey-discrete
    Endpoint-discrete endpoint_less make_transport_key start bytes_discrete ℕ_discrete parse_u16
process_fragment_http2_test = refl
