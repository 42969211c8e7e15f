-- ===== src/L7/Exchange.antt =====
-- internal/l7/correlator.go: `Process` on HTTP/1 requests and responses.
use agentkubenetwork.Base.{
  ℕ, ◌==◌, ltb, leb, not, ◌&&◌, if◌then◌else◌, List, [], ◌∷◌, Option, none, some, Bytes,
}
use agentkubenetwork.Base.Map.{get, put, del}
use agentkubenetwork.L7.Types.{
  Fragment, Output, transaction, dropped, overlapping_request, protocol_upgrade, state_capacity,
  ConnectionKey-discrete, identity_from, PendingHttp1,
}
use agentkubenetwork.L7.Http1.{contains_pipelined_http1_request, parse_http1_response}
use agentkubenetwork.L7.Reports.{
  fragment_timestamp_ns, http1, new_drop, request_key, response_key, http1_transaction,
}
use agentkubenetwork.L7.State.{Correlator, is_known, is_full}

module _ {D : Type 0} where
  -- Two requests overlap: no later response of this connection can be told apart.
  abbrev pub mark_ambiguous : Correlator D → Fragment → Correlator D × List Output
  mark_ambiguous c f = (
    record c {
      http1 = del ConnectionKey-discrete (request_key f) c.http1;
      http1_ambiguous =
          put ConnectionKey-discrete (request_key f) (fragment_timestamp_ns f) c.http1_ambiguous;
    },
    dropped (new_drop f http1 overlapping_request) ∷ [],
  )

  unfoldable pub take_request : Correlator D → Fragment → Bytes → Bytes → Correlator D × List Output
  take_request c f method path =
      if is_known (get ConnectionKey-discrete (request_key f) c.http1_ambiguous)
      then (c, [])
      else if contains_pipelined_http1_request f.payload c.max_path_bytes
      then mark_ambiguous c f
      else if is_known (get ConnectionKey-discrete (request_key f) c.http1)
      then mark_ambiguous c f
      else if is_full c
      then (c, dropped (new_drop f http1 state_capacity) ∷ [])
      else (
        record c {
          http1 =
              put ConnectionKey-discrete (request_key f)
                (record {
                  started_ns = fragment_timestamp_ns f;
                  method = method;
                  path = path;
                  identity = identity_from f;
                })
                c.http1;
        },
        [],
      )

  -- The response to a request, if one is pending.
  unfoldable pub answer :
      Correlator D → Fragment → ℕ → Option PendingHttp1 → Correlator D × List Output
  answer c f status none = (c, [])
  answer c f status (some p) = (
    record c { http1 = del ConnectionKey-discrete (response_key f) c.http1 },
    if status == 101
        then dropped (new_drop f http1 protocol_upgrade) ∷ []
        else if leb (fragment_timestamp_ns f) p.started_ns
        then []
        else transaction (http1_transaction f p status) ∷ [],
  )

  unfoldable pub take_response : Correlator D → Fragment → Option ℕ → Correlator D × List Output
  take_response c f none = (c, [])
  take_response c f (some status) =
      if is_known (get ConnectionKey-discrete (response_key f) c.http1_ambiguous)
      then (c, [])
      else if ltb status 200 && not (status == 101)
      then (c, [])
      else answer c f status (get ConnectionKey-discrete (response_key f) c.http1)

  unfoldable pub take_http1 :
      Correlator D → Fragment → Option (Bytes × Bytes) → Correlator D × List Output
  take_http1 c f (some (method, path)) = take_request c f method path
  take_http1 c f none = take_response c f (parse_http1_response f.payload)
