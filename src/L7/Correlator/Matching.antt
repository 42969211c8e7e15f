-- ===== src/L7/Correlator/Matching.antt =====
-- An HTTP/1 request and its response, with what other connections do between them.
use agentkubenetwork.Base.{
  ℕ, ◌+◌, ◌++◌, append-nil, All, ◌≤◌, ◌<◌, ◌≡◌, refl, sym, ap, subst, ◌∙◌, ltb, leb, ◌==◌, false,
  List, [], ◌∷◌, Option, none, some, Bytes, arith,
}
use agentkubenetwork.Base.Map.{get, put, del, get-put, get-del}
use agentkubenetwork.L7.Types.{
  Fragment, Output, Transaction, transaction, ConnectionKey, ConnectionKey-discrete, PendingHttp1,
}
use agentkubenetwork.L7.Http1.{parse_http1_request, contains_pipelined_http1_request}
use agentkubenetwork.L7.Reports.{
  fragment_timestamp_ns, request_key, response_key, http1_transaction,
}
use agentkubenetwork.L7.State.{Correlator, is_full, expire}
use agentkubenetwork.L7.Exchange.{take_request, answer, take_response, take_http1}
use agentkubenetwork.L7.Correlator.{is_http2, take_fragment, process_fragment}
use agentkubenetwork.L7.Correlator.Waiting.{
  IsOther, Waits, Clear, expire-Clear, expire-Waits, run-Waits, is_http2-expire,
}
use agentkubenetwork.L7.Invariant.History.{run}
use agentkubenetwork.L7.Correlator.Pairing.{
  pending_of, Closes, Matches, http1_transaction-Matches, Closes-key,
}

-- A request that is taken as pending: on a connection with no other, with room.
pub record Opens {D : Type 0} (c : Correlator D) (f : Fragment) (method path : Bytes) : Type 0 where
  pub request : parse_http1_request f.payload c.max_path_bytes ≡ some (method, path)
  pub single : contains_pipelined_http1_request f.payload c.max_path_bytes ≡ false
  pub unknown : get ConnectionKey-discrete (request_key f) c.http1 ≡ none
  pub clear : get ConnectionKey-discrete (request_key f) c.http1_ambiguous ≡ none
  pub room : is_full c ≡ false

module _ {D : Type 0} where
  Opens-Clear :
      (c : Correlator D) (f : Fragment) (method path : Bytes)
      → Opens c f method path
      → Clear c (request_key f) c.max_path_bytes c.state_ttl_ns
  Opens-Clear c f method path o = record {
    unknown = o.unknown;
    clear = o.clear;
    room = o.room;
    path = refl;
    time_to_live = refl;
  }

  -- The state with a request that waits.
  abbrev opened : Correlator D → Fragment → Bytes → Bytes → Correlator D
  opened c f method path = record c {
    http1 = put ConnectionKey-discrete (request_key f) (pending_of f method path) c.http1;
  }

  take_http1-Opens :
      (c : Correlator D) (f : Fragment) (method path : Bytes) (path_bytes ttl : ℕ)
      → Clear c (request_key f) path_bytes ttl
      → parse_http1_request f.payload path_bytes ≡ some (method, path)
      → contains_pipelined_http1_request f.payload path_bytes ≡ false
      → take_http1 c f (parse_http1_request f.payload c.max_path_bytes)
        ≡ (opened c f method path, [])
  unfolding take_http1 take_request
  take_http1-Opens c f method path path_bytes ttl w parsed single =
      simp (w.path, parsed, w.clear, single, w.unknown, w.room) refl

  opened-Waits :
      (c : Correlator D) (f : Fragment) (method path : Bytes) (path_bytes ttl : ℕ)
      → Clear c (request_key f) path_bytes ttl
      → Waits (opened c f method path) (request_key f) (pending_of f method path) path_bytes ttl
  opened-Waits c f method path path_bytes ttl w = record {
    pending = ground (
      arith,
      get-put ConnectionKey-discrete (request_key f) (request_key f) (pending_of f method path)
          c.http1,
    );
    clear = w.clear;
    path = w.path;
    time_to_live = w.time_to_live;
  }

  take_response_final :
      (c : Correlator D) (g : Fragment) (status : ℕ) (p : PendingHttp1)
      → get ConnectionKey-discrete (response_key g) c.http1_ambiguous ≡ none
      → get ConnectionKey-discrete (response_key g) c.http1 ≡ some p
      → 200 ≤ status
      → p.started_ns < fragment_timestamp_ns g
      → take_response c g (some status) ≡ (
        record c { http1 = del ConnectionKey-discrete (response_key g) c.http1 },
        transaction (http1_transaction g p status) ∷ [],
      )
  unfolding take_response answer
  take_response_final c g status p clear found final later =
      let early : ltb status 200 ≡ false = ground (arith, final) in
      let switching : (status == 101) ≡ false = ground (arith, final) in
      let ordered : leb (fragment_timestamp_ns g) p.started_ns ≡ false = ground (arith, later) in
      simp (clear, early, found, switching, ordered) refl

  take_http1-Closes :
      (c : Correlator D) (f g : Fragment) (status : ℕ) (p : PendingHttp1) (path_bytes ttl : ℕ)
      → Closes f g path_bytes status
      → p.started_ns ≡ fragment_timestamp_ns f
      → Waits c (response_key g) p path_bytes ttl
      → take_http1 c g (parse_http1_request g.payload c.max_path_bytes) ≡ (
        record c { http1 = del ConnectionKey-discrete (response_key g) c.http1 },
        transaction (http1_transaction g p status) ∷ [],
      )
  unfolding take_http1
  take_http1-Closes c f g status p path_bytes ttl e s w =
      ap (λ n. take_http1 c g (parse_http1_request g.payload n)) w.path
      ∙ ap (take_http1 c g) e.no_request
      ∙ ap (take_response c g) e.response
      ∙ take_response_final c g status p w.clear w.pending e.final (omega (arith, s, e.later))

  gone :
      (c : Correlator D) (k : ConnectionKey)
      → get ConnectionKey-discrete k (del ConnectionKey-discrete k c.http1) ≡ none
  gone c k = ground (arith, get-del ConnectionKey-discrete k k c.http1)

-- The decoder and its states do not matter to HTTP/1.
module _ {D : Type 0} (new_decoder : D)
    (decode : D → Bytes → D × Option (List (Bytes × Bytes))) where
  pub take_fragment_http1 :
      (c : Correlator D) (f : Fragment)
      → is_http2 new_decoder decode c f ≡ false
      → take_fragment new_decoder decode c f
        ≡ take_http1 c f (parse_http1_request f.payload c.max_path_bytes)
  unfolding take_fragment
  take_fragment_http1 c f h = simp h refl

  process_fragment_http1 :
      (c d : Correlator D) (f : Fragment) (out : List Output)
      → is_http2 new_decoder decode c f ≡ false
      → take_http1 (expire c f).0 f (parse_http1_request f.payload (expire c f).0.max_path_bytes)
        ≡ (d, out)
      → process_fragment new_decoder decode c f ≡ (d, (expire c f).1 ++ out)
  unfolding process_fragment
  process_fragment_http1 c d f out tcp taken =
      ap (λ (r : Correlator D × List Output). (r.0, (expire c f).1 ++ r.1))
        (take_fragment_http1 (expire c f).0 f (is_http2-expire new_decoder decode c f f tcp)
          ∙ taken)

  -- A request on a connection of which nothing is known, with room; then any fragments of other
  -- connections, HTTP/1 or HTTP/2, sweeps included; and then a final response on the connection of the
  -- request, both ends swapped, that is captured later: all within the time to live of the request. The
  -- request reports nothing, next to what its sweep reports; the response reports one transaction after
  -- its sweep, whose fields `Matches` gives from the two fragments; and the request waits no longer. The
  -- request's fragment and, when it comes, the response's are not taken as HTTP/2.
  pub request_response :
      (c : Correlator D) (f : Fragment) (hs : List Fragment) (g : Fragment) (method path : Bytes)
      (status : ℕ)
      → is_http2 new_decoder decode c f ≡ false
      → Opens c f method path
      → All (IsOther (request_key f) (fragment_timestamp_ns f) c.state_ttl_ns) hs
      → Closes f g c.max_path_bytes status
      → fragment_timestamp_ns g < fragment_timestamp_ns f + c.state_ttl_ns
      → is_http2 new_decoder decode
          (run new_decoder decode (process_fragment new_decoder decode c f).0 hs).0
          g
        ≡ false
      → let first = process_fragment new_decoder decode c f in
        let d = (run new_decoder decode first.0 hs).0 in
        let second = process_fragment new_decoder decode d g in
        (first.1 ≡ (expire c f).1)
        × ((t : Transaction) × (second.1 ≡ (expire d g).1 ++ transaction t ∷ [])
            × Matches f g method path status t)
        × (get ConnectionKey-discrete (request_key f) second.0.http1 ≡ none)
  request_response c f hs g method path status tcp o others e in_time tcp' =
      let n = c.max_path_bytes in
      let ttl = c.state_ttl_ns in
      let k = request_key f in
      let p = pending_of f method path in
      let same = Closes-key f g n status e in
      let w = expire-Clear c f k n ttl (Opens-Clear c f method path o) in
      let x = take_http1-Opens (expire c f).0 f method path n ttl w o.request o.single in
      let first = process_fragment_http1 c _ f [] tcp x in
      let d = (run new_decoder decode (process_fragment new_decoder decode c f).0 hs).0 in
      let waits : Waits d k p n ttl =
        run-Waits new_decoder decode (process_fragment new_decoder decode c f).0 hs k p n ttl others
          (subst (λ (r : Correlator D × List Output). Waits r.0 k p n ttl) (sym first)
            (opened-Waits (expire c f).0 f method path n ttl w)) in
      let still =
        subst (λ j. Waits (expire d g).0 j p n ttl) (sym same)
          (expire-Waits d g k p n ttl in_time waits) in
      let second =
        process_fragment_http1 d _ g _ tcp'
          (take_http1-Closes (expire d g).0 f g status p n ttl e refl still) in
      (
        ap (λ (r : Correlator D × List Output). r.1) first ∙ append-nil (expire c f).1,
        (
          http1_transaction g p status,
          ap (λ (r : Correlator D × List Output). r.1) second,
          http1_transaction-Matches f g method path n status e,
        ),
        subst
            (λ j.
              get ConnectionKey-discrete j (process_fragment new_decoder decode d g).0.http1 ≡ none)
            same
            (ap
                (λ (r : Correlator D × List Output).
                  get ConnectionKey-discrete (response_key g) r.0.http1)
                second
              ∙ gone (expire d g).0 (response_key g)),
      )
