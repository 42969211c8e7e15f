-- ===== src/L7/Correlator/Keeps.antt =====
-- What every operation of the correlator leaves alone that its expiry reads.
use agentkubenetwork.Base.{
  ℕ, ◌%◌, ◌≡◌, ◌≢◌, arith, refl, ◌∙◌, ltb, leb, ◌==◌, ◌&&◌, not, if_cases, List, [], ◌∷◌, All,
  length, Option, none, some, Bytes,
}
use agentkubenetwork.Base.Map.{get, put, get-put, get-del}
use agentkubenetwork.Base.Keyed.{All-put, All-del}
use agentkubenetwork.L7.Types.{
  Fragment, Output, ConnectionKey, ConnectionKey-discrete, TransportKey-discrete, StreamKey,
  StreamKey-discrete, PendingHttp1, PendingHttp2,
}
use agentkubenetwork.L7.Http1.{
  parse_http1_request, parse_http1_response, contains_pipelined_http1_request,
}
use agentkubenetwork.L7.Http2.{HeaderBlock, DirectionState, Fed}
use agentkubenetwork.L7.Fields.{is_empty, http2_identity, make_transport_key}
use agentkubenetwork.L7.Reports.{fragment_timestamp_ns, request_key, response_key}
use agentkubenetwork.L7.State.{Correlator, is_known, is_full}
use agentkubenetwork.L7.Exchange.{mark_ambiguous, take_request, answer, take_response, take_http1}
use agentkubenetwork.L7.Streams.{
  request_stream, response_stream, open_stream, close_stream, take_identity, take_blocks,
}
use agentkubenetwork.L7.Correlator.{
  direction_of, store, seen, take_fed, take_direction, take_http2, is_http2, take_fragment,
}

-- What the expiry reads stays; the requests that wait are those before or started now; and nothing
-- changes of a connection that the fragment is not of.
pub record Keeps {D : Type 0} (f : Fragment) (c d : Correlator D) : Type 1 where
  pub ttl : d.state_ttl_ns ≡ c.state_ttl_ns
  pub every : d.sweep_every ≡ c.sweep_every
  pub processed : d.processed ≡ c.processed
  pub path_bytes : d.max_path_bytes ≡ c.max_path_bytes
  pub requests :
      (P : ℕ → Type 0)
      → P (fragment_timestamp_ns f)
      → All (λ e. P e.1.started_ns) c.http1
      → All (λ e. P e.1.started_ns) d.http1
  pub others :
      (k : ConnectionKey)
      → request_key f ≢ k
      → response_key f ≢ k
      → (get ConnectionKey-discrete k d.http1 ≡ get ConnectionKey-discrete k c.http1)
        × (get ConnectionKey-discrete k d.http1_ambiguous
            ≡ get ConnectionKey-discrete k c.http1_ambiguous)

get-put_other :
    {V : Type 0} (k j : ConnectionKey) (v : V) (m : List (ConnectionKey × V))
    → k ≢ j
    → get ConnectionKey-discrete j (put ConnectionKey-discrete k v m)
      ≡ get ConnectionKey-discrete j m
get-put_other k j v m h = ground (arith, get-put ConnectionKey-discrete k j v m, h)

module _ {D : Type 0} (f : Fragment) where
  pub Keeps-refl : (c : Correlator D) → Keeps f c c
  Keeps-refl c = record {
    ttl = refl;
    every = refl;
    processed = refl;
    path_bytes = refl;
    requests = λ P h a. a;
    others = λ k r s. (refl, refl);
  }

  pub Keeps-trans : (c d e : Correlator D) → Keeps f c d → Keeps f d e → Keeps f c e
  Keeps-trans c d e v w = record {
    ttl = w.ttl ∙ v.ttl;
    every = w.every ∙ v.every;
    processed = w.processed ∙ v.processed;
    path_bytes = w.path_bytes ∙ v.path_bytes;
    others =
        λ k r s. ((w.others k r s).0 ∙ (v.others k r s).0, (w.others k r s).1 ∙ (v.others k r s).1);
    requests = λ P h a. w.requests P h (v.requests P h a);
  }

  take_request-Keeps :
      (c : Correlator D) (method path : Bytes) → Keeps f c (take_request c f method path).0
  unfolding take_request
  take_request-Keeps c method path =
      let P = λ (r : Correlator D × List Output). Keeps f c r.0 in
      let marked : Keeps f c (mark_ambiguous c f).0 = record {
        ttl = refl;
        every = refl;
        processed = refl;
        path_bytes = refl;
        requests = λ Q h a. All-del ConnectionKey-discrete _ (request_key f) c.http1 a;
        others = λ k r s. (
          ground (arith, get-del ConnectionKey-discrete (request_key f) k c.http1, r),
          ground (
            arith,
            get-put ConnectionKey-discrete (request_key f) k (fragment_timestamp_ns f)
                c.http1_ambiguous,
            r,
          ),
        );
      } in
      if_cases P (is_known (get ConnectionKey-discrete (request_key f) c.http1_ambiguous))
        (λ e. Keeps-refl c)
        (λ e.
          if_cases P (contains_pipelined_http1_request f.payload c.max_path_bytes) (λ g. marked)
            (λ g.
              if_cases P (is_known (get ConnectionKey-discrete (request_key f) c.http1))
                (λ h. marked)
                (λ h.
                  if_cases P (is_full c) (λ k. Keeps-refl c)
                    (λ k. record {
                      ttl = refl;
                      every = refl;
                      processed = refl;
                      path_bytes = refl;
                      requests = λ Q h a.
                          All-put ConnectionKey-discrete (λ e. Q e.1.started_ns) (request_key f) _
                            c.http1 h a;
                      others = λ j r s. (get-put_other (request_key f) j _ c.http1 r, refl);
                    }))))

  answer-Keeps :
      (c : Correlator D) (status : ℕ) (p : Option PendingHttp1) → Keeps f c (answer c f status p).0
  unfolding answer
  answer-Keeps c status none = Keeps-refl c
  answer-Keeps c status (some p) = record {
    ttl = refl;
    every = refl;
    processed = refl;
    path_bytes = refl;
    requests = λ Q h a. All-del ConnectionKey-discrete _ (response_key f) c.http1 a;
    others = λ k r s.
        (ground (arith, get-del ConnectionKey-discrete (response_key f) k c.http1, s), refl);
  }

  take_response-Keeps :
      (c : Correlator D) (status : Option ℕ) → Keeps f c (take_response c f status).0
  unfolding take_response
  take_response-Keeps c none = Keeps-refl c
  take_response-Keeps c (some status) =
      let P = λ (r : Correlator D × List Output). Keeps f c r.0 in
      if_cases P (is_known (get ConnectionKey-discrete (response_key f) c.http1_ambiguous))
        (λ e. Keeps-refl c)
        (λ e.
          if_cases P (ltb status 200 && not (status == 101)) (λ g. Keeps-refl c)
            (λ g. answer-Keeps c status _))

  take_http1-Keeps :
      (c : Correlator D) (r : Option (Bytes × Bytes)) → Keeps f c (take_http1 c f r).0
  unfolding take_http1
  take_http1-Keeps c (some (method, path)) = take_request-Keeps c method path
  take_http1-Keeps c none = take_response-Keeps c (parse_http1_response f.payload)

  close_stream-Keeps :
      (c : Correlator D) (b : HeaderBlock) (status : ℕ) (p : Option PendingHttp2)
      → Keeps f c (close_stream c f b status p).0
  unfolding close_stream
  close_stream-Keeps c b status none = Keeps-refl c
  close_stream-Keeps c b status (some p) = record {
    ttl = refl;
    every = refl;
    processed = refl;
    path_bytes = refl;
    requests = λ Q h a. a;
    others = λ k r s. (refl, refl);
  }

  take_identity-Keeps :
      (c : Correlator D) (b : HeaderBlock) (r : Option (Bytes × Bytes × ℕ))
      → Keeps f c (take_identity c f b r).0
  unfolding take_identity open_stream
  take_identity-Keeps c b none = Keeps-refl c
  take_identity-Keeps c b (some (method, path, status)) =
      let P = λ (r : Correlator D × List Output). Keeps f c r.0 in
      let same : (m : List (StreamKey × PendingHttp2)) → Keeps f c (record c { http2 = m }) = λ m.
        record {
          ttl = refl;
          every = refl;
          processed = refl;
          path_bytes = refl;
          requests = λ Q h a. a;
          others = λ k r s. (refl, refl);
        } in
      if_cases P (not (is_empty method))
        (λ e.
          if_cases P (is_known (get StreamKey-discrete (request_stream f b) c.http2)) (λ g. same _)
            (λ g.
              if_cases P (leb c.max_http2_streams (length c.http2)) (λ h. Keeps-refl c)
                (λ h. same _)))
        (λ e.
          if_cases P (ltb status 200) (λ g. Keeps-refl c)
            (λ g.
              close_stream-Keeps c b status (get StreamKey-discrete (response_stream f b) c.http2)))

  take_blocks-Keeps : (c : Correlator D) (bs : List HeaderBlock) → Keeps f c (take_blocks c f bs).0
  unfolding take_blocks
  take_blocks-Keeps c [] = Keeps-refl c
  take_blocks-Keeps c (b ∷ bs) =
      let d = (take_identity c f b (http2_identity b.fields c.max_path_bytes)).0 in
      Keeps-trans c d (take_blocks d f bs).0 (take_identity-Keeps c b _) (take_blocks-Keeps d bs)

  store-Keeps : (c : Correlator D) (s : DirectionState D) → Keeps f c (store c f s)
  store-Keeps c s = record {
    ttl = refl;
    every = refl;
    processed = refl;
    path_bytes = refl;
    requests = λ Q h a. a;
    others = λ k r s. (refl, refl);
  }

  take_fed-Keeps : (c : Correlator D) (r : Fed D) → Keeps f c (take_fed c f r).0
  unfolding take_fed
  take_fed-Keeps c (s, blocks, some e) = store-Keeps c _
  take_fed-Keeps c (s, blocks, none) =
      Keeps-trans c (store c f s) (take_blocks (store c f s) f blocks).0 (store-Keeps c s)
        (take_blocks-Keeps (store c f s) blocks)

module _ {D : Type 0} (new_decoder : D)
    (decode : D → Bytes → D × Option (List (Bytes × Bytes))) where
  take_direction-Keeps :
      (c : Correlator D) (f : Fragment) (payload : Bytes)
      → Keeps f c (take_direction new_decoder decode c f payload).0
  unfolding take_direction
  take_direction-Keeps c f payload =
      let P = λ (r : Correlator D × List Output). Keeps f c r.0 in
      let t = direction_of new_decoder decode c f in
      let s : DirectionState D = record t { last_seen_ns = fragment_timestamp_ns f } in
      if_cases P s.poisoned (λ e. store-Keeps f c _)
        (λ e.
          if_cases P (ltb 0 f.total_length && ltb (length f.payload % 4294967296) f.total_length)
            (λ g. store-Keeps f c _) (λ g. take_fed-Keeps f c _))

  take_http2-Keeps :
      (c : Correlator D) (f : Fragment) → Keeps f c (take_http2 new_decoder decode c f).0
  unfolding take_http2
  take_http2-Keeps c f =
      let P = λ (r : Correlator D × List Output). Keeps f c r.0 in
      let d = seen new_decoder decode c f in
      let same : Keeps f c d = record {
        ttl = refl;
        every = refl;
        processed = refl;
        path_bytes = refl;
        requests = λ Q h a. a;
        others = λ k r s. (refl, refl);
      } in
      if_cases P (is_known (get TransportKey-discrete (make_transport_key f) c.http2_connections))
        (λ e. Keeps-trans f c d _ same (take_direction-Keeps d f _))
        (λ e.
          if_cases P (is_full c) (λ g. Keeps-refl f c)
            (λ g. Keeps-trans f c d _ same (take_direction-Keeps d f _)))

  pub take_fragment-Keeps :
      (c : Correlator D) (f : Fragment) → Keeps f c (take_fragment new_decoder decode c f).0
  unfolding take_fragment
  take_fragment-Keeps c f =
      if_cases (λ (r : Correlator D × List Output). Keeps f c r.0) (is_http2 new_decoder decode c f)
        (λ e. take_http2-Keeps c f)
        (λ e. take_http1-Keeps f c (parse_http1_request f.payload c.max_path_bytes))
