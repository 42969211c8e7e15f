-- ===== src/L7/Correlator/Overlap.antt =====
-- Overlapping HTTP/1 requests: their connection falls silent. And what they do to the bound on
-- connections.
use agentkubenetwork.Base.{
  ℕ, ◌+◌, ◌<◌, ◌≡◌, refl, ap, ◌∙◌, true, false, List, [], ◌∷◌, ◌++◌, length, leb→le, Option, none,
  some, Bytes, arith, ◌⊎◌,
}
use agentkubenetwork.Base.Map.{get}
use agentkubenetwork.Base.Keyed.{length-put_new, del_absent_key}
use agentkubenetwork.L7.Types.{Fragment, Output, ConnectionKey, ConnectionKey-discrete}
use agentkubenetwork.L7.Http1.{parse_http1_request, contains_pipelined_http1_request}
use agentkubenetwork.L7.Reports.{fragment_timestamp_ns, http1, request_key, response_key}
use agentkubenetwork.L7.State.{Correlator, is_full, tracked_connections}
use agentkubenetwork.L7.Exchange.{mark_ambiguous, take_request, take_http1}
use agentkubenetwork.L7.Correlator.{is_http2, take_fragment}
use agentkubenetwork.L7.Correlator.Matching.{take_fragment_http1}

-- A fragment of a connection: from its client with a request, or from its server without one.
abbrev pub IsOn : ConnectionKey → ℕ → Fragment → Type 0
IsOn k max_path_bytes f =
    ((request_key f ≡ k)
      × ((r : Bytes × Bytes) × (parse_http1_request f.payload max_path_bytes ≡ some r)))
    ⊎ ((response_key f ≡ k) × (parse_http1_request f.payload max_path_bytes ≡ none))

module _ {D : Type 0} where
  take_http1_request :
      (c : Correlator D) (f : Fragment) (method path : Bytes)
      → take_http1 c f (some (method, path)) ≡ take_request c f method path
  unfolding take_http1
  take_http1_request c f method path = refl

  take_request_pipelined :
      (c : Correlator D) (f : Fragment) (method path : Bytes)
      → get ConnectionKey-discrete (request_key f) c.http1_ambiguous ≡ none
      → contains_pipelined_http1_request f.payload c.max_path_bytes ≡ true
      → take_request c f method path ≡ mark_ambiguous c f
  unfolding take_request
  take_request_pipelined c f method path clear several = ground (arith, clear, several)

module _ {D : Type 0} (new_decoder : D)
    (decode : D → Bytes → D × Option (List (Bytes × Bytes))) where
  -- Fragments in turn, with no expiry between them.
  unfoldable pub take_fragments : Correlator D → List Fragment → Correlator D × List Output
  take_fragments c [] = (c, [])
  take_fragments c (f ∷ fs) =
      let (d, out) = take_fragment new_decoder decode c f in
      let (e, more) = take_fragments d fs in (e, out ++ more)

  abbrev then_fragments : List Fragment → Correlator D × List Output → Correlator D × List Output
  then_fragments fs (c, out) = let (e, more) = take_fragments c fs in (e, out ++ more)

  -- A segment with two requests on a connection of which nothing is known counts as one more connection,
  -- also when there is no room for one: then more are tracked than the bound allows.
  pub pipelined-is_full :
      (c : Correlator D) (f : Fragment) (r : Bytes × Bytes)
      → is_http2 new_decoder decode c f ≡ false
      → parse_http1_request f.payload c.max_path_bytes ≡ some r
      → contains_pipelined_http1_request f.payload c.max_path_bytes ≡ true
      → get ConnectionKey-discrete (request_key f) c.http1_ambiguous ≡ none
      → get ConnectionKey-discrete (request_key f) c.http1 ≡ none
      → is_full c ≡ true
      → (tracked_connections (take_fragment new_decoder decode c f).0 ≡ tracked_connections c + 1)
        × (c.max_tracked_connections < tracked_connections (take_fragment new_decoder decode c f).0)
  pipelined-is_full c f (method, path) tcp parsed several clear unknown full =
      let marks : take_fragment new_decoder decode c f ≡ mark_ambiguous c f =
        take_fragment_http1 new_decoder decode c f tcp
        ∙ ap (take_http1 c f) parsed
        ∙ take_http1_request c f method path
        ∙ take_request_pipelined c f method path clear several in
      let same = del_absent_key ConnectionKey-discrete (request_key f) c.http1 unknown in
      let longer =
        length-put_new ConnectionKey-discrete (request_key f) (fragment_timestamp_ns f)
          c.http1_ambiguous clear in
      let more : tracked_connections (take_fragment new_decoder decode c f).0
          ≡ tracked_connections c + 1 =
        ap (λ (q : Correlator D × List Output). tracked_connections q.0) marks
        ∙ omega (arith, ap length same, longer) in
      (more, omega (arith, more, leb→le _ _ full))
