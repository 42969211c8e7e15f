-- ===== src/L7/Correlator/Waiting.antt =====
-- A request that waits while other fragments come, and sweeps pass.
use agentkubenetwork.Base.{
  ℕ, ◌+◌, ◌<◌, ◌≡◌, ◌≢◌, refl, sym, subst, ◌∙◌, ◌==◌, ◌%◌, not, Bool, true, false, if_cases, List,
  [], ◌∷◌, keep, All, Option, none, some, Bytes, arith, add64, if◌then◌else◌,
}
use agentkubenetwork.Base.Map.{get}
use agentkubenetwork.Base.Keyed.{get-keep_absent, length-keep}
use agentkubenetwork.L7.Types.{
  Fragment, Output, ConnectionKey, ConnectionKey-discrete, TransportKey-discrete, PendingHttp1,
}
use agentkubenetwork.L7.Text.{has_prefix}
use agentkubenetwork.L7.Fields.{make_transport_key}
use agentkubenetwork.L7.Reports.{fragment_timestamp_ns, expired_at, request_key, response_key}
use agentkubenetwork.L7.State.{Correlator, is_known, is_full, counted, sweep, expire}
use agentkubenetwork.L7.Correlator.{is_http2, process_fragment, preface}
use agentkubenetwork.L7.Correlator.Keeps.{take_fragment-Keeps}
use agentkubenetwork.L7.Invariant.History.{run}

get-keep_live :
    (p : ConnectionKey × PendingHttp1 → Bool) (k : ConnectionKey) (v : PendingHttp1)
    (m : List (ConnectionKey × PendingHttp1))
    → ((j : ConnectionKey) → p (j, v) ≡ true)
    → get ConnectionKey-discrete k m ≡ some v
    → get ConnectionKey-discrete k (keep p m) ≡ some v
unfolding get
get-keep_live p k v [] live e = e
get-keep_live p k v ((j, w) ∷ m) live e = ground (arith, get-keep_live p k v m live, live j, e)

-- A state in which a request waits on a connection, and no overlap is known of it.
pub record Waits {D : Type 0} (c : Correlator D) (k : ConnectionKey) (p : PendingHttp1)
    (path_bytes ttl : ℕ) : Type 0 where
  pub pending : get ConnectionKey-discrete k c.http1 ≡ some p
  pub clear : get ConnectionKey-discrete k c.http1_ambiguous ≡ none
  pub path : c.max_path_bytes ≡ path_bytes
  pub time_to_live : c.state_ttl_ns ≡ ttl

-- A fragment of another connection, within the time to live of a request.
abbrev pub IsOther : ConnectionKey → ℕ → ℕ → Fragment → Type 0
IsOther k started ttl f =
    (request_key f ≢ k) × (response_key f ≢ k) × (fragment_timestamp_ns f < started + ttl)

not_expired : (now started ttl : ℕ) → now < started + ttl → not (expired_at now started ttl) ≡ true
not_expired now started ttl h = ground (arith, h)

module _ {D : Type 0} where
  sweep-Waits :
      (c : Correlator D) (now : ℕ) (k : ConnectionKey) (p : PendingHttp1) (path_bytes ttl : ℕ)
      → now < p.started_ns + ttl
      → Waits c k p path_bytes ttl
      → Waits (sweep c now) k p path_bytes ttl
  unfolding sweep
  sweep-Waits c now k p path_bytes ttl h w = record {
    pending =
        get-keep_live _ k p c.http1
          (λ j.
            not_expired now p.started_ns c.state_ttl_ns
              (subst (λ x. now < p.started_ns + x) (sym w.time_to_live) h))
          w.pending;
    clear = get-keep_absent ConnectionKey-discrete _ k c.http1_ambiguous w.clear;
    path = w.path;
    time_to_live = w.time_to_live;
  }

  pub expire-Waits :
      (c : Correlator D) (f : Fragment) (k : ConnectionKey) (p : PendingHttp1) (path_bytes ttl : ℕ)
      → fragment_timestamp_ns f < p.started_ns + ttl
      → Waits c k p path_bytes ttl
      → Waits (expire c f).0 k p path_bytes ttl
  unfolding expire
  expire-Waits c f k p path_bytes ttl h w =
      let P = λ (r : Correlator D × List Output). Waits r.0 k p path_bytes ttl in
      let v : Waits (counted c) k p path_bytes ttl = record {
        pending = w.pending;
        clear = w.clear;
        path = w.path;
        time_to_live = w.time_to_live;
      } in
      if_cases P (not (add64 c.processed 1 % c.sweep_every == 0)) (λ e. v)
        (λ e.
          if_cases P (fragment_timestamp_ns f == 0) (λ g. v)
            (λ g. sweep-Waits (counted c) (fragment_timestamp_ns f) k p path_bytes ttl h v))

  -- A connection that is new stays so past the expiry, and room stays.
  pub record Clear (c : Correlator D) (k : ConnectionKey) (path_bytes ttl : ℕ) : Type 0 where
    pub unknown : get ConnectionKey-discrete k c.http1 ≡ none
    pub clear : get ConnectionKey-discrete k c.http1_ambiguous ≡ none
    pub room : is_full c ≡ false
    pub path : c.max_path_bytes ≡ path_bytes
    pub time_to_live : c.state_ttl_ns ≡ ttl

  sweep-Clear :
      (c : Correlator D) (now : ℕ) (k : ConnectionKey) (path_bytes ttl : ℕ)
      → Clear c k path_bytes ttl
      → Clear (sweep c now) k path_bytes ttl
  unfolding sweep
  sweep-Clear c now k path_bytes ttl w = record {
    unknown = get-keep_absent ConnectionKey-discrete _ k c.http1 w.unknown;
    clear = get-keep_absent ConnectionKey-discrete _ k c.http1_ambiguous w.clear;
    room = ground (
      arith,
      w.room,
      length-keep (λ e. not (expired_at now e.1.started_ns c.state_ttl_ns)) c.http1,
      length-keep (λ e. not (expired_at now e.1 c.state_ttl_ns)) c.http1_ambiguous,
      length-keep (λ e. not (expired_at now e.1 c.state_ttl_ns)) c.http2_connections,
    );
    path = w.path;
    time_to_live = w.time_to_live;
  }

  pub expire-Clear :
      (c : Correlator D) (f : Fragment) (k : ConnectionKey) (path_bytes ttl : ℕ)
      → Clear c k path_bytes ttl
      → Clear (expire c f).0 k path_bytes ttl
  unfolding expire
  expire-Clear c f k path_bytes ttl w =
      let P = λ (r : Correlator D × List Output). Clear r.0 k path_bytes ttl in
      let v : Clear (counted c) k path_bytes ttl = record {
        unknown = w.unknown;
        clear = w.clear;
        room = w.room;
        path = w.path;
        time_to_live = w.time_to_live;
      } in
      if_cases P (not (add64 c.processed 1 % c.sweep_every == 0)) (λ e. v)
        (λ e.
          if_cases P (fragment_timestamp_ns f == 0) (λ g. v)
            (λ g. sweep-Clear (counted c) (fragment_timestamp_ns f) k path_bytes ttl v))

module _ {D : Type 0} (new_decoder : D)
    (decode : D → Bytes → D × Option (List (Bytes × Bytes))) where
  is_http2_unknown :
      (c : Correlator D) (f : Fragment)
      → is_http2 new_decoder decode c f ≡ false
      → (get TransportKey-discrete (make_transport_key f) c.http2_connections ≡ none)
        × (has_prefix f.payload preface ≡ false)
  is_http2_unknown c f h =
      elim (get TransportKey-discrete (make_transport_key f) c.http2_connections)
          as (λ r.
            (if is_known r then true else has_prefix f.payload preface) ≡ false
            → (r ≡ none) × (has_prefix f.payload preface ≡ false)) [
              | none ↦ λ e. (refl, e)
              | some t ↦ λ e. absurd (cc e)
            ]
        h

  pub is_http2-expire :
      (c : Correlator D) (f g : Fragment)
      → is_http2 new_decoder decode c g ≡ false
      → is_http2 new_decoder decode (expire c f).0 g ≡ false
  unfolding expire sweep
  is_http2-expire c f g h =
      let u = is_http2_unknown c g h in
      let P = λ (r : Correlator D × List Output). is_http2 new_decoder decode r.0 g ≡ false in
      if_cases P (not (add64 c.processed 1 % c.sweep_every == 0)) (λ e. h)
        (λ e.
          if_cases P (fragment_timestamp_ns f == 0) (λ g. h)
            (λ e.
              simp
                (get-keep_absent TransportKey-discrete
                  (λ e. not (expired_at (fragment_timestamp_ns f) e.1 c.state_ttl_ns))
                  (make_transport_key g) c.http2_connections u.0)
                u.1))

  process_fragment-Waits :
      (c : Correlator D) (f : Fragment) (k : ConnectionKey) (p : PendingHttp1) (path_bytes ttl : ℕ)
      → IsOther k p.started_ns ttl f
      → Waits c k p path_bytes ttl
      → Waits (process_fragment new_decoder decode c f).0 k p path_bytes ttl
  unfolding process_fragment
  process_fragment-Waits c f k p path_bytes ttl o w =
      let d = (expire c f).0 in
      let x = expire-Waits c f k p path_bytes ttl o.2 w in
      let v = take_fragment-Keeps new_decoder decode d f in
      let same = v.others k o.0 o.1 in
      record {
        pending = same.0 ∙ x.pending;
        clear = same.1 ∙ x.clear;
        path = v.path_bytes ∙ x.path;
        time_to_live = v.ttl ∙ x.time_to_live;
      }

  pub run-Waits :
      (c : Correlator D) (fs : List Fragment) (k : ConnectionKey) (p : PendingHttp1)
      (path_bytes ttl : ℕ)
      → All (IsOther k p.started_ns ttl) fs
      → Waits c k p path_bytes ttl
      → Waits (run new_decoder decode c fs).0 k p path_bytes ttl
  unfolding run
  run-Waits c [] k p path_bytes ttl o w = w
  run-Waits c (f ∷ fs) k p path_bytes ttl o w =
      run-Waits (process_fragment new_decoder decode c f).0 fs k p path_bytes ttl o.1
        (process_fragment-Waits c f k p path_bytes ttl o.0 w)
