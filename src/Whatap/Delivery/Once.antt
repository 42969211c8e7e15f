-- ===== src/Whatap/Delivery/Once.antt =====
-- A pack is handed to at most one connection.
use agentkubenetwork.Base.{
  ℕ, ltb, not, ◌&&◌, ◌||◌, ◌==◌, ◌≡◌, refl, sym, Bool, true, false, if◌then◌else◌, List, [], ◌∷◌,
  length, length-append, Option, none, some, Bytes, Result, ok, err, arith, if_cases,
}
use agentkubenetwork.Whatap.Delivery.{
  Pack, SendError, invalid_pack, identity_mismatch, cannot_serialize, over_limit, interrupted,
  ambiguous_delivery, no_connection, Network, Done, max_frame_body, within_limit, serialize, unless,
  write_frame, send_frame, settle_frame, unless_interrupted, try_server, try_servers, with_session,
  send_body, send_locked, send,
}

-- How many frames a result of `Send` accounts for: one if it is nil or an ambiguous delivery, else none.
abbrev pub frames_of : {E : Type 0} → Option (SendError E) → ℕ
frames_of none = 1
frames_of (some (ambiguous_delivery e)) = 1
frames_of (some (interrupted e)) = 0
frames_of (some (no_connection e)) = 0
frames_of (some invalid_pack) = 0
frames_of (some identity_mismatch) = 0
frames_of (some cannot_serialize) = 0
frames_of (some over_limit) = 0

module _ {W S E : Type 0} (net : Network W S E) (pcode oid : ℕ) where
  abbrev Matches : Done W S (Option (SendError E)) → Type 0
  Matches r = length r.1 ≡ frames_of r.2

  -- A frame is attempted once or not at all, and without an error it was attempted.
  abbrev Attempts : Done W S (Bool × Option E) → Type 0
  Attempts r = (length r.1 ≡ (if r.2.0 then 1 else 0)) × (r.2.1 ≡ none → r.2.0 ≡ true)

  unless-Attempts :
      (a : W × Option E) (next : W → Done W S (Bool × Option E))
      → ((w : W) → Attempts (next w))
      → Attempts (unless net pcode oid a next)
  unless-Attempts (w, none) next h = h w
  unless-Attempts (w, some e) next h = (refl, λ g. absurd (cc))

  send_frame-Attempts :
      (w : W) (s : S) (body : Bytes) → Attempts (send_frame net pcode oid w s body)
  unfolding send_frame write_frame
  send_frame-Attempts w s body = unless-Attempts (net.operation_error w) _ (λ a.
      unless-Attempts (net.is_closed a s) _ (λ b.
        unless-Attempts (net.set_write_deadline b s) _
          (λ c. unless-Attempts (net.operation_error c) _ (λ d. (refl, λ g. refl)))))

  settle_frame-Matches :
      (s : S) (r : Done W S (Bool × Option E)) (next : W → E → Done W S (Option (SendError E)))
      → Attempts r
      → ((w : W) (e : E) → Matches (next w e))
      → Matches (settle_frame net pcode oid s r next)
  unfolding settle_frame
  settle_frame-Matches s (w, log, (true, none)) next a h = a.0
  settle_frame-Matches s (w, log, (false, none)) next a h = absurd (ground (arith, a.1 refl))
  settle_frame-Matches s (w, log, (true, some e)) next a h = a.0
  settle_frame-Matches s (w, log, (false, some e)) next a h =
      omega (
        arith,
        length-append log (next (net.drop_session w s) e).1,
        a.0,
        h (net.drop_session w s) e,
      )

  unless_interrupted-Matches :
      (a : W × Option E) (next : W → Done W S (Option (SendError E)))
      → ((w : W) → Matches (next w))
      → Matches (unless_interrupted net pcode oid a next)
  unless_interrupted-Matches (w, none) next h = h w
  unless_interrupted-Matches (w, some e) next h = refl

  try_server-Matches :
      (body : Bytes) (a : W × Result E S) (next : W → E → Done W S (Option (SendError E)))
      → ((w : W) (e : E) → Matches (next w e))
      → Matches (try_server net pcode oid body a next)
  unfolding try_server
  try_server-Matches body (w, err e) next h = h w e
  try_server-Matches body (w, ok s) next h =
      settle_frame-Matches s _ next (send_frame-Attempts w s body) h

  try_servers-Matches :
      (body : Bytes) (servers : List Bytes) (last : Option E) (w : W)
      → Matches (try_servers net pcode oid body servers last w)
  unfolding try_servers
  try_servers-Matches body [] last w =
      unless_interrupted-Matches (net.operation_error w) _ (λ v. refl)
  try_servers-Matches body (server ∷ servers) last w =
      unless_interrupted-Matches (net.operation_error w) _ (λ v.
        try_server-Matches body (net.connect v server) _
          (λ u e. try_servers-Matches body servers (some e) u))

  with_session-Matches :
      (servers : List Bytes) (body : Bytes) (a : W × Option S)
      → Matches (with_session net pcode oid servers body a)
  unfolding with_session
  with_session-Matches servers body (w, none) = try_servers-Matches body servers none w
  with_session-Matches servers body (w, some s) =
      settle_frame-Matches s _ _ (send_frame-Attempts w s body)
        (λ v e. try_servers-Matches body servers none v)

  -- A pack that is refused is no frame.
  Refuses : Result (SendError E) Bytes → Type 0
  Refuses (ok body) = Unit
  Refuses (err e) = frames_of (some e) ≡ 0

  send_body-Matches :
      (servers : List Bytes) (w : W) (b : Result (SendError E) Bytes)
      → Refuses b
      → Matches (send_body net pcode oid servers w b)
  unfolding send_body Refuses
  send_body-Matches servers w (err e) h = sym h
  send_body-Matches servers w (ok body) h =
      with_session-Matches servers body (net.current_session w)

  within_limit-Refuses : (b : Option Bytes) → Refuses (within_limit b)
  unfolding Refuses
  within_limit-Refuses none = refl
  within_limit-Refuses (some body) =
      if_cases Refuses (ltb max_frame_body (length body)) (λ e. refl) (λ e. tt)

  serialize-Refuses : (p : Option Pack) → Refuses (serialize pcode oid p)
  unfolding serialize Refuses
  serialize-Refuses none = refl
  serialize-Refuses (some p) =
      if_cases Refuses
        ((not (p.pcode == 0) && not (p.pcode == pcode)) || (not (p.oid == 0) && not (p.oid == oid)))
        (λ e. refl) (λ e. within_limit-Refuses (p.encode pcode oid))

  -- A pack is handed to at most one connection, once: if Send returns nil or an ambiguous delivery, to
  -- exactly one, and if it returns any other error, to none.
  pub send_once :
      (servers : List Bytes) (w : W) (p : Option Pack)
      → let r = send net pcode oid servers w p in length r.1 ≡ frames_of r.2
  unfolding send send_locked
  send_once servers w p = unless_interrupted-Matches (net.acquire w) _ (λ v.
      unless_interrupted-Matches (net.operation_error v)
        (λ u. send_body net pcode oid servers u (serialize pcode oid p))
        (λ u. send_body-Matches servers u (serialize pcode oid p) (serialize-Refuses p)))
