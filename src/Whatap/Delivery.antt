-- ===== src/Whatap/Delivery.antt =====
-- internal/whatap/client.go: `Send` from the gate on, with its failover. What it shares with Close and the
-- readers (contexts, sessions, connections) is a world `W`, and what it asks of that world a parameter:
-- the gate, operationError, the sessions, connect with its handshake, and writeAll on a connection. Each
-- frame that is handed to writeAll is logged with its session.
pub mod Once
use agentkubenetwork.Base.{
  ℕ, ltb, not, ◌==◌, ◌&&◌, ◌||◌, Bool, true, false, if◌then◌else◌, List, [], ◌∷◌, ◌++◌, length,
  Option, none, some, Bytes, Result, ok, err,
}
use agentkubenetwork.Whatap.Frame.{make_frame}
use agentkubenetwork.Whatap.Cipher.{encrypt_ecb}

abbrev pub max_frame_body : ℕ
max_frame_body = 8388608

-- A pack of golib: its identity fields, and its bytes with a given identity, none if writing it panics.
pub record Pack : Type 0 where
  pub pcode : ℕ
  pub oid : ℕ
  pub encode : ℕ → ℕ → Option Bytes

pub data SendError (E : Type 0) : Type 0 where
  invalid_pack identity_mismatch cannot_serialize over_limit : SendError E
  interrupted : E → SendError E
  ambiguous_delivery : E → SendError E
  no_connection : Option E → SendError E

pub record Network (W S E : Type 0) : Type 0 where
  pub acquire : W → W × Option E
  pub release : W → W
  pub operation_error : W → W × Option E
  pub current_session : W → W × Option S
  pub drop_session : W → S → W
  pub connect : W → Bytes → W × Result E S
  pub is_closed : W → S → W × Option E
  pub set_write_deadline : W → S → W × Option E
  pub transfer_key : S → ℕ
  pub block : S → Bytes → Bytes
  pub write : W → S → Bytes → W × Option E

-- A world, the frames that were handed to writeAll, and a result.
abbrev pub Done : Type 0 → Type 0 → Type 0 → Type 0
Done W S A = W × List (S × Bytes) × A

abbrev pub within_limit : {E : Type 0} → Option Bytes → Result (SendError E) Bytes
within_limit none = err cannot_serialize
within_limit (some body) = if ltb max_frame_body (length body) then err over_limit else ok body

-- Of a client with this identity.
unfoldable pub serialize : {E : Type 0} → ℕ → ℕ → Option Pack → Result (SendError E) Bytes
serialize pcode oid none = err invalid_pack
serialize pcode oid (some p) =
    if (not (p.pcode == 0) && not (p.pcode == pcode)) || (not (p.oid == 0) && not (p.oid == oid))
    then err identity_mismatch
    else within_limit (p.encode pcode oid)

module _ {W S E : Type 0} (net : Network W S E) (pcode oid : ℕ) where
  -- An early return, before anything is written.
  abbrev pub unless : W × Option E → (W → Done W S (Bool × Option E)) → Done W S (Bool × Option E)
  unless (w, some e) next = (w, [], (false, some e))
  unless (w, none) next = next w

  abbrev pub first_of : {A : Type 0} → Option A → Option A → Option A
  first_of none b = b
  first_of (some a) b = some a

  unfoldable pub write_frame : W → S → Bytes → Done W S (Bool × Option E)
  write_frame w s frame =
      let (v, failed) = net.write w s frame in
      let (u, stopped) = net.operation_error v in
      (u, (s, frame) ∷ [], (true, first_of stopped failed))

  -- Whether the write was attempted, and an error.
  unfoldable pub send_frame : W → S → Bytes → Done W S (Bool × Option E)
  send_frame w s body =
      let frame = make_frame 2 pcode oid (net.transfer_key s) (encrypt_ecb (net.block s) body) in
      unless (net.operation_error w) (λ a. unless (net.is_closed a s) (λ b.
        unless (net.set_write_deadline b s)
          (λ c. unless (net.operation_error c) (λ d. write_frame d s frame))))

  -- What `Send` does with the outcome of a frame: return, or go on with another session.
  unfoldable pub settle_frame :
      S
      → Done W S (Bool × Option E)
      → (W → E → Done W S (Option (SendError E)))
      → Done W S (Option (SendError E))
  settle_frame s (w, log, (attempted, none)) next = (w, log, none)
  settle_frame s (w, log, (true, some e)) next =
      (net.drop_session w s, log, some (ambiguous_delivery e))
  settle_frame s (w, log, (false, some e)) next =
      let (v, more, r) = next (net.drop_session w s) e in (v, log ++ more, r)

  abbrev pub unless_interrupted :
      W × Option E → (W → Done W S (Option (SendError E))) → Done W S (Option (SendError E))
  unless_interrupted (w, some e) next = (w, [], some (interrupted e))
  unless_interrupted (w, none) next = next w

  -- A server's connection, or the next server.
  unfoldable pub try_server :
      Bytes
      → W × Result E S
      → (W → E → Done W S (Option (SendError E)))
      → Done W S (Option (SendError E))
  try_server body (w, err e) next = next w e
  try_server body (w, ok s) next = settle_frame s (send_frame w s body) next

  unfoldable pub try_servers : Bytes → List Bytes → Option E → W → Done W S (Option (SendError E))
  try_servers body [] last w =
      unless_interrupted (net.operation_error w) (λ v. (v, [], some (no_connection last)))
  try_servers body (server ∷ servers) last w =
      unless_interrupted (net.operation_error w)
        (λ v. try_server body (net.connect v server) (λ u e. try_servers body servers (some e) u))

  unfoldable pub with_session : List Bytes → Bytes → W × Option S → Done W S (Option (SendError E))
  with_session servers body (w, none) = try_servers body servers none w
  with_session servers body (w, some s) =
      settle_frame s (send_frame w s body) (λ v e. try_servers body servers none v)

  unfoldable pub send_body :
      List Bytes → W → Result (SendError E) Bytes → Done W S (Option (SendError E))
  send_body servers w (err e) = (w, [], some e)
  send_body servers w (ok body) = with_session servers body (net.current_session w)

  unfoldable pub send_locked : List Bytes → Option Pack → W → Done W S (Option (SendError E))
  send_locked servers p w =
      unless_interrupted (net.operation_error w) (λ v. send_body servers v (serialize pcode oid p))

  abbrev pub releasing : Done W S (Option (SendError E)) → Done W S (Option (SendError E))
  releasing (w, log, r) = (net.release w, log, r)

  unfoldable pub send : List Bytes → W → Option Pack → Done W S (Option (SendError E))
  send servers w p = unless_interrupted (net.acquire w) (λ v. releasing (send_locked servers p v))
