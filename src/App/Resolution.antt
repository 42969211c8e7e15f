-- ===== src/App/Resolution.antt =====
-- internal/app/events.go and event_stream.go: connections that wait for the translation of their
-- destination. The resolver, the process resolver and the clock of the retries are parameters that act
-- on a world `W`. An error of Encode ends the loop; the model is of the loop while there is none.
pub mod Once
pub mod Queue
use agentkubenetwork.Base.{
  ℕ, ◌+◌, ◌==◌, ltb, leb, not, ◌&&◌, Bool, true, false, if◌then◌else◌, List, [], ◌∷◌, ◌++◌, map,
  keep, length, Option, none, some, Bytes, bytes_discrete, test,
}
use agentkubenetwork.Base.Text.{codes}
use agentkubenetwork.Flow.Types.{
  Endpoint, ResolvedEndpoint, Process, FlowKey, FlowKey-discrete, Observation,
}

-- What a lookup of a translation gives: the world after it, an endpoint, and how it was found.
abbrev pub Answered : Type 0 → Type 0
Answered W = W × Option (Endpoint × Bytes)

-- `resolve_after` is there if the resolver has ResolveAfter.
pub record DestinationResolver (W : Type 0) : Type 0 where
  pub resolve : W → Bytes → Endpoint → Endpoint → Answered W
  pub resolve_after : Option (W → Bytes → Endpoint → Endpoint → ℕ → Answered W)

pub record PendingResolution : Type 0 where
  pub observation : Observation
  pub deadline : ℕ
  pub attempts : ℕ

pub record ResolutionEvidence : Type 0 where
  pub status : Bytes
  pub reason : Bytes
  pub attempts : ℕ

-- What is encoded: an observation alone, or with its evidence.
pub data Report : Type 0 where
  observed : Observation → Report
  resolved : Observation → ResolutionEvidence → Report

abbrev pub has_value : {A : Type 0} → Option A → Bool
has_value none = false
has_value (some a) = true

unfoldable pub resolution_record : PendingResolution → Bytes → Report
resolution_record p reason =
    if has_value p.observation.destination_resolved
    then resolved p.observation
        (record { status = codes "resolved"; reason = []; attempts = p.attempts })
    else resolved p.observation
        (record { status = codes "unresolved"; reason = reason; attempts = p.attempts })

abbrev pub endpoint_via : Endpoint × Bytes → ResolvedEndpoint
endpoint_via (e, via) = record { address = e.address; port = e.port; via = via }

abbrev pub with_destination : Observation → Option (Endpoint × Bytes) → Observation
with_destination o none = o
with_destination o (some e) = record o { destination_resolved = some (endpoint_via e) }

abbrev pub with_source : Observation → Option (Endpoint × Bytes) → Observation
with_source o none = o
with_source o (some e) = record o { source_resolved = some (endpoint_via e) }

abbrev pub is_egress : Observation → Bool
is_egress o = test (bytes_discrete o.flow.direction (codes "egress"))

abbrev pub bare_process : ℕ → Process
bare_process pid = record {
  pid = pid;
  start_time_ticks = 0;
  comm = [];
  cmdline = [];
  container_id = [];
  via = [];
}

abbrev pub process_or : ℕ → Option Process → Process
process_or pid none = bare_process pid
process_or pid (some p) = record p { pid = pid }

module _ {W : Type 0} where
  -- The tuple as it was observed did not resolve: its other order.
  unfoldable pub or_reversed : DestinationResolver W → Observation → Answered W → W × Observation
  or_reversed r o (w, some e) = (w, with_destination o (some e))
  or_reversed r o (w, none) =
      let (v, found) = r.resolve w o.flow.protocol o.flow.destination o.flow.source in
      (v, with_source o found)

  unfoldable pub both_ways : DestinationResolver W → W → Observation → W × Observation
  both_ways r w o = or_reversed r o (r.resolve w o.flow.protocol o.flow.source o.flow.destination)

  unfoldable pub fresh_or :
      Option (W → Bytes → Endpoint → Endpoint → ℕ → Answered W)
      → DestinationResolver W
      → W
      → Observation
      → W × Observation
  fresh_or none r w o = both_ways r w o
  fresh_or (some after) r w o =
      let (v, found) = after w o.flow.protocol o.flow.source o.flow.destination o.observed_at in
      (v, with_destination o found)

  unfoldable pub resolve_observation :
      Option (DestinationResolver W) → W → Observation → W × Observation
  resolve_observation none w o = (w, o)
  resolve_observation (some r) w o =
      if is_egress o then fresh_or r.resolve_after r w o else both_ways r w o

  unfoldable pub attach_process :
      Option (W → ℕ → W × Option Process) → W → ℕ → Observation → W × Observation
  attach_process none w pid o =
      if pid == 0 then (w, o) else (w, record o { process = some (bare_process pid) })
  attach_process (some lookup) w pid o =
      if pid == 0
      then (w, o)
      else (let (v, found) = lookup w pid in
          (v, record o { process = some (process_or pid found) }))

-- The loop over what is pending when a connection is established on a flow: what is reported, and what
-- still waits.
abbrev pub on_flow : FlowKey → PendingResolution → Bool
on_flow k p = test (FlowKey-discrete p.observation.flow k)

unfoldable pub superseded : FlowKey → List PendingResolution → List Report
superseded k ps = map (λ p. resolution_record p (codes "tuple_reused")) (keep (on_flow k) ps)

unfoldable pub still_waiting : FlowKey → List PendingResolution → List PendingResolution
still_waiting k ps = keep (λ p. not (on_flow k p)) ps

-- Nanoseconds and number.
abbrev pub resolution_grace : ℕ
resolution_grace = 250000000

abbrev pub max_pending_resolutions : ℕ
max_pending_resolutions = 1024

unfoldable pub enqueue :
    PendingResolution → List PendingResolution → List Report × List PendingResolution
enqueue item ps =
    if not (has_value item.observation.destination_resolved)
      && ltb (length ps) max_pending_resolutions
    then ([], ps ++ (item ∷ []))
    else (resolution_record item (codes "queue_full") ∷ [], ps)

-- The watermark of a flush, held back by what is pending.
unfoldable pub held_back : ℕ → List PendingResolution → ℕ
held_back watermark [] = watermark
held_back watermark (p ∷ ps) =
    held_back
      (if ltb p.observation.observed_at watermark then p.observation.observed_at else watermark) ps

-- At the end of a capture that was cancelled.
unfoldable pub capture_ended : List PendingResolution → List Report
capture_ended ps = map (λ p. resolution_record p (codes "capture_ended")) ps

pub data LoopEvent : Type 0 where
  received : Bool → ℕ → Observation → LoopEvent
  ticked : LoopEvent

module _ {W : Type 0} (resolver : Option (DestinationResolver W))
    (processes : Option (W → ℕ → W × Option Process)) (clock : W → W × ℕ) where
  -- One more attempt, and whether it was the last: the clock is read if it did not resolve.
  unfoldable pub retry_item : W → PendingResolution → W × PendingResolution × Bool
  retry_item w p =
      let (v, o) = resolve_observation resolver w p.observation in
      let q = record p { observation = o; attempts = p.attempts + 1 } in
      if has_value o.destination_resolved
      then (v, q, true)
      else (let (u, now) = clock v in (u, q, leb q.deadline now))

  unfoldable pub retry : W → List PendingResolution → W × List Report × List PendingResolution
  retry w [] = (w, [], [])
  retry w (p ∷ ps) =
      let (v, q, done) = retry_item w p in
      let (u, out, rest) = retry v ps in
      if done
      then (u, resolution_record q (codes "retry_deadline") ∷ out, rest)
      else (u, out, q ∷ rest)

  unfoldable pub take_connect :
      W → Observation → List PendingResolution → W × List Report × List PendingResolution
  take_connect w o ps =
      let (v, now) = clock w in
      let item : PendingResolution = record {
        observation = o;
        deadline = now + resolution_grace;
        attempts = 1;
      } in
      let (out, rest) = enqueue item (still_waiting o.flow ps) in
      (v, superseded o.flow ps ++ out, rest)

  -- A flow event; the flag is that it is a connection that was established.
  unfoldable pub take_event :
      W → Bool → ℕ → Observation → List PendingResolution → W × List Report × List PendingResolution
  take_event w is_connect pid observation ps =
      let (v, seen) = resolve_observation resolver w observation in
      let (u, o) = attach_process processes v pid seen in
      if has_value resolver && (is_connect && is_egress o)
      then take_connect u o ps
      else (u, observed o ∷ [], ps)

  unfoldable pub handle :
      W → LoopEvent → List PendingResolution → W × List Report × List PendingResolution
  handle w (received is_connect pid o) ps = take_event w is_connect pid o ps
  handle w ticked ps = retry w ps

  unfoldable pub handle_all :
      W → List LoopEvent → List PendingResolution → W × List Report × List PendingResolution
  handle_all w [] ps = (w, [], ps)
  handle_all w (e ∷ es) ps =
      let (v, out, qs) = handle w e ps in
      let (u, more, rest) = handle_all v es qs in (u, out ++ more, rest)
