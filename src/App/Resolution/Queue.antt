-- ===== src/App/Resolution/Queue.antt =====
-- What waits for a translation: bounded, unresolved, and one connection of a flow.
use agentkubenetwork.Base.{
  ℕ, suc, ◌≤◌, ◌<◌, ◌≡◌, ◌≢◌, refl, sym, ap, subst, ◌∙◌, ltb, not, ◌&&◌, ◌||◌, Bool, false,
  if_cases, List, [], ◌∷◌, ◌++◌, map, keep, length, All, Option, arith, test, length-append,
}
use agentkubenetwork.Base.Group.{has, Distinct}
use agentkubenetwork.Base.Keyed.{length-keep, All-keep}
use agentkubenetwork.Flow.Types.{Process, FlowKey, FlowKey-discrete, Observation}
use agentkubenetwork.App.Resolution.{
  DestinationResolver, PendingResolution, Report, has_value, is_egress, max_pending_resolutions,
  resolve_observation, attach_process, on_flow, still_waiting, enqueue, LoopEvent, received, ticked,
  retry_item, retry, take_connect, take_event, handle, handle_all,
}
use agentkubenetwork.App.Resolution.Once.{bare-resolve_observation}

abbrev pub flows : List PendingResolution → List FlowKey
flows ps = map (λ (q : PendingResolution). q.observation.flow) ps

abbrev pub IsWaiting : PendingResolution → Type 0
IsWaiting q = has_value q.observation.destination_resolved ≡ false

pub record IsOrderly (ps : List PendingResolution) : Type 0 where
  pub bounded : length ps ≤ max_pending_resolutions
  pub apart : Distinct FlowKey-discrete (flows ps)
  pub unresolved : All IsWaiting ps

has-still_waiting :
    (k : FlowKey) (ps : List PendingResolution)
    → has FlowKey-discrete k (flows (still_waiting k ps)) ≡ false
unfolding still_waiting
has-still_waiting k [] = refl
has-still_waiting k (q ∷ ps) =
    if_cases (λ (r : List PendingResolution). has FlowKey-discrete k (flows r) ≡ false)
      (not (on_flow k q)) (λ e. ground (arith, has-still_waiting k ps))
      (λ e. has-still_waiting k ps)

has-flows-keep :
    (p : PendingResolution → Bool) (j : FlowKey) (ps : List PendingResolution)
    → has FlowKey-discrete j (flows ps) ≡ false
    → has FlowKey-discrete j (flows (keep p ps)) ≡ false
has-flows-keep p j [] h = refl
has-flows-keep p j (q ∷ ps) h = ground (arith, has-flows-keep p j ps)

keep-Distinct-flows :
    (p : PendingResolution → Bool) (ps : List PendingResolution)
    → Distinct FlowKey-discrete (flows ps)
    → Distinct FlowKey-discrete (flows (keep p ps))
keep-Distinct-flows p [] h = tt
keep-Distinct-flows p (q ∷ ps) h =
    ground (arith, has-flows-keep p q.observation.flow ps, keep-Distinct-flows p ps)

still_waiting-IsOrderly :
    (k : FlowKey) (ps : List PendingResolution) → IsOrderly ps → IsOrderly (still_waiting k ps)
unfolding still_waiting
still_waiting-IsOrderly k ps v = record {
  bounded = omega (arith, v.bounded, length-keep (λ q. not (on_flow k q)) ps);
  apart = keep-Distinct-flows (λ q. not (on_flow k q)) ps v.apart;
  unresolved = All-keep (λ q. not (on_flow k q)) IsWaiting ps v.unresolved;
}

has-flows-snoc :
    (j : FlowKey) (item : PendingResolution) (ps : List PendingResolution)
    → has FlowKey-discrete j (flows (ps ++ (item ∷ [])))
      ≡ (has FlowKey-discrete j (flows ps) || test (FlowKey-discrete item.observation.flow j))
has-flows-snoc j item [] = ground arith
has-flows-snoc j item (q ∷ ps) = ground (arith, has-flows-snoc j item ps)

test_no : {j k : FlowKey} (t : Dec (j ≡ k)) → test t ≡ false → j ≢ k
test_no (yes e) h = absurd (cc)
test_no (no n) h = n

other_flow :
    (j k : FlowKey) → test (FlowKey-discrete j k) ≡ false → test (FlowKey-discrete k j) ≡ false
other_flow j k h = elim (FlowKey-discrete k j) as (λ t. test t ≡ false) [
  | yes e ↦ absurd (test_no (FlowKey-discrete j k) h (sym e))
  | no e ↦ refl
]

snoc-Distinct-flows :
    (item : PendingResolution) (ps : List PendingResolution)
    → has FlowKey-discrete item.observation.flow (flows ps) ≡ false
    → Distinct FlowKey-discrete (flows ps)
    → Distinct FlowKey-discrete (flows (ps ++ (item ∷ [])))
snoc-Distinct-flows item [] new h = (refl, tt)
snoc-Distinct-flows item (q ∷ ps) new h = (
  has-flows-snoc q.observation.flow item ps
      ∙ ground (arith, h.0, other_flow q.observation.flow item.observation.flow (ground arith)),
  snoc-Distinct-flows item ps (ground arith) h.1,
)

snoc-All :
    (item : PendingResolution) (ps : List PendingResolution)
    → IsWaiting item
    → All IsWaiting ps
    → All IsWaiting (ps ++ (item ∷ []))
snoc-All item [] h a = (h, tt)
snoc-All item (q ∷ ps) h a = (a.0, snoc-All item ps h a.1)

snoc-IsOrderly :
    (item : PendingResolution) (ps : List PendingResolution)
    → length ps < max_pending_resolutions
    → has FlowKey-discrete item.observation.flow (flows ps) ≡ false
    → IsWaiting item
    → IsOrderly ps
    → IsOrderly (ps ++ (item ∷ []))
snoc-IsOrderly item ps room new h v = record {
  bounded = omega (arith, length-append ps (item ∷ []));
  apart = snoc-Distinct-flows item ps new v.apart;
  unresolved = snoc-All item ps h v.unresolved;
}

enqueue-IsOrderly :
    (item : PendingResolution) (ps : List PendingResolution)
    → has FlowKey-discrete item.observation.flow (flows ps) ≡ false
    → IsOrderly ps
    → IsOrderly (enqueue item ps).1
unfolding enqueue
enqueue-IsOrderly item ps new v =
    if_cases (λ (r : List Report × List PendingResolution). IsOrderly r.1)
      (not (has_value item.observation.destination_resolved)
        && ltb (length ps) max_pending_resolutions)
      (λ e. snoc-IsOrderly item ps (ground arith) new (ground arith) v) (λ e. v)

module _ {W : Type 0} (resolver : Option (DestinationResolver W))
    (processes : Option (W → ℕ → W × Option Process)) (clock : W → W × ℕ) where
  retry_item_flow :
      (w : W) (q : PendingResolution)
      → (retry_item resolver processes clock w q).1.observation.flow ≡ q.observation.flow
  unfolding retry_item
  retry_item_flow w q =
      let same =
        ap (λ (o : Observation). o.flow) (bare-resolve_observation resolver w q.observation) in
      if_cases (λ (r : W × PendingResolution × Bool). r.1.observation.flow ≡ q.observation.flow)
        (has_value (resolve_observation resolver w q.observation).1.destination_resolved)
        (λ e. same) (λ e. same)

  retry_item-IsWaiting :
      (w : W) (q : PendingResolution)
      → (retry_item resolver processes clock w q).2 ≡ false
      → IsWaiting (retry_item resolver processes clock w q).1
  unfolding retry_item
  retry_item-IsWaiting w q =
      if_cases (λ (r : W × PendingResolution × Bool). r.2 ≡ false → IsWaiting r.1)
        (has_value (resolve_observation resolver w q.observation).1.destination_resolved)
        (λ e h. absurd (cc)) (λ e h. e)

  has-retry :
      (w : W) (j : FlowKey) (ps : List PendingResolution)
      → has FlowKey-discrete j (flows ps) ≡ false
      → has FlowKey-discrete j (flows (retry resolver processes clock w ps).2) ≡ false
  unfolding retry
  has-retry w j [] h = refl
  has-retry w j (q ∷ ps) h =
      let one = retry_item resolver processes clock w q in
      let same : test (FlowKey-discrete one.1.observation.flow j)
          ≡ test (FlowKey-discrete q.observation.flow j) =
        ap (λ k. test (FlowKey-discrete k j)) (retry_item_flow w q) in
      let rest = has-retry one.0 j ps (ground arith) in
      if_cases
        (λ (r : W × List Report × List PendingResolution).
          has FlowKey-discrete j (flows r.2) ≡ false)
        one.2 (λ e. rest) (λ e. ground (arith, same, rest))

  retry-Distinct-flows :
      (w : W) (ps : List PendingResolution)
      → Distinct FlowKey-discrete (flows ps)
      → Distinct FlowKey-discrete (flows (retry resolver processes clock w ps).2)
  unfolding retry
  retry-Distinct-flows w [] h = tt
  retry-Distinct-flows w (q ∷ ps) h =
      let one = retry_item resolver processes clock w q in
      let rest = retry-Distinct-flows one.0 ps h.1 in
      if_cases
        (λ (r : W × List Report × List PendingResolution). Distinct FlowKey-discrete (flows r.2))
        one.2 (λ e. rest)
        (λ e. (
          subst
              (λ k.
                has FlowKey-discrete k (flows (retry resolver processes clock one.0 ps).2) ≡ false)
              (sym (retry_item_flow w q)) (has-retry one.0 q.observation.flow ps h.0),
          rest,
        ))

  retry_rest :
      (w : W) (ps : List PendingResolution)
      → (length (retry resolver processes clock w ps).2 ≤ length ps)
        × All IsWaiting (retry resolver processes clock w ps).2
  unfolding retry
  retry_rest w [] = (omega arith, tt)
  retry_rest w (q ∷ ps) =
      let one = retry_item resolver processes clock w q in
      let rest = retry_rest one.0 ps in
      if_cases
        (λ (r : W × List Report × List PendingResolution).
          (length r.2 ≤ suc (length ps)) × All IsWaiting r.2)
        one.2 (λ e. (omega (arith, rest.0), rest.1))
        (λ e. (omega (arith, rest.0), (retry_item-IsWaiting w q e, rest.1)))

  retry-IsOrderly :
      (w : W) (ps : List PendingResolution)
      → IsOrderly ps
      → IsOrderly (retry resolver processes clock w ps).2
  retry-IsOrderly w ps v =
      let rest = retry_rest w ps in
      record {
        bounded = omega (arith, v.bounded, rest.0);
        apart = retry-Distinct-flows w ps v.apart;
        unresolved = rest.1;
      }

  handle-IsOrderly :
      (w : W) (e : LoopEvent) (ps : List PendingResolution)
      → IsOrderly ps
      → IsOrderly (handle resolver processes clock w e ps).2
  unfolding handle take_event take_connect
  handle-IsOrderly w ticked ps v = retry-IsOrderly w ps v
  handle-IsOrderly w (received is_connect pid o) ps v =
      let first = resolve_observation resolver w o in
      let u = attach_process processes first.0 pid first.1 in
      if_cases (λ (r : W × List Report × List PendingResolution). IsOrderly r.2)
        (has_value resolver && (is_connect && is_egress u.1))
        (λ e.
          enqueue-IsOrderly _ (still_waiting u.1.flow ps) (has-still_waiting u.1.flow ps)
            (still_waiting-IsOrderly u.1.flow ps v))
        (λ e. v)

  handle_all_from :
      (w : W) (es : List LoopEvent) (ps : List PendingResolution)
      → IsOrderly ps
      → IsOrderly (handle_all resolver processes clock w es ps).2
  unfolding handle_all
  handle_all_from w [] ps v = v
  handle_all_from w (e ∷ es) ps v =
      let one = handle resolver processes clock w e ps in
      handle_all_from one.0 es one.2 (handle-IsOrderly w e ps v)

  -- After any events, at most 1024 connections wait for a translation, no two of them on the same flow, and
  -- none that has one.
  pub handle_all-IsOrderly :
      (w : W) (es : List LoopEvent) → IsOrderly (handle_all resolver processes clock w es []).2
  handle_all-IsOrderly w es =
      handle_all_from w es [] (record { bounded = omega arith; apart = tt; unresolved = tt })
