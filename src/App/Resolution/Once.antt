-- ===== src/App/Resolution/Once.antt =====
-- Every observation of a flow is reported once.
use agentkubenetwork.Base.{
  ℕ, ◌+◌, ◌==◌, ◌≡◌, refl, ap, ◌∙◌, ltb, not, ◌&&◌, Bool, true, false, if_cases, if◌then◌else◌,
  List, [], ◌∷◌, ◌++◌, map, keep, length, Option, none, some, Bytes, arith,
}
use agentkubenetwork.Base.Text.{codes}
use agentkubenetwork.Flow.Types.{Endpoint, Process, FlowKey, Observation}
use agentkubenetwork.App.Resolution.{
  Answered, DestinationResolver, PendingResolution, Report, observed, resolved, has_value,
  with_destination, with_source, is_egress, max_pending_resolutions, resolution_grace,
  resolution_record, or_reversed, both_ways, fresh_or, resolve_observation, attach_process, on_flow,
  superseded, still_waiting, enqueue, capture_ended, LoopEvent, received, ticked, retry_item, retry,
  take_connect, take_event, handle, handle_all,
}

-- An observation without what the loop adds to it.
abbrev pub bare : Observation → Observation
bare o = record o { source_resolved = none; destination_resolved = none; process = none }

abbrev pub reported : Report → Observation
reported (observed o) = o
reported (resolved o evidence) = o

abbrev pub received_by : LoopEvent → List Observation
received_by (received is_connect pid o) = o ∷ []
received_by ticked = []

abbrev pub all_received : List LoopEvent → List Observation
all_received [] = []
all_received (e ∷ es) = received_by e ++ all_received es

module _ (p : Observation → Bool) where
  -- How many of some observations pass, but for what the loop adds.
  abbrev pub weight : Observation → ℕ
  weight o = if p (bare o) then 1 else 0

  abbrev pub tally : {A : Type 0} → (A → Observation) → List A → ℕ
  tally f [] = 0
  tally f (x ∷ xs) = weight (f x) + tally f xs

tally-append :
    (p : Observation → Bool) {A : Type 0} (f : A → Observation) (xs ys : List A)
    → tally p f (xs ++ ys) ≡ tally p f xs + tally p f ys
tally-append p f [] ys = omega arith
tally-append p f (x ∷ xs) ys = omega (arith, tally-append p f xs ys)

reported-resolution_record :
    (p : PendingResolution) (reason : Bytes) → reported (resolution_record p reason) ≡ p.observation
unfolding resolution_record
reported-resolution_record p reason =
    if_cases (λ (r : Report). reported r ≡ p.observation)
      (has_value p.observation.destination_resolved) (λ e. refl) (λ e. refl)

bare-with_destination :
    (o : Observation) (x : Option (Endpoint × Bytes)) → bare (with_destination o x) ≡ bare o
bare-with_destination o none = refl
bare-with_destination o (some e) = refl

bare-with_source :
    (o : Observation) (x : Option (Endpoint × Bytes)) → bare (with_source o x) ≡ bare o
bare-with_source o none = refl
bare-with_source o (some e) = refl

module _ {W : Type 0} where
  bare-or_reversed :
      (r : DestinationResolver W) (o : Observation) (a : Answered W)
      → bare (or_reversed r o a).1 ≡ bare o
  unfolding or_reversed
  bare-or_reversed r o (w, some e) = refl
  bare-or_reversed r o (w, none) = bare-with_source o _

  bare-fresh_or :
      (after : Option (W → Bytes → Endpoint → Endpoint → ℕ → Answered W))
      (r : DestinationResolver W) (w : W) (o : Observation)
      → bare (fresh_or after r w o).1 ≡ bare o
  unfolding fresh_or both_ways
  bare-fresh_or none r w o = bare-or_reversed r o _
  bare-fresh_or (some after) r w o = bare-with_destination o _

  pub bare-resolve_observation :
      (r : Option (DestinationResolver W)) (w : W) (o : Observation)
      → bare (resolve_observation r w o).1 ≡ bare o
  unfolding resolve_observation both_ways
  bare-resolve_observation none w o = refl
  bare-resolve_observation (some r) w o =
      if_cases (λ (x : W × Observation). bare x.1 ≡ bare o) (is_egress o)
        (λ e. bare-fresh_or r.resolve_after r w o) (λ e. bare-or_reversed r o _)

  pub bare-attach_process :
      (l : Option (W → ℕ → W × Option Process)) (w : W) (pid : ℕ) (o : Observation)
      → bare (attach_process l w pid o).1 ≡ bare o
  unfolding attach_process
  bare-attach_process none w pid o =
      if_cases (λ (x : W × Observation). bare x.1 ≡ bare o) (pid == 0) (λ e. refl) (λ e. refl)
  bare-attach_process (some lookup) w pid o =
      if_cases (λ (x : W × Observation). bare x.1 ≡ bare o) (pid == 0) (λ e. refl) (λ e. refl)

module _ (p : Observation → Bool) where
  abbrev pub waiting : List PendingResolution → ℕ
  waiting ps = tally p (λ (q : PendingResolution). q.observation) ps

  abbrev pub told : List Report → ℕ
  told rs = tally p reported rs

  tally-records :
      (reason : Bytes) (ps : List PendingResolution)
      → told (map (λ q. resolution_record q reason) ps) ≡ waiting ps
  tally-records reason [] = refl
  tally-records reason (q ∷ ps) =
      omega (arith, ap (weight p) (reported-resolution_record q reason), tally-records reason ps)

  split_flow :
      (k : FlowKey) (ps : List PendingResolution)
      → told (superseded k ps) + waiting (still_waiting k ps) ≡ waiting ps
  unfolding superseded still_waiting
  split_flow k [] = omega arith
  split_flow k (q ∷ ps) =
      let record_of = λ (r : PendingResolution). resolution_record r (codes "tuple_reused") in
      let out = keep (on_flow k) ps in
      let rest = keep (λ r. not (on_flow k r)) ps in
      let same = ap (weight p) (reported-resolution_record q (codes "tuple_reused")) in
      elim (on_flow k q)
        as (λ b.
          told (map record_of (if b then q ∷ out else out))
            + waiting (if not b then q ∷ rest else rest)
          ≡ weight p q.observation + waiting ps) [
            | true ↦ omega (arith, same, split_flow k ps)
            | false ↦ omega (arith, split_flow k ps)
          ]

  told-enqueue :
      (item : PendingResolution) (ps : List PendingResolution)
      → told (enqueue item ps).0 + waiting (enqueue item ps).1
        ≡ weight p item.observation + waiting ps
  unfolding enqueue
  told-enqueue item ps =
      let observation_of = λ (q : PendingResolution). q.observation in
      if_cases
        (λ (r : List Report × List PendingResolution).
          told r.0 + waiting r.1 ≡ weight p item.observation + waiting ps)
        (not (has_value item.observation.destination_resolved)
          && ltb (length ps) max_pending_resolutions)
        (λ e. omega (arith, tally-append p observation_of ps (item ∷ [])))
        (λ e. omega (arith, ap (weight p) (reported-resolution_record item (codes "queue_full"))))

module _ {W : Type 0} (resolver : Option (DestinationResolver W))
    (processes : Option (W → ℕ → W × Option Process)) (clock : W → W × ℕ)
    (p : Observation → Bool) where
  -- What a step reports and what still waits, against what waited and what came.
  abbrev Balances : ℕ → W × List Report × List PendingResolution → Type 0
  Balances n r = told p r.1 + waiting p r.2 ≡ n

  bare-retry_item :
      (w : W) (q : PendingResolution)
      → bare (retry_item resolver processes clock w q).1.observation ≡ bare q.observation
  unfolding retry_item
  bare-retry_item w q =
      let (v, o) = resolve_observation resolver w q.observation in
      if_cases (λ (r : W × PendingResolution × Bool). bare r.1.observation ≡ bare q.observation)
        (has_value (resolve_observation resolver w q.observation).1.destination_resolved)
        (λ e. bare-resolve_observation resolver w q.observation)
        (λ e. bare-resolve_observation resolver w q.observation)

  retry-Balances :
      (w : W) (ps : List PendingResolution)
      → Balances (waiting p ps) (retry resolver processes clock w ps)
  unfolding retry
  retry-Balances w [] = omega arith
  retry-Balances w (q ∷ ps) =
      let same = ap {B = ℕ} (λ (o : Observation). if p o then 1 else 0) (bare-retry_item w q) in
      let item = (retry_item resolver processes clock w q).1 in
      let rest = retry-Balances (retry_item resolver processes clock w q).0 ps in
      if_cases (Balances (weight p q.observation + waiting p ps))
        (retry_item resolver processes clock w q).2
        (λ e. omega (
          arith,
          same,
          ap (weight p) (reported-resolution_record item (codes "retry_deadline")),
          rest,
        ))
        (λ e. omega (arith, same, rest))

  take_connect-Balances :
      (w : W) (o : Observation) (ps : List PendingResolution)
      → Balances (weight p o + waiting p ps) (take_connect resolver processes clock w o ps)
  unfolding take_connect
  take_connect-Balances w o ps =
      let item : PendingResolution = record {
        observation = o;
        deadline = (clock w).1 + resolution_grace;
        attempts = 1;
      } in
      omega (
        arith,
        split_flow p o.flow ps,
        told-enqueue p item (still_waiting o.flow ps),
        tally-append p reported (superseded o.flow ps) (enqueue item (still_waiting o.flow ps)).0,
      )

  take_event-Balances :
      (w : W) (is_connect : Bool) (pid : ℕ) (o : Observation) (ps : List PendingResolution)
      → Balances
          (weight p o + waiting p ps)
          (take_event resolver processes clock w is_connect pid o ps)
  unfolding take_event
  take_event-Balances w is_connect pid o ps =
      let v = resolve_observation resolver w o in
      let u = attach_process processes v.0 pid v.1 in
      let same =
        ap {B = ℕ} (λ (x : Observation). if p x then 1 else 0)
          (bare-attach_process processes v.0 pid v.1 ∙ bare-resolve_observation resolver w o) in
      if_cases (Balances (weight p o + waiting p ps))
        (has_value resolver && (is_connect && is_egress u.1))
        (λ e. omega (arith, same, take_connect-Balances u.0 u.1 ps)) (λ e. omega (arith, same))

  handle-Balances :
      (w : W) (e : LoopEvent) (ps : List PendingResolution)
      → Balances
          (tally p (λ (o : Observation). o) (received_by e) + waiting p ps)
          (handle resolver processes clock w e ps)
  unfolding handle
  handle-Balances w (received is_connect pid o) ps =
      omega (arith, take_event-Balances w is_connect pid o ps)
  handle-Balances w ticked ps = omega (arith, retry-Balances w ps)

  handle_all-Balances :
      (w : W) (es : List LoopEvent) (ps : List PendingResolution)
      → Balances
          (tally p (λ (o : Observation). o) (all_received es) + waiting p ps)
          (handle_all resolver processes clock w es ps)
  unfolding handle_all
  handle_all-Balances w [] ps = omega arith
  handle_all-Balances w (e ∷ es) ps =
      let one = handle resolver processes clock w e ps in
      let rest = handle_all resolver processes clock one.0 es one.2 in
      omega (
        arith,
        handle-Balances w e ps,
        handle_all-Balances one.0 es one.2,
        tally-append p reported one.1 rest.1,
        tally-append p (λ (o : Observation). o) (received_by e) (all_received es),
      )

  -- Of the observations that were received, whichever one counts: what is reported, together with what the
  -- end of the capture reports of those that still wait, is each of them once, but for the translation
  -- and the process that the loop adds.
  pub handle_all_once :
      (w : W) (es : List LoopEvent)
      → let r = handle_all resolver processes clock w es [] in
        tally p reported (r.1 ++ capture_ended r.2)
        ≡ tally p (λ (o : Observation). o) (all_received es)
  unfolding capture_ended
  handle_all_once w es =
      let r = handle_all resolver processes clock w es [] in
      omega (
        arith,
        handle_all-Balances w es [],
        tally-append p reported r.1 (map (λ q. resolution_record q (codes "capture_ended")) r.2),
        tally-records p (codes "capture_ended") r.2,
      )
