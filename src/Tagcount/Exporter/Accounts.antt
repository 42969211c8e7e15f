-- ===== src/Tagcount/Exporter/Accounts.antt =====
-- What the exporter counts, whatever the order of its callers, its worker and its closing.
use agentkubenetwork.Base.{
  ℕ, ◌+◌, ◌≤◌, ◌<◌, ◌≡◌, refl, subst, ltb, true, if_cases, List, [], ◌∷◌, ◌++◌, length,
  length-append, Option, none, some, Bytes, bytes_discrete, test, Result, ok, err, u64, arith,
}
use agentkubenetwork.Tagcount.Exporter.{
  PackError, partial_window, no_samples, incomplete_tuple, other, ExportError, closed,
  node_mismatch, failed_before, Exporter, new_exporter, snapshot, checked, tagged, enqueue_locked,
  take_pack, export, take_built, export_event, Step, exports, exports_event, receives, fails,
  closes, sends, ends, times_out, silent, step,
}
use agentkubenetwork.Tagcount.Exporter.Rounds.{
  in_hand, accepted, Accounts, Keeps, close_sender-Accounts, later, receive-Keeps, settle-Keeps,
  give_up-Keeps, stop-Keeps,
}

module _ {P E : Type 0} (record_id : P → Bytes) (with_record_id : Bytes → P → P) where
  enqueue_locked-Accounts :
      (n k : ℕ) (e : Exporter P E) (p : P)
      → n + 1 < u64
      → Accounts n k e
      → Accounts (n + 1) (k + 1) (enqueue_locked record_id with_record_id e p)
  unfolding enqueue_locked
  enqueue_locked-Accounts n k e p small v =
      let longer = length-append e.queue (tagged record_id with_record_id e p ∷ []) in
      if_cases (λ (r : Exporter P E). Accounts (n + 1) (k + 1) r)
        (ltb (length e.queue) e.queue_capacity)
        (λ z. record {
          queued = omega (arith, longer, v.queued, v.counted, v.few);
          counted = omega (arith, v.counted, v.few);
          few = omega (arith, v.few);
          room = ground (arith, longer);
        })
        (λ z. record {
          queued = v.queued;
          counted = omega (arith, v.counted, v.few);
          few = omega (arith, v.few);
          room = v.room;
        })

  Returned : ℕ → ℕ → Exporter P E × Option (ExportError E) → Type 0
  Returned n k r = Accounts (n + 1) (k + accepted (r.1 ∷ [])) r.0

  refused :
      (n k : ℕ) (e : Exporter P E) (x : ExportError E) → Accounts n k e → Returned n k (e, some x)
  unfolding Returned
  refused n k e x v = later n k e v

  take_pack-Returned :
      (n k : ℕ) (e : Exporter P E) (built : Result PackError P)
      → n + 1 < u64
      → Accounts n k e
      → Returned n k (take_pack record_id with_record_id e built)
  unfolding take_pack Returned
  take_pack-Returned n k e (ok p) small v = enqueue_locked-Accounts n k e p small v
  take_pack-Returned n k e (err partial_window) small v = record {
    queued = v.queued;
    counted = omega (arith, v.counted, v.few);
    few = omega (arith, v.few);
    room = v.room;
  }
  take_pack-Returned n k e (err no_samples) small v = record {
    queued = v.queued;
    counted = omega (arith, v.counted, v.few);
    few = omega (arith, v.few);
    room = v.room;
  }
  take_pack-Returned n k e (err incomplete_tuple) small v = record {
    queued = v.queued;
    counted = omega (arith, v.counted, v.few);
    few = omega (arith, v.few);
    room = v.room;
  }
  take_pack-Returned n k e (err other) small v = later n k e v

  take_built-Returned :
      (n k : ℕ) (e : Exporter P E) (built : Result PackError P)
      → n + 1 < u64
      → Accounts n k e
      → Returned n k (take_built record_id with_record_id e built)
  unfolding Returned
  take_built-Returned n k e (ok p) small v = enqueue_locked-Accounts n k e p small v
  take_built-Returned n k e (err x) small v = later n k e v

  checked-Returned :
      (n k : ℕ) (e : Exporter P E) (node : Bytes) (next : Exporter P E × Option (ExportError E))
      → Accounts n k e
      → Returned n k next
      → Returned n k (checked e node next)
  unfolding checked
  checked-Returned n k e node next v w =
      if_cases (Returned n k) e.closing (λ z. refused n k e closed v)
        (λ z.
          if_cases (Returned n k) (ltb 0 (length e.errors))
            (λ y. refused n k e (failed_before e.errors) v)
            (λ y.
              if_cases (Returned n k) (test (bytes_discrete node e.node_name)) (λ x. w)
                (λ x. refused n k e node_mismatch v)))

  step-Keeps :
      (n k : ℕ) (e : Exporter P E) (s : Step P E)
      → n + 1 < u64
      → Accounts n k e
      → Keeps (n + 1) k (step record_id with_record_id e s)
  unfolding step export export_event Returned
  step-Keeps n k e (exports node built) small v =
      checked-Returned n k e node _ v (take_pack-Returned n k e built small v)
  step-Keeps n k e (exports_event node built) small v =
      checked-Returned n k e node _ v (take_built-Returned n k e built small v)
  step-Keeps n k e receives small v = receive-Keeps n k e e.worker e.queue refl refl v
  step-Keeps n k e (sends x) small v = settle-Keeps n k e e.worker x refl small v
  step-Keeps n k e fails small v = give_up-Keeps n k e e.worker refl v
  step-Keeps n k e (ends x) small v = stop-Keeps n k e e.worker x refl v
  step-Keeps n k e closes small v = record {
    queued = v.queued;
    counted = omega (arith, v.counted);
    few = omega (arith, v.few);
    room = v.room;
  }
  step-Keeps n k e (times_out x) small v =
      if_cases (λ (r : Option (Exporter P E)). Keeps (n + 1) k (silent r)) e.closing
        (λ z.
          close_sender-Accounts (n + 1) (k + 0) (record e { cancelled = true }) x
            (record {
              queued = v.queued;
              counted = omega (arith, v.counted);
              few = omega (arith, v.few);
              room = v.room;
            }))
        (λ z. tt)

  -- Steps in any order, and what the calls among them return.
  pub data Runs : Exporter P E → List (Option (ExportError E)) → ℕ → Exporter P E → Type 0 where
    here : {e : Exporter P E} → Runs e [] 0 e
    steps :
        {e f g : Exporter P E} {rs ss : List (Option (ExportError E))} {n : ℕ} (s : Step P E)
        → step record_id with_record_id e s ≡ some (f, rs)
        → Runs f ss n g
        → Runs e (rs ++ ss) (n + 1) g

  accepted-append :
      (rs ss : List (Option (ExportError E))) → accepted (rs ++ ss) ≡ accepted rs + accepted ss
  accepted-append [] ss = omega arith
  accepted-append (none ∷ rs) ss = omega (arith, accepted-append rs ss)
  accepted-append (some x ∷ rs) ss = accepted-append rs ss

  moved : (m n j k : ℕ) (e : Exporter P E) → m ≡ n → j ≡ k → Accounts m j e → Accounts n k e
  moved m n j k e g h v = record {
    queued = v.queued;
    counted = omega (arith, v.counted, h);
    few = omega (arith, v.few, g, h);
    room = v.room;
  }

  runs-Accounts :
      {e g : Exporter P E} {rs : List (Option (ExportError E))} {m : ℕ} (n k : ℕ)
      → Runs e rs m g
      → n + m < u64
      → Accounts n k e
      → Accounts (n + m) (k + accepted rs) g
  runs-Accounts n k here small v = moved n (n + 0) k (k + 0) _ (omega arith) (omega arith) v
  runs-Accounts n k (steps {rs = rs} {ss = ss} {n = m} s g r) small v =
      let w = subst (Keeps (n + 1) k) g (step-Keeps n k _ s (omega arith) v) in
      moved (n + 1 + m) (n + (m + 1)) (k + accepted rs + accepted ss) (k + accepted (rs ++ ss)) _
        (omega arith) (omega (arith, accepted-append rs ss))
        (runs-Accounts (n + 1) (k + accepted rs) r (omega arith) w)

  -- Whatever callers, worker and closing do, in fewer than 2^64 steps: the calls that returned nil are as
  -- many as the packs that were queued, those that were dropped and the windows that were skipped; the
  -- queue is within its capacity; and the snapshot's pending packs are those in the queue and the one that
  -- the worker has taken but not sent to an end.
  pub runs_account :
      (node : Bytes) (capacity : ℕ) {e : Exporter P E} {rs : List (Option (ExportError E))} {n : ℕ}
      → Runs (new_exporter node capacity) rs n e
      → n < u64
      → (accepted rs
          ≡ e.summary.queued + e.summary.dropped + e.summary.skipped_partial
            + e.summary.skipped_unmeasured + e.summary.skipped_incomplete_tuple)
        × (length e.queue ≤ e.queue_capacity)
        × ((snapshot e).1 ≡ length e.queue + in_hand e.worker)
  unfolding snapshot new_exporter
  runs_account node capacity r small =
      let v = runs-Accounts 0 0 r (omega arith) (record {
        queued = omega arith;
        counted = omega arith;
        few = omega arith;
        room = omega arith;
      }) in
      (omega (arith, v.counted), v.room, omega (arith, v.queued, v.counted, v.few))
