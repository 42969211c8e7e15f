-- ===== src/Tagcount/Exporter.antt =====
-- internal/tagcount/exporter.go and export_events.go: the exporter. A section under its mutex is one step
-- of `step`, which says what its callers, its worker and its closing may do in any order. The packs of
-- golib are a parameter, with their record_id, and so are what building one gives and what Send and
-- Close of the sender return. Errors that are joined are a list, which is empty for nil.
pub mod Rounds
pub mod Accounts
use agentkubenetwork.Base.{
  ℕ, zero, suc, ◌+◌, ◌-◌, ◌*◌, ◌/◌, ◌%◌, ltb, Bool, true, false, if◌then◌else◌, List, [], ◌∷◌, ◌++◌,
  length, Option, none, some, Bytes, bytes_discrete, test, Result, ok, err, add64, u64,
}

-- The errors of PackForWindow and its like.
pub data PackError : Type 0 where
  partial_window no_samples incomplete_tuple other : PackError

pub data ExportError (E : Type 0) : Type 0 where
  closed node_mismatch : ExportError E
  pack_failed : PackError → ExportError E
  failed_before : List E → ExportError E

pub record Summary : Type 0 where
  pub queued : ℕ
  pub written : ℕ
  pub failed : ℕ
  pub dropped : ℕ
  pub skipped_partial : ℕ
  pub skipped_unmeasured : ℕ
  pub skipped_incomplete_tuple : ℕ

-- Where `run` stands: at the queue, in Send, between a failed Send and `fail`, past its loop, or at its
-- end; behind the loop with a pack that it took and did not send, if there is one.
pub data Worker (P E : Type 0) : Type 0 where
  idle : Worker P E
  sending : P → Worker P E
  failing : E → Worker P E
  ending stopped : Option P → Worker P E

pub record Exporter (P E : Type 0) : Type 0 where
  pub node_name : Bytes
  pub queue_capacity : ℕ
  pub queue : List P
  pub worker : Worker P E
  pub cancelled : Bool
  pub closing : Bool
  pub errors : List E
  pub summary : Summary
  pub sender_closed : Bool

-- `strconv.FormatUint(n, 10)` for a number of 64 bits.
abbrev pub decimal_from : ℕ → ℕ → Bytes
decimal_from zero n = []
decimal_from (suc fuel) n =
    let rest = decimal_from fuel (n / 10) in
    if ltb n 10 then (48 + n) ∷ [] else rest ++ ((48 + n % 10) ∷ [])

abbrev pub decimal : ℕ → Bytes
decimal n = decimal_from 20 n

abbrev pub no_summary : Summary
no_summary = record {
  queued = 0;
  written = 0;
  failed = 0;
  dropped = 0;
  skipped_partial = 0;
  skipped_unmeasured = 0;
  skipped_incomplete_tuple = 0;
}

module _ {P E : Type 0} where
  -- Past the checks of NewExporter.
  unfoldable pub new_exporter : Bytes → ℕ → Exporter P E
  new_exporter node_name queue_capacity = record {
    node_name = node_name;
    queue_capacity = queue_capacity;
    queue = [];
    worker = idle;
    cancelled = false;
    closing = false;
    errors = [];
    summary = no_summary;
    sender_closed = false;
  }

  -- The result of `Snapshot`, its Pending beside the rest.
  unfoldable pub snapshot : Exporter P E → Summary × ℕ
  snapshot e =
      (e.summary, (e.summary.queued + 2 * u64 - e.summary.written - e.summary.failed) % u64)

  unfoldable pub fail : Exporter P E → E → Exporter P E
  fail e x = record e { errors = e.errors ++ (x ∷ []) }

  -- The error of the sender's Close, if it is called and has one.
  unfoldable pub close_sender : Exporter P E → Option E → Exporter P E
  close_sender e none = record e { sender_closed = true }
  close_sender e (some x) =
      if e.sender_closed then e else fail (record e { sender_closed = true }) x

  -- A check that export and exportEvent share, and what comes behind it.
  unfoldable pub checked :
      Exporter P E
      → Bytes
      → Exporter P E × Option (ExportError E)
      → Exporter P E × Option (ExportError E)
  checked e node next =
      if e.closing
      then (e, some closed)
      else if ltb 0 (length e.errors)
      then (e, some (failed_before e.errors))
      else if test (bytes_discrete node e.node_name)
      then next
      else (e, some node_mismatch)

-- A pack's tag record_id, and the pack with another.
module _ {P E : Type 0} (record_id : P → Bytes) (with_record_id : Bytes → P → P) where
  unfoldable pub tagged : Exporter P E → P → P
  tagged e p =
      if ltb 0 (length (record_id p))
      then with_record_id
          (record_id p ++ (46 ∷ decimal (add64 (add64 e.summary.queued e.summary.dropped) 1))) p
      else p

  unfoldable pub enqueue_locked : Exporter P E → P → Exporter P E
  enqueue_locked e p =
      if ltb (length e.queue) e.queue_capacity
      then record e {
        queue = e.queue ++ (tagged e p ∷ []);
        summary = record e.summary { queued = add64 e.summary.queued 1 };
      }
      else record e { summary = record e.summary { dropped = add64 e.summary.dropped 1 } }

  unfoldable pub take_pack :
      Exporter P E → Result PackError P → Exporter P E × Option (ExportError E)
  take_pack e (ok p) = (enqueue_locked e p, none)
  take_pack e (err partial_window) = (
    record e { summary = record e.summary { skipped_partial = add64 e.summary.skipped_partial 1 } },
    none,
  )
  take_pack e (err no_samples) = (
    record e {
      summary = record e.summary { skipped_unmeasured = add64 e.summary.skipped_unmeasured 1 };
    },
    none,
  )
  take_pack e (err incomplete_tuple) = (
    record e {
      summary = record e.summary {
        skipped_incomplete_tuple = add64 e.summary.skipped_incomplete_tuple 1;
      };
    },
    none,
  )
  take_pack e (err other) = (e, some (pack_failed other))

  unfoldable pub export :
      Exporter P E → Bytes → Result PackError P → Exporter P E × Option (ExportError E)
  export e node built = checked e node (take_pack e built)

  abbrev pub take_built : Exporter P E → Result PackError P → Exporter P E × Option (ExportError E)
  take_built e (ok p) = (enqueue_locked e p, none)
  take_built e (err x) = (e, some (pack_failed x))

  unfoldable pub export_event :
      Exporter P E → Bytes → Result PackError P → Exporter P E × Option (ExportError E)
  export_event e node built = checked e node (take_built e built)

-- What callers, the worker and Close do: the outcome of Send and of the sender's Close is given.
pub data Step (P E : Type 0) : Type 0 where
  exports exports_event : Bytes → Result PackError P → Step P E
  receives fails closes : Step P E
  sends ends times_out : Option E → Step P E

module _ {P E : Type 0} where
  abbrev counted_send : Exporter P E → Option E → Exporter P E
  counted_send e none = record e {
    worker = idle;
    summary = record e.summary { written = add64 e.summary.written 1 };
  }
  counted_send e (some x) = record e {
    worker = failing x;
    summary = record e.summary { failed = add64 e.summary.failed 1 };
  }

  -- One round of `range e.queue` up to Send. None where it waits.
  unfoldable pub receive : Exporter P E → Worker P E → List P → Option (Exporter P E)
  receive e idle (p ∷ rest) =
      some (record e { queue = rest; worker = if e.cancelled then ending (some p) else sending p })
  receive e idle [] = if e.closing then some (record e { worker = ending none }) else none
  receive e _ queue = none

  unfoldable pub settle : Exporter P E → Worker P E → Option E → Option (Exporter P E)
  settle e (sending p) x = some (counted_send e x)
  settle e _ x = none

  unfoldable pub give_up : Exporter P E → Worker P E → Option (Exporter P E)
  give_up e (failing x) = some (fail (record e { worker = ending none }) x)
  give_up e _ = none

  unfoldable pub stop : Exporter P E → Worker P E → Option E → Option (Exporter P E)
  stop e (ending p) x = some (close_sender (record e { worker = stopped p }) x)
  stop e _ x = none

  abbrev pub silent : Option (Exporter P E) → Option (Exporter P E × List (Option (ExportError E)))
  silent none = none
  silent (some e) = some (e, [])

  abbrev pub returning :
      Exporter P E × Option (ExportError E) → Option (Exporter P E × List (Option (ExportError E)))
  returning (e, x) = some (e, x ∷ [])

-- A step, none where it cannot be taken, with what it returns if it is a call.
module _ {P E : Type 0} (record_id : P → Bytes) (with_record_id : Bytes → P → P) where
  unfoldable pub step :
      Exporter P E → Step P E → Option (Exporter P E × List (Option (ExportError E)))
  step e (exports node built) = returning (export record_id with_record_id e node built)
  step e (exports_event node built) = returning (export_event record_id with_record_id e node built)
  step e receives = silent (receive e e.worker e.queue)
  step e (sends x) = silent (settle e e.worker x)
  step e fails = silent (give_up e e.worker)
  step e (ends x) = silent (stop e e.worker x)
  step e closes = silent (some (record e { closing = true }))
  step e (times_out x) =
      silent (if e.closing then some (close_sender (record e { cancelled = true }) x) else none)
