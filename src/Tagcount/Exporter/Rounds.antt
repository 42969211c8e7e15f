-- ===== src/Tagcount/Exporter/Rounds.antt =====
-- What the exporter counts, and the steps of its worker.
use agentkubenetwork.Base.{
  ℕ, ◌+◌, ◌≤◌, ◌<◌, ◌≡◌, ap, if_cases, List, [], ◌∷◌, length, Option, none, some, u64, arith,
}
use agentkubenetwork.Tagcount.Exporter.{
  ExportError, Worker, idle, sending, failing, ending, stopped, Exporter, fail, close_sender,
  receive, settle, give_up, stop, silent,
}

-- The pack that the worker has taken and that is in no count.
abbrev pub in_hand : {P E : Type 0} → Worker P E → ℕ
in_hand idle = 0
in_hand (sending p) = 1
in_hand (failing x) = 0
in_hand (ending none) = 0
in_hand (ending (some p)) = 1
in_hand (stopped none) = 0
in_hand (stopped (some p)) = 1

-- How many calls returned nil.
abbrev pub accepted : {E : Type 0} → List (Option (ExportError E)) → ℕ
accepted [] = 0
accepted (none ∷ rs) = accepted rs + 1
accepted (some x ∷ rs) = accepted rs

pub record Accounts {P E : Type 0} (steps calls : ℕ) (e : Exporter P E) : Type 0 where
  pub queued :
      e.summary.queued ≡ e.summary.written + e.summary.failed + length e.queue + in_hand e.worker
  pub counted :
      calls
      ≡ e.summary.queued + e.summary.dropped + e.summary.skipped_partial
        + e.summary.skipped_unmeasured + e.summary.skipped_incomplete_tuple
  pub few : calls ≤ steps
  pub room : length e.queue ≤ e.queue_capacity

-- What a step returns, if it can be taken, keeps the accounts.
abbrev pub Keeps :
    {P E : Type 0} → ℕ → ℕ → Option (Exporter P E × List (Option (ExportError E))) → Type 0
Keeps n k none = Unit
Keeps n k (some (e, rs)) = Accounts n (k + accepted rs) e

module _ {P E : Type 0} where
  pub close_sender-Accounts :
      (n k : ℕ) (e : Exporter P E) (x : Option E) → Accounts n k e → Accounts n k (close_sender e x)
  unfolding close_sender fail
  close_sender-Accounts n k e none v = record {
    queued = v.queued;
    counted = v.counted;
    few = v.few;
    room = v.room;
  }
  close_sender-Accounts n k e (some x) v =
      if_cases (λ (r : Exporter P E). Accounts n k r) e.sender_closed (λ g. v)
        (λ g. record { queued = v.queued; counted = v.counted; few = v.few; room = v.room })

  pub later : (n k : ℕ) (e : Exporter P E) → Accounts n k e → Accounts (n + 1) (k + 0) e
  later n k e v = record {
    queued = v.queued;
    counted = omega (arith, v.counted);
    few = omega (arith, v.few);
    room = v.room;
  }

  pub receive-Keeps :
      (n k : ℕ) (e : Exporter P E) (w : Worker P E) (queue : List P)
      → e.worker ≡ w
      → e.queue ≡ queue
      → Accounts n k e
      → Keeps (n + 1) k (silent (receive e w queue))
  unfolding receive
  receive-Keeps n k e idle (p ∷ rest) g h v =
      if_cases
        (λ (w : Worker P E). Accounts (n + 1) (k + 0) (record e { queue = rest; worker = w }))
        e.cancelled
        (λ z. record {
          queued = omega (arith, v.queued, ap in_hand g, ap length h);
          counted = omega (arith, v.counted);
          few = omega (arith, v.few);
          room = omega (arith, v.room, ap length h);
        })
        (λ z. record {
          queued = omega (arith, v.queued, ap in_hand g, ap length h);
          counted = omega (arith, v.counted);
          few = omega (arith, v.few);
          room = omega (arith, v.room, ap length h);
        })
  receive-Keeps n k e idle [] g h v =
      if_cases (λ (r : Option (Exporter P E)). Keeps (n + 1) k (silent r)) e.closing
        (λ z. record {
          queued = omega (arith, v.queued, ap in_hand g);
          counted = omega (arith, v.counted);
          few = omega (arith, v.few);
          room = v.room;
        })
        (λ z. tt)
  receive-Keeps n k e (sending p) queue g h v = tt
  receive-Keeps n k e (failing x) queue g h v = tt
  receive-Keeps n k e (ending p) queue g h v = tt
  receive-Keeps n k e (stopped p) queue g h v = tt

  pub settle-Keeps :
      (n k : ℕ) (e : Exporter P E) (w : Worker P E) (x : Option E)
      → e.worker ≡ w
      → n + 1 < u64
      → Accounts n k e
      → Keeps (n + 1) k (silent (settle e w x))
  unfolding settle
  settle-Keeps n k e (sending p) none g small v = record {
    queued = omega (arith, v.queued, ap in_hand g, v.counted, v.few);
    counted = omega (arith, v.queued, ap in_hand g, v.counted, v.few);
    few = omega (arith, v.few);
    room = v.room;
  }
  settle-Keeps n k e (sending p) (some x) g small v = record {
    queued = omega (arith, v.queued, ap in_hand g, v.counted, v.few);
    counted = omega (arith, v.queued, ap in_hand g, v.counted, v.few);
    few = omega (arith, v.few);
    room = v.room;
  }
  settle-Keeps n k e idle x g small v = tt
  settle-Keeps n k e (failing y) x g small v = tt
  settle-Keeps n k e (ending p) x g small v = tt
  settle-Keeps n k e (stopped p) x g small v = tt

  pub give_up-Keeps :
      (n k : ℕ) (e : Exporter P E) (w : Worker P E)
      → e.worker ≡ w
      → Accounts n k e
      → Keeps (n + 1) k (silent (give_up e w))
  unfolding give_up fail
  give_up-Keeps n k e (failing x) g v = record {
    queued = omega (arith, v.queued, ap in_hand g);
    counted = omega (arith, v.counted);
    few = omega (arith, v.few);
    room = v.room;
  }
  give_up-Keeps n k e (sending p) g v = tt
  give_up-Keeps n k e idle g v = tt
  give_up-Keeps n k e (ending p) g v = tt
  give_up-Keeps n k e (stopped p) g v = tt

  pub stop-Keeps :
      (n k : ℕ) (e : Exporter P E) (w : Worker P E) (x : Option E)
      → e.worker ≡ w
      → Accounts n k e
      → Keeps (n + 1) k (silent (stop e w x))
  unfolding stop
  stop-Keeps n k e (ending none) x g v =
      close_sender-Accounts (n + 1) (k + 0) (record e { worker = stopped none }) x
        (record {
          queued = omega (arith, v.queued, ap in_hand g);
          counted = omega (arith, v.counted);
          few = omega (arith, v.few);
          room = v.room;
        })
  stop-Keeps n k e (ending (some p)) x g v =
      close_sender-Accounts (n + 1) (k + 0) (record e { worker = stopped (some p) }) x
        (record {
          queued = omega (arith, v.queued, ap in_hand g);
          counted = omega (arith, v.counted);
          few = omega (arith, v.few);
          room = v.room;
        })
  stop-Keeps n k e (failing y) x g v = tt
  stop-Keeps n k e (sending p) x g v = tt
  stop-Keeps n k e idle x g v = tt
  stop-Keeps n k e (stopped p) x g v = tt
