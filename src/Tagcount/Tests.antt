-- ===== src/Tagcount/Tests.antt =====
-- A concrete run of internal/tagcount, and its theorem at that run.
use agentkubenetwork.Base.{
  ℕ, false, ◌+◌, ◌≤◌, ◌≡◌, refl, [], ◌∷◌, length, none, some, Bytes, bytes_discrete, ℕ_discrete, ok,
  err, arith,
}
use agentkubenetwork.Base.Text.{codes}
use agentkubenetwork.Tagcount.Exporter.{
  partial_window, Exporter, new_exporter, snapshot, checked, tagged, enqueue_locked, take_pack,
  export, export_event, exports, exports_event, receives, sends, fails, receive, settle, give_up,
  fail, step, ending,
}
use agentkubenetwork.Tagcount.Exporter.Rounds.{accepted, in_hand}
use agentkubenetwork.Tagcount.Exporter.Accounts.{Runs, here, steps, runs_account}

abbrev record_id : Bytes → Bytes
record_id p = codes "id"

abbrev with_record_id : Bytes → Bytes → Bytes
with_record_id id p = id

-- A queue of one pack: a pack is queued, one is dropped, a window is skipped, and the worker sends in
-- vain.
abbrev reached : Exporter Bytes ℕ
reached = record {
  node_name = codes "n";
  queue_capacity = 1;
  queue = [];
  worker = ending none;
  cancelled = false;
  closing = false;
  errors = 5 ∷ [];
  summary = record {
    queued = 1;
    written = 0;
    failed = 1;
    dropped = 1;
    skipped_partial = 1;
    skipped_unmeasured = 0;
    skipped_incomplete_tuple = 0;
  };
  sender_closed = false;
}

reached_runs :
    Runs record_id with_record_id (new_exporter (codes "n") 1) (none ∷ none ∷ none ∷ []) 6 reached
unfolding new_exporter export export_event checked take_pack enqueue_locked tagged receive settle
    give_up fail step bytes_discrete ℕ_discrete
reached_runs = steps (exports (codes "n") (ok [])) refl (
    steps (exports_event (codes "n") (ok [])) refl (
      steps (exports (codes "n") (err partial_window)) refl
        (steps receives refl (steps (sends (some 5)) refl (steps fails refl here)))))

record_id_test :
    tagged record_id with_record_id (new_exporter {P = Bytes} {E = ℕ} (codes "n") 1) []
    ≡ codes "id.1"
unfolding tagged new_exporter
record_id_test = refl

runs_account_example :
    (accepted {E = ℕ} (none ∷ none ∷ none ∷ [])
      ≡ reached.summary.queued + reached.summary.dropped + reached.summary.skipped_partial
        + reached.summary.skipped_unmeasured + reached.summary.skipped_incomplete_tuple)
    × (length reached.queue ≤ reached.queue_capacity)
    × ((snapshot reached).1 ≡ length reached.queue + in_hand reached.worker)
runs_account_example =
    runs_account record_id with_record_id (codes "n") 1 reached_runs (omega arith)
