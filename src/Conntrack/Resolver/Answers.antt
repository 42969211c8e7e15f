-- ===== src/Conntrack/Resolver/Answers.antt =====
-- The promises of `ResolveAfter` to its callers: every answer is proved by a recent dump, a failed
-- refresh ends all answers for its back-off, and dumps keep a distance.
use Prim.Native.Nat.{min}
use agentkubenetwork.Base.{
  ℕ, ◌+◌, ◌*◌, ◌≤◌, ◌<◌, ◌≡◌, ◌≢◌, refl, sym, ap, ◌∙◌, List, [], Option, none, some, arith, Bytes,
  inl, inr, ◌⊎◌,
}
use agentkubenetwork.Base.Text.{codes}
use agentkubenetwork.Base.Map.{get}
use agentkubenetwork.Flow.Types.{Endpoint}
use agentkubenetwork.Conntrack.Types.{Entry, LookupKey, LookupKey-discrete}
use agentkubenetwork.Conntrack.Table.{build_table}
use agentkubenetwork.Conntrack.Table.Spec.{replies, proven_destination, get-build_table}
use agentkubenetwork.Conntrack.Resolver.{
  Resolver, Readings, load, refresh, may_refresh, refresh_on_miss, lookup_key, protocol_number,
  retry, resolve_key, resolve_number, resolve_after, with_via,
}
use agentkubenetwork.Conntrack.Resolver.Freshness.{
  Inv, Provenance, resolve_key_from, resolve_key_answer,
}

-- The dump behind an answer, and when it was loaded: the one behind the table before the call, or one of
-- the two that the call reads, at the clock's reading before it.
abbrev pub LoadedFrom : Resolver → Readings → List Entry → Resolver → List Entry → Type 0
LoadedFrom r x old t es =
    (t.table ≡ build_table es)
    × (((es ≡ old) × (t.dumped_at ≡ r.dumped_at))
        ⊎ ((x.dump ≡ some es) × (t.dumped_at ≡ x.now))
        ⊎ ((x.miss_dump ≡ some es) × (t.dumped_at ≡ x.miss_now)))

-- A table that has an entry was not left by a failed dump.
backing :
    (r t : Resolver) (x : Readings) (old : List Entry) (k : LookupKey) (e : Endpoint)
    → r.table ≡ build_table old
    → get LookupKey-discrete k t.table ≡ some e
    → Provenance r x t
    → (es : List Entry) × LoadedFrom r x old t es
unfolding get
backing r t x old k e b h (inl (same, at)) = (old, (same ∙ b, inl (refl, at)))
backing r t x old k e b h (inr (inl (same, at))) = absurd (ground (arith, h, same))
backing r t x old k e b h (inr (inr (inl (es, read, same, at)))) =
    (es, (same, inr (inl (read, at))))
backing r t x old k e b h (inr (inr (inr (es, read, same, at)))) =
    (es, (same, inr (inr (read, at))))

via_answer :
    (found : Option Endpoint) (e : Endpoint) (via : Bytes)
    → with_via found ≡ some (e, via)
    → (found ≡ some e) × (via ≡ codes "conntrack")
via_answer none e via h = absurd (cc)
via_answer (some f) e via h = (ground arith, ground arith)

resolve_number_proven :
    (r : Resolver) (n : Option ℕ) (source destination : Endpoint) (observed_at : ℕ) (x : Readings)
    (old : List Entry) (e : Endpoint) (via : Bytes)
    → r.table ≡ build_table old
    → (resolve_number r n source destination observed_at x).1 ≡ some (e, via)
    → (number : ℕ) × (es : List Entry) × (n ≡ some number)
      × (proven_destination destination (replies (lookup_key number source destination) es)
          ≡ some e)
      × LoadedFrom r x old (resolve_number r n source destination observed_at x).0 es
      × (observed_at ≤ (resolve_number r n source destination observed_at x).0.dumped_at)
      × (via ≡ codes "conntrack")
unfolding resolve_number
resolve_number_proven r none source destination observed_at x old e via b h = absurd (cc)
resolve_number_proven r (some number) source destination observed_at x old e via b h =
    let k = lookup_key number source destination in
    let found = via_answer (resolve_key r k observed_at x).1 e via h in
    let p = resolve_key_answer r k observed_at x e found.0 in
    let q =
      backing r (resolve_key r k observed_at x).0 x old k e b p.0
        (resolve_key_from r k observed_at x) in
    (
      number,
      q.0,
      refl,
      sym (get-build_table k q.0) ∙ ap (get LookupKey-discrete k) (sym q.1.0) ∙ p.0,
      q.1,
      p.1,
      found.1,
    )

-- Suppose the table was built from some dump. If `ResolveAfter` answers, then the protocol is known,
-- and the dump behind the table that it leaves proves the answer: all entries of this dump with the
-- original tuple agree on a reply tuple that shows the destination rewritten to it. The dump is the
-- earlier one, at the instant at which that was loaded, or one that this call read, at its clock's
-- reading; and this instant is no earlier than the observation.
pub resolve_after_proven :
    (r : Resolver) (protocol : Bytes) (source destination : Endpoint) (observed_at : ℕ)
    (x : Readings) (old : List Entry) (e : Endpoint) (via : Bytes)
    → r.table ≡ build_table old
    → (resolve_after r protocol source destination observed_at x).1 ≡ some (e, via)
    → (number : ℕ) × (es : List Entry) × (protocol_number protocol ≡ some number)
      × (proven_destination destination (replies (lookup_key number source destination) es)
          ≡ some e)
      × LoadedFrom r x old (resolve_after r protocol source destination observed_at x).0 es
      × (observed_at ≤ (resolve_after r protocol source destination observed_at x).0.dumped_at)
      × (via ≡ codes "conntrack")
unfolding resolve_after
resolve_after_proven r protocol source destination observed_at x old e via b h =
    resolve_number_proven r (protocol_number protocol) source destination observed_at x old e via b
      h

retry_unloaded :
    (s : Resolver) (k : LookupKey) (at : ℕ) (x : Readings)
    → s.table ≡ []
    → s.dumped_at ≡ 0
    → retry s k at x ≡ (s, none)
unfolding retry refresh_on_miss may_refresh get
retry_unloaded s k at x e d = ground arith

-- While nothing is loaded and the next refresh is not due, no call answers or changes anything.
resolve_key_quiet :
    (s : Resolver) (k : LookupKey) (at : ℕ) (x : Readings)
    → s.table ≡ []
    → s.dumped_at ≡ 0
    → x.now < s.refresh_at
    → resolve_key s k at x ≡ (s, none)
unfolding resolve_key refresh get
resolve_key_quiet s k at x e d wait = ground (arith, retry_unloaded s k at x e d)

refresh_failed :
    (r : Resolver) (now : ℕ)
    → r.refresh_at ≤ now
    → refresh r now none ≡ record r { table = []; dumped_at = 0; refresh_at = now + r.ttl * 10 }
unfolding refresh load
refresh_failed r now due = ground arith

resolve_key_failed :
    (r : Resolver) (k : LookupKey) (at : ℕ) (x : Readings)
    → r.refresh_at ≤ x.now
    → x.dump ≡ none
    → resolve_key r k at x
      ≡ (record r { table = []; dumped_at = 0; refresh_at = x.now + r.ttl * 10 }, none)
unfolding resolve_key get
resolve_key_failed r k at x due failed =
    let s = record r { table = []; dumped_at = 0; refresh_at = x.now + r.ttl * 10 } in
    rw (failed, refresh_failed r x.now due) (ground (arith, retry_unloaded s k at x refl refl))

resolve_number_quiet :
    (s : Resolver) (n : Option ℕ) (source destination : Endpoint) (at : ℕ) (x : Readings)
    → s.table ≡ []
    → s.dumped_at ≡ 0
    → x.now < s.refresh_at
    → resolve_number s n source destination at x ≡ (s, none)
unfolding resolve_number
resolve_number_quiet s none source destination at x e d wait = refl
resolve_number_quiet s (some number) source destination at x e d wait =
    rw (resolve_key_quiet s (lookup_key number source destination) at x e d wait)

resolve_number_failed :
    (r : Resolver) (n : Option ℕ) (source destination : Endpoint) (at : ℕ) (x : Readings)
    → n ≢ none
    → r.refresh_at ≤ x.now
    → x.dump ≡ none
    → resolve_number r n source destination at x
      ≡ (record r { table = []; dumped_at = 0; refresh_at = x.now + r.ttl * 10 }, none)
unfolding resolve_number
resolve_number_failed r none source destination at x h due failed = absurd (h refl)
resolve_number_failed r (some number) source destination at x h due failed =
    rw (resolve_key_failed r (lookup_key number source destination) at x due failed)

-- After a scheduled refresh that failed at some instant there is no answer, and none in any further
-- call whose clock reads less than ten times the ttl later: the earlier mapping is never reused, no
-- dump is read, and the resolver stays as it is.
pub failed_refresh :
    (r : Resolver) (p p' : Bytes) (source destination source' destination' : Endpoint) (at at' : ℕ)
    (x x' : Readings)
    → protocol_number p ≢ none
    → r.refresh_at ≤ x.now
    → x.dump ≡ none
    → x'.now < x.now + r.ttl * 10
    → let (t, answer) = resolve_after r p source destination at x in
      (answer ≡ none) × (resolve_after t p' source' destination' at' x' ≡ (t, none))
unfolding resolve_after
failed_refresh r p p' source destination source' destination' at at' x x' h due failed soon =
    rw (resolve_number_failed r (protocol_number p) source destination at x h due failed)
      (refl, resolve_number_quiet _ (protocol_number p') source' destination' at' x' refl refl soon)

refresh_timing :
    (r : Resolver) (now : ℕ) (dump : Option (List Entry))
    → let s = refresh r now dump in
      (s.miss_refresh ≡ r.miss_refresh)
      × ((s.dumped_at ≡ r.dumped_at)
          ⊎ (s.dumped_at ≡ 0)
          ⊎ ((s.dumped_at ≡ now) × (r.refresh_at ≤ now)))
unfolding refresh load
refresh_timing r now none = ground arith
refresh_timing r now (some es) = ground arith

miss_timing :
    (s : Resolver) (now : ℕ) (dump : Option (List Entry))
    → 0 < s.miss_refresh
    → let t = (refresh_on_miss s now dump).0 in
      (t.dumped_at ≡ s.dumped_at)
      ⊎ (t.dumped_at ≡ 0)
      ⊎ ((t.dumped_at ≡ now) × (s.dumped_at ≢ 0) × (s.dumped_at + s.miss_refresh ≤ now))
unfolding refresh_on_miss may_refresh load
miss_timing s now none h = ground arith
miss_timing s now (some es) h = ground arith

resolve_key_timing :
    (r : Resolver) (k : LookupKey) (at : ℕ) (x : Readings)
    → let s = refresh r x.now x.dump in
      ((resolve_key r k at x).0.dumped_at ≡ s.dumped_at)
      ⊎ ((resolve_key r k at x).0.dumped_at
          ≡ (refresh_on_miss s x.miss_now x.miss_dump).0.dumped_at)
unfolding resolve_key retry
resolve_key_timing r k at x = ground arith

-- A call that replaces a loaded table by a newer one does so no sooner after it than the ttl or the
-- miss interval (20 to 25 ms), whichever is less, if the clock does not run backwards.
pub dumps_apart :
    (r : Resolver) (k : LookupKey) (at : ℕ) (x : Readings)
    → Inv r
    → r.dumped_at ≤ x.now
    → x.now ≤ x.miss_now
    → r.dumped_at ≢ 0
    → (resolve_key r k at x).0.dumped_at ≢ 0
    → (resolve_key r k at x).0.dumped_at ≢ r.dumped_at
    → r.dumped_at + min r.ttl r.miss_refresh ≤ (resolve_key r k at x).0.dumped_at
dumps_apart r k at x v since clock loaded still other =
    let q = refresh_timing r x.now x.dump in
    omega (
      arith,
      v.scheduled loaded,
      q,
      miss_timing (refresh r x.now x.dump) x.miss_now x.miss_dump (omega (arith, q.0, v.throttled)),
      resolve_key_timing r k at x,
    )
