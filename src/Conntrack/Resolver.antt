-- ===== src/Conntrack/Resolver.antt =====
-- internal/conntrack/conntrack.go: the cached resolver. The clock and the netlink dump are what each
-- call reads from outside (`Readings`); a dump that fails is `none`. Instants count nanoseconds from
-- Go's zero time, so a difference that Go would report as negative is 0 here: it is only compared with
-- positive durations. `ttl * 10` is taken to fit a time.Duration (a ttl below 29 years).
pub mod Freshness
pub mod Answers
use agentkubenetwork.Base.{
  ℕ, zero, suc, ◌+◌, ◌-◌, ◌*◌, ◌/◌, ◌==◌, ltb, Bool, true, false, not, ◌&&◌, ◌||◌, if◌then◌else◌,
  List, [], ◌∷◌, Option, none, some, Bytes, bytes_discrete, test,
}
use agentkubenetwork.Base.Int.{ℤ, pos, negsuc}
use agentkubenetwork.Base.Map.{get}
use agentkubenetwork.Base.Text.{codes}
use agentkubenetwork.Flow.Types.{Endpoint}
use agentkubenetwork.Flow.Window.{has_value}
use agentkubenetwork.Conntrack.Types.{Entry, LookupKey, LookupKey-discrete}
use agentkubenetwork.Conntrack.Table.{build_table}

pub record Resolver : Type 0 where
  pub ttl : ℕ
  pub miss_refresh : ℕ
  pub refresh_at : ℕ
  pub dumped_at : ℕ
  pub table : List (LookupKey × Endpoint)

abbrev clamp : ℕ → ℕ → ℕ → ℕ
clamp lo hi n = let raised = if ltb n lo then lo else n in if ltb hi raised then hi else raised

abbrev second : ℕ
second = 1000000000

abbrev min_miss_refresh : ℕ
min_miss_refresh = 20000000

abbrev max_miss_refresh : ℕ
max_miss_refresh = 25000000

abbrev resolver_with : ℕ → Resolver
resolver_with ttl = record {
  ttl = ttl;
  miss_refresh = clamp min_miss_refresh max_miss_refresh (ttl / 10);
  refresh_at = 0;
  dumped_at = 0;
  table = [];
}

unfoldable pub new_resolver : ℤ → Resolver
new_resolver (negsuc n) = resolver_with second
new_resolver (pos zero) = resolver_with second
new_resolver (pos (suc n)) = resolver_with (suc n)

-- What one call reads: the clock and a dump at the scheduled refresh, and again at a miss.
pub record Readings : Type 0 where
  pub now : ℕ
  pub dump : Option (List Entry)
  pub miss_now : ℕ
  pub miss_dump : Option (List Entry)

-- Both refreshes load a dump this way. A failed one leaves no proof, and starts a longer wait.
unfoldable pub load : Resolver → ℕ → Option (List Entry) → Resolver
load r now none = record r { table = []; dumped_at = 0; refresh_at = now + r.ttl * 10 }
load r now (some entries) = record r {
  table = build_table entries;
  dumped_at = now;
  refresh_at = now + r.ttl;
}

abbrev loaded : Option (List Entry) → Bool
loaded none = false
loaded (some entries) = true

unfoldable pub refresh : Resolver → ℕ → Option (List Entry) → Resolver
unfolding load
refresh r now dump = if not (r.refresh_at == 0) && ltb now r.refresh_at then r else load r now dump

-- Whether a miss may read a new dump.
unfoldable pub may_refresh : Resolver → ℕ → Bool
may_refresh r now =
    if (r.dumped_at == 0) || ltb (now - r.dumped_at) r.miss_refresh
    then false
    else not (not (r.refresh_at == 0) && (ltb now r.refresh_at && ltb r.ttl (r.refresh_at - now)))

unfoldable pub refresh_on_miss : Resolver → ℕ → Option (List Entry) → Resolver × Bool
unfolding may_refresh load
refresh_on_miss r now dump =
    if may_refresh r now then (load r now dump, loaded dump) else (r, false)

unfoldable pub protocol_number : Bytes → Option ℕ
protocol_number p =
    if test (bytes_discrete p (codes "tcp"))
    then some 6
    else if test (bytes_discrete p (codes "udp"))
    then some 17
    else none

abbrev pub lookup_key : ℕ → Endpoint → Endpoint → LookupKey
lookup_key number source destination = record {
  protocol = number;
  source_address = source.address;
  source_port = source.port;
  destination_address = destination.address;
  destination_port = destination.port;
}

abbrev pub with_via : Option Endpoint → Option (Endpoint × Bytes)
with_via none = none
with_via (some e) = some (e, codes "conntrack")

-- A miss, or a table from before the observation.
abbrev pub is_stale : Resolver → LookupKey → ℕ → Bool
is_stale r k observed_at =
    not (has_value (get LookupKey-discrete k r.table)) || ltb r.dumped_at observed_at

-- The second lookup, after a refresh that the miss may force; no answer from before the observation.
unfoldable pub retry : Resolver → LookupKey → ℕ → Readings → Resolver × Option Endpoint
retry s k observed_at x =
    let (t, fresh) = refresh_on_miss s x.miss_now x.miss_dump in
    let found = get LookupKey-discrete k (if fresh then t.table else s.table) in
    (t, if ltb t.dumped_at observed_at then none else found)

-- The part of `ResolveAfter` under the lock.
unfoldable pub resolve_key : Resolver → LookupKey → ℕ → Readings → Resolver × Option Endpoint
resolve_key r k observed_at x =
    let s = refresh r x.now x.dump in
    if is_stale s k observed_at
    then retry s k observed_at x
    else (s, get LookupKey-discrete k s.table)

-- Past the protocol's number; an unknown protocol touches nothing.
unfoldable pub resolve_number :
    Resolver → Option ℕ → Endpoint → Endpoint → ℕ → Readings → Resolver × Option (Endpoint × Bytes)
resolve_number r none source destination observed_at x = (r, none)
resolve_number r (some number) source destination observed_at x =
    let (t, found) = resolve_key r (lookup_key number source destination) observed_at x in
    (t, with_via found)

unfoldable pub resolve_after :
    Resolver → Bytes → Endpoint → Endpoint → ℕ → Readings → Resolver × Option (Endpoint × Bytes)
resolve_after r protocol source destination observed_at x =
    resolve_number r (protocol_number protocol) source destination observed_at x

pub resolve :
    Resolver → Bytes → Endpoint → Endpoint → Readings → Resolver × Option (Endpoint × Bytes)
resolve r protocol source destination x = resolve_after r protocol source destination 0 x
