-- ===== src/Conntrack/Resolver/Freshness.antt =====
-- What a resolver answers rests on one dump that is recent enough, and how often it dumps.
use agentkubenetwork.Base.{
  ℕ, zero, suc, ◌+◌, ◌≤◌, ◌<◌, ◌==◌, ◌≡◌, ◌≢◌, refl, ltb, true, false, not, ◌&&◌, List, [], Option,
  none, some, arith, Bool-cases, inl, inr, ◌⊎◌,
}
use agentkubenetwork.Base.Int.{ℤ, pos, negsuc}
use agentkubenetwork.Base.Map.{get}
use agentkubenetwork.Flow.Types.{Endpoint}
use agentkubenetwork.Conntrack.Types.{Entry, LookupKey, LookupKey-discrete}
use agentkubenetwork.Conntrack.Table.{build_table}
use agentkubenetwork.Conntrack.Resolver.{
  Resolver, Readings, new_resolver, load, refresh, may_refresh, refresh_on_miss, retry, resolve_key,
  is_stale,
}

pub record Inv (r : Resolver) : Type 0 where
  pub positive : 0 < r.ttl
  pub throttled : 20000000 ≤ r.miss_refresh
  pub bounded : r.miss_refresh ≤ 25000000
  pub unloaded : r.dumped_at ≡ 0 → r.table ≡ []
  pub scheduled : r.dumped_at ≢ 0 → r.refresh_at ≡ r.dumped_at + r.ttl

pub new_resolver-Inv : (ttl : ℤ) → Inv (new_resolver ttl)
unfolding new_resolver
new_resolver-Inv (negsuc n) = record {
  positive = omega arith;
  throttled = omega arith;
  bounded = omega arith;
  unloaded = λ e. refl;
  scheduled = λ h. absurd (h refl);
}
new_resolver-Inv (pos zero) = record {
  positive = omega arith;
  throttled = omega arith;
  bounded = omega arith;
  unloaded = λ e. refl;
  scheduled = λ h. absurd (h refl);
}
new_resolver-Inv (pos (suc n)) = record {
  positive = omega arith;
  throttled = ground arith;
  bounded = ground arith;
  unloaded = λ e. refl;
  scheduled = λ h. absurd (h refl);
}

load-Inv :
    (r : Resolver) (now : ℕ) (dump : Option (List Entry)) → Inv r → now ≢ 0 → Inv (load r now dump)
unfolding load
load-Inv r now none v h = record {
  positive = v.positive;
  throttled = v.throttled;
  bounded = v.bounded;
  unloaded = λ e. refl;
  scheduled = λ e. absurd (e refl);
}
load-Inv r now (some entries) v h = record {
  positive = v.positive;
  throttled = v.throttled;
  bounded = v.bounded;
  unloaded = λ e. absurd (h e);
  scheduled = λ e. refl;
}

refresh-Inv :
    (r : Resolver) (now : ℕ) (dump : Option (List Entry))
    → Inv r
    → now ≢ 0
    → Inv (refresh r now dump)
unfolding refresh
refresh-Inv r now dump v h = elim (Bool-cases (not (r.refresh_at == 0) && ltb now r.refresh_at)) [
  | inl e ↦ rw e v
  | inr e ↦ rw e (load-Inv r now dump v h)
]

miss-Inv :
    (r : Resolver) (now : ℕ) (dump : Option (List Entry))
    → Inv r
    → now ≢ 0
    → Inv (refresh_on_miss r now dump).0
unfolding refresh_on_miss
miss-Inv r now dump v h = elim (Bool-cases (may_refresh r now)) [
  | inl e ↦ rw e (load-Inv r now dump v h)
  | inr e ↦ rw e v
]

-- The resolver's timing and its table agree after every call whose clock readings are not Go's zero time.
pub resolve_key-Inv :
    (r : Resolver) (k : LookupKey) (observed_at : ℕ) (x : Readings)
    → Inv r
    → x.now ≢ 0
    → x.miss_now ≢ 0
    → Inv (resolve_key r k observed_at x).0
unfolding resolve_key retry
resolve_key-Inv r k observed_at x v h m =
    let p = refresh-Inv r x.now x.dump v h in
    elim (Bool-cases (is_stale (refresh r x.now x.dump) k observed_at)) [
      | inl e ↦ rw e (miss-Inv (refresh r x.now x.dump) x.miss_now x.miss_dump p m)
      | inr e ↦ rw e p
    ]

-- Where a resolver's table after a call comes from: the table before it, a failed dump, or one of the
-- two dumps that the call may read, at the instant of that read.
abbrev pub Provenance : Resolver → Readings → Resolver → Type 0
Provenance r x t =
    ((t.table ≡ r.table) × (t.dumped_at ≡ r.dumped_at))
    ⊎ ((t.table ≡ []) × (t.dumped_at ≡ 0))
    ⊎ ((es : List Entry) × (x.dump ≡ some es) × (t.table ≡ build_table es) × (t.dumped_at ≡ x.now))
    ⊎ ((es : List Entry) × (x.miss_dump ≡ some es)
        × (t.table ≡ build_table es)
        × (t.dumped_at ≡ x.miss_now))

refresh_from :
    (r : Resolver) (x : Readings) (dump : Option (List Entry))
    → x.dump ≡ dump
    → Provenance r x (refresh r x.now dump)
unfolding refresh load
refresh_from r x none e = ground arith
refresh_from r x (some es) e =
    elim (Bool-cases (not (r.refresh_at == 0) && ltb x.now r.refresh_at)) [
      | inl wait ↦ rw wait (inl (refl, refl))
      | inr due ↦ rw due (inr (inr (inl (es, e, refl, refl))))
    ]

miss_from :
    (r s : Resolver) (x : Readings) (dump : Option (List Entry))
    → x.miss_dump ≡ dump
    → Provenance r x s
    → Provenance r x (refresh_on_miss s x.miss_now dump).0
unfolding refresh_on_miss load
miss_from r s x none e p = elim (Bool-cases (may_refresh s x.miss_now)) [
  | inl due ↦ rw due (inr (inl (refl, refl)))
  | inr wait ↦ rw wait p
]
miss_from r s x (some es) e p = elim (Bool-cases (may_refresh s x.miss_now)) [
  | inl due ↦ rw due (inr (inr (inr (es, e, refl, refl))))
  | inr wait ↦ rw wait p
]

pub resolve_key_from :
    (r : Resolver) (k : LookupKey) (observed_at : ℕ) (x : Readings)
    → Provenance r x (resolve_key r k observed_at x).0
unfolding resolve_key retry
resolve_key_from r k observed_at x =
    let s = refresh r x.now x.dump in
    let p = refresh_from r x x.dump refl in
    elim (Bool-cases (is_stale s k observed_at)) [
      | inl e ↦ rw e (miss_from r s x x.miss_dump refl p)
      | inr e ↦ rw e p
    ]

-- A miss that reads no new dump, or a failed one, leaves the old table or an empty one behind.
miss_table :
    (s : Resolver) (now : ℕ) (dump : Option (List Entry))
    → (refresh_on_miss s now dump).1 ≡ false
    → ((refresh_on_miss s now dump).0 ≡ s) ⊎ ((refresh_on_miss s now dump).0.dumped_at ≡ 0)
unfolding refresh_on_miss load
miss_table s now none e = ground arith
miss_table s now (some es) e = ground arith

retry_answer :
    (s : Resolver) (k : LookupKey) (observed_at : ℕ) (x : Readings) (e : Endpoint)
    → is_stale s k observed_at ≡ true
    → (retry s k observed_at x).1 ≡ some e
    → (get LookupKey-discrete k (retry s k observed_at x).0.table ≡ some e)
      × (observed_at ≤ (retry s k observed_at x).0.dumped_at)
unfolding retry
retry_answer s k observed_at x e stale h = ground (arith, miss_table s x.miss_now x.miss_dump)

pub resolve_key_answer :
    (r : Resolver) (k : LookupKey) (observed_at : ℕ) (x : Readings) (e : Endpoint)
    → (resolve_key r k observed_at x).1 ≡ some e
    → (get LookupKey-discrete k (resolve_key r k observed_at x).0.table ≡ some e)
      × (observed_at ≤ (resolve_key r k observed_at x).0.dumped_at)
unfolding resolve_key
resolve_key_answer r k observed_at x e h =
    ground (arith, retry_answer (refresh r x.now x.dump) k observed_at x e)
