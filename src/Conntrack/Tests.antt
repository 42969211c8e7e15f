-- ===== src/Conntrack/Tests.antt =====
-- Concrete runs of internal/conntrack, and its theorems at concrete inputs.
use Prim.Native.Nat.{min}
use agentkubenetwork.Base.{
  ℕ, ◌+◌, ◌≤◌, ◌≡◌, refl, List, [], ◌∷◌, Option, none, some, arith, bytes_discrete, ℕ_discrete,
}
use agentkubenetwork.Base.Int.{pos}
use agentkubenetwork.Base.Text.{codes}
use agentkubenetwork.Base.Map.{get, put, del}
use agentkubenetwork.Flow.Types.{Endpoint, Endpoint-discrete}
use agentkubenetwork.Conntrack.Types.{Entry, LookupKey-discrete, Tuple-discrete, tuple_key}
use agentkubenetwork.Conntrack.Table.{build_table}
use agentkubenetwork.Conntrack.Table.Spec.{replies, proven_destination, get-build_table}
use agentkubenetwork.Conntrack.Resolver.{
  Resolver, Readings, new_resolver, resolve_key, resolve_number, resolve_after, protocol_number,
  lookup_key, refresh, retry, refresh_on_miss, may_refresh, load,
}
use agentkubenetwork.Conntrack.Resolver.Answers.{
  LoadedFrom, resolve_after_proven, failed_refresh, dumps_apart,
}

abbrev client : Endpoint
client = record { address = 49 ∷ []; port = 40000 }

abbrev service : Endpoint
service = record { address = 50 ∷ []; port = 53 }

abbrev backend : Endpoint
backend = record { address = 51 ∷ []; port = 5353 }

abbrev translated : Entry
translated = record {
  original = record { protocol = 6; source = client; destination = service };
  reply = record { protocol = 6; source = backend; destination = client };
}

abbrev empty_resolver : Resolver
unfolding new_resolver
empty_resolver = new_resolver (pos 1000000000)

abbrev readings : ℕ → Option (List Entry) → Readings
readings now dump = record { now = now; dump = dump; miss_now = now; miss_dump = dump }

get-build_table_test :
    get LookupKey-discrete
      (tuple_key translated.original)
      (build_table (translated ∷ translated ∷ []))
    ≡ some backend
unfolding build_table get put del LookupKey-discrete Tuple-discrete Endpoint-discrete bytes_discrete
    ℕ_discrete
get-build_table_test = refl

get-build_table_example :
    get LookupKey-discrete
      (tuple_key translated.original)
      (build_table (translated ∷ translated ∷ []))
    ≡ proven_destination service
        (replies (tuple_key translated.original) (translated ∷ translated ∷ []))
get-build_table_example =
    get-build_table (tuple_key translated.original) (translated ∷ translated ∷ [])

resolve_after_proven_example :
    (number : ℕ) × (es : List Entry) × (protocol_number (codes "tcp") ≡ some number)
    × (proven_destination service (replies (lookup_key number client service) es) ≡ some backend)
    × LoadedFrom
        (new_resolver (pos 1000000000))
        (readings 200 (some (translated ∷ [])))
        []
        (resolve_after
          (new_resolver (pos 1000000000))
          (codes "tcp")
          client
          service
          100
          (readings 200 (some (translated ∷ [])))).0
        es
    × (100
        ≤ (resolve_after
            (new_resolver (pos 1000000000))
            (codes "tcp")
            client
            service
            100
            (readings 200 (some (translated ∷ [])))).0.dumped_at)
    × (codes "conntrack" ≡ codes "conntrack")
unfolding new_resolver resolve_after resolve_number resolve_key refresh load protocol_number
    build_table get put del LookupKey-discrete Tuple-discrete Endpoint-discrete bytes_discrete
    ℕ_discrete
resolve_after_proven_example =
    resolve_after_proven (new_resolver (pos 1000000000)) (codes "tcp") client service 100
      (readings 200 (some (translated ∷ []))) [] backend (codes "conntrack") refl refl

failed_refresh_example :
    ((resolve_after (new_resolver (pos 1000)) (codes "tcp") client service 0 (readings 200 none)).1
      ≡ none)
    × (resolve_after
          (resolve_after
            (new_resolver (pos 1000))
            (codes "tcp")
            client
            service
            0
            (readings 200 none)).0
          (codes "tcp")
          client
          service
          0
          (readings 9000 (some (translated ∷ [])))
        ≡ (
          (resolve_after
              (new_resolver (pos 1000))
              (codes "tcp")
              client
              service
              0
              (readings 200 none)).0,
          none,
        ))
unfolding new_resolver protocol_number bytes_discrete ℕ_discrete
failed_refresh_example =
    failed_refresh (new_resolver (pos 1000)) (codes "tcp") (codes "tcp") client service client
      service 0 0 (readings 200 none) (readings 9000 (some (translated ∷ []))) (λ e. cc)
      (omega arith) refl (omega arith)

-- A resolver whose table was loaded at 200.
abbrev loaded_at : ℕ → Resolver
loaded_at t = record {
  ttl = 1000000000;
  miss_refresh = 25000000;
  refresh_at = t + 1000000000;
  dumped_at = t;
  table = [];
}

dumps_apart_example :
    200 + min 1000000000 25000000
    ≤ (resolve_key
        (loaded_at 200)
        (tuple_key translated.original)
        0
        (readings 30000000 (some (translated ∷ [])))).0.dumped_at
unfolding resolve_key refresh retry refresh_on_miss may_refresh load get
dumps_apart_example =
    dumps_apart (loaded_at 200) (tuple_key translated.original) 0
      (readings 30000000 (some (translated ∷ [])))
      (record {
        positive = omega arith;
        throttled = omega arith;
        bounded = omega arith;
        unloaded = λ e. refl;
        scheduled = λ h. refl;
      })
      (omega arith) (omega arith) (omega arith) (omega arith) (omega arith)
