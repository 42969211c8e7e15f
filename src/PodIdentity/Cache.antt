-- ===== src/PodIdentity/Cache.antt =====
-- internal/podidentity/cache.go: look-up and enrichment. The informer's indexer and net/netip are
-- parameters: whether the informer has synced, the Pods that an index holds under a key (none for an
-- error), and what ParseAddr, Unmap and String make of a text (none for an error).
use agentkubenetwork.Base.{
  ℕ, ◌≤◌, ◌≡◌, ◌≢◌, refl, ap, ◌==◌, ltb, not, ◌&&◌, ◌||◌, Bool, true, false, if◌then◌else◌, List,
  [], ◌∷◌, Option, none, some, Bytes, arith,
}
use agentkubenetwork.Flow.Types.{Observation, Process, Pod, ResolvedEndpoint, Endpoint}

pub record CorePod : Type 0 where
  pub uid : Bytes
  pub namespace : Bytes
  pub name : Bytes
  pub host_network : Bool
  pub created_at : ℕ

pub data Index : Type 0 where
  ip container : Index

pub record Cache : Type 0 where
  pub synced : Bool
  pub by_index : Index → Bytes → Option (List CorePod)
  pub address_text : Bytes → Option Bytes

abbrev pub text_or_nothing : Option Bytes → Bytes
text_or_nothing none = []
text_or_nothing (some text) = text

abbrev pub ip_key : Cache → Bytes → Bytes
ip_key c s = text_or_nothing (c.address_text s)

abbrev pub is_empty : Bytes → Bool
is_empty [] = true
is_empty (b ∷ bs) = false

-- What stands behind the first "://", or nothing if there is none.
unfoldable pub behind_scheme : Bytes → Option Bytes
behind_scheme [] = none
behind_scheme (a ∷ s) =
    let later = behind_scheme s in if a == 58 then after_colon s later else later
  where
    after_colon : Bytes → Option Bytes → Option Bytes
    after_colon (x ∷ y ∷ id) later = if x == 47 && y == 47 then some id else later
    after_colon (x ∷ []) later = later
    after_colon [] later = later

unfoldable pub container_key : Bytes → Bytes
container_key s = value_or_key (behind_scheme s)
  where
    value_or_key : Option Bytes → Bytes
    value_or_key none = s
    value_or_key (some id) = id

abbrev pub is_ip : Index → Bool
is_ip ip = true
is_ip container = false

unfoldable pub rejected : Index → ℕ → CorePod → Bool
rejected index at p =
    is_empty p.uid
    || (is_ip index && p.host_network
        || (not (at == 0) && (not (p.created_at == 0) && ltb at p.created_at)))

-- One Pod, or none.
unfoldable pub only_pod : Index → ℕ → Option (List CorePod) → Option Pod
only_pod index at none = none
only_pod index at (some []) = none
only_pod index at (some (p ∷ [])) =
    if rejected index at p
    then none
    else some (record { uid = p.uid; namespace = p.namespace; name = p.name })
only_pod index at (some (p ∷ q ∷ ps)) = none

unfoldable pub lookup : Cache → Index → Bytes → ℕ → Option Pod
lookup c index key at =
    if is_empty key || not c.synced then none else only_pod index at (c.by_index index key)

abbrev pub address_of : Endpoint → Option ResolvedEndpoint → Bytes
address_of e none = e.address
address_of e (some r) = r.address

abbrev pub observer_of : Cache → ℕ → Option Process → Option Pod
observer_of c at none = none
observer_of c at (some p) = lookup c container (container_key p.container_id) at

-- Each of the three lookups reads the informer as it is then.
unfoldable pub enrich : Cache → Cache → Cache → Observation → Observation
enrich at_observer at_source at_destination o = record o {
  observer_pod = observer_of at_observer o.observed_at o.process;
  source_pod =
      lookup at_source ip (ip_key at_source (address_of o.flow.source o.source_resolved))
        o.observed_at;
  destination_pod =
      lookup at_destination ip
        (ip_key at_destination (address_of o.flow.destination o.destination_resolved))
        o.observed_at;
}

-- A Pod as the only one that an index holds under a key.
pub record Proven (c : Cache) (index : Index) (key : Bytes) (at : ℕ) (pod : Pod) : Type 0 where
  pub found : CorePod
  pub keyed : key ≢ []
  pub named : found.uid ≢ []
  pub synced : c.synced ≡ true
  pub only : c.by_index index key ≡ some (found ∷ [])
  pub same : pod ≡ record { uid = found.uid; namespace = found.namespace; name = found.name }
  pub own_address : is_ip index ≡ true → found.host_network ≡ false
  pub in_time : at ≢ 0 → found.created_at ≤ at

-- A Pod that is found is the only Pod under its key in an informer that has synced; by address it has
-- a network of its own; and it was created no later than the observation, if this has a time.
pub lookup-Proven :
    (c : Cache) (index : Index) (key : Bytes) (at : ℕ) (pod : Pod)
    → lookup c index key at ≡ some pod
    → Proven c index key at pod
unfolding lookup only_pod rejected
lookup-Proven c index key at pod e = go (c.by_index index key) refl
  where
    go : (ps : Option (List CorePod)) → c.by_index index key ≡ ps → Proven c index key at pod
    go none h = absurd (ground (arith, e, h))
    go (some []) h = absurd (ground (arith, e, h))
    go (some (p ∷ q ∷ ps)) h = absurd (ground (arith, e, h))
    go (some (p ∷ [])) h = record {
      found = p;
      keyed = λ z. ground (arith, e, h, ap is_empty z);
      named = λ z. ground (arith, e, h, ap is_empty z);
      synced = ground (arith, e, h);
      only = h;
      same = ground (arith, e, h);
      own_address = λ i. ground (arith, e, h, i);
      in_time = λ t. ground (arith, e, h, t);
    }

is_empty_no : (b : Bytes) → b ≢ [] → is_empty b ≡ false
is_empty_no [] h = absurd (h refl)
is_empty_no (x ∷ xs) h = refl

-- What is required of a Pod is enough for it not to be rejected.
accepted :
    (c : Cache) (index : Index) (key : Bytes) (at : ℕ) (pod : Pod) (v : Proven c index key at pod)
    → rejected index at v.found ≡ false
unfolding rejected
accepted c ip key at pod v =
    ground (arith, is_empty_no v.found.uid v.named, v.own_address refl, v.in_time)
accepted c container key at pod v = ground (arith, is_empty_no v.found.uid v.named, v.in_time)

pub lookup-found :
    (c : Cache) (index : Index) (key : Bytes) (at : ℕ) (pod : Pod)
    → Proven c index key at pod
    → lookup c index key at ≡ some pod
unfolding lookup only_pod
lookup-found c index key at pod v =
    ground (arith, is_empty_no key v.keyed, v.synced, v.only, v.same, accepted c index key at pod v)
