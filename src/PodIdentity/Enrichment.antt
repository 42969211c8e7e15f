-- ===== src/PodIdentity/Enrichment.antt =====
-- internal/podidentity/cache.go: which Pods `Enrich` gives an observation.
use agentkubenetwork.Base.{
  ℕ, ◌↔◌, ◌⊎◌, inl, inr, ◌≡◌, ◌≢◌, refl, sym, ap, ◌∙◌, [], Option, none, some, Bytes,
}
use agentkubenetwork.Flow.Types.{Observation, Process, Pod, ResolvedEndpoint, Endpoint}
use agentkubenetwork.PodIdentity.Cache.{
  Cache, ip, container, text_or_nothing, ip_key, container_key, lookup, address_of, observer_of,
  enrich, Proven, lookup-Proven, lookup-found,
}

-- The address of an end: of its resolved endpoint if it has one, else its own.
abbrev pub StandsFor : Endpoint → Option ResolvedEndpoint → Bytes → Type 0
StandsFor e resolved address =
    ((resolved ≡ none) × (address ≡ e.address))
    ⊎ ((r : ResolvedEndpoint) × (resolved ≡ some r) × (address ≡ r.address))

address_of-StandsFor :
    (e : Endpoint) (resolved : Option ResolvedEndpoint)
    → StandsFor e resolved (address_of e resolved)
address_of-StandsFor e none = inl (refl, refl)
address_of-StandsFor e (some r) = inr (r, refl, refl)

StandsFor-address_of :
    (e : Endpoint) (resolved : Option ResolvedEndpoint) (address : Bytes)
    → StandsFor e resolved address
    → address ≡ address_of e resolved
StandsFor-address_of e resolved address (inl (own, same)) = same ∙ sym (ap (address_of e) own)
StandsFor-address_of e resolved address (inr (r, other, same)) =
    same ∙ sym (ap (address_of e) other)

-- The Pod of an end: the only one under the text of its address.
abbrev pub IsEnd : Cache → Endpoint → Option ResolvedEndpoint → ℕ → Pod → Type 0
IsEnd c e resolved at pod =
    (address : Bytes) × (key : Bytes) × StandsFor e resolved address
    × (c.address_text address ≡ some key)
    × Proven c ip key at pod

-- The Pod of the observer: the only one under the container of the observing process.
abbrev pub IsObserver : Cache → Option Process → ℕ → Pod → Type 0
IsObserver c process at pod =
    (p : Process) × (process ≡ some p) × Proven c container (container_key p.container_id) at pod

text_key :
    (found : Option Bytes) → text_or_nothing found ≢ [] → found ≡ some (text_or_nothing found)
text_key none h = absurd (h refl)
text_key (some text) h = refl

lookup-IsEnd :
    (c : Cache) (e : Endpoint) (resolved : Option ResolvedEndpoint) (at : ℕ) (pod : Pod)
    → (lookup c ip (ip_key c (address_of e resolved)) at ≡ some pod) ↔ IsEnd c e resolved at pod
lookup-IsEnd c e resolved at pod =
    let a = address_of e resolved in
    (
      λ h.
          let v = lookup-Proven c ip (ip_key c a) at pod h in
          (a, ip_key c a, address_of-StandsFor e resolved, text_key (c.address_text a) v.keyed, v),
      λ (b, key, stands, text, v).
          let same : ip_key c a ≡ key =
            ap (ip_key c) (sym (StandsFor-address_of e resolved b stands))
            ∙ ap text_or_nothing text in
          ap (λ k. lookup c ip k at) same ∙ lookup-found c ip key at pod v,
    )

observer_of-IsObserver :
    (c : Cache) (process : Option Process) (at : ℕ) (pod : Pod)
    → (observer_of c at process ≡ some pod) ↔ IsObserver c process at pod
observer_of-IsObserver c none at pod = (λ h. absurd (cc), λ (p, same, v). absurd (cc))
observer_of-IsObserver c (some p) at pod = (
  λ h. (p, refl, lookup-Proven c container (container_key p.container_id) at pod h),
  λ (q, same, v).
      ap (observer_of c at) same ∙ lookup-found c container (container_key q.container_id) at pod v,
)

-- An observation is given exactly the Pods that are proved: at each end the only Pod under the address
-- of the resolved endpoint, or of the endpoint itself if it is not resolved; as the observer the only one
-- under the container of the process, and none without a process; each by the informer as it is at this
-- lookup. Whatever Pods it had are gone, and nothing else of it changes.
pub enrich-Proven :
    (a b c : Cache) (o : Observation) (pod : Pod)
    → (((enrich a b c o).source_pod ≡ some pod)
        ↔ IsEnd b o.flow.source o.source_resolved o.observed_at pod)
      × (((enrich a b c o).destination_pod ≡ some pod)
          ↔ IsEnd c o.flow.destination o.destination_resolved o.observed_at pod)
      × (((enrich a b c o).observer_pod ≡ some pod) ↔ IsObserver a o.process o.observed_at pod)
      × (record (enrich a b c o) {
        source_pod = o.source_pod;
        destination_pod = o.destination_pod;
        observer_pod = o.observer_pod;
      }
          ≡ o)
unfolding enrich
enrich-Proven a b c o pod = (
  lookup-IsEnd b o.flow.source o.source_resolved o.observed_at pod,
  lookup-IsEnd c o.flow.destination o.destination_resolved o.observed_at pod,
  observer_of-IsObserver a o.process o.observed_at pod,
  refl,
)
