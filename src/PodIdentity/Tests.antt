-- ===== src/PodIdentity/Tests.antt =====
-- Concrete runs of internal/podidentity, and its theorems at concrete inputs.
use agentkubenetwork.Base.Group.{insert_key}
use agentkubenetwork.PodIdentity.Indexers.{nonempty, container_keys}
use agentkubenetwork.Base.{
  bytes_discrete, ℕ_discrete, ◌↔◌, ◌≡◌, refl, [], ◌∷◌, true, false, none, some,
}
use agentkubenetwork.Base.Text.{codes}
use agentkubenetwork.Flow.Types.{Observation, Process, Pod, no_samples}
use agentkubenetwork.PodIdentity.Cache.{
  CorePod, Cache, ip, container_key, behind_scheme, lookup, only_pod, rejected, enrich, Proven,
  lookup-Proven,
}
use agentkubenetwork.PodIdentity.Enrichment.{IsEnd, IsObserver, enrich-Proven}

abbrev web : CorePod
web = record {
  uid = codes "u1";
  namespace = codes "default";
  name = codes "web";
  host_network = false;
  created_at = 50;
}

abbrev cache : Cache
cache = record { synced = true; by_index = λ i k. some (web ∷ []); address_text = some }

abbrev observer : Process
observer = record {
  pid = 7;
  start_time_ticks = 1;
  comm = [];
  cmdline = [];
  container_id = codes "containerd://abc";
  via = [];
}

abbrev seen : Observation
seen = record {
  source_pod = none;
  destination_pod = none;
  observer_pod = none;
  observed_at = 100;
  kernel_timestamp_ns = 0;
  flow = record {
    node_name = [];
    protocol = codes "tcp";
    direction = [];
    source = record { address = codes "10.0.0.1"; port = 1 };
    destination = record { address = codes "10.0.0.2"; port = 2 };
  };
  source_resolved = none;
  destination_resolved = none;
  process = some observer;
  bytes_tx = 0;
  bytes_rx = 0;
  packets_tx = 0;
  packets_rx = 0;
  retransmissions = 0;
  losses = 0;
  rtt = no_samples;
  jitter = no_samples;
}

abbrev web_pod : Pod
web_pod = record { uid = codes "u1"; namespace = codes "default"; name = codes "web" }

container_key_test : container_key (codes "containerd://abc") ≡ codes "abc"
unfolding container_key behind_scheme
container_key_test = refl

found : lookup cache ip (codes "10.0.0.1") 100 ≡ some web_pod
unfolding lookup only_pod rejected
found = refl

lookup-Proven_example : Proven cache ip (codes "10.0.0.1") 100 web_pod
lookup-Proven_example = lookup-Proven cache ip (codes "10.0.0.1") 100 web_pod found

-- The informer syncs between the lookup of the observer and that of the source.
abbrev starting : Cache
starting = record cache { synced = false }

enrich_test : (enrich starting cache cache seen).observer_pod ≡ none
unfolding enrich lookup container_key behind_scheme
enrich_test = refl

enrich-Proven_example :
    (((enrich starting cache cache seen).source_pod ≡ some web_pod)
      ↔ IsEnd cache seen.flow.source seen.source_resolved 100 web_pod)
    × (((enrich starting cache cache seen).destination_pod ≡ some web_pod)
        ↔ IsEnd cache seen.flow.destination seen.destination_resolved 100 web_pod)
    × (((enrich starting cache cache seen).observer_pod ≡ some web_pod)
        ↔ IsObserver starting seen.process 100 web_pod)
    × (record (enrich starting cache cache seen) {
      source_pod = none;
      destination_pod = none;
      observer_pod = none;
    }
        ≡ seen)
enrich-Proven_example = enrich-Proven starting cache cache seen web_pod

container_keys_test :
    container_keys (record {
      pod_ip = [];
      pod_ips = [];
      containers = codes "containerd://a" ∷ codes "b" ∷ [];
      init_containers = codes "containerd://a" ∷ [];
      ephemeral_containers = [] ∷ [];
    })
    ≡ codes "a" ∷ codes "b" ∷ []
unfolding container_keys nonempty container_key behind_scheme insert_key bytes_discrete ℕ_discrete
container_keys_test = refl
