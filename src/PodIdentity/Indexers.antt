-- ===== src/PodIdentity/Indexers.antt =====
-- internal/podidentity/cache.go: the keys under which the indexer of client-go is told to hold a Pod. A
-- map that serves as a set is the list of its keys, each once; Go does not specify their order.
use agentkubenetwork.Base.{not, List, [], ◌∷◌, ◌++◌, map, keep, Option, Bytes, bytes_discrete}
use agentkubenetwork.Base.Group.{insert_key}
use agentkubenetwork.PodIdentity.Cache.{text_or_nothing, is_empty, container_key}

-- Of a Pod's status: its addresses, and the IDs of its containers, init and ephemeral containers.
pub record PodStatus : Type 0 where
  pub pod_ip : Bytes
  pub pod_ips : List Bytes
  pub containers : List Bytes
  pub init_containers : List Bytes
  pub ephemeral_containers : List Bytes

abbrev pub key_set : List Bytes → List Bytes
key_set [] = []
key_set (k ∷ ks) = insert_key bytes_discrete k (key_set ks)

unfoldable pub nonempty : List Bytes → List Bytes
nonempty keys = keep (λ k. not (is_empty k)) keys

-- With what ParseAddr, Unmap and String make of a text.
unfoldable pub ip_keys : (Bytes → Option Bytes) → PodStatus → List Bytes
ip_keys address_text p =
    nonempty (key_set (map (λ s. text_or_nothing (address_text s)) (p.pod_ip ∷ p.pod_ips)))

unfoldable pub container_keys : PodStatus → List Bytes
container_keys p =
    nonempty
      (key_set (map container_key (p.containers ++ p.init_containers ++ p.ephemeral_containers)))
