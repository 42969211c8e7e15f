-- ===== src/L7/Fields.antt =====
-- internal/l7/http2.go: what a block of header fields says, and the key of a connection.
use agentkubenetwork.Base.{
  ℕ, ◌==◌, ltb, not, ◌&&◌, ◌||◌, Bool, true, false, if◌then◌else◌, List, [], ◌∷◌, take, Option,
  none, some, Bytes, bytes_discrete, test,
}
use agentkubenetwork.Base.Text.{codes}
use agentkubenetwork.Flow.Types.{Endpoint}
use agentkubenetwork.L7.Types.{Fragment, TransportKey}
use agentkubenetwork.L7.Text.{before_byte, parse_u16, bytes_less}
use agentkubenetwork.L7.Http1.{in_status_range}

abbrev pub status_or : ℕ → Option ℕ → ℕ
status_or old none = old
status_or old (some new) = new

-- Method, path and status of a header block, the last of each that it has.
unfoldable pub read_field : Bytes × Bytes × ℕ → Bytes × Bytes → Bytes × Bytes × ℕ
read_field (method, path, status) (name, value) =
    if test (bytes_discrete name (codes ":method"))
    then (value, path, status)
    else if test (bytes_discrete name (codes ":path"))
    then (method, value, status)
    else if test (bytes_discrete name (codes ":status"))
    then (method, path, status_or status (in_status_range (parse_u16 value)))
    else (method, path, status)

unfoldable pub read_fields : Bytes × Bytes × ℕ → List (Bytes × Bytes) → Bytes × Bytes × ℕ
read_fields acc [] = acc
read_fields acc (f ∷ fs) = read_fields (read_field acc f) fs

abbrev pub is_empty : Bytes → Bool
is_empty [] = true
is_empty (c ∷ cs) = false

-- Go's result ok as an option.
unfoldable pub http2_identity : List (Bytes × Bytes) → ℕ → Option (Bytes × Bytes × ℕ)
http2_identity fields max_path_bytes =
    let (method, target, status) = read_fields ([], [], 0) fields in
    let path = take max_path_bytes (before_byte 63 target) in
    if (not (is_empty method) && not (is_empty path)) || not (status == 0)
    then some (method, path, status)
    else none

unfoldable pub endpoint_less : Endpoint → Endpoint → Bool
endpoint_less left right =
    if test (bytes_discrete left.address right.address)
    then ltb left.port right.port
    else bytes_less left.address right.address

unfoldable pub make_transport_key : Fragment → TransportKey
make_transport_key f =
    let swapped = endpoint_less f.destination_endpoint f.source_endpoint in
    record {
      node_name = f.node_name;
      observer_pid = f.observer_pid;
      source = f.source;
      low = if swapped then f.destination_endpoint else f.source_endpoint;
      high = if swapped then f.source_endpoint else f.destination_endpoint;
    }
