-- ===== src/L7/Http1.antt =====
-- internal/l7/correlator.go: the first lines of HTTP/1 requests and responses.
use agentkubenetwork.Base.{
  ℕ, ◌==◌, leb, ◌&&◌, ◌||◌, Bool, true, false, if◌then◌else◌, List, [], ◌∷◌, length, take, Option,
  none, some, Bytes, bytes_discrete, test,
}
use agentkubenetwork.Base.Text.{codes}
use agentkubenetwork.L7.Text.{has_prefix, before_byte, behind, before_crlf, split_spaces, parse_u16}

unfoldable pub first_line : Bytes → Bytes
first_line payload = before_crlf payload

abbrev same : Bytes → Bytes → Bool
same a b = test (bytes_discrete a b)

unfoldable pub is_http_method : Bytes → Bool
is_http_method m =
    same m (codes "GET")
    || (same m (codes "POST")
        || (same m (codes "PUT")
            || (same m (codes "DELETE")
                || (same m (codes "HEAD")
                    || (same m (codes "OPTIONS")
                        || (same m (codes "PATCH")
                            || (same m (codes "TRACE") || same m (codes "CONNECT"))))))))

-- The path before its query, cut to the bound; it starts with a slash.
unfoldable pub request_path : Bytes → ℕ → Option Bytes
request_path [] max_path_bytes = none
request_path (c ∷ cs) max_path_bytes = if c == 47 then some (take max_path_bytes (c ∷ cs)) else none

unfoldable pub with_method : Bytes → Option Bytes → Option (Bytes × Bytes)
with_method m none = none
with_method m (some path) = some (m, path)

-- Method, target, and the rest of the line.
unfoldable pub request_parts : List Bytes → ℕ → Option (Bytes × Bytes)
request_parts (m ∷ target ∷ version ∷ []) max_path_bytes =
    if has_prefix version (codes "HTTP/1.") && is_http_method m
    then with_method m (request_path (before_byte 63 target) max_path_bytes)
    else none
request_parts _ max_path_bytes = none

unfoldable pub parse_http1_request : Bytes → ℕ → Option (Bytes × Bytes)
parse_http1_request payload max_path_bytes =
    request_parts (split_spaces 2 (first_line payload)) max_path_bytes

abbrev pub is_request : Option (Bytes × Bytes) → Bool
is_request none = false
is_request (some r) = true

abbrev pub follows : Option Bytes → ℕ → Bool
follows none max_path_bytes = false
follows (some rest) max_path_bytes = is_request (parse_http1_request rest max_path_bytes)

unfoldable pub contains_pipelined_http1_request : Bytes → ℕ → Bool
contains_pipelined_http1_request payload max_path_bytes =
    follows (behind (13 ∷ 10 ∷ 13 ∷ 10 ∷ []) payload) max_path_bytes

abbrev pub in_status_range : Option ℕ → Option ℕ
in_status_range none = none
in_status_range (some n) = if leb 100 n && leb n 599 then some n else none

unfoldable pub response_parts : List Bytes → Option ℕ
response_parts (version ∷ status ∷ _) =
    if has_prefix version (codes "HTTP/1.") && length status == 3
    then in_status_range (parse_u16 status)
    else none
response_parts _ = none

unfoldable pub parse_http1_response : Bytes → Option ℕ
parse_http1_response payload = response_parts (split_spaces 2 (first_line payload))
