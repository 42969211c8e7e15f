-- ===== src/Dns/Message.antt =====
-- internal/dns/dns.go: `Parse`, the header and first question of a datagram.
pub mod Names
pub mod RoundTrip
use agentkubenetwork.Base.{
  ℕ, zero, suc, ◌+◌, ◌/◌, ◌%◌, ◌==◌, ltb, leb, not, ◌&&◌, ◌||◌, Bool, true, false, if◌then◌else◌,
  List, [], ◌∷◌, ◌++◌, length, take, drop, get_or, Bytes, Result, ok, err, ◌>>=◌,
}
use agentkubenetwork.Base.Text.{codes, decimal, be16}
use agentkubenetwork.Dns.Types.{Message}

-- The errors of `Parse`. `stuck` is none of them: it would mean that the fuel of `parse_name` ran out.
pub data ParseError : Type 0 where
  short_header past_end compressed label_past_end unsupported truncated_question stuck : ParseError

abbrev pub is_visible : ℕ → Bool
is_visible c = leb 33 c && leb c 126

unfoldable pub all_visible : Bytes → Bool
all_visible [] = true
all_visible (c ∷ cs) = is_visible c && all_visible cs

-- At most 253 bytes, all of them visible ASCII. Go's `range` visits the first byte of each rune; of a
-- rune of several bytes this first byte is above 126, so the test fails as if every byte were visited.
unfoldable pub valid_question_name : Bytes → Bool
unfolding all_visible
valid_question_name name = leb (length name) 253 && all_visible name

-- The name so far, with the dot that the next label needs.
abbrev pub with_dot : Bytes → Bytes
with_dot [] = []
with_dot (c ∷ cs) = c ∷ (cs ++ 46 ∷ [])

-- One round of the loop, at the first byte of a label, with what the later rounds return.
unfoldable pub parse_label :
    Bytes → ℕ → Bytes → (ℕ → Bytes → Result ParseError (Bytes × ℕ)) → Result ParseError (Bytes × ℕ)
parse_label payload offset name next =
    let size = get_or payload offset 0 in
    let label = take size (drop (offset + 1) payload) in
    if leb (length payload) offset
    then err past_end
    else if size == 0
    then ok (name, offset + 1)
    else if not (size / 64 == 0)
    then err compressed
    else if ltb (length payload) (offset + 1 + size)
    then err label_past_end
    else if ltb 253 (length (with_dot name) + size) || not (valid_question_name label)
    then err unsupported
    else next (offset + 1 + size) (with_dot name ++ label)

-- Every round moves on by at least two bytes, so the payload's length is fuel enough.
unfoldable pub parse_name : ℕ → Bytes → ℕ → Bytes → Result ParseError (Bytes × ℕ)
unfolding parse_label
parse_name zero payload offset name = err stuck
parse_name (suc fuel) payload offset name =
    parse_label payload offset name (λ o n. parse_name fuel payload o n)

abbrev pub header_message : Bytes → Message
header_message payload =
    let flags = be16 payload 2 in
    record {
      id = be16 payload 0;
      response = not (flags / 32768 % 2 == 0);
      response_code = flags % 16;
      question_name = [];
      question_type = 0;
    }

unfoldable pub with_question : Bytes → Message → Bytes × ℕ → Result ParseError Message
with_question payload m (name, offset) =
    if ltb (length payload) (offset + 4)
    then err truncated_question
    else ok (record m { question_name = name; question_type = be16 payload offset })

unfoldable pub parse : Bytes → Result ParseError Message
unfolding parse_name with_question
parse payload =
    if ltb (length payload) 12
    then err short_header
    else if be16 payload 4 == 0
    then ok (header_message payload)
    else parse_name (length payload) payload 12 []
      >>= with_question payload (header_message payload)

pub response_code_string : ℕ → Bytes
response_code_string code =
    if code == 0
    then codes "NOERROR"
    else if code == 1
    then codes "FORMERR"
    else if code == 2
    then codes "SERVFAIL"
    else if code == 3
    then codes "NXDOMAIN"
    else if code == 4
    then codes "NOTIMP"
    else if code == 5
    then codes "REFUSED"
    else codes "RCODE" ++ decimal code

pub query_type_string : ℕ → Bytes
query_type_string type =
    if type == 1
    then codes "A"
    else if type == 5
    then codes "CNAME"
    else if type == 6
    then codes "SOA"
    else if type == 12
    then codes "PTR"
    else if type == 15
    then codes "MX"
    else if type == 16
    then codes "TXT"
    else if type == 28
    then codes "AAAA"
    else if type == 33
    then codes "SRV"
    else codes "TYPE" ++ decimal type
