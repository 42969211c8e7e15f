-- ===== src/Dns/Message/Names.antt =====
-- `parseName`: it ends, and what it accepts is a supported name inside the datagram.
use agentkubenetwork.Base.{
  ℕ, zero, suc, ◌+◌, ◌≤◌, ◌<◌, ◌≡◌, ◌≢◌, refl, ◌&&◌, true, [], ◌∷◌, ◌++◌, length, length-append,
  length-drop, length-take, take, drop, get_or, Bytes, ok, err, Result-cases, arith, inl, inr,
}
use agentkubenetwork.Dns.Types.{Message}
use agentkubenetwork.Dns.Message.{
  stuck, parse_label, parse_name, all_visible, valid_question_name, with_dot, parse, with_question,
}

all_visible-append : (xs ys : Bytes) → all_visible (xs ++ ys) ≡ (all_visible xs && all_visible ys)
unfolding all_visible
all_visible-append [] ys = refl
all_visible-append (x ∷ xs) ys = ground (arith, all_visible-append xs ys)

-- A supported name: at most 253 visible bytes.
abbrev pub IsSupported : Bytes → Type 0
IsSupported name = (length name ≤ 253) × (all_visible name ≡ true)

with_dot-visible : (name : Bytes) → all_visible name ≡ true → all_visible (with_dot name) ≡ true
unfolding all_visible
with_dot-visible [] h = refl
with_dot-visible (c ∷ cs) h = ground (arith, all_visible-append cs (46 ∷ []))

parse_label-IsSupported :
    (payload name : Bytes) (offset : ℕ)
    → let size = get_or payload offset 0 in
      let label = take size (drop (offset + 1) payload) in
      offset + 1 + size ≤ length payload
      → length (with_dot name) + size ≤ 253
      → valid_question_name label ≡ true
      → all_visible name ≡ true
      → IsSupported (with_dot name ++ label)
unfolding valid_question_name
parse_label-IsSupported payload name offset inside fits valid visible =
    let size = get_or payload offset 0 in
    let label = take size (drop (offset + 1) payload) in
    (
      omega (
        arith,
        length-append (with_dot name) label,
        length-take size (drop (offset + 1) payload)
            (omega (arith, length-drop (offset + 1) payload)),
      ),
      ground (arith, all_visible-append (with_dot name) label, with_dot-visible name visible),
    )

parse_name-IsSupported :
    (fuel : ℕ) (payload name result : Bytes) (offset end : ℕ)
    → IsSupported name
    → parse_name fuel payload offset name ≡ ok (result, end)
    → IsSupported result × (offset < end) × (end ≤ length payload)
unfolding parse_name parse_label
parse_name-IsSupported zero payload name result offset end s e = absurd (cc)
parse_name-IsSupported (suc fuel) payload name result offset end s e =
    let size = get_or payload offset 0 in
    let label = take size (drop (offset + 1) payload) in
    ground (
      arith,
      parse_label-IsSupported payload name offset,
      parse_name-IsSupported fuel payload (with_dot name ++ label) result (offset + 1 + size) end,
    )

parse_name-ne-stuck :
    (fuel : ℕ) (payload name : Bytes) (offset : ℕ)
    → offset ≤ length payload
    → length payload < offset + fuel
    → parse_name fuel payload offset name ≢ err stuck
unfolding parse_name parse_label
parse_name-ne-stuck zero payload name offset inside h e = absurd (omega arith)
parse_name-ne-stuck (suc fuel) payload name offset inside h e =
    let size = get_or payload offset 0 in
    let label = take size (drop (offset + 1) payload) in
    ground (arith, parse_name-ne-stuck fuel payload (with_dot name ++ label) (offset + 1 + size))

-- `Parse` always ends with a message or one of its errors. An accepted message has a question name that
-- is empty or a supported name: at most 253 bytes, all of them visible ASCII.
pub parse-IsSupported :
    (payload : Bytes)
    → (parse payload ≢ err stuck)
      × ((m : Message) → parse payload ≡ ok m → IsSupported m.question_name)
unfolding parse with_question all_visible
parse-IsSupported payload = elim (Result-cases (parse_name (length payload) payload 12 [])) [
  | inl ((name, end), e) ↦
      let named =
        parse_name-IsSupported (length payload) payload [] name 12 end (omega arith, refl) e in
      (λ h. ground (arith, e), λ m h. (ground (arith, e, named), ground (arith, e, named)))
  | inr (x, e) ↦ (
    λ h. ground (arith, e, parse_name-ne-stuck (length payload) payload [] 12),
    λ m h. (ground (arith, e), ground (arith, e)),
  )
]
