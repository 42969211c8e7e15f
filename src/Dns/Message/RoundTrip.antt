-- ===== src/Dns/Message/RoundTrip.antt =====
-- `Parse` reads back every question name of supported labels.
use agentkubenetwork.Base.{
  ℕ, zero, suc, ◌+◌, ◌*◌, ◌≤◌, ◌<◌, ◌≡◌, ◌≢◌, sym, ap, subst, ◌∙◌, ◌==◌, ltb, true, false, List, [],
  ◌∷◌, ◌++◌, length, length-append, length-drop, drop, take-append, drop_append, get_or-drop, All,
  append_assoc, Bytes, Result, ok, drop-append, arith,
}
use agentkubenetwork.Base.Text.{be16}
use agentkubenetwork.Dns.Message.{
  ParseError, parse_label, parse_name, all_visible, valid_question_name, with_dot, parse,
  header_message, with_question,
}

-- A label that `parseName` supports.
abbrev pub IsLabel : Bytes → Type 0
IsLabel l = (1 ≤ length l) × (length l ≤ 63) × (all_visible l ≡ true)

-- The wire form of a name, and its text from a prefix on.
abbrev pub encode_labels : List Bytes → Bytes
encode_labels [] = 0 ∷ []
encode_labels (l ∷ ls) = length l ∷ (l ++ encode_labels ls)

abbrev pub join_labels : Bytes → List Bytes → Bytes
join_labels name [] = name
join_labels name (l ∷ ls) = join_labels (with_dot name ++ l) ls

length-join_labels : (name : Bytes) (ls : List Bytes) → length name ≤ length (join_labels name ls)
length-join_labels name [] = omega arith
length-join_labels name (l ∷ ls) = omega (
  arith,
  length-join_labels (with_dot name ++ l) ls,
  length-append (with_dot name) l,
  dotted name,
)
  where
    dotted : (n : Bytes) → length n ≤ length (with_dot n)
    dotted [] = omega arith
    dotted (c ∷ cs) = omega (arith, length-append cs (46 ∷ []))

-- A round at a label that fits.
parse_label_step :
    (payload name l rest : Bytes) (offset : ℕ) (next : ℕ → Bytes → Result ParseError (Bytes × ℕ))
    → IsLabel l
    → drop offset payload ≡ length l ∷ (l ++ rest)
    → length (with_dot name ++ l) ≤ 253
    → parse_label payload offset name next ≡ next (offset + 1 + length l) (with_dot name ++ l)
unfolding parse_label valid_question_name
parse_label_step payload name l rest offset next h at fits = ground (
  arith,
  get_or-drop offset payload 0,
  length-drop offset payload,
  length-append l rest,
  length-append (with_dot name) l,
  drop_append offset payload (length l ∷ []) (l ++ rest) at,
  take-append l rest,
)

parse_label_end :
    (payload name rest : Bytes) (offset : ℕ) (next : ℕ → Bytes → Result ParseError (Bytes × ℕ))
    → drop offset payload ≡ 0 ∷ rest
    → parse_label payload offset name next ≡ ok (name, offset + 1)
unfolding parse_label
parse_label_end payload name rest offset next at =
    ground (arith, get_or-drop offset payload 0, length-drop offset payload)

at_label :
    (payload l more rest : Bytes) (offset : ℕ)
    → drop offset payload ≡ (length l ∷ (l ++ more)) ++ rest
    → drop offset payload ≡ length l ∷ (l ++ (more ++ rest))
at_label payload l more rest offset at = at ∙ ap (◌∷◌ (length l)) (append_assoc l more rest)

after_label :
    (payload l rest : Bytes) (offset : ℕ)
    → drop offset payload ≡ length l ∷ (l ++ rest)
    → drop (offset + 1 + length l) payload ≡ rest
after_label payload l rest offset at =
    drop_append (offset + 1) payload l rest
      (drop_append offset payload (length l ∷ []) (l ++ rest) at)

parse_name-encode :
    (ls : List Bytes) (fuel : ℕ) (payload name rest : Bytes) (offset : ℕ)
    → All IsLabel ls
    → drop offset payload ≡ encode_labels ls ++ rest
    → length (join_labels name ls) ≤ 253
    → length payload < offset + fuel
    → parse_name fuel payload offset name
      ≡ ok (join_labels name ls, offset + length (encode_labels ls))
unfolding parse_name
parse_name-encode [] zero payload name rest offset h at fits more =
    absurd (omega (arith, ap length at, length-drop offset payload))
parse_name-encode (l ∷ ls) zero payload name rest offset h at fits more =
    absurd (omega (arith, ap length at, length-drop offset payload))
parse_name-encode [] (suc fuel) payload name rest offset h at fits more =
    parse_label_end payload name rest offset (parse_name fuel payload) at
parse_name-encode (l ∷ ls) (suc fuel) payload name rest offset h at fits more =
    let here = at_label payload l (encode_labels ls) rest offset at in
    parse_label_step payload name l (encode_labels ls ++ rest) offset (parse_name fuel payload) h.0
      here (omega (arith, length-join_labels (with_dot name ++ l) ls))
    ∙ parse_name-encode ls fuel payload (with_dot name ++ l) rest (offset + 1 + length l) h.1
        (after_label payload l (encode_labels ls ++ rest) offset here) fits (omega arith)
    ∙ ap (λ (n : ℕ). ok (join_labels (with_dot name ++ l) ls, n))
        (omega (arith, length-append l (encode_labels ls)))

be16-drop :
    (payload rest : Bytes) (offset high low : ℕ)
    → drop offset payload ≡ high ∷ low ∷ rest
    → be16 payload offset ≡ high * 256 + low
be16-drop payload rest offset high low at = ground (
  arith,
  get_or-drop offset payload 0,
  get_or-drop (offset + 1) payload 0,
  drop_append offset payload (high ∷ []) (low ∷ rest) at,
)

ltb-false : (a b : ℕ) → b ≤ a → ltb a b ≡ false
ltb-false a b h = ground arith

parse_question :
    (payload name : Bytes) (end : ℕ)
    → 12 ≤ length payload
    → (be16 payload 4 == 0) ≡ false
    → parse_name (length payload) payload 12 [] ≡ ok (name, end)
    → end + 4 ≤ length payload
    → parse payload
      ≡ ok (record (header_message payload) {
        question_name = name;
        question_type = be16 payload end;
      })
unfolding parse with_question
parse_question payload name end long asked named fits =
    rw (ltb-false (length payload) 12 long, asked, named, ltb-false (length payload) (end + 4) fits)

-- A datagram that carries a question for labels of 1 to 63 visible bytes, at most 253 bytes with the
-- dots between them, is parsed to the header's fields, the labels joined by dots, and the type that
-- follows the name, whatever stands after it.
pub parse-encode :
    (payload header rest : Bytes) (ls : List Bytes) (high low c d : ℕ)
    → payload ≡ header ++ (encode_labels ls ++ (high ∷ low ∷ c ∷ d ∷ rest))
    → length header ≡ 12
    → be16 payload 4 ≢ 0
    → All IsLabel ls
    → length (join_labels [] ls) ≤ 253
    → parse payload
      ≡ ok (record (header_message payload) {
        question_name = join_labels [] ls;
        question_type = high * 256 + low;
      })
parse-encode payload header rest ls high low c d e h asked labels fits =
    let tail : Bytes = high ∷ low ∷ c ∷ d ∷ rest in
    let at : drop 12 payload ≡ encode_labels ls ++ tail =
      subst (λ (p : Bytes). drop 12 p ≡ encode_labels ls ++ tail) (sym e)
        (subst (λ (n : ℕ). drop n (header ++ (encode_labels ls ++ tail)) ≡ encode_labels ls ++ tail)
          h (drop-append header (encode_labels ls ++ tail))) in
    let after = drop_append 12 payload (encode_labels ls) tail at in
    parse_question payload (join_labels [] ls) (12 + length (encode_labels ls))
      (omega (arith, length-drop 12 payload, ap length at, length-append (encode_labels ls) tail))
      (ground (arith, asked))
      (parse_name-encode ls (length payload) payload [] tail 12 labels at fits (omega arith))
      (omega (arith, length-drop (12 + length (encode_labels ls)) payload, ap length after))
    ∙ ap
        (λ (t : ℕ). ok (record (header_message payload) {
          question_name = join_labels [] ls;
          question_type = t;
        }))
        (be16-drop payload (c ∷ d ∷ rest) (12 + length (encode_labels ls)) high low after)
