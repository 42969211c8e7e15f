-- ===== src/Conntrack/Messages/Tests.antt =====
-- Concrete dumps, and the theorems on their parsing at concrete inputs.
use agentkubenetwork.Base.{
  ℕ, ◌+◌, ◌≡◌, refl, List, [], ◌∷◌, ◌++◌, length, true, Bytes, ok, err, ◌>>=◌, arith,
}
use agentkubenetwork.Conntrack.Types.{Tuple, Entry}
use agentkubenetwork.Conntrack.Messages.{
  Platform, panic, parse_messages, messages_from, message_round, take_message, parse_entry,
  visit_entry, parse_tuple, visit_tuple, visit_protocol, visit_address, format_address,
  for_each_attribute, attributes_from, attribute_round, no_tuple,
}
use agentkubenetwork.Conntrack.Messages.Termination.{IsSettled, parse_messages-IsSettled}
use agentkubenetwork.Conntrack.Messages.Attributes.{
  laid_out, unpadded, visit_all, for_each_attribute-unpadded,
}

abbrev little : Platform
little = record { little_endian = true; address_text = λ b. b }

abbrev addresses : List (ℕ × Bytes)
addresses = (1, 10 ∷ 0 ∷ 0 ∷ 1 ∷ []) ∷ (2, 10 ∷ 0 ∷ 0 ∷ 2 ∷ []) ∷ []

abbrev ports : List (ℕ × Bytes)
ports = (1, 6 ∷ []) ∷ (2, 1 ∷ 0 ∷ []) ∷ (3, 0 ∷ 53 ∷ []) ∷ []

abbrev tuple_bytes : Bytes
tuple_bytes = laid_out little ((1, laid_out little addresses) ∷ (2, laid_out little ports) ∷ [])

abbrev entry_bytes : Bytes
entry_bytes = laid_out little ((1, tuple_bytes) ∷ (2, tuple_bytes) ∷ [])

-- A message of a size of less than 256 bytes, padded to a multiple of four by its payload.
abbrev message : ℕ → Bytes → Bytes
message type payload =
    (16 + length payload) ∷ 0 ∷ 0 ∷ 0 ∷ type ∷ 0 ∷ 2 ∷ 0 ∷ 0 ∷ 0 ∷ 0 ∷ 0 ∷ 0 ∷ 0 ∷ 0 ∷ 0 ∷ payload

abbrev dump : Bytes
dump = message 20 (0 ∷ 0 ∷ 0 ∷ 0 ∷ entry_bytes) ++ message 3 []

abbrev tuple : Tuple
tuple = record {
  protocol = 6;
  source = record { address = 10 ∷ 0 ∷ 0 ∷ 1 ∷ []; port = 256 };
  destination = record { address = 10 ∷ 0 ∷ 0 ∷ 2 ∷ []; port = 53 };
}

abbrev translated : Entry
translated = record { original = tuple; reply = tuple }

-- A message whose only attribute misses its padding.
abbrev cut_short : Bytes
cut_short = message 20 (0 ∷ 0 ∷ 0 ∷ 0 ∷ (unpadded little (9, 7 ∷ []) ++ [])) ++ (0 ∷ 0 ∷ 0 ∷ [])

parse_messages_test : parse_messages little dump ≡ ok (translated ∷ [], true)
unfolding parse_messages messages_from message_round take_message parse_entry visit_entry
    parse_tuple visit_tuple visit_protocol visit_address format_address for_each_attribute
    attributes_from attribute_round
parse_messages_test = refl

parse_messages_panic : parse_messages little cut_short ≡ err panic
unfolding parse_messages messages_from message_round take_message parse_entry visit_entry
    parse_tuple visit_tuple visit_protocol visit_address format_address for_each_attribute
    attributes_from attribute_round
parse_messages_panic = refl

parse_messages-IsSettled_example : IsSettled (parse_messages little dump)
parse_messages-IsSettled_example = parse_messages-IsSettled little dump

for_each_attribute-unpadded_example :
    for_each_attribute little
      (visit_address little)
      (laid_out little addresses ++ (unpadded little (9, 7 ∷ []) ++ []))
      no_tuple
    ≡ (visit_all little (visit_address little) addresses no_tuple >>= λ t.
        visit_address little 9 (7 ∷ []) t >>= λ u. err panic)
for_each_attribute-unpadded_example =
    for_each_attribute-unpadded little (visit_address little) addresses 9 (7 ∷ []) no_tuple
      ((omega arith, omega arith), ((omega arith, omega arith), tt)) (omega arith, omega arith)
      (λ e. absurd (omega (arith, e)))
