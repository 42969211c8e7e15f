-- ===== src/Conntrack/Messages.antt =====
-- internal/conntrack/conntrack.go: the ctnetlink messages of a dump. The machine's byte order and the
-- text of an IP address (net.IP.String) are parameters. A slice expression out of range panics, which
-- is an error here; int is wide enough for a 32-bit length.
pub mod Termination
pub mod Attributes
pub mod Tests
use agentkubenetwork.Base.{
  ℕ, zero, suc, ◌+◌, ◌-◌, ◌*◌, ◌/◌, ◌%◌, ◌==◌, ltb, leb, not, ◌&&◌, ◌||◌, Bool, true, false,
  if◌then◌else◌, List, [], ◌∷◌, ◌++◌, length, take, drop, get_or, Bytes, Result, ok, err, ◌>>=◌,
}
use agentkubenetwork.Base.Text.{be16}
use agentkubenetwork.Flow.Types.{Endpoint}
use agentkubenetwork.Conntrack.Types.{Tuple, Entry}

-- The errors of `parseMessages`, and a panic. `stuck` is none of them: it would mean that the fuel ran
-- out.
pub data DumpError : Type 0 where
  invalid_length interrupted short_done short_error bad_padding bad_header : DumpError
  done_status error_status : ℕ → DumpError
  panic stuck : DumpError

pub record Platform : Type 0 where
  pub little_endian : Bool
  pub address_text : Bytes → Bytes

-- `binary.NativeEndian.Uint16` and `Uint32` at an index in range.
abbrev pub native16 : Platform → Bytes → ℕ → ℕ
native16 p bytes i =
    if p.little_endian then get_or bytes (i + 1) 0 * 256 + get_or bytes i 0 else be16 bytes i

abbrev pub native32 : Platform → Bytes → ℕ → ℕ
native32 p bytes i =
    if p.little_endian
    then native16 p bytes (i + 2) * 65536 + native16 p bytes i
    else native16 p bytes i * 65536 + native16 p bytes (i + 2)

abbrev pub align4 : ℕ → ℕ
align4 n = (n + 3) / 4 * 4

-- A tuple while it is read, and what was seen of it.
pub record Reading : Type 0 where
  pub tuple : Tuple
  pub have_addresses : Bool
  pub have_protocol : Bool

pub record EntryReading : Type 0 where
  pub entry : Entry
  pub have_original : Bool
  pub have_reply : Bool

abbrev pub is_set : Bytes → Bool
is_set [] = false
is_set (b ∷ bs) = true

abbrev pub no_tuple : Tuple
no_tuple = record {
  protocol = 0;
  source = record { address = []; port = 0 };
  destination = record { address = []; port = 0 };
}

module _ (p : Platform) where
  module _ {S : Type 0} (visit : ℕ → Bytes → S → Result DumpError S) where
    -- One round of the loop over the attributes, with what the later rounds return.
    unfoldable pub attribute_round :
        Bytes → S → (Bytes → S → Result DumpError S) → Result DumpError S
    attribute_round bytes s next =
        let size = native16 p bytes 0 in
        if ltb (length bytes) 4 || (ltb size 4 || ltb (length bytes) size)
        then ok s
        else visit (native16 p bytes 2 % 16384) (take (size - 4) (drop 4 bytes)) s >>= λ t.
            if ltb (length bytes) (align4 size)
            then err panic
            else next (drop (align4 size) bytes) t

    unfoldable pub attributes_from : ℕ → Bytes → S → Result DumpError S
    attributes_from zero bytes s = err stuck
    attributes_from (suc fuel) bytes s = attribute_round bytes s (λ b t. attributes_from fuel b t)

    -- Every round that goes on drops at least four bytes: one more round than bytes is fuel enough.
    unfoldable pub for_each_attribute : Bytes → S → Result DumpError S
    for_each_attribute bytes s = attributes_from (suc (length bytes)) bytes s

  unfoldable pub format_address : Bytes → Bytes
  format_address value =
      if length value == 4 || length value == 16 then p.address_text value else []

  unfoldable pub visit_address : ℕ → Bytes → Tuple → Result DumpError Tuple
  visit_address type value t =
      if type == 1 || type == 3
      then ok (record t { source = record t.source { address = format_address value } })
      else if type == 2 || type == 4
      then ok (record t { destination = record t.destination { address = format_address value } })
      else ok t

  unfoldable pub visit_protocol : ℕ → Bytes → Reading → Result DumpError Reading
  visit_protocol type value r =
      let t = r.tuple in
      if type == 1
      then if ltb (length value) 1
        then ok r
        else ok
            (record r { tuple = record t { protocol = get_or value 0 0 }; have_protocol = true })
      else if type == 2
      then if ltb (length value) 2
        then ok r
        else ok (record r { tuple = record t { source = record t.source { port = be16 value 0 } } })
      else if type == 3
      then if ltb (length value) 2
        then ok r
        else ok (record r {
          tuple = record t { destination = record t.destination { port = be16 value 0 } };
        })
      else ok r

  unfoldable pub visit_tuple : ℕ → Bytes → Reading → Result DumpError Reading
  visit_tuple type value r =
      if type == 1
      then for_each_attribute visit_address value r.tuple >>= (λ t. ok (record r {
        tuple = t;
        have_addresses = is_set t.source.address && is_set t.destination.address;
      }))
      else if type == 2
      then for_each_attribute visit_protocol value r
      else ok r

  unfoldable pub parse_tuple : Bytes → Result DumpError Reading
  parse_tuple bytes =
      for_each_attribute visit_tuple bytes
        (record { tuple = no_tuple; have_addresses = false; have_protocol = false })

  unfoldable pub visit_entry : ℕ → Bytes → EntryReading → Result DumpError EntryReading
  visit_entry type value r =
      if type == 1
      then parse_tuple value >>= (λ t.
        if t.have_addresses && t.have_protocol
        then ok (record r { entry = record r.entry { original = t.tuple }; have_original = true })
        else ok r)
      else if type == 2
      then parse_tuple value >>= (λ t.
        if t.have_addresses && t.have_protocol
        then ok (record r { entry = record r.entry { reply = t.tuple }; have_reply = true })
        else ok r)
      else ok r

  unfoldable pub parse_entry : Bytes → Result DumpError EntryReading
  parse_entry bytes = for_each_attribute visit_entry bytes (record {
    entry = record { original = no_tuple; reply = no_tuple };
    have_original = false;
    have_reply = false;
  })

  -- What one message does to the entries and the mark of the end.
  unfoldable pub take_message : ℕ → Bytes → List Entry × Bool → Result DumpError (List Entry × Bool)
  take_message type payload (entries, done) =
      let status = native32 p payload 0 in
      if type == 3
      then if length payload == 0
        then ok (entries, true)
        else if ltb (length payload) 4
        then err short_done
        else if not (status == 0)
        then err (done_status status)
        else ok (entries, true)
      else if type == 2
      then if ltb (length payload) 4
        then err short_error
        else if not (status == 0)
        then err (error_status status)
        else ok (entries, done)
      else if leb (length payload) 4
      then ok (entries, done)
      else parse_entry (drop 4 payload) >>= λ r.
          if r.have_original && r.have_reply
          then ok (entries ++ (r.entry ∷ []), done)
          else ok (entries, done)

  -- One round of the loop over the messages.
  unfoldable pub message_round :
      Bytes
      → List Entry × Bool
      → (Bytes → List Entry × Bool → Result DumpError (List Entry × Bool))
      → Result DumpError (List Entry × Bool)
  message_round bytes s next =
      let size = native32 p bytes 0 in
      if ltb (length bytes) 16
      then if length bytes == 0 then ok s else err bad_header
      else if ltb size 16 || ltb (length bytes) size
      then err invalid_length
      else if not (native16 p bytes 6 / 16 % 2 == 0)
      then err interrupted
      else take_message (native16 p bytes 4) (take (size - 16) (drop 16 bytes)) s >>= λ t.
          if ltb (length bytes) (align4 size)
          then err bad_padding
          else next (drop (align4 size) bytes) t

  unfoldable pub messages_from :
      ℕ → Bytes → List Entry × Bool → Result DumpError (List Entry × Bool)
  messages_from zero bytes s = err stuck
  messages_from (suc fuel) bytes s = message_round bytes s (λ b t. messages_from fuel b t)

  unfoldable pub parse_messages : Bytes → Result DumpError (List Entry × Bool)
  parse_messages bytes = messages_from (suc (length bytes)) bytes ([], false)
