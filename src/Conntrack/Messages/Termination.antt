-- ===== src/Conntrack/Messages/Termination.antt =====
-- The loops over messages and attributes end within their fuel.
use agentkubenetwork.Base.{
  ℕ, zero, suc, ◌-◌, ◌/◌, ◌%◌, ◌≤◌, ◌<◌, ◌≡◌, ◌≢◌, refl, ◌==◌, ltb, leb, not, ◌&&◌, ◌||◌, Bool,
  true, false, if◌then◌else◌, List, [], length, length-drop, take, drop, Bytes, Result, ok, err,
  ◌>>=◌, arith,
}
use agentkubenetwork.Conntrack.Types.{Tuple, Entry}
use agentkubenetwork.Conntrack.Messages.{
  DumpError, stuck, Platform, native16, native32, align4, attribute_round, attributes_from,
  for_each_attribute, visit_address, visit_protocol, visit_tuple, visit_entry, parse_tuple,
  parse_entry, take_message, message_round, messages_from, parse_messages, Reading, EntryReading,
}

-- Not out of fuel.
abbrev pub IsSettled : {A : Type 0} → Result DumpError A → Type 0
IsSettled r = r ≢ err stuck

ok-IsSettled : {A : Type 0} (a : A) → IsSettled (ok a)
ok-IsSettled a e = absurd (cc)

bind-IsSettled :
    {A B : Type 0} (r : Result DumpError A) (f : A → Result DumpError B)
    → IsSettled r
    → ((a : A) → IsSettled (f a))
    → IsSettled (r >>= f)
bind-IsSettled (ok a) f h k = k a
bind-IsSettled (err e) f h k = λ g. h (ground (arith, g))

-- A test between two results that are settled.
if-IsSettled :
    {A : Type 0} (b : Bool) (x y : Result DumpError A)
    → (b ≡ true → IsSettled x)
    → (b ≡ false → IsSettled y)
    → IsSettled (if b then x else y)
if-IsSettled true x y h k = h refl
if-IsSettled false x y h k = k refl

module _ (p : Platform) {S : Type 0} (visit : ℕ → Bytes → S → Result DumpError S)
    (calm : (type : ℕ) (value : Bytes) (t : S) → IsSettled (visit type value t)) where
  attribute_round-IsSettled :
      (bytes : Bytes) (s : S) (next : Bytes → S → Result DumpError S)
      → ((n : ℕ) (t : S) → 4 ≤ n → n ≤ length bytes → IsSettled (next (drop n bytes) t))
      → IsSettled (attribute_round p visit bytes s next)
  unfolding attribute_round
  attribute_round-IsSettled bytes s next later =
      let size = native16 p bytes 0 in
      if-IsSettled (ltb (length bytes) 4 || (ltb size 4 || ltb (length bytes) size)) _ _
        (λ e. ok-IsSettled s)
        (λ goes.
          bind-IsSettled (visit (native16 p bytes 2 % 16384) (take (size - 4) (drop 4 bytes)) s) _
            (calm _ _ s)
            (λ t.
              if-IsSettled (ltb (length bytes) (align4 size)) _ _ (λ e g. absurd (cc))
                (λ fits. later (align4 size) t (ground (arith, goes)) (ground (arith, fits)))))

  attributes_from-IsSettled :
      (fuel : ℕ) (bytes : Bytes) (s : S)
      → length bytes < fuel
      → IsSettled (attributes_from p visit fuel bytes s)
  unfolding attributes_from
  attributes_from-IsSettled zero bytes s h = absurd (omega (arith, h))
  attributes_from-IsSettled (suc fuel) bytes s h =
      attribute_round-IsSettled bytes s (λ b t. attributes_from p visit fuel b t)
        (λ n t low high.
          attributes_from-IsSettled fuel (drop n bytes) t
            (omega (arith, h, low, high, length-drop n bytes)))

  pub for_each_attribute-IsSettled :
      (bytes : Bytes) (s : S) → IsSettled (for_each_attribute p visit bytes s)
  unfolding for_each_attribute
  for_each_attribute-IsSettled bytes s =
      attributes_from-IsSettled (suc (length bytes)) bytes s (omega arith)

module _ (p : Platform) where
  visit_address-IsSettled :
      (type : ℕ) (value : Bytes) (t : Tuple) → IsSettled (visit_address p type value t)
  unfolding visit_address
  visit_address-IsSettled type value t e = ground (arith, e)

  visit_protocol-IsSettled :
      (type : ℕ) (value : Bytes) (r : Reading) → IsSettled (visit_protocol p type value r)
  unfolding visit_protocol
  visit_protocol-IsSettled type value r e = ground (arith, e)

  visit_tuple-IsSettled :
      (type : ℕ) (value : Bytes) (r : Reading) → IsSettled (visit_tuple p type value r)
  unfolding visit_tuple
  visit_tuple-IsSettled type value r =
      if-IsSettled (type == 1) _ _
        (λ e.
          bind-IsSettled (for_each_attribute p (visit_address p) value r.tuple) _
            (for_each_attribute-IsSettled p (visit_address p) visit_address-IsSettled value r.tuple)
            (λ t. ok-IsSettled _))
        (λ e.
          if-IsSettled (type == 2) _ _
            (λ f.
              for_each_attribute-IsSettled p (visit_protocol p) visit_protocol-IsSettled value r)
            (λ f. ok-IsSettled r))

  parse_tuple-IsSettled : (bytes : Bytes) → IsSettled (parse_tuple p bytes)
  unfolding parse_tuple
  parse_tuple-IsSettled bytes =
      for_each_attribute-IsSettled p (visit_tuple p) visit_tuple-IsSettled bytes _

  visit_entry-IsSettled :
      (type : ℕ) (value : Bytes) (r : EntryReading) → IsSettled (visit_entry p type value r)
  unfolding visit_entry
  visit_entry-IsSettled type value r =
      let read = parse_tuple-IsSettled value in
      if-IsSettled (type == 1) _ _
        (λ e. bind-IsSettled (parse_tuple p value) _ read (λ t.
          if-IsSettled (t.have_addresses && t.have_protocol) _ _ (λ g. ok-IsSettled _)
            (λ g. ok-IsSettled _)))
        (λ e.
          if-IsSettled (type == 2) _ _
            (λ f. bind-IsSettled (parse_tuple p value) _ read (λ t.
              if-IsSettled (t.have_addresses && t.have_protocol) _ _ (λ g. ok-IsSettled _)
                (λ g. ok-IsSettled _)))
            (λ f. ok-IsSettled r))

  parse_entry-IsSettled : (bytes : Bytes) → IsSettled (parse_entry p bytes)
  unfolding parse_entry
  parse_entry-IsSettled bytes =
      for_each_attribute-IsSettled p (visit_entry p) visit_entry-IsSettled bytes _

  take_message-IsSettled :
      (type : ℕ) (payload : Bytes) (s : List Entry × Bool)
      → IsSettled (take_message p type payload s)
  unfolding take_message
  take_message-IsSettled type payload (entries, done) =
      let read = parse_entry-IsSettled (drop 4 payload) in
      if-IsSettled (type == 3) _ _ (λ e g. ground (arith, g))
        (λ e.
          if-IsSettled (type == 2) _ _ (λ f g. ground (arith, g))
            (λ f.
              if-IsSettled (leb (length payload) 4) _ _ (λ h. ok-IsSettled _)
                (λ h. bind-IsSettled (parse_entry p (drop 4 payload)) _ read (λ r.
                  if-IsSettled (r.have_original && r.have_reply) _ _ (λ g. ok-IsSettled _)
                    (λ g. ok-IsSettled _)))))

  message_round-IsSettled :
      (bytes : Bytes) (s : List Entry × Bool)
      (next : Bytes → List Entry × Bool → Result DumpError (List Entry × Bool))
      → ((n : ℕ) (t : List Entry × Bool)
          → 16 ≤ n
          → n ≤ length bytes
          → IsSettled (next (drop n bytes) t))
      → IsSettled (message_round p bytes s next)
  unfolding message_round
  message_round-IsSettled bytes s next later =
      let size = native32 p bytes 0 in
      if-IsSettled (ltb (length bytes) 16) _ _ (λ e g. ground (arith, g))
        (λ long.
          if-IsSettled (ltb size 16 || ltb (length bytes) size) _ _ (λ e g. absurd (cc))
            (λ sized.
              if-IsSettled (not (native16 p bytes 6 / 16 % 2 == 0)) _ _ (λ e g. absurd (cc))
                (λ whole.
                  bind-IsSettled
                    (take_message p (native16 p bytes 4) (take (size - 16) (drop 16 bytes)) s) _
                    (take_message-IsSettled _ _ s)
                    (λ t.
                      if-IsSettled (ltb (length bytes) (align4 size)) _ _ (λ e g. absurd (cc))
                        (λ fits.
                          later (align4 size) t (ground (arith, sized)) (ground (arith, fits)))))))

  messages_from-IsSettled :
      (fuel : ℕ) (bytes : Bytes) (s : List Entry × Bool)
      → length bytes < fuel
      → IsSettled (messages_from p fuel bytes s)
  unfolding messages_from
  messages_from-IsSettled zero bytes s h = absurd (omega (arith, h))
  messages_from-IsSettled (suc fuel) bytes s h =
      message_round-IsSettled bytes s (λ b t. messages_from p fuel b t)
        (λ n t low high.
          messages_from-IsSettled fuel (drop n bytes) t
            (omega (arith, h, low, high, length-drop n bytes)))

-- Whatever bytes are received, the loops over messages, attributes, addresses and ports end within
-- their fuel.
pub parse_messages-IsSettled : (p : Platform) (bytes : Bytes) → IsSettled (parse_messages p bytes)
unfolding parse_messages
parse_messages-IsSettled p bytes =
    messages_from-IsSettled p (suc (length bytes)) bytes ([], false) (omega arith)
