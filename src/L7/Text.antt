-- ===== src/L7/Text.antt =====
-- The functions of strings, bytes and strconv that internal/l7 uses.
use agentkubenetwork.Base.{
  ℕ, ◌+◌, ◌-◌, ◌*◌, ◌==◌, ltb, leb, ◌&&◌, ◌||◌, Bool, true, false, if◌then◌else◌, List, [], ◌∷◌,
  Option, none, some, Bytes,
}

-- `strings.HasPrefix(text, prefix)`.
abbrev pub has_prefix : Bytes → Bytes → Bool
has_prefix text [] = true
has_prefix [] (p ∷ ps) = false
has_prefix (c ∷ cs) (p ∷ ps) = c == p && has_prefix cs ps

-- The text before the first `byte`, or all of it.
abbrev pub before_byte : ℕ → Bytes → Bytes
before_byte byte [] = []
before_byte byte (c ∷ cs) = if c == byte then [] else c ∷ before_byte byte cs

-- A text without its first bytes, as many as another has.
abbrev pub skip : Bytes → Bytes → Bytes
skip [] s = s
skip (t ∷ ts) [] = []
skip (t ∷ ts) (x ∷ s) = skip ts s

-- What stands behind the first occurrence of a text that is not empty.
abbrev pub behind : Bytes → Bytes → Option Bytes
behind text [] = none
behind text (c ∷ cs) =
    if has_prefix (c ∷ cs) text then some (skip text (c ∷ cs)) else behind text cs

-- The text before the first "\r\n", or all of it.
abbrev pub before_crlf : Bytes → Bytes
before_crlf [] = []
before_crlf (c ∷ cs) = if has_prefix (c ∷ cs) (13 ∷ 10 ∷ []) then [] else c ∷ before_crlf cs

-- The text cut at its first `n` spaces: `strings.SplitN(text, " ", n + 1)`.
abbrev pub add_to_first : ℕ → List Bytes → List Bytes
add_to_first c [] = (c ∷ []) ∷ []
add_to_first c (w ∷ ws) = (c ∷ w) ∷ ws

unfoldable pub split_spaces : ℕ → Bytes → List Bytes
split_spaces n [] = [] ∷ []
split_spaces n (c ∷ cs) =
    if c == 32 && ltb 0 n then [] ∷ split_spaces (n - 1) cs else add_to_first c (split_spaces n cs)

abbrev pub digits_from : ℕ → Bytes → Option ℕ
digits_from n [] = some n
digits_from n (c ∷ cs) =
    let more = digits_from (n * 10 + (c - 48)) cs in if leb 48 c && leb c 57 then more else none

-- `strconv.ParseUint(text, 10, 16)`, its error as none.
abbrev pub below_u16 : Option ℕ → Option ℕ
below_u16 none = none
below_u16 (some n) = if ltb n 65536 then some n else none

unfoldable pub parse_u16 : Bytes → Option ℕ
parse_u16 [] = none
parse_u16 (c ∷ cs) = below_u16 (digits_from 0 (c ∷ cs))

-- `left < right` on strings.
abbrev pub bytes_less : Bytes → Bytes → Bool
bytes_less [] [] = false
bytes_less [] (d ∷ ds) = true
bytes_less (c ∷ cs) [] = false
bytes_less (c ∷ cs) (d ∷ ds) = ltb c d || (c == d && bytes_less cs ds)
