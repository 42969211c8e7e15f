-- ===== src/Base/Text.antt =====
-- ASCII texts as bytes, decimal numbers, and big-endian fields.
use Prim.Native.Char.{code}
use Prim.Native.String.{String}
use agentkubenetwork.Base.{
  ℕ, zero, suc, ◌+◌, ◌*◌, ◌/◌, ◌%◌, ltb, if◌then◌else◌, [], ◌∷◌, Bytes, get_or,
}

-- The bytes of an ASCII text.
abbrev pub codes : String → Bytes
codes String.[] = []
codes (String.◌∷◌ c s) = code c ∷ codes s

-- `%d` of a number with at most `fuel + 1` digits.
unfoldable pub decimal_digits : ℕ → ℕ → Bytes → Bytes
decimal_digits zero n rest = (48 + n % 10) ∷ rest
decimal_digits (suc fuel) n rest =
    let more = decimal_digits fuel (n / 10) ((48 + n % 10) ∷ rest) in
    if ltb n 10 then (48 + n) ∷ rest else more

-- `%d` of a uint8 or uint16: at most five digits.
unfoldable pub decimal : ℕ → Bytes
unfolding decimal_digits
decimal n = decimal_digits 4 n []

-- `binary.BigEndian.Uint16(data[i:i+2])`, for an index in range.
abbrev pub be16 : Bytes → ℕ → ℕ
be16 bytes i = get_or bytes i 0 * 256 + get_or bytes (i + 1) 0

-- `binary.BigEndian.Uint32(data[i:i+4])`, for an index in range.
abbrev pub be32 : Bytes → ℕ → ℕ
be32 bytes i = be16 bytes i * 65536 + be16 bytes (i + 2)
