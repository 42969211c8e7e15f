-- ===== src/Whatap/Frame.antt =====
-- internal/whatap/protocol.go: the frame header. A field of a signed Go type is held as its bits, which
-- is what the conversions to and from the unsigned types keep.
use agentkubenetwork.Base.{
  ℕ, ◌+◌, ◌*◌, ◌/◌, ◌%◌, ◌<◌, ◌≡◌, refl, ◌==◌, ◌&&◌, ◌||◌, Bool, [], ◌∷◌, ◌++◌, length, drop, take,
  get_or, Bytes, u64, arith,
}
use agentkubenetwork.Base.Text.{be32}

abbrev pub u32 : ℕ
u32 = 4294967296

pub record FrameHeader : Type 0 where
  pub source : ℕ
  pub code : ℕ
  pub pcode : ℕ
  pub oid : ℕ
  pub transfer_key : ℕ
  pub size : ℕ

-- `binary.BigEndian.PutUint32`.
abbrev pub put32 : ℕ → Bytes
put32 n = n / 16777216 % 256 ∷ n / 65536 % 256 ∷ n / 256 % 256 ∷ n % 256 ∷ []

-- `binary.BigEndian.PutUint64`.
abbrev pub put64 : ℕ → Bytes
put64 n = put32 (n / u32) ++ put32 (n % u32)

unfoldable pub make_frame : ℕ → ℕ → ℕ → ℕ → Bytes → Bytes
make_frame code pcode oid transfer_key body =
    1
    ∷ code
    ∷ (put64 pcode ++ (put32 oid ++ (put32 transfer_key ++ (put32 (length body % u32) ++ body))))

unfoldable pub parse_header : Bytes → FrameHeader
parse_header raw = record {
  source = get_or raw 0 0;
  code = get_or raw 1 0;
  pcode = be32 raw 2 * u32 + be32 raw 6;
  oid = be32 raw 10;
  transfer_key = be32 raw 14;
  size = be32 raw 18;
}

unfoldable pub valid_identity : FrameHeader → ℕ → ℕ → Bool
valid_identity h pcode oid =
    (h.source == 1 || (h.source == 3 || h.source == 4)) && (h.pcode == pcode && h.oid == oid)

abbrev header_of : ℕ → ℕ → ℕ → ℕ → ℕ → ℕ → FrameHeader
header_of s c p o t z = record {
  source = s;
  code = c;
  pcode = p;
  oid = o;
  transfer_key = t;
  size = z;
}

header_of_fields :
    (s c p p' o o' t t' z z' : ℕ)
    → p ≡ p'
    → o ≡ o'
    → t ≡ t'
    → z ≡ z'
    → header_of s c p o t z ≡ header_of s c p' o' t' z'
header_of_fields s c p p' o o' t t' z z' e f g h = rw (e, f, g, h)

-- The first 22 bytes of a frame read back as what it was made of, from the agent as its source, and
-- the body stands behind them, while every field fits its width.
pub parse_header-make_frame :
    (code pcode oid transfer_key : ℕ) (body : Bytes)
    → pcode < u64
    → oid < u32
    → transfer_key < u32
    → length body < u32
    → (parse_header (take 22 (make_frame code pcode oid transfer_key body)) ≡ record {
      source = 1;
      code = code;
      pcode = pcode;
      oid = oid;
      transfer_key = transfer_key;
      size = length body;
    })
      × (drop 22 (make_frame code pcode oid transfer_key body) ≡ body)
unfolding make_frame parse_header
parse_header-make_frame code pcode oid transfer_key body p o t b = (
  header_of_fields 1 code _ _ _ _ _ _ _ _ (omega (arith, p)) (omega (arith, o)) (omega (arith, t))
      (omega (arith, b)),
  refl,
)
