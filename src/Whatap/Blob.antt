-- ===== src/Whatap/Blob.antt =====
-- internal/whatap/license.go: `takeBlob`, golib's length-prefixed bytes.
use agentkubenetwork.Base.{
  ℕ, ◌+◌, ◌-◌, ◌/◌, ◌%◌, ◌≤◌, ◌<◌, ◌≡◌, ap, ◌∙◌, ◌==◌, ltb, ◌||◌, false, Result-cases, inl, inr,
  ◌⊎◌, ◌≢◌, ℕ_discrete, subst, get_or, get_or-append, sym, drop_append, length-drop, drop-drop,
  take-append, drop-append, if◌then◌else◌, [], ◌∷◌, ◌++◌, length, length-append, drop, take, Bytes,
  Result, ok, err, ◌>>=◌, arith,
}
use mathlib.Core.Path.{ap₂}
use agentkubenetwork.Base.Text.{be16, be32}
use agentkubenetwork.Whatap.Cipher.{take-drop, length-take}
use agentkubenetwork.Whatap.Frame.{put32, u32}

pub data BlobError : Type 0 where
  truncated_blob truncated_length invalid_blob_length : BlobError

-- The length of the prefix and of the blob behind it.
unfoldable pub blob_size : Bytes → Result BlobError (ℕ × ℕ)
blob_size [] = err truncated_blob
blob_size (c ∷ later) =
    if c == 255
    then if ltb (length later) 2 then err truncated_length else ok (3, be16 later 0)
    else if c == 254
    then if ltb (length later) 4 then err truncated_length else ok (5, be32 later 0)
    else ok (1, c)

unfoldable pub cut_blob : Bytes → ℕ → ℕ × ℕ → Result BlobError (Bytes × Bytes)
cut_blob bytes max (prefix, size) =
    if ltb max size || ltb (length bytes - prefix) size
    then err invalid_blob_length
    else ok (take size (drop prefix bytes), drop (prefix + size) bytes)

unfoldable pub take_blob : Bytes → ℕ → Result BlobError (Bytes × Bytes)
take_blob bytes max = blob_size bytes >>= cut_blob bytes max

-- The prefix of a blob: one byte up to 253, two more bytes up to 65535, else four more.
abbrev pub blob_prefix : ℕ → Bytes
blob_prefix n =
    if ltb n 254
    then n ∷ []
    else if ltb n 65536
    then 255 ∷ n / 256 ∷ n % 256 ∷ []
    else 254 ∷ put32 n

blob_size-prefix :
    (n : ℕ) (rest : Bytes)
    → n < u32
    → blob_size (blob_prefix n ++ rest) ≡ ok (length (blob_prefix n), n)
unfolding blob_size
blob_size-prefix n rest h = ground (arith, h)

cut_blob-append :
    (p blob rest : Bytes) (max : ℕ)
    → length blob ≤ max
    → cut_blob (p ++ (blob ++ rest)) max (length p, length blob) ≡ ok (blob, rest)
unfolding cut_blob
cut_blob-append p blob rest max h =
    let whole = p ++ (blob ++ rest) in
    let size : length whole ≡ length p + (length blob + length rest) =
      omega (arith, length-append p (blob ++ rest), length-append blob rest) in
    let behind : drop (length p) whole ≡ blob ++ rest = drop-append p (blob ++ rest) in
    let fits : (ltb max (length blob) || ltb (length whole - length p) (length blob)) ≡ false =
      ground (arith, h, size) in
    let taken : take (length blob) (drop (length p) whole) ≡ blob =
      ap (take (length blob)) behind ∙ take-append blob rest in
    rw (fits, taken, drop_append (length p) whole blob rest behind)

-- A blob behind its prefix is taken back, and what follows it is left, up to the limit.
pub take_blob-prefix :
    (blob rest : Bytes) (max : ℕ)
    → length blob ≤ max
    → max < u32
    → take_blob (blob_prefix (length blob) ++ (blob ++ rest)) max ≡ ok (blob, rest)
unfolding take_blob
take_blob-prefix blob rest max h m =
    let p = blob_prefix (length blob) in
    ap (λ r. r >>= cut_blob (p ++ (blob ++ rest)) max)
      (blob_size-prefix (length blob) (blob ++ rest) (omega (arith, h, m)))
    ∙ cut_blob-append p blob rest max h

-- What a prefix says: its own length, and that of the blob behind it.
abbrev pub Announces : Bytes → ℕ → ℕ → Type 0
Announces bytes prefix size =
    ((prefix ≡ 1) × (size ≢ 254) × (size ≢ 255) × (get_or bytes 0 0 ≡ size))
    ⊎ ((prefix ≡ 3) × (get_or bytes 0 0 ≡ 255) × (be16 bytes 1 ≡ size))
    ⊎ ((prefix ≡ 5) × (get_or bytes 0 0 ≡ 254) × (be32 bytes 1 ≡ size))

blob_size_within :
    (bytes : Bytes) (prefix size : ℕ)
    → blob_size bytes ≡ ok (prefix, size)
    → (prefix ≤ length bytes) × Announces bytes prefix size
unfolding blob_size
blob_size_within [] prefix size e = absurd (cc)
blob_size_within (c ∷ later) prefix size e = elim (ℕ_discrete c 255) [
  | yes a ↦ ground (arith, a, e)
  | no a ↦ elim (ℕ_discrete c 254) [ yes b ↦ ground (arith, b, e) | no b ↦ ground (arith, a, b, e) ]
]

Announces-append :
    (p rest : Bytes) (size : ℕ)
    → Announces (p ++ rest) (length p) size
    → Announces p (length p) size
Announces-append p rest size (inl (one, a, b, h)) =
    inl (one, a, b, ground (arith, get_or-append p rest 0 0, h))
Announces-append p rest size (inr (inl (three, a, h))) =
    let at = λ (i : ℕ) (v : i < length p). get_or-append p rest i 0 v in
    inr (
      inl (
        three,
        sym (at 0 (omega arith)) ∙ a,
        omega (arith, h, at 1 (omega arith), at 2 (omega arith)),
      ))
Announces-append p rest size (inr (inr (five, a, h))) =
    let at = λ (i : ℕ) (v : i < length p). get_or-append p rest i 0 v in
    inr (
      inr (
        five,
        sym (at 0 (omega arith)) ∙ a,
        omega (
          arith,
          h,
          at 1 (omega arith),
          at 2 (omega arith),
          at 3 (omega arith),
          at 4 (omega arith),
        ),
      ))

cut_blob_within :
    (bytes blob rest : Bytes) (max prefix size : ℕ)
    → cut_blob bytes max (prefix, size) ≡ ok (blob, rest)
    → (size ≤ max)
      × (size ≤ length bytes - prefix)
      × (take size (drop prefix bytes) ≡ blob)
      × (drop (prefix + size) bytes ≡ rest)
unfolding cut_blob
cut_blob_within bytes blob rest max prefix size e = ground (arith, e)

-- Whatever bytes are given: what is taken is within the limit, and stands with the rest behind a
-- prefix. The prefix is one byte below 254, which is the length of what is taken, or 255 and this length
-- in two bytes, or 254 and this length in four.
pub take_blob_within :
    (bytes blob rest : Bytes) (max : ℕ)
    → take_blob bytes max ≡ ok (blob, rest)
    → (length blob ≤ max)
      × ((prefix : Bytes) × (bytes ≡ prefix ++ (blob ++ rest))
          × Announces prefix (length prefix) (length blob))
unfolding take_blob
take_blob_within bytes blob rest max e = elim (Result-cases (blob_size bytes)) [
  | inr (x, bad) ↦ absurd (ground (arith, bad, e))
  | inl ((n, size), good) ↦
      let p = blob_size_within bytes n size good in
      let cut : cut_blob bytes max (n, size) ≡ ok (blob, rest) =
        sym (ap (λ r. r >>= cut_blob bytes max) good) ∙ e in
      let c = cut_blob_within bytes blob rest max n size cut in
      let sized : length blob ≡ size =
        sym (ap length c.2)
        ∙ length-take size (drop n bytes) (omega (arith, c.1, length-drop n bytes)) in
      let prefix = take n bytes in
      let long : length prefix ≡ n = length-take n bytes p.0 in
      let whole : bytes ≡ prefix ++ (blob ++ rest) =
        sym (take-drop n bytes)
        ∙ ap (◌++◌ prefix)
            (sym (take-drop size (drop n bytes)) ∙ ap₂ (◌++◌) c.2 (drop-drop n size bytes ∙ c.3)) in
      let says : Announces (prefix ++ (blob ++ rest)) (length prefix) (length blob) =
        subst (λ b. Announces b (length prefix) (length blob)) whole
          (subst (λ k. Announces bytes k (length blob)) (sym long)
            (subst (λ k. Announces bytes n k) (sym sized) p.1)) in
      (
        omega (arith, sized, c.0),
        (prefix, whole, Announces-append prefix (blob ++ rest) (length blob) says),
      )
]
