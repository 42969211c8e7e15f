-- ===== src/Whatap/KeyReply.antt =====
-- internal/whatap/protocol.go: `decodeKeyReply`. The session cipher is held as its key, from which
-- crypto/aes makes it: a key of 16 bytes is always accepted there.
use agentkubenetwork.Base.{
  ℕ, zero, suc, ◌+◌, ◌-◌, ◌*◌, ◌/◌, ◌%◌, ◌≤◌, ◌<◌, ◌≡◌, ◌≢◌, refl, sym, ap, subst, ◌∙◌, ◌==◌, ltb,
  leb, not, ◌&&◌, ◌||◌, Bool, true, false, Bool-cases, inl, inr, if◌then◌else◌, [], ◌∷◌, ◌++◌,
  length, length-append, drop, drop-append, replicate, Bytes, Result, ok, err, arith, append_assoc,
}
use mathlib.Core.Path.{ap₂}
use agentkubenetwork.Base.Text.{be32}
use agentkubenetwork.Whatap.Frame.{put32, u32}
use agentkubenetwork.Whatap.Cipher.{
  CipherError, invalid_length, decrypt_ecb, encrypt_ecb, Inverse, decrypt_ecb-encrypt_ecb,
  length-encrypt_ecb, length-replicate,
}
use agentkubenetwork.Whatap.Blob.{BlobError, take_blob, take_blob-prefix, blob_prefix}

pub data KeyReplyError : Type 0 where
  oversized invalid_reply invalid_session_key invalid_padding : KeyReplyError

unfoldable pub all_zero : Bytes → Bool
all_zero [] = true
all_zero (b ∷ bs) = b == 0 && all_zero bs

-- Past the blob of the session key.
unfoldable pub accept_key : ℕ → Result BlobError (Bytes × Bytes) → Result KeyReplyError (ℕ × Bytes)
accept_key transfer_key (err e) = err invalid_session_key
accept_key transfer_key (ok (key, rest)) =
    if transfer_key == 0
      || (not (length key == 16) || (ltb (length rest) 8 || leb 16 (length rest - 8)))
    then err invalid_session_key
    else if not (all_zero (drop 8 rest))
    then err invalid_padding
    else ok (transfer_key, key)

-- Past the decryption.
unfoldable pub read_reply : Result CipherError Bytes → Result KeyReplyError (ℕ × Bytes)
read_reply (err e) = err invalid_reply
read_reply (ok plain) =
    if ltb (length plain) 4
    then err invalid_reply
    else accept_key (be32 plain 0) (take_blob (drop 4 plain) 16)

unfoldable pub decode_key_reply : (Bytes → Bytes) → Bytes → Result KeyReplyError (ℕ × Bytes)
decode_key_reply decrypt body =
    if ltb 1024 (length body) then err oversized else read_reply (decrypt_ecb decrypt body)

replicate_zero : (n : ℕ) → all_zero (replicate n 0) ≡ true
unfolding all_zero
replicate_zero zero = refl
replicate_zero (suc n) = ground (arith, replicate_zero n)

-- A reply: the transfer key, the session key behind its length, eight bytes that are not used.
abbrev pub reply_of : ℕ → Bytes → Bytes → Bytes
reply_of transfer_key key unused = put32 transfer_key ++ (16 ∷ (key ++ unused))

all_zero-append :
    (xs ys : Bytes) → all_zero xs ≡ true → all_zero ys ≡ true → all_zero (xs ++ ys) ≡ true
unfolding all_zero
all_zero-append [] ys h k = k
all_zero-append (x ∷ xs) ys h k = ground (arith, h, all_zero-append xs ys, k)

accept_key_lem :
    (transfer_key : ℕ) (key rest : Bytes)
    → transfer_key ≢ 0
    → length key ≡ 16
    → 8 ≤ length rest
    → length rest < 24
    → all_zero (drop 8 rest) ≡ true
    → accept_key transfer_key (ok (key, rest)) ≡ ok (transfer_key, key)
unfolding accept_key
accept_key_lem transfer_key key rest t k h l z = ground (arith, t, k, h, l, z)

be32-put32 : (n : ℕ) (rest : Bytes) → n < u32 → be32 (put32 n ++ rest) 0 ≡ n
be32-put32 n rest h = omega (arith, h)

read_reply_lem :
    (transfer_key : ℕ) (key unused zeros : Bytes)
    → transfer_key < u32
    → transfer_key ≢ 0
    → length key ≡ 16
    → length unused ≡ 8
    → length zeros < 16
    → all_zero zeros ≡ true
    → read_reply (ok (put32 transfer_key ++ (16 ∷ (key ++ (unused ++ zeros)))))
      ≡ ok (transfer_key, key)
unfolding read_reply
read_reply_lem transfer_key key unused zeros b t k u l z =
    let plain : Bytes = put32 transfer_key ++ (16 ∷ (key ++ (unused ++ zeros))) in
    let taken : take_blob (16 ∷ (key ++ (unused ++ zeros))) 16 ≡ ok (key, unused ++ zeros) =
      subst
        (λ n.
          take_blob (blob_prefix n ++ (key ++ (unused ++ zeros))) 16 ≡ ok (key, unused ++ zeros))
        k (take_blob-prefix key (unused ++ zeros) 16 (omega (arith, k)) (omega arith)) in
    let behind : drop 8 (unused ++ zeros) ≡ zeros =
      subst (λ n. drop n (unused ++ zeros) ≡ zeros) u (drop-append unused zeros) in
    let size = length-append unused zeros in
    let long : ltb (length plain) 4 ≡ false = ground arith in
    rw long (
      ap₂ accept_key (be32-put32 transfer_key (16 ∷ (key ++ (unused ++ zeros))) b) taken
      ∙ accept_key_lem transfer_key key (unused ++ zeros) t k (omega (arith, size, u))
          (omega (arith, size, u, l)) (ap all_zero behind ∙ z))

-- A reply that the master cipher encrypted reads back as its transfer key and session key, when the
-- transfer key is not 0 and fits 32 bits and the session key has 16 bytes.
pub decode_key_reply-encrypt_ecb :
    (encrypt decrypt : Bytes → Bytes)
    → Inverse encrypt decrypt
    → (transfer_key : ℕ) (key unused : Bytes) → transfer_key < u32
    → transfer_key ≢ 0
    → length key ≡ 16
    → length unused ≡ 8
    → decode_key_reply decrypt (encrypt_ecb encrypt (reply_of transfer_key key unused))
      ≡ ok (transfer_key, key)
unfolding decode_key_reply
decode_key_reply-encrypt_ecb encrypt decrypt pair transfer_key key unused b t k u =
    let plain = reply_of transfer_key key unused in
    let size : length plain ≡ 29 = omega (arith, k, u, length-append key unused) in
    let zeros : Bytes = replicate ((length plain + 15) / 16 * 16 - length plain) 0 in
    let body = length-encrypt_ecb encrypt decrypt pair plain in
    let short : ltb 1024 (length (encrypt_ecb encrypt plain)) ≡ false =
      ground (arith, body, size) in
    let count = length-replicate ((length plain + 15) / 16 * 16 - length plain) 0 in
    rw short (
      ap read_reply (
        decrypt_ecb-encrypt_ecb encrypt decrypt pair plain
          (λ e. absurd (omega (arith, ap length e)))
        ∙ ap (λ (r : Bytes). ok (put32 transfer_key ++ (16 ∷ r))) (append_assoc key unused zeros))
      ∙ read_reply_lem transfer_key key unused zeros b t k u (omega (arith, size, count))
          (replicate_zero _))

accept_key_sound :
    (transfer_key : ℕ) (r : Result BlobError (Bytes × Bytes)) (tk : ℕ) (key : Bytes)
    → accept_key transfer_key r ≡ ok (tk, key)
    → (tk ≢ 0) × (length key ≡ 16)
unfolding accept_key
accept_key_sound transfer_key (err e) tk key h = absurd (cc)
accept_key_sound transfer_key (ok (k, rest)) tk key h = ground (arith, h)

read_reply_sound :
    (r : Result CipherError Bytes) (tk : ℕ) (key : Bytes)
    → read_reply r ≡ ok (tk, key)
    → (tk ≢ 0) × (length key ≡ 16)
unfolding read_reply
read_reply_sound (err e) tk key h = absurd (cc)
read_reply_sound (ok plain) tk key h = elim (Bool-cases (ltb (length plain) 4)) [
  | inl short ↦ absurd (ground (arith, short, h))
  | inr long ↦
      accept_key_sound (be32 plain 0) (take_blob (drop 4 plain) 16) tk key (ground (arith, long, h))
]

-- Whatever the cipher does: a reply that is accepted came in 16 to 1024 bytes, a multiple of 16, and
-- gives a transfer key other than 0 and a session key of 16 bytes.
pub decode_key_reply_sound :
    (decrypt : Bytes → Bytes) (body : Bytes) (transfer_key : ℕ) (key : Bytes)
    → decode_key_reply decrypt body ≡ ok (transfer_key, key)
    → (16 ≤ length body)
      × (length body ≤ 1024)
      × (length body % 16 ≡ 0)
      × (transfer_key ≢ 0)
      × (length key ≡ 16)
unfolding decode_key_reply decrypt_ecb read_reply
decode_key_reply_sound decrypt body transfer_key key h =
    elim (Bool-cases (ltb 1024 (length body))) [
      | inl over ↦ absurd (ground (arith, over, h))
      | inr fits ↦
          let read : read_reply (decrypt_ecb decrypt body) ≡ ok (transfer_key, key) =
            ground (arith, fits, h) in
          let s = read_reply_sound (decrypt_ecb decrypt body) transfer_key key read in
          elim (Bool-cases (length body == 0 || not (length body % 16 == 0))) [
            | inl bad ↦
                let failed : decrypt_ecb decrypt body ≡ err invalid_length = ground (arith, bad) in
                let both : read_reply (err invalid_length) ≡ ok (transfer_key, key) =
                  sym (ap read_reply failed) ∙ read in
                absurd (cc)
            | inr good ↦
                (ground (arith, good), ground (arith, fits), ground (arith, good), s.0, s.1)
          ]
    ]
