-- ===== src/Whatap/Cipher.antt =====
-- internal/whatap/protocol.go: zero-padded ECB. The block cipher of crypto/aes is a parameter: a
-- function on blocks of 16 bytes.
use agentkubenetwork.Base.{
  ℕ, zero, suc, ◌+◌, ◌-◌, ◌*◌, ◌/◌, ◌%◌, ◌≤◌, ◌≡◌, ◌≢◌, refl, ap, subst, ◌∙◌, ◌==◌, ◌||◌, not,
  false, if◌then◌else◌, [], ◌∷◌, ◌++◌, length, length-append, replicate, drop, take, take-append,
  drop-append, Bytes, Result, ok, err, arith,
}
use mathlib.Core.Path.{ap₂}

pub data CipherError : Type 0 where
  invalid_length : CipherError

-- The loop over the blocks, `n` of them.
unfoldable pub each_block : (Bytes → Bytes) → ℕ → Bytes → Bytes
each_block f zero out = []
each_block f (suc n) out = f (take 16 out) ++ each_block f n (drop 16 out)

-- The zero-padded copy.
abbrev pub padded : Bytes → Bytes
padded plain = plain ++ replicate ((length plain + 15) / 16 * 16 - length plain) 0

unfoldable pub encrypt_ecb : (Bytes → Bytes) → Bytes → Bytes
encrypt_ecb encrypt plain = each_block encrypt ((length plain + 15) / 16) (padded plain)

unfoldable pub decrypt_ecb : (Bytes → Bytes) → Bytes → Result CipherError Bytes
decrypt_ecb decrypt encrypted =
    if length encrypted == 0 || not (length encrypted % 16 == 0)
    then err invalid_length
    else ok (each_block decrypt (length encrypted / 16) encrypted)

pub length-replicate : (n a : ℕ) → length (replicate n a) ≡ n
length-replicate zero a = refl
length-replicate (suc n) a = ap suc (length-replicate n a)

pub length-padded : (plain : Bytes) → length (padded plain) ≡ (length plain + 15) / 16 * 16
length-padded plain = omega (
  arith,
  length-append plain (replicate ((length plain + 15) / 16 * 16 - length plain) 0),
  length-replicate ((length plain + 15) / 16 * 16 - length plain) 0,
)

pub length-take : (n : ℕ) (xs : Bytes) → n ≤ length xs → length (take n xs) ≡ n
length-take zero xs h = refl
length-take (suc n) [] h = absurd (omega (arith, h))
length-take (suc n) (x ∷ xs) h = ap suc (length-take n xs (omega (arith, h)))

length-drop_of : (n m : ℕ) (xs : Bytes) → length xs ≡ n + m → length (drop n xs) ≡ m
length-drop_of zero m xs h = omega (arith, h)
length-drop_of (suc n) m [] h = absurd (omega (arith, h))
length-drop_of (suc n) m (x ∷ xs) h = length-drop_of n m xs (omega (arith, h))

pub take-drop : (n : ℕ) (xs : Bytes) → take n xs ++ drop n xs ≡ xs
take-drop zero xs = refl
take-drop (suc n) [] = refl
take-drop (suc n) (x ∷ xs) = ap (◌∷◌ x) (take-drop n xs)

decrypt_ecb_blocks :
    (decrypt : Bytes → Bytes) (n : ℕ) (out : Bytes)
    → length out ≡ n * 16
    → 1 ≤ n
    → decrypt_ecb decrypt out ≡ ok (each_block decrypt n out)
unfolding decrypt_ecb
decrypt_ecb_blocks decrypt n out h m =
    let whole : length out / 16 ≡ n = omega (arith, h) in
    let tested : (length out == 0 || not (length out % 16 == 0)) ≡ false = ground (arith, h, m) in
    rw (tested, whole)

-- A pair of block functions, the second the inverse of the first.
pub record Inverse (encrypt decrypt : Bytes → Bytes) : Type 0 where
  pub sized : (b : Bytes) → length b ≡ 16 → length (encrypt b) ≡ 16
  pub undone : (b : Bytes) → length b ≡ 16 → decrypt (encrypt b) ≡ b

module _ (encrypt decrypt : Bytes → Bytes) (pair : Inverse encrypt decrypt) where
  first_block : (n : ℕ) (out : Bytes) → length out ≡ suc n * 16 → length (take 16 out) ≡ 16
  first_block n out h = length-take 16 out (omega (arith, h))

  length-each_block :
      (n : ℕ) (out : Bytes) → length out ≡ n * 16 → length (each_block encrypt n out) ≡ n * 16
  unfolding each_block
  length-each_block zero out h = refl
  length-each_block (suc n) out h =
      let b = take 16 out in
      omega (
        arith,
        length-append (encrypt b) (each_block encrypt n (drop 16 out)),
        pair.sized b (first_block n out h),
        length-each_block n (drop 16 out) (length-drop_of 16 (n * 16) out (omega (arith, h))),
      )

  each_block_undone :
      (n : ℕ) (out : Bytes)
      → length out ≡ n * 16
      → each_block decrypt n (each_block encrypt n out) ≡ out
  unfolding each_block
  each_block_undone zero [] h = refl
  each_block_undone zero (x ∷ out) h = absurd (omega (arith, h))
  each_block_undone (suc n) out h =
      let b = encrypt (take 16 out) in
      let later = each_block encrypt n (drop 16 out) in
      let size = pair.sized (take 16 out) (first_block n out h) in
      let here : take 16 (b ++ later) ≡ b =
        subst (λ k. take k (b ++ later) ≡ b) size (take-append b later) in
      let there : drop 16 (b ++ later) ≡ later =
        subst (λ k. drop k (b ++ later) ≡ later) size (drop-append b later) in
      ap₂ (◌++◌) (ap decrypt here ∙ pair.undone (take 16 out) (first_block n out h)) (
        ap (each_block decrypt n) there
        ∙ each_block_undone n (drop 16 out) (length-drop_of 16 (n * 16) out (omega (arith, h))))
      ∙ take-drop 16 out

  -- Decrypting with the inverse of the block cipher gives every text that is not empty back, with
  -- zeros to the next multiple of 16 bytes.
  pub decrypt_ecb-encrypt_ecb :
      (plain : Bytes)
      → plain ≢ []
      → decrypt_ecb decrypt (encrypt_ecb encrypt plain) ≡ ok (padded plain)
  unfolding encrypt_ecb
  decrypt_ecb-encrypt_ecb [] some_text = absurd (some_text refl)
  decrypt_ecb-encrypt_ecb (x ∷ xs) some_text =
      let plain : Bytes = x ∷ xs in
      let n : ℕ = (length plain + 15) / 16 in
      decrypt_ecb_blocks decrypt n (each_block encrypt n (padded plain))
        (length-each_block n (padded plain) (length-padded plain)) (omega arith)
      ∙ ap ok (each_block_undone n (padded plain) (length-padded plain))

  pub length-encrypt_ecb :
      (plain : Bytes) → length (encrypt_ecb encrypt plain) ≡ (length plain + 15) / 16 * 16
  unfolding encrypt_ecb
  length-encrypt_ecb plain =
      length-each_block ((length plain + 15) / 16) (padded plain) (length-padded plain)
