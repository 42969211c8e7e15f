-- ===== src/Conntrack/Messages/Attributes.antt =====
-- Attributes as a sender lays them out: which of them are visited, and what a missing padding does.
use agentkubenetwork.Base.{
  ℕ, zero, suc, ◌+◌, ◌-◌, ◌*◌, ◌/◌, ◌%◌, ◌<◌, ◌≡◌, ◌≢◌, refl, sym, ap, ◌∙◌, ltb, ◌||◌, true, false,
  if◌then◌else◌, List, [], ◌∷◌, ◌++◌, length, length-append, take-append, drop_append, take, drop,
  replicate, All, append_assoc, Bytes, Result, ok, err, ◌>>=◌, Bool-cases, inl, inr, arith,
}
use mathlib.Core.Path.{ap₂}
use agentkubenetwork.Conntrack.Messages.{
  DumpError, panic, Platform, native16, align4, attribute_round, attributes_from,
  for_each_attribute,
}

-- Two bytes in the machine's order.
abbrev pub put_native16 : Platform → ℕ → Bytes
put_native16 p n = if p.little_endian then n % 256 ∷ n / 256 ∷ [] else n / 256 ∷ n % 256 ∷ []

-- An attribute before its padding: size, type, value.
abbrev pub unpadded : Platform → ℕ × Bytes → Bytes
unpadded p (type, value) = put_native16 p (4 + length value) ++ (put_native16 p type ++ value)

abbrev pub padding : ℕ × Bytes → Bytes
padding (type, value) = replicate ((length value + 3) / 4 * 4 - length value) 0

abbrev pub laid_out : Platform → List (ℕ × Bytes) → Bytes
laid_out p [] = []
laid_out p (a ∷ more) = unpadded p a ++ (padding a ++ laid_out p more)

-- A type below the mask, and a size of 16 bits.
abbrev pub IsAttribute : ℕ × Bytes → Type 0
IsAttribute (type, value) = (type < 16384) × (4 + length value < 65536)

length-replicate : (n a : ℕ) → length (replicate n a) ≡ n
length-replicate zero a = refl
length-replicate (suc n) a = ap suc (length-replicate n a)

-- The header in front of a value, read in either order.
header_size :
    (p : Platform) (type : ℕ) (value rest : Bytes)
    → 4 + length value < 65536
    → native16 p (unpadded p (type, value) ++ rest) 0 ≡ 4 + length value
header_size p type value rest h = elim (Bool-cases p.little_endian) [
  | inl e ↦ rw e (omega (arith, h))
  | inr e ↦ rw e (omega (arith, h))
]

header_type :
    (p : Platform) (type : ℕ) (value rest : Bytes)
    → type < 16384
    → native16 p (unpadded p (type, value) ++ rest) 2 % 16384 ≡ type
header_type p type value rest h = elim (Bool-cases p.little_endian) [
  | inl e ↦ rw e (omega (arith, h))
  | inr e ↦ rw e (omega (arith, h))
]

header_rest :
    (p : Platform) (type : ℕ) (value rest : Bytes)
    → drop 4 (unpadded p (type, value) ++ rest) ≡ value ++ rest
header_rest p type value rest = elim (Bool-cases p.little_endian) [
  | inl e ↦ rw e refl
  | inr e ↦ rw e refl
]

header_length :
    (p : Platform) (type : ℕ) (value rest : Bytes)
    → length (unpadded p (type, value) ++ rest) ≡ length value + length rest + 4
header_length p type value rest = elim (Bool-cases p.little_endian) [
  | inl e ↦ rw e (omega (arith, length-append value rest))
  | inr e ↦ rw e (omega (arith, length-append value rest))
]

drop_attribute :
    (p : Platform) (type : ℕ) (value rest : Bytes)
    → drop (align4 (4 + length value)) (unpadded p (type, value) ++ (padding (type, value) ++ rest))
      ≡ rest
drop_attribute p type value rest =
    let pad = padding (type, value) in
    let behind = drop_append 4 _ value (pad ++ rest) (header_rest p type value (pad ++ rest)) in
    let filled = length-replicate ((length value + 3) / 4 * 4 - length value) 0 in
    ap (λ n. drop n (unpadded p (type, value) ++ (pad ++ rest))) (omega (arith, filled))
    ∙ drop_append (4 + length value) _ pad rest behind

bind_eq :
    {A B : Type 0} {f g : A → Result DumpError B} (r : Result DumpError A)
    → ((a : A) → f a ≡ g a)
    → (r >>= f) ≡ (r >>= g)
bind_eq (ok a) h = h a
bind_eq (err e) h = refl

bind_assoc :
    {A B C : Type 0} (r : Result DumpError A) (f : A → Result DumpError B)
    (g : B → Result DumpError C)
    → (r >>= f >>= g) ≡ (r >>= (λ a. f a >>= g))
bind_assoc (ok a) f g = refl
bind_assoc (err e) f g = refl

bind_ok : {A : Type 0} (r : Result DumpError A) → (r >>= ok) ≡ r
bind_ok (ok a) = refl
bind_ok (err e) = refl

module _ (p : Platform) {S : Type 0} (visit : ℕ → Bytes → S → Result DumpError S) where
  -- Each attribute visited in turn.
  abbrev pub visit_all : List (ℕ × Bytes) → S → Result DumpError S
  visit_all [] s = ok s
  visit_all ((type, value) ∷ more) s = visit type value s >>= visit_all more

  attribute_round_visit :
      (type : ℕ) (value rest : Bytes) (s : S) (next : Bytes → S → Result DumpError S)
      → IsAttribute (type, value)
      → attribute_round p visit (unpadded p (type, value) ++ rest) s next ≡ (
          visit type value s >>= (λ t.
            if ltb (length value + length rest + 4) (align4 (4 + length value))
            then err panic
            else next (drop (align4 (4 + length value)) (unpadded p (type, value) ++ rest)) t))
  unfolding attribute_round
  attribute_round_visit type value rest s next (small, sized) =
      let bytes = unpadded p (type, value) ++ rest in
      let behind = header_rest p type value rest in
      let size = header_size p type value rest sized in
      let whole = header_length p type value rest in
      let value_of : take (4 + length value - 4) (drop 4 bytes) ≡ value =
        ap₂ take (omega arith) behind ∙ take-append value rest in
      let goes : (ltb (length value + length rest + 4) 4
            || (ltb (4 + length value) 4
                || ltb (length value + length rest + 4) (4 + length value)))
          ≡ false =
        ground arith in
      rw (whole, size, header_type p type value rest small, value_of, goes) refl

  attributes_from-laid_out :
      (attributes : List (ℕ × Bytes)) (fuel : ℕ) (tail : Bytes) (s : S)
      (end : S → Result DumpError S)
      → All IsAttribute attributes
      → ((n : ℕ) (t : S) → length tail < n → attributes_from p visit n tail t ≡ end t)
      → length (laid_out p attributes ++ tail) < fuel
      → attributes_from p visit fuel (laid_out p attributes ++ tail) s
        ≡ (visit_all attributes s >>= end)
  unfolding attributes_from
  attributes_from-laid_out [] fuel tail s end a last h = last fuel s h
  attributes_from-laid_out ((type, value) ∷ more) zero tail s end a last h =
      absurd (omega (arith, h))
  attributes_from-laid_out ((type, value) ∷ more) (suc fuel) tail s end a last h =
      let pad = padding (type, value) in
      let rest = pad ++ (laid_out p more ++ tail) in
      let whole : laid_out p ((type, value) ∷ more) ++ tail ≡ unpadded p (type, value) ++ rest =
        append_assoc (unpadded p (type, value)) (pad ++ laid_out p more) tail
        ∙ ap (◌++◌ (unpadded p (type, value))) (append_assoc pad (laid_out p more) tail) in
      let size = header_length p type value rest in
      let filled = length-replicate ((length value + 3) / 4 * 4 - length value) 0 in
      let long : length rest
          ≡ (length value + 3) / 4 * 4 - length value + length (laid_out p more ++ tail) =
        omega (arith, length-append pad (laid_out p more ++ tail), filled) in
      let next : Bytes → S → Result DumpError S = λ b t. attributes_from p visit fuel b t in
      let fits : ltb (length value + length rest + 4) (align4 (4 + length value)) ≡ false =
        ground (arith, long) in
      ap (λ b. attribute_round p visit b s next) whole
      ∙ attribute_round_visit type value rest s next a.0
      ∙ bind_eq (visit type value s) (λ t. rw fits (
          ap (λ b. attributes_from p visit fuel b t)
            (drop_attribute p type value (laid_out p more ++ tail))
          ∙ attributes_from-laid_out more fuel tail t end a.1 last
              (omega (arith, h, ap length whole, size, long))))
      ∙ sym (bind_assoc (visit type value s) (visit_all more) end)

  -- Attributes with their padding are visited in turn, each with its type and its value.
  pub for_each_attribute-laid_out :
      (attributes : List (ℕ × Bytes)) (s : S)
      → All IsAttribute attributes
      → for_each_attribute p visit (laid_out p attributes ++ []) s ≡ visit_all attributes s
  unfolding for_each_attribute attributes_from attribute_round
  for_each_attribute-laid_out attributes s a =
      attributes_from-laid_out attributes (suc (length (laid_out p attributes ++ []))) [] s ok a
        none_left (omega arith)
      ∙ bind_ok (visit_all attributes s)
    where
      none_left : (n : ℕ) (t : S) → 0 < n → attributes_from p visit n [] t ≡ ok t
      none_left zero t h = absurd (omega (arith, h))
      none_left (suc n) t h = refl

  -- A last attribute whose value is not padded to a multiple of four bytes makes the loop panic, once
  -- the attributes before it and this attribute itself were visited without an error.
  pub for_each_attribute-unpadded :
      (attributes : List (ℕ × Bytes)) (type : ℕ) (value : Bytes) (s : S)
      → All IsAttribute attributes
      → IsAttribute (type, value)
      → length value % 4 ≢ 0
      → for_each_attribute p visit (laid_out p attributes ++ (unpadded p (type, value) ++ [])) s
        ≡ (visit_all attributes s >>= λ t. visit type value t >>= λ u. err panic)
  unfolding for_each_attribute attributes_from
  for_each_attribute-unpadded attributes type value s a b odd =
      attributes_from-laid_out attributes
        (suc (length (laid_out p attributes ++ (unpadded p (type, value) ++ []))))
        (unpadded p (type, value) ++ []) s _ a panics (omega arith)
    where
      panics :
          (n : ℕ) (t : S)
          → length (unpadded p (type, value) ++ []) < n
          → attributes_from p visit n (unpadded p (type, value) ++ []) t
            ≡ (visit type value t >>= λ u. err panic)
      panics zero t h = absurd (omega (arith, h))
      panics (suc n) t h =
          let over : ltb (length value + 0 + 4) (align4 (4 + length value)) ≡ true =
            ground (arith, odd) in
          attribute_round_visit type value [] t (λ c u. attributes_from p visit n c u) b
          ∙ bind_eq (visit type value t) (λ u. rw over refl)
