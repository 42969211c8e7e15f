-- ===== src/App/Progress/Pins.antt =====
-- A watermark that was reported holds for ever.
use agentkubenetwork.Base.{
  ℕ, ◌≤◌, ◌≡◌, subst, ltb, Bool, true, not, ◌&&◌, if_cases, if◌then◌else◌, List, [], ◌∷◌, ◌++◌, All,
  Option, some, arith,
}
use mathlib.Core.Option.{some-injective}
use agentkubenetwork.App.Progress.{
  CaptureProgress, start, accept, behind_first, consume, finish, time, earliest, watermark,
}

-- A bound of the clock, of the end, and of all that is outstanding.
AtLeast : ℕ → ℕ → CaptureProgress → Type 0
AtLeast w now p = (w ≤ now) × (w ≤ time p now) × All (λ at. w ≤ at) p.outstanding

earliest_le : (at : ℕ) (xs : List ℕ) → (earliest at xs ≤ at) × All (λ x. earliest at xs ≤ x) xs
unfolding earliest
earliest_le at [] = (omega arith, tt)
earliest_le at (x ∷ xs) =
    let rest = earliest_le (if ltb x at then x else at) xs in
    (ground (arith, rest.0), (ground (arith, rest.0), rest.1))

earliest_ge : (w at : ℕ) (xs : List ℕ) → w ≤ at → All (λ x. w ≤ x) xs → w ≤ earliest at xs
unfolding earliest
earliest_ge w at [] h a = h
earliest_ge w at (x ∷ xs) h a =
    earliest_ge w (if ltb x at then x else at) xs
      (if_cases (λ (n : ℕ). w ≤ n) (ltb x at) (λ e. a.0) (λ e. h)) a.1

-- The end is not later than the clock reads.
IsPast : CaptureProgress → ℕ → Type 0
IsPast p now = p.ended ≡ true → p.cutoff ≤ now

watermark-AtLeast : (p : CaptureProgress) (now : ℕ) → IsPast p now → AtLeast (watermark p now) now p
unfolding watermark time AtLeast IsPast
watermark-AtLeast p now past =
    let m = earliest_le (if p.ended then p.cutoff else now) p.outstanding in
    (ground (arith, m.0), m.0, m.1)

All-snoc : (w x : ℕ) (xs : List ℕ) → All (λ y. w ≤ y) xs → w ≤ x → All (λ y. w ≤ y) (xs ++ (x ∷ []))
All-snoc w x [] a h = (h, tt)
All-snoc w x (y ∷ ys) a h = (a.0, All-snoc w x ys a.1 h)

-- The calls, those that read the clock with their reading.
pub data Call : Type 0 where
  accepting : ℕ → Bool → Call
  consuming : Call
  finishing : ℕ → Call

-- A call, none where it panics, and the reading of the clock at the latest call.
unfoldable pub step : CaptureProgress → Call → Option CaptureProgress
step p (accepting now terminal) = some (accept p now terminal).0
step p consuming = consume p
step p (finishing now) = some (finish p now)

abbrev pub read_at : ℕ → Call → ℕ
read_at now (accepting at terminal) = at
read_at now consuming = now
read_at now (finishing at) = at

-- Calls by a clock that does not go back, from one state and reading to another.
pub data Runs : CaptureProgress → ℕ → CaptureProgress → ℕ → Type 0 where
  ends : {p : CaptureProgress} {now later : ℕ} → now ≤ later → Runs p now p later
  calls :
      {p q r : CaptureProgress} {now later : ℕ} (c : Call)
      → now ≤ read_at now c
      → step p c ≡ some q
      → Runs q (read_at now c) r later
      → Runs p now r later

accept-AtLeast :
    (w now at : ℕ) (p : CaptureProgress) (terminal : Bool)
    → now ≤ at
    → AtLeast w now p
    → AtLeast w at (accept p at terminal).0
unfolding AtLeast accept time
accept-AtLeast w now at p terminal h (early, end, rest) =
    let more = All-snoc w at p.outstanding rest (omega arith) in
    if_cases
      (λ (r : CaptureProgress × ℕ).
        (w ≤ at) × (w ≤ (if r.0.ended then r.0.cutoff else at)) × All (λ x. w ≤ x) r.0.outstanding)
      (terminal && not p.ended) (λ e. (omega arith, omega arith, more))
      (λ e. (omega arith, ground arith, more))

finish-AtLeast :
    (w now at : ℕ) (p : CaptureProgress) → now ≤ at → AtLeast w now p → AtLeast w at (finish p at)
unfolding AtLeast finish time
finish-AtLeast w now at p h (early, end, rest) =
    if_cases
      (λ (r : CaptureProgress).
        (w ≤ at) × (w ≤ (if r.ended then r.cutoff else at)) × All (λ x. w ≤ x) r.outstanding)
      p.ended (λ e. (omega arith, ground arith, rest)) (λ e. (omega arith, omega arith, rest))

behind_first-AtLeast :
    (w now : ℕ) (p q : CaptureProgress) (queue : List ℕ)
    → behind_first p queue ≡ some q
    → AtLeast w now (record p { outstanding = queue })
    → AtLeast w now q
unfolding AtLeast time
behind_first-AtLeast w now p q [] e a = absurd (cc)
behind_first-AtLeast w now p q (x ∷ xs) e (early, end, rest) =
    subst (AtLeast w now) (some-injective _ _ e) (early, end, rest.1)

step-AtLeast :
    (w now : ℕ) (p q : CaptureProgress) (c : Call)
    → now ≤ read_at now c
    → step p c ≡ some q
    → AtLeast w now p
    → AtLeast w (read_at now c) q
unfolding step consume
step-AtLeast w now p q (accepting at terminal) h e a =
    subst (AtLeast w at) (some-injective _ _ e) (accept-AtLeast w now at p terminal h a)
step-AtLeast w now p q consuming h e a = behind_first-AtLeast w now p q p.outstanding e a
step-AtLeast w now p q (finishing at) h e a =
    subst (AtLeast w at) (some-injective _ _ e) (finish-AtLeast w now at p h a)

later-AtLeast :
    (w now later : ℕ) (p : CaptureProgress) → now ≤ later → AtLeast w now p → AtLeast w later p
unfolding AtLeast time
later-AtLeast w now later p h (early, end, rest) = (omega arith, ground arith, rest)

runs-AtLeast :
    (w : ℕ) {p q : CaptureProgress} {now later : ℕ}
    → Runs p now q later
    → AtLeast w now p
    → AtLeast w later q
runs-AtLeast w (ends h) a = later-AtLeast w _ _ _ h a
runs-AtLeast w (calls c h e r) a = runs-AtLeast w r (step-AtLeast w _ _ _ c h e a)

behind_first-IsPast :
    (now : ℕ) (p q : CaptureProgress) (queue : List ℕ)
    → behind_first p queue ≡ some q
    → IsPast p now
    → IsPast q now
unfolding IsPast
behind_first-IsPast now p q [] e a = absurd (cc)
behind_first-IsPast now p q (x ∷ xs) e a =
    subst (λ (x : CaptureProgress). IsPast x now) (some-injective _ _ e) a

step-IsPast :
    (now : ℕ) (p q : CaptureProgress) (c : Call)
    → now ≤ read_at now c
    → step p c ≡ some q
    → IsPast p now
    → IsPast q (read_at now c)
unfolding step consume accept finish IsPast
step-IsPast now p q (accepting at terminal) h e a =
    subst (λ (x : CaptureProgress). IsPast x at) (some-injective _ _ e)
      (if_cases (λ (r : CaptureProgress × ℕ). IsPast r.0 at) (terminal && not p.ended)
        (λ g k. omega arith) (λ g k. omega (arith, a k)))
step-IsPast now p q consuming h e a = behind_first-IsPast now p q p.outstanding e a
step-IsPast now p q (finishing at) h e a =
    subst (λ (x : CaptureProgress). IsPast x at) (some-injective _ _ e)
      (if_cases (λ (r : CaptureProgress). IsPast r at) p.ended (λ g k. omega (arith, a k))
        (λ g k. omega arith))

runs-IsPast :
    {p q : CaptureProgress} {now later : ℕ} → Runs p now q later → IsPast p now → IsPast q later
unfolding IsPast
runs-IsPast (ends h) a = λ k. omega (arith, a k, h)
runs-IsPast (calls c h e r) a = runs-IsPast r (step-IsPast _ _ _ c h e a)

-- The watermark never goes back, by a clock that does not: whatever calls come after one that reported
-- it, every event that is still outstanding was captured at this watermark or later.
pub watermark_pins :
    {p q : CaptureProgress} {before now later : ℕ}
    → Runs start before p now
    → Runs p now q later
    → (watermark p now ≤ watermark q later) × All (λ at. watermark p now ≤ at) q.outstanding
unfolding watermark AtLeast IsPast time
watermark_pins {p = p} {q = q} {now = now} {later = later} first r =
    let a =
      runs-AtLeast (watermark p now) r
        (watermark-AtLeast p now (runs-IsPast first (λ k. absurd (cc)))) in
    (earliest_ge (watermark p now) (time q later) q.outstanding a.1 a.2, a.2)
