-- ===== src/L7/Http2/Turns.antt =====
-- One round of the loop of `feed`: it waits, fails, or takes a frame.
use agentkubenetwork.Base.{
  ℕ, ◌+◌, ◌≤◌, ◌<◌, ◌≡◌, refl, ap, ◌∙◌, ltb, List, [], ◌++◌, length, take, drop, get_or, Option,
  none, some, Bytes, arith, dec_lt, inl, inr, ◌⊎◌, if_cases, get_or-append, take_within,
  drop_within, length-drop, length-append, ◌%◌,
}
use mathlib.Core.Path.{ap₂}
use agentkubenetwork.Base.Text.{be32}
use agentkubenetwork.L7.Types.{ObservationIdentity}
use agentkubenetwork.L7.Http2.Bounds.{take_frame-Kept}
use agentkubenetwork.L7.Http2.{
  invalid, DirectionState, Fed, reset_frame_state, pass_frame, take_frame, and_then, frame_size,
  frame_round,
}
use agentkubenetwork.L7.Http2.Frames.{Same, SameFed, pass_frame-Same, take_frame_at}

-- One round on these bytes, under this bound: it waits for more of them, fails, or takes a frame.
pub record Takes (max : ℕ) (b : Bytes) : Type 0 where
  pub long : 9 ≤ length b
  pub small : frame_size b ≤ max
  pub whole : 9 + frame_size b ≤ length b

pub record Fails (max : ℕ) (b : Bytes) : Type 0 where
  pub long : 9 ≤ length b
  pub big : max < frame_size b

abbrev pub Waits : ℕ → Bytes → Type 0
Waits max b = (length b < 9) ⊎ ((frame_size b ≤ max) × (length b < 9 + frame_size b))

pub turns : (max : ℕ) (b : Bytes) → Waits max b ⊎ (Fails max b ⊎ Takes max b)
turns max b = elim (dec_lt (length b) 9) [
  | yes short ↦ inl (inl short)
  | no long ↦ elim (dec_lt max (frame_size b)) [
    | yes big ↦ inr (inl (record { long = omega arith; big = big }))
    | no small ↦ elim (dec_lt (length b) (9 + frame_size b)) [
      | yes part ↦ inl (inr (omega arith, part))
      | no whole ↦
          inr (inr (record { long = omega arith; small = omega arith; whole = omega arith }))
    ]
  ]
]

module _ {D : Type 0} (decode : D → Bytes → D × Option (List (Bytes × Bytes))) where
  pub frame_round-Waits :
      (s : DirectionState D) (now : ℕ) (i : ObservationIdentity) (next : DirectionState D → Fed D)
      → Waits s.max_buffered_bytes s.buffer
      → frame_round decode s now i next ≡ (s, [], none)
  unfolding frame_round
  frame_round-Waits s now i next (inl short) = ground (arith, short)
  frame_round-Waits s now i next (inr (small, part)) = ground (arith, small, part)

  pub frame_round-Fails :
      (s : DirectionState D) (now : ℕ) (i : ObservationIdentity) (next : DirectionState D → Fed D)
      → Fails s.max_buffered_bytes s.buffer
      → frame_round decode s now i next ≡ (reset_frame_state s, [], some invalid)
  unfolding frame_round
  frame_round-Fails s now i next f = ground (arith, f.long, f.big)

  -- What the first frame gives.
  abbrev pub first_frame : DirectionState D → ℕ → ObservationIdentity → Fed D
  first_frame s now i =
      take_frame decode (pass_frame s (frame_size s.buffer) now i) (get_or s.buffer 3 0)
        (get_or s.buffer 4 0) (be32 s.buffer 5 % 2147483648)
        (take (frame_size s.buffer) (drop 9 s.buffer)) s.buffer_started_ns s.buffer_identity

  pub frame_round-Takes :
      (s : DirectionState D) (now : ℕ) (i : ObservationIdentity) (next : DirectionState D → Fed D)
      → Takes s.max_buffered_bytes s.buffer
      → frame_round decode s now i next ≡ and_then (first_frame s now i) next
  unfolding frame_round
  frame_round-Takes s now i next t =
      let P = λ (r : Fed D). r ≡ and_then (first_frame s now i) next in
      if_cases P (ltb (length s.buffer) 9) (λ e. absurd (ground (arith, e, t.long)))
        (λ _.
          if_cases P (ltb s.max_buffered_bytes (frame_size s.buffer))
            (λ e. absurd (ground (arith, e, t.small)))
            (λ _.
              if_cases P (ltb (length s.buffer) (9 + frame_size s.buffer))
                (λ e. absurd (ground (arith, e, t.whole))) (λ _. refl)))

  pass_frame_buffer :
      (s : DirectionState D) (size now : ℕ) (i : ObservationIdentity)
      → (pass_frame s size now i).buffer ≡ drop (9 + size) s.buffer
  unfolding pass_frame
  pass_frame_buffer s size now i = ground arith

  pub first_frame_buffer :
      (s : DirectionState D) (now : ℕ) (i : ObservationIdentity)
      → (first_frame s now i).0.buffer ≡ drop (9 + frame_size s.buffer) s.buffer
  first_frame_buffer s now i =
      (take_frame-Kept decode (pass_frame s (frame_size s.buffer) now i) _ _ _ _ _ _).buffer
      ∙ pass_frame_buffer s (frame_size s.buffer) now i

  pub first_frame_max :
      (s : DirectionState D) (now : ℕ) (i : ObservationIdentity)
      → (first_frame s now i).0.max_buffered_bytes ≡ s.max_buffered_bytes
  unfolding pass_frame
  first_frame_max s now i =
      (take_frame-Kept decode (pass_frame s (frame_size s.buffer) now i) _ _ _ _ _ _).max_bytes
      ∙ ground arith

pub frame_size-append : (b more : Bytes) → 9 ≤ length b → frame_size (b ++ more) ≡ frame_size b
frame_size-append b more h = omega (
  arith,
  get_or-append b more 0 0 (omega arith),
  get_or-append b more 1 0 (omega arith),
  get_or-append b more 2 0 (omega arith),
)

-- Bytes behind a frame do not change how it is taken.
pub Takes-append : (max : ℕ) (b more : Bytes) → Takes max b → Takes max (b ++ more)
Takes-append max b more t =
    let same = frame_size-append b more t.long in
    let longer = length-append b more in
    record {
      long = omega (arith, longer, t.long);
      small = omega (arith, same, t.small);
      whole = omega (arith, same, longer, t.whole);
    }

pub Fails-append : (max : ℕ) (b more : Bytes) → Fails max b → Fails max (b ++ more)
Fails-append max b more f =
    let same = frame_size-append b more f.long in
    let longer = length-append b more in
    record { long = omega (arith, longer, f.long); big = omega (arith, same, f.big) }

module _ {D : Type 0} (decode : D → Bytes → D × Option (List (Bytes × Bytes))) where
  -- The same frame, whatever the stamps and whatever bytes stand behind it.
  pub first_frame-Same :
      (s t : DirectionState D) (more : Bytes) (a b : ℕ) (i j : ObservationIdentity)
      → Same s t
      → t.buffer ≡ s.buffer ++ more
      → Takes s.max_buffered_bytes s.buffer
      → SameFed (first_frame decode s a i) (first_frame decode t b j)
  first_frame-Same s t more a b i j v e h =
      let size : frame_size t.buffer ≡ frame_size s.buffer =
        ap frame_size e ∙ frame_size-append s.buffer more h.long in
      let at : (n : ℕ) → n < 9 → get_or t.buffer n 0 ≡ get_or s.buffer n 0 = λ n k.
        ap (λ x. get_or x n 0) e ∙ get_or-append s.buffer more n 0 (omega (arith, k, h.long)) in
      let payload : take (frame_size t.buffer) (drop 9 t.buffer)
          ≡ take (frame_size s.buffer) (drop 9 s.buffer) =
        ap₂ take size (ap (drop 9) e ∙ drop_within 9 s.buffer more h.long)
        ∙ take_within (frame_size s.buffer) (drop 9 s.buffer) more
            (omega (arith, h.whole, length-drop 9 s.buffer)) in
      let stream : be32 t.buffer 5 ≡ be32 s.buffer 5 =
        omega
          (arith, at 5 (omega arith), at 6 (omega arith), at 7 (omega arith), at 8 (omega arith)) in
      take_frame_at decode _ _ _ _ _ _ _ _ _ _ _ _ _ _ (at 3 (omega arith)) (at 4 (omega arith))
        (ap (λ n. n % 2147483648) stream) payload
        (pass_frame-Same s t (frame_size s.buffer) (frame_size t.buffer) a b i j v)
