-- ===== src/L7/Correlator/Expiry.antt =====
-- Requests without a response do not wait for ever: a sweep takes them, and sweeps come round.
use agentkubenetwork.Base.{
  ℕ, ℕ_discrete, ◌+◌, ◌%◌, ◌≤◌, ◌<◌, ◌≡◌, ◌≢◌, refl, sym, ap, subst, ◌∙◌, ◌==◌, not, true, false,
  if_cases, List, [], ◌∷◌, All, length, Option, Bytes, arith, ◌⊎◌, inl, inr, add64, u64,
}
use native.Mathlib.Nat.{mod-lt}
use agentkubenetwork.Base.Keyed.{All-imp, keep_passes}
use agentkubenetwork.L7.Types.{Fragment, Output}
use agentkubenetwork.L7.Reports.{fragment_timestamp_ns, expired_at}
use agentkubenetwork.L7.State.{Correlator, counted, sweep, expire}
use agentkubenetwork.L7.Correlator.{process_fragment}
use agentkubenetwork.L7.Correlator.Keeps.{take_fragment-Keeps}
use agentkubenetwork.L7.Invariant.History.{run}

-- A start that a sweep at `t` leaves: no time, or less than the time to live ago.
abbrev pub IsFresh : ℕ → ℕ → ℕ → Type 0
IsFresh t ttl started = (started ≡ 0) ⊎ (t < started + ttl)

expired_at-IsFresh :
    (t now started ttl : ℕ)
    → t ≤ now
    → not (expired_at now started ttl) ≡ true
    → IsFresh t ttl started
expired_at-IsFresh t now started ttl h e =
    elim (started == 0) as (λ b. (started == 0) ≡ b → IsFresh t ttl started) [
      | true ↦ λ g. inl (ground arith)
      | false ↦ λ g. inr (ground arith)
    ]
      refl

next_count : (p n : ℕ) → 0 < n → (p + 1) % n ≢ 0 → (p + 1) % n ≡ p % n + 1
next_count p n h e = grind arith

-- One fragment on, of `k + 1` that are to come.
count_below : (p q k : ℕ) → q ≡ add64 p 1 → p + (k + 1) < u64 → q + k < u64
count_below p q k e h = omega arith

count_left :
    (p q n m k : ℕ)
    → q ≡ add64 p 1
    → m ≡ n
    → 0 < n
    → p + (k + 1) < u64
    → add64 p 1 % n ≢ 0
    → n ≤ p % n + (k + 1)
    → m ≤ q % m + k
count_left p q n m k e g every small h left =
    let a : q ≡ p + 1 = omega arith in
    let b : add64 p 1 ≡ p + 1 = omega arith in
    let c : (p + 1) % n ≡ p % n + 1 = next_count p n every (λ z. h (ap (λ x. x % n) b ∙ z)) in
    subst (λ x. x ≤ q % x + k) (sym g) (subst (λ x. n ≤ x % n + k) (sym a) (omega arith))

module _ {D : Type 0} (t : ℕ) (f : Fragment) (late : t ≤ fragment_timestamp_ns f)
    (timed : 0 < t) where
  sweep-IsFresh :
      (c : Correlator D)
      → All (λ e. IsFresh t c.state_ttl_ns e.1.started_ns) (sweep c (fragment_timestamp_ns f)).http1
  unfolding sweep
  sweep-IsFresh c =
      All-imp
        (λ e h. expired_at-IsFresh t (fragment_timestamp_ns f) e.1.started_ns c.state_ttl_ns late h)
        _
        (keep_passes (λ e. not (expired_at (fragment_timestamp_ns f) e.1.started_ns c.state_ttl_ns))
          c.http1)

  expire-IsFresh :
      (c : Correlator D)
      → All (λ e. IsFresh t c.state_ttl_ns e.1.started_ns) c.http1
        ⊎ (add64 c.processed 1 % c.sweep_every ≡ 0)
      → All (λ e. IsFresh t c.state_ttl_ns e.1.started_ns) (expire c f).0.http1
  unfolding expire
  expire-IsFresh c h =
      let P = λ (r : Correlator D × List Output).
        All (λ e. IsFresh t c.state_ttl_ns e.1.started_ns) r.0.http1 in
      let now = fragment_timestamp_ns f in
      if_cases P (not (add64 c.processed 1 % c.sweep_every == 0))
        (λ e. elim h [ inl a ↦ a | inr g ↦ absurd (ground arith) ])
        (λ e. if_cases P (now == 0) (λ g. absurd (ground arith)) (λ g. sweep-IsFresh (counted c)))

  record Same (c d : Correlator D) : Type 0 where
    ttl : d.state_ttl_ns ≡ c.state_ttl_ns
    every : d.sweep_every ≡ c.sweep_every
    processed : d.processed ≡ add64 c.processed 1

  expire-Same : (c : Correlator D) → Same c (expire c f).0
  unfolding expire sweep
  expire-Same c =
      let P = λ (r : Correlator D × List Output). Same c r.0 in
      if_cases P (not (add64 c.processed 1 % c.sweep_every == 0))
        (λ e. record { ttl = refl; every = refl; processed = refl })
        (λ e.
          if_cases P (fragment_timestamp_ns f == 0)
            (λ g. record { ttl = refl; every = refl; processed = refl })
            (λ g. record { ttl = refl; every = refl; processed = refl }))

module _ {D : Type 0} (new_decoder : D) (decode : D → Bytes → D × Option (List (Bytes × Bytes)))
    (t : ℕ) (timed : 0 < t) where
  process_fragment-Same :
      (c : Correlator D) (f : Fragment) (late : t ≤ fragment_timestamp_ns f)
      → Same t f late timed c (process_fragment new_decoder decode c f).0
  unfolding process_fragment
  process_fragment-Same c f late =
      let v = take_fragment-Keeps new_decoder decode (expire c f).0 f in
      let w = expire-Same t f late timed c in
      record {
        ttl = v.ttl ∙ w.ttl;
        every = v.every ∙ w.every;
        processed = v.processed ∙ w.processed;
      }

  process_fragment-IsFresh :
      (c : Correlator D) (f : Fragment) (late : t ≤ fragment_timestamp_ns f)
      → 0 < c.state_ttl_ns
      → All (λ e. IsFresh t c.state_ttl_ns e.1.started_ns) c.http1
        ⊎ (add64 c.processed 1 % c.sweep_every ≡ 0)
      → All
          (λ e. IsFresh t c.state_ttl_ns e.1.started_ns)
          (process_fragment new_decoder decode c f).0.http1
  unfolding process_fragment
  process_fragment-IsFresh c f late live h =
      (take_fragment-Keeps new_decoder decode (expire c f).0 f).requests (IsFresh t c.state_ttl_ns)
        (inr (omega arith)) (expire-IsFresh t f late timed c h)

  -- Sweeps come round: as many fragments as the interval reach one.
  run-IsFresh :
      (c : Correlator D) (fs : List Fragment)
      → All (λ f. t ≤ fragment_timestamp_ns f) fs
      → 0 < c.state_ttl_ns
      → 0 < c.sweep_every
      → c.processed + length fs < u64
      → All (λ e. IsFresh t c.state_ttl_ns e.1.started_ns) c.http1
        ⊎ (c.sweep_every ≤ c.processed % c.sweep_every + length fs)
      → All (λ e. IsFresh t c.state_ttl_ns e.1.started_ns) (run new_decoder decode c fs).0.http1
  unfolding run
  run-IsFresh c [] late live every small h = elim h [
    | inl a ↦ a
    | inr g ↦ absurd (grind (arith, mod-lt))
  ]
  run-IsFresh c (f ∷ fs) late live every small h =
      let v = process_fragment-Same c f late.0 in
      let d = (process_fragment new_decoder decode c f).0 in
      let fresh =
        λ (k : All (λ e. IsFresh t c.state_ttl_ns e.1.started_ns) c.http1
            ⊎ (add64 c.processed 1 % c.sweep_every ≡ 0)).
          subst (λ x. All (λ e. IsFresh t x e.1.started_ns) d.http1) (sym v.ttl)
            (process_fragment-IsFresh c f late.0 live k) in
      subst (λ x. All (λ e. IsFresh t x e.1.started_ns) (run new_decoder decode d fs).0.http1) v.ttl
        (run-IsFresh d fs late.1 (subst (λ x. 0 < x) (sym v.ttl) live)
          (subst (λ x. 0 < x) (sym v.every) every)
          (count_below c.processed d.processed (length fs) v.processed (omega arith))
          (elim h [
            | inl a ↦ inl (fresh (inl a))
            | inr g ↦ elim (ℕ_discrete (add64 c.processed 1 % c.sweep_every) 0) [
              | yes e ↦ inl (fresh (inr e))
              | no e ↦ inr (
                  count_left c.processed d.processed c.sweep_every d.sweep_every (length fs)
                    v.processed v.every every (omega arith) e (omega arith))
            ]
          ]))

  -- Requests without a response do not wait for ever: after as many fragments as the sweep interval, all
  -- captured at a time t or later, every HTTP/1 request that waits has no time, or was captured less than
  -- the time to live before t, while the count of fragments fits 64 bits.
  pub waiting-IsFresh :
      (c : Correlator D) (fs : List Fragment)
      → All (λ f. t ≤ fragment_timestamp_ns f) fs
      → 0 < c.state_ttl_ns
      → 0 < c.sweep_every
      → c.processed + length fs < u64
      → c.sweep_every ≤ length fs
      → All (λ e. IsFresh t c.state_ttl_ns e.1.started_ns) (run new_decoder decode c fs).0.http1
  waiting-IsFresh c fs late live every small enough =
      run-IsFresh c fs late live every small (inr (omega arith))
