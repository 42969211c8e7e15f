-- ===== src/Whatap/Writing.antt =====
-- internal/whatap/protocol.go: `writeAll`. The writer is a parameter: what its call with a number
-- answers to the bytes it is given, a count and whether there was an error.
use agentkubenetwork.Base.{
  ℕ, zero, suc, ◌+◌, ◌-◌, ◌≤◌, ◌≡◌, ◌≢◌, subst, dec_le, ◌==◌, ltb, Bool, true, false, if◌then◌else◌,
  [], ◌∷◌, length, drop, length-drop, Bytes, Option, none, some, arith,
}
use agentkubenetwork.Base.Int.{ℤ, pos, negsuc}

-- The errors of `writeAll`. `stuck` is none of them: it would mean that the fuel ran out.
pub data WriteError : Type 0 where
  short_write no_progress failed stuck : WriteError

abbrev pub Writer : Type 0
Writer = ℕ → Bytes → ℤ × Bool

-- One round, with what the later rounds return.
unfoldable pub write_round :
    ℕ → Bytes → ℤ × Bool → (ℕ → Bytes → ℕ × Option WriteError) → ℕ × Option WriteError
write_round total bytes (negsuc n, failing) next = (total, some short_write)
write_round total bytes (pos n, failing) next =
    let later = next (total + n) (drop n bytes) in
    if ltb (length bytes) n
    then (total, some short_write)
    else if failing
    then (total + n, some failed)
    else if n == 0
    then (total + n, some no_progress)
    else later

unfoldable pub write_from : Writer → ℕ → ℕ → Bytes → ℕ × Option WriteError
write_from w fuel total [] = (total, none)
write_from w zero total (b ∷ bs) = (total, some stuck)
write_from w (suc fuel) total (b ∷ bs) =
    write_round total (b ∷ bs) (w total (b ∷ bs)) (λ t rest. write_from w fuel t rest)

-- Every round that goes on writes a byte, so the length is fuel enough.
unfoldable pub write_all : Writer → Bytes → ℕ × Option WriteError
write_all w bytes = write_from w (length bytes) 0 bytes

record Written (start size : ℕ) (r : ℕ × Option WriteError) : Type 0 where
  goes_on : start ≤ r.0
  within : r.0 ≤ start + size
  complete : r.1 ≡ none → r.0 ≡ start + size
  settled : r.1 ≢ some stuck

write_round-Written :
    (total : ℕ) (bytes : Bytes) (answer : ℤ × Bool) (next : ℕ → Bytes → ℕ × Option WriteError)
    → 1 ≤ length bytes
    → ((n : ℕ)
        → 1 ≤ n
        → n ≤ length bytes
        → Written (total + n) (length bytes - n) (next (total + n) (drop n bytes)))
    → Written total (length bytes) (write_round total bytes answer next)
unfolding write_round
write_round-Written total bytes (negsuc n, failing) next m later = record {
  goes_on = omega arith;
  within = omega arith;
  complete = λ e. absurd (cc);
  settled = λ e. absurd (cc);
}
write_round-Written total bytes (pos n, true) next m later = record {
  goes_on = ground arith;
  within = ground arith;
  complete = λ e. ground (arith, e);
  settled = λ e. ground (arith, e);
}
write_round-Written total bytes (pos zero, false) next m later = record {
  goes_on = ground arith;
  within = ground arith;
  complete = λ e. ground (arith, e);
  settled = λ e. ground (arith, e);
}
write_round-Written total bytes (pos (suc n), false) next m later =
    elim (dec_le (suc n) (length bytes)) [
      | no above ↦ record {
        goes_on = ground (arith, above);
        within = ground (arith, above);
        complete = λ e. ground (arith, above, e);
        settled = λ e. ground (arith, above, e);
      }
      | yes inside ↦
          let w = later (suc n) (omega arith) inside in
          record {
            goes_on = ground (arith, inside, w.goes_on);
            within = ground (arith, inside, w.within);
            complete = λ e. ground (arith, inside, e, w.complete);
            settled = λ e. ground (arith, inside, e, w.settled);
          }
    ]

write_from-Written :
    (w : Writer) (fuel total : ℕ) (bytes : Bytes)
    → length bytes ≤ fuel
    → Written total (length bytes) (write_from w fuel total bytes)
unfolding write_from write_round
write_from-Written w fuel total [] h = record {
  goes_on = omega arith;
  within = omega arith;
  complete = λ e. omega arith;
  settled = λ e. absurd (cc);
}
write_from-Written w zero total (b ∷ bs) h = absurd (omega (arith, h))
write_from-Written w (suc fuel) total (b ∷ bs) h =
    write_round-Written total (b ∷ bs) (w total (b ∷ bs)) (λ t rest. write_from w fuel t rest)
      (omega arith)
      (λ n one inside.
        subst (λ k. Written (total + n) k (write_from w fuel (total + n) (drop n (b ∷ bs))))
          (omega (arith, length-drop n (b ∷ bs)))
          (write_from-Written w fuel (total + n) (drop n (b ∷ bs))
            (omega (arith, h, one, length-drop n (b ∷ bs)))))

-- Whatever the writer answers, the loop ends within its fuel, counts at most the bytes it was given,
-- and without an error counts all of them.
pub write_all_total :
    (w : Writer) (bytes : Bytes)
    → ((write_all w bytes).0 ≤ length bytes)
      × ((write_all w bytes).1 ≡ none → (write_all w bytes).0 ≡ length bytes)
      × ((write_all w bytes).1 ≢ some stuck)
unfolding write_all
write_all_total w bytes =
    let r = write_from-Written w (length bytes) 0 bytes (omega arith) in
    (omega (arith, r.within), λ e. omega (arith, r.complete e), r.settled)
