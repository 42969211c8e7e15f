-- ===== src/App/Progress.antt =====
-- internal/app/event_stream.go: captureProgress, the capture time up to which all events were consumed.
-- The clock reading of a call is an argument, and the mutex makes the calls sequential.
pub mod Pins
use agentkubenetwork.Base.{
  ℕ, ltb, Bool, true, false, not, ◌&&◌, if◌then◌else◌, List, [], ◌∷◌, ◌++◌, Option, none, some,
}

pub record CaptureProgress : Type 0 where
  pub cutoff : ℕ
  pub ended : Bool
  pub outstanding : List ℕ

abbrev pub start : CaptureProgress
start = record { cutoff = 0; ended = false; outstanding = [] }

-- The new state, and the time that `accept` returns.
unfoldable pub accept : CaptureProgress → ℕ → Bool → CaptureProgress × ℕ
accept p now terminal =
    let queue = p.outstanding ++ (now ∷ []) in
    if terminal && not p.ended
    then (record { cutoff = now; ended = true; outstanding = queue }, now)
    else (record p { outstanding = queue }, now)

-- None where Go panics: nothing is outstanding.
abbrev pub behind_first : CaptureProgress → List ℕ → Option CaptureProgress
behind_first p [] = none
behind_first p (at ∷ rest) = some (record p { outstanding = rest })

unfoldable pub consume : CaptureProgress → Option CaptureProgress
consume p = behind_first p p.outstanding

unfoldable pub finish : CaptureProgress → ℕ → CaptureProgress
finish p now = if p.ended then p else record p { cutoff = now; ended = true }

unfoldable pub time : CaptureProgress → ℕ → ℕ
time p now = if p.ended then p.cutoff else now

-- The loop over what is outstanding.
unfoldable pub earliest : ℕ → List ℕ → ℕ
earliest at [] = at
earliest at (pending ∷ rest) = earliest (if ltb pending at then pending else at) rest

unfoldable pub watermark : CaptureProgress → ℕ → ℕ
watermark p now = earliest (if p.ended then p.cutoff else now) p.outstanding
