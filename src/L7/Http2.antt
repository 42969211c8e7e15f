-- ===== src/L7/Http2.antt =====
-- internal/l7/http2.go: the frames of one direction of a connection. The HPACK decoder is a parameter:
-- its states, and what decoding a block does to a state and returns (none for an error).
pub mod Bounds
pub mod Frames
pub mod Turns
pub mod Runs
pub mod Chunks
use agentkubenetwork.Base.{
  ℕ, zero, suc, ◌+◌, ◌-◌, ◌*◌, ◌/◌, ◌%◌, ◌==◌, ltb, not, ◌&&◌, ◌||◌, Bool, true, false,
  if◌then◌else◌, List, [], ◌∷◌, ◌++◌, length, take, drop, get_or, Option, none, some, Bytes, Result,
  ok, err,
}
use agentkubenetwork.Base.Text.{be32}
use agentkubenetwork.L7.Types.{Fragment, ObservationIdentity, identity_from, no_identity}

-- The errors of `feed`. `stuck` is none of them: it would mean that the fuel ran out.
pub data FeedError : Type 0 where
  invalid header_block_too_large stuck : FeedError

pub record HeaderBlock : Type 0 where
  pub stream_id : ℕ
  pub started_ns : ℕ
  pub fields : List (Bytes × Bytes)
  pub identity : ObservationIdentity

pub record DirectionState (D : Type 0) : Type 0 where
  pub buffer : Bytes
  pub buffer_started_ns : ℕ
  pub buffer_identity : ObservationIdentity
  pub last_seen_ns : ℕ
  pub poisoned : Bool
  pub continuation_stream : ℕ
  pub continuation_started : ℕ
  pub continuation_identity : ObservationIdentity
  pub continuation_block : Bytes
  pub decoder : D
  pub max_buffered_bytes : ℕ
  pub max_header_block_bytes : ℕ

-- A state, the blocks that were completed, and an error.
abbrev pub Fed : Type 0 → Type 0
Fed D = DirectionState D × List HeaderBlock × Option FeedError

abbrev pub bit : ℕ → ℕ → Bool
bit flags weight = not (flags / weight % 2 == 0)

-- A block without its padding.
unfoldable pub unpad : Bytes → Result FeedError Bytes
unpad [] = err invalid
unpad (padding ∷ payload) =
    if ltb (length payload) padding
    then err invalid
    else ok (take (length payload - padding) payload)

-- A block without the priority in front.
unfoldable pub without_priority : Bool → Bytes → Result FeedError Bytes
without_priority false payload = ok payload
without_priority true payload = if ltb (length payload) 5 then err invalid else ok (drop 5 payload)

abbrev pub then_priority : Bool → Result FeedError Bytes → Result FeedError Bytes
then_priority b (err e) = err e
then_priority b (ok payload) = without_priority b payload

unfoldable pub http2_headers_fragment : Bytes → ℕ → Result FeedError Bytes
http2_headers_fragment payload flags =
    then_priority (bit flags 32) (if bit flags 8 then unpad payload else ok payload)

abbrev pub frame_size : Bytes → ℕ
frame_size b = get_or b 0 0 * 65536 + get_or b 1 0 * 256 + get_or b 2 0

module _ {D : Type 0} where
  unfoldable pub reset_header_block : DirectionState D → DirectionState D
  reset_header_block s = record s {
    continuation_stream = 0;
    continuation_started = 0;
    continuation_identity = no_identity;
    continuation_block = [];
  }

  unfoldable pub reset_frame_state : DirectionState D → DirectionState D
  unfolding reset_header_block
  reset_frame_state s =
      reset_header_block
        (record s { buffer = []; buffer_started_ns = 0; buffer_identity = no_identity })

  unfoldable pub poison : DirectionState D → DirectionState D
  poison s = reset_frame_state (record s { poisoned = true })

  unfoldable pub new_direction_state : D → ℕ → ℕ → DirectionState D
  new_direction_state decoder max_buffered_bytes max_header_block_bytes = record {
    buffer = [];
    buffer_started_ns = 0;
    buffer_identity = no_identity;
    last_seen_ns = 0;
    poisoned = false;
    continuation_stream = 0;
    continuation_started = 0;
    continuation_identity = no_identity;
    continuation_block = [];
    decoder = decoder;
    max_buffered_bytes = max_buffered_bytes;
    max_header_block_bytes = max_header_block_bytes;
  }

  -- The payload behind the bytes that wait; the first of them carry its stamp if none waits.
  unfoldable pub buffered : DirectionState D → Bytes → ℕ → ObservationIdentity → DirectionState D
  buffered s payload now identity =
      if length s.buffer == 0 && not (length payload == 0)
      then record s {
        buffer = s.buffer ++ payload;
        buffer_started_ns = now;
        buffer_identity = identity;
        last_seen_ns = now;
      }
      else record s { buffer = s.buffer ++ payload; last_seen_ns = now }

  -- The decoded fields of a block, or the decoder's error.
  unfoldable pub decoded :
      DirectionState D → ℕ → ℕ → ObservationIdentity → D × Option (List (Bytes × Bytes)) → Fed D
  decoded s stream started identity (d, none) = (record s { decoder = d }, [], some invalid)
  decoded s stream started identity (d, some fields) = (
    record s { decoder = d },
    record { stream_id = stream; started_ns = started; fields = fields; identity = identity } ∷ [],
    none,
  )

  -- The bytes behind a frame; what is left came with the current observation.
  unfoldable pub pass_frame : DirectionState D → ℕ → ℕ → ObservationIdentity → DirectionState D
  pass_frame s size now identity =
      let rest = drop (9 + size) s.buffer in
      if length rest == 0
      then record s { buffer = rest; buffer_started_ns = 0; buffer_identity = no_identity }
      else record s { buffer = rest; buffer_started_ns = now; buffer_identity = identity }

  -- What a frame gave, and the frames behind it unless it failed.
  abbrev pub and_then : Fed D → (DirectionState D → Fed D) → Fed D
  and_then (s, blocks, some e) next = (s, blocks, some e)
  and_then (s, blocks, none) next = let (t, more, e) = next s in (t, blocks ++ more, e)

module _ {D : Type 0} (decode : D → Bytes → D × Option (List (Bytes × Bytes))) where
  -- Past `http2HeadersFragment`.
  unfoldable pub start_block :
      DirectionState D → ℕ → ℕ → ℕ → ObservationIdentity → Result FeedError Bytes → Fed D
  start_block s flags stream started identity (err e) = (s, [], some e)
  start_block s flags stream started identity (ok block) =
      if ltb s.max_header_block_bytes (length block)
      then (s, [], some header_block_too_large)
      else if bit flags 4
      then decoded s stream started identity (decode s.decoder block)
      else (
        record s {
          continuation_stream = stream;
          continuation_started = started;
          continuation_identity = identity;
          continuation_block = block;
        },
        [],
        none,
      )

  unfoldable pub headers_frame : DirectionState D → ℕ → ℕ → Bytes → ℕ → ObservationIdentity → Fed D
  headers_frame s flags stream payload started identity =
      if stream == 0 || not (s.continuation_stream == 0)
      then (reset_header_block s, [], some invalid)
      else start_block s flags stream started identity (http2_headers_fragment payload flags)

  unfoldable pub continuation_frame : DirectionState D → ℕ → ℕ → Bytes → Fed D
  continuation_frame s flags stream payload =
      let block = s.continuation_block ++ payload in
      if stream == 0 || not (stream == s.continuation_stream)
      then (reset_header_block s, [], some invalid)
      else if ltb s.max_header_block_bytes (length block)
      then (reset_header_block s, [], some header_block_too_large)
      else if bit flags 4
      then decoded (reset_header_block s) stream s.continuation_started s.continuation_identity
          (decode s.decoder block)
      else (record s { continuation_block = block }, [], none)

  unfoldable pub take_frame : DirectionState D → ℕ → ℕ → ℕ → Bytes → ℕ → ObservationIdentity → Fed D
  take_frame s type flags stream payload started identity =
      if type == 1
      then headers_frame s flags stream payload started identity
      else if type == 9
      then continuation_frame s flags stream payload
      else (s, [], none)

  -- One round of the loop, with what the later rounds do.
  unfoldable pub frame_round :
      DirectionState D → ℕ → ObservationIdentity → (DirectionState D → Fed D) → Fed D
  frame_round s now identity next =
      let size = frame_size s.buffer in
      if ltb (length s.buffer) 9
      then (s, [], none)
      else if ltb s.max_buffered_bytes size
      then (reset_frame_state s, [], some invalid)
      else if ltb (length s.buffer) (9 + size)
      then (s, [], none)
      else and_then
          (take_frame (pass_frame s size now identity) (get_or s.buffer 3 0) (get_or s.buffer 4 0)
            (be32 s.buffer 5 % 2147483648) (take size (drop 9 s.buffer)) s.buffer_started_ns
            s.buffer_identity)
          next

  unfoldable pub frames_from : ℕ → DirectionState D → ℕ → ObservationIdentity → Fed D
  frames_from zero s now identity = (s, [], some stuck)
  frames_from (suc fuel) s now identity =
      frame_round s now identity (λ t. frames_from fuel t now identity)

  -- Every frame takes at least nine bytes: one more round than bytes is fuel enough.
  unfoldable pub feed_frames : DirectionState D → ℕ → ObservationIdentity → Fed D
  feed_frames s now identity = frames_from (suc (length s.buffer)) s now identity

  unfoldable pub feed : DirectionState D → Bytes → ℕ → Fragment → Fed D
  feed s payload now observation =
      if ltb s.max_buffered_bytes (length s.buffer + length payload)
      then (reset_frame_state (record s { last_seen_ns = now }), [], some invalid)
      else feed_frames (buffered s payload now (identity_from observation)) now
          (identity_from observation)
