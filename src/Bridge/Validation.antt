-- ===== src/Bridge/Validation.antt =====
-- internal/bridge/validation.go. The addresses of net/netip are a parameter: what ParseAddr returns, and
-- what is asked of it.
pub mod Samples
use agentkubenetwork.Base.{
  ℕ, zero, suc, ◌+◌, ◌-◌, ◌*◌, ◌/◌, ◌≤◌, ◌<◌, ◌≡◌, ◌≢◌, refl, ◌==◌, ltb, leb, not, ◌&&◌, ◌||◌, Bool,
  true, false, if◌then◌else◌, List, [], ◌∷◌, length, Option, none, some, Bytes, bytes_discrete,
  test, Bool-cases, inl, inr, arith, Result, ok, err,
}
use agentkubenetwork.Base.Text.{codes}
use agentkubenetwork.Flow.Types.{ResolvedEndpoint, Process, Distribution, Window}

pub data EdgeError : Type 0 where
  invalid_window incomplete_tuple : EdgeError

pub record Netip : Type 1 where
  pub Addr : Type 0
  pub parse_addr : Bytes → Option Addr
  pub has_zone : Addr → Bool
  pub is_unspecified : Addr → Bool
  pub is_multicast : Addr → Bool

abbrev pub max_safe : ℕ
max_safe = 9007199254740991

-- The instant of the Unix epoch.
abbrev pub unix_epoch : ℕ
unix_epoch = 62135596800000000000

-- For an instant from the Unix epoch on.
abbrev pub unix_ms : ℕ → ℕ
unix_ms t = (t - unix_epoch) / 1000000

abbrev pub unix_s : ℕ → ℕ
unix_s t = (t - unix_epoch) / 1000000000

abbrev pub visible : Bytes → Bool
visible [] = true
visible (c ∷ cs) = leb 33 c && (leb c 126 && visible cs)

unfoldable pub printable : Bytes → ℕ → Bool
printable s n = not (length s == 0) && (leb (length s) n && visible s)

abbrev pub is_token_byte : ℕ → Bool
is_token_byte c =
    leb 65 c && leb c 90
    || (leb 97 c && leb c 122
        || (leb 48 c && leb c 57 || (c == 46 || (c == 95 || (c == 58 || c == 45)))))

abbrev pub token_bytes : Bytes → Bool
token_bytes [] = true
token_bytes (c ∷ cs) = is_token_byte c && token_bytes cs

-- The pattern of one to 32 letters, digits and `._:-`.
abbrev pub token : Bytes → Bool
token s = leb 1 (length s) && (leb (length s) 32 && token_bytes s)

unfoldable pub valid_times : ℕ → ℕ → Bool
valid_times from to =
    leb unix_epoch from
    && (leb unix_epoch to
        && (leb (unix_s from) (max_safe / 1000)
            && (leb (unix_s to) (max_safe / 1000)
                && (ltb 0 (unix_ms from)
                    && (ltb (unix_ms from) (unix_ms to)
                        && (leb (unix_ms to) max_safe && leb (unix_ms to - unix_ms from) 60000))))))

-- Both extrema must occur among the samples.
unfoldable pub valid_rtt : Distribution → Bool
valid_rtt d =
    let n = d.count - 1 in
    leb 1 d.count
    && (leb d.count 1000000000
        && (leb 1 d.sum_micros
            && (leb d.sum_micros max_safe
                && (leb 1 d.min_micros
                    && (leb d.min_micros max_safe
                        && (leb d.min_micros d.max_micros
                            && (leb d.max_micros max_safe
                                && (if d.count == 1
                                    then d.sum_micros == d.min_micros
                                      && d.sum_micros == d.max_micros
                                    else leb (n * d.min_micros + d.max_micros) d.sum_micros
                                      && leb d.sum_micros (n * d.max_micros + d.min_micros)))))))))

unfoldable pub valid_process : Option Process → Bool
valid_process none = true
valid_process (some p) = length p.container_id == 0 || printable p.container_id 128

module _ (netip : Netip) where
  unfoldable pub endpoint_of : Option netip.Addr → ℕ → Bool
  endpoint_of none port = false
  endpoint_of (some ip) port =
      not (netip.has_zone ip)
      && (not (netip.is_unspecified ip) && (not (netip.is_multicast ip) && not (port == 0)))

  unfoldable pub endpoint : Bytes → ℕ → Bool
  endpoint a port = endpoint_of (netip.parse_addr a) port

  unfoldable pub valid_resolved : Option ResolvedEndpoint → Bool
  valid_resolved none = true
  valid_resolved (some r) = endpoint r.address r.port && token r.via

  unfoldable pub validate_window : Window → Result EdgeError Unit
  validate_window w =
      if not (valid_times w.window_start w.window_end)
      then err invalid_window
      else if not
          (printable w.flow.node_name 253 && test (bytes_discrete w.flow.protocol (codes "tcp")))
      then err invalid_window
      else if w.flow.source.port == 0 || w.flow.destination.port == 0
      then err incomplete_tuple
      else if not (
          endpoint w.flow.source.address w.flow.source.port
          && endpoint w.flow.destination.address w.flow.destination.port)
      then err invalid_window
      else if not (valid_process w.process)
      then err invalid_window
      else if not (valid_resolved w.source_resolved && valid_resolved w.destination_resolved)
      then err invalid_window
      else if not (valid_rtt w.rtt)
      then err invalid_window
      else ok tt
