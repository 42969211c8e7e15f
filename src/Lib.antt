-- ===== src/Lib.antt =====
-- A model of agentkubenetwork, the userspace collector of network flows on a Kubernetes node (Go), and
-- the theorems that make its parts correct.
--
-- The program. The collector reads TCP socket events and captured payloads. An event becomes an
-- observation of a flow: its endpoints, translated by the connection-tracking table where the
-- destination is a Service, the process and Pods around it, and its counters. Observations are gathered
-- into windows by flow and interval, in a batch (`Aggregate`) or live (`Stream`, with watermark,
-- lateness and a bound on the windows held). Captured DNS datagrams are correlated into transactions,
-- captured HTTP into requests. Windows and transactions are written out, and sent on over the session
-- protocol of WhaTap, whose key is exchanged under a master cipher that comes from the access key.
--
-- The files, by the code they model.
--   Base and below: results, lists over the native numbers, finite maps as association lists with
--     distinct keys, signed integers, ASCII text as bytes. Go strings and []byte are lists of bytes.
--   Flow/Types, Flow/Window, Flow/Aggregate: internal/flow/window.go and pod.go. `key_for` is keyFor,
--     `new_window` newWindow, `add` Window.add, `aggregate` Aggregate, `sort_windows` sortWindows, with
--     an insertion sort by the same less in place of sort.Slice. Flow/Order is about the sort alone.
--   Flow/Stats: internal/flow/stats.go.
--   Flow/Stream: internal/flow/stream.go, with `add`, `flush` and `finish` as functions from a stream to
--     a stream and what it returns, and `run` over a list of calls.
--   Conntrack/Types, Conntrack/Table, Conntrack/Resolver: internal/conntrack/conntrack.go, buildTable
--     and the cached resolver. The clock and the dumps that a call reads are inputs of the call. The
--     mutex makes calls sequential, so a history of calls is a list.
--   Conntrack/Messages: the same file, parseMessages down to formatAddress. The machine's byte order
--     and net.IP.String are parameters; a slice expression out of range is the error `panic`.
--   Dns/Types, Dns/Message: internal/dns/dns.go, Parse and its names.
--   Dns/Transactions, Dns/Correlator: internal/dns/dns.go and pending.go, the correlator. Its heap is
--     the list of its queries in the order of Less, which determines what the minimum of the heap is:
--     heap.Push and heap.Remove are what container/heap documents of them. Dns/Correlator/Exchange is
--     about a query and its response.
--   Whatap/Frame, Whatap/Cipher, Whatap/KeyReply, Whatap/Writing: internal/whatap/protocol.go. The
--     block cipher of crypto/aes is a parameter (in a round trip with the hypothesis that decrypting a
--     block undoes encrypting it), and so is the writer under writeAll.
--   Whatap/Delivery: internal/whatap/client.go, Send past its checks of the context, serialize and
--     sendFrame. Contexts, sessions, connecting and writing belong to a world that is a parameter, and
--     the frames that are handed to writeAll are logged.
--   Whatap/Blob: takeBlob of internal/whatap/license.go.
--   Bridge/Validation: internal/bridge/validation.go, with the addresses of net/netip as a parameter.
--   PodIdentity/Cache: internal/podidentity/cache.go, lookup and Enrich. The indexer of client-go and
--     net/netip are parameters. Each of the three lookups of Enrich reads the
--     informer as it is then. PodIdentity/Enrichment is about what Enrich gives an observation.
--     PodIdentity/Indexers: Indexers of the same file.
--   L7/Types, L7/Text, L7/Http1, L7/Reports, L7/State, L7/Exchange, L7/Streams, L7/Correlator:
--     internal/l7/correlator.go. `process_fragment` is Process, `expire` expire, `take_http2`
--     processHTTP2; the outputs come as a list. L7/Correlator/Matching is about a request and its
--     response, Waiting about what comes between them. L7/Text has the functions of strings and strconv.
--   L7/Http2, L7/Fields: internal/l7/http2.go. `feed` is feed; the HPACK decoder of golang.org/x/net is a
--     parameter: the states it has, and what decoding a block does to a state and returns.
--   App/Progress: internal/app/event_stream.go, captureProgress; the clock reading of a call is its
--     argument.
--   App/Resolution: internal/app/events.go, the connections that wait for a translation, with
--     resolveObservation, attachProcess, and resolutionRecord of event_stream.go. `handle` is what the
--     loop of RunEventsWithOptions does with a flow event and with a tick of the retries. The resolvers
--     and the clock act on a world that is a parameter.
--   Tagcount/Exporter: internal/tagcount/exporter.go and export_events.go. The exporter is shared by its
--     callers, a worker and Close; a section under its mutex is one step, and steps come in any order.
--   The modules called Tests hold concrete runs, and each theorem with hypotheses at concrete inputs.
--
-- Conventions. An instant is the number of nanoseconds since Go's zero time, 0 being that zero time. A
-- uint64 counter wraps (`add64`); a signed field of a frame is held as its bits. An error is a
-- constructor of the component's error type, without the text of Go's message.
--
-- Fuel. parse_name moves on by at least two bytes in a round and has the payload's length as fuel; the
-- loops over attributes and messages drop at least four bytes in a round and have one more than the
-- length; writeAll has the length of its bytes; the loop of feed takes at least nine bytes in a round
-- and has one round more than bytes. The error `stuck` stands for fuel that ran out.
--
-- Not modelled. The eBPF program and its loading, sockets, files under /proc, the Kubernetes
-- informer, flags, logging and JSON: input and output. Of internal/app the pump, the pipelines, the
-- errors of Encode, which end the event loop, and its DNS and HTTP events, the process cache, the
-- bridge client, the packs of internal/tagcount, the session client around Send, and the access key
-- around takeBlob are not yet part of it. dropReason of internal/l7 is called nowhere. Go does not
-- specify the order in which it ranges over a map; here it is the order of the list that stands for
-- the map, in what an expiry of internal/l7 reports.
pub mod Base
pub mod Flow
pub mod Conntrack
pub mod Dns
pub mod Whatap
pub mod Bridge
pub mod PodIdentity
pub mod L7
pub mod App
pub mod Tagcount
