-- ===== src/Conntrack/Table.antt =====
-- internal/conntrack/conntrack.go: `buildTable`, the lookup table of one dump.
pub mod Spec
use agentkubenetwork.Base.{
  Bool, true, false, ◌||◌, not, if◌then◌else◌, List, [], ◌∷◌, Option, none, some, test,
}
use agentkubenetwork.Base.Map.{get, put, del}
use agentkubenetwork.Flow.Types.{Endpoint, Endpoint-discrete}
use agentkubenetwork.Conntrack.Types.{
  Tuple, Entry, LookupKey, LookupKey-discrete, Tuple-discrete, tuple_key,
}

-- The three maps of the loop.
pub record Tables : Type 0 where
  pub table : List (LookupKey × Endpoint)
  pub seen : List (LookupKey × Tuple)
  pub ambiguous : List (LookupKey × Bool)

-- `ambiguous[key]`: a missing key reads false.
abbrev pub flag : Option Bool → Bool
flag none = false
flag (some b) = b

-- `previous, ok := seen[key]; ok && previous != entry.Reply`.
abbrev pub conflicts : Option Tuple → Tuple → Bool
conflicts none reply = false
conflicts (some previous) reply = not (test (Tuple-discrete previous reply))

-- An entry that conflicts with an earlier one of its key removes the key for the whole dump.
mark_conflict : Tables → LookupKey → Tuple → Tables
mark_conflict t k reply =
    if conflicts (get LookupKey-discrete k t.seen) reply
    then record t {
      table = del LookupKey-discrete k t.table;
      ambiguous = put LookupKey-discrete k true t.ambiguous;
    }
    else t

-- One round of the loop.
round : Tables → Entry → Tables
round t e =
    let k = tuple_key e.original in
    let marked = mark_conflict t k e.reply in
    let noted = record marked { seen = put LookupKey-discrete k e.reply marked.seen } in
    if flag (get LookupKey-discrete k noted.ambiguous)
      || test (Endpoint-discrete e.reply.source e.original.destination)
    then noted
    else record noted { table = put LookupKey-discrete k e.reply.source noted.table }

rounds : Tables → List Entry → Tables
rounds t [] = t
rounds t (e ∷ es) = rounds (round t e) es

abbrev empty_tables : Tables
empty_tables = record { table = []; seen = []; ambiguous = [] }

unfoldable pub build_table : List Entry → List (LookupKey × Endpoint)
unfolding rounds round mark_conflict
build_table es = (rounds empty_tables es).table
