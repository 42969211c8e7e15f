-- ===== src/Conntrack/Table/Spec.antt =====
-- `buildTable` against its specification: a key resolves exactly when the dump proves its rewritten
-- destination, that is when all its entries agree on one reply tuple that shows a rewrite.
use agentkubenetwork.Base.{
  ◌≡◌, refl, ◌≢◌, ap, ◌∙◌, subst, if_pos, if_neg, ◌&&◌, Bool, true, false, ◌||◌, not, if◌then◌else◌,
  ite, List, [], ◌∷◌, Option, none, some, test, arith,
}
use agentkubenetwork.Base.Map.{get, get-put, get-del}
use agentkubenetwork.Flow.Types.{Endpoint, Endpoint-discrete}
use agentkubenetwork.Conntrack.Types.{
  Tuple, Entry, LookupKey, LookupKey-discrete, Tuple-discrete, tuple_key,
}
use agentkubenetwork.Conntrack.Table.{
  Tables, flag, conflicts, mark_conflict, round, rounds, empty_tables, build_table,
}

-- The destination that a key was sent to.
abbrev pub key_destination : LookupKey → Endpoint
key_destination k = record { address = k.destination_address; port = k.destination_port }

-- The reply tuples of a key's entries.
abbrev pub replies : LookupKey → List Entry → List Tuple
replies k [] = []
replies k (e ∷ es) =
    ite (LookupKey-discrete (tuple_key e.original) k) (e.reply ∷ replies k es) (replies k es)

-- What one key's entries in the three maps are, and a round's effect on them.
record Slot : Type 0 where
  resolved : Option Endpoint
  previous : Option Tuple
  torn : Bool

abbrev slot : LookupKey → Tables → Slot
slot k t = record {
  resolved = get LookupKey-discrete k t.table;
  previous = get LookupKey-discrete k t.seen;
  torn = flag (get LookupKey-discrete k t.ambiguous);
}

note : Endpoint → Slot → Tuple → Slot
note dst s reply =
    let torn = s.torn || conflicts s.previous reply in
    let kept = if conflicts s.previous reply then none else s.resolved in
    record {
      resolved =
          if torn || test (Endpoint-discrete reply.source dst) then kept else some reply.source;
      previous = some reply;
      torn = torn;
    }

module _ (k : LookupKey) (t : Tables) (e : Entry) where
  abbrev entry_key : LookupKey
  entry_key = tuple_key e.original

  mark_table : get LookupKey-discrete k (mark_conflict t entry_key e.reply).table ≡ (
      if conflicts (get LookupKey-discrete entry_key t.seen) e.reply
      then ite (LookupKey-discrete entry_key k) none (get LookupKey-discrete k t.table)
      else get LookupKey-discrete k t.table)
  unfolding mark_conflict
  mark_table = ground (arith, get-del LookupKey-discrete entry_key k t.table)

  mark_ambiguous :
      flag (get LookupKey-discrete k (mark_conflict t entry_key e.reply).ambiguous)
      ≡ ite
          (LookupKey-discrete entry_key k)
          (flag (get LookupKey-discrete k t.ambiguous)
            || conflicts (get LookupKey-discrete entry_key t.seen) e.reply)
          (flag (get LookupKey-discrete k t.ambiguous))
  unfolding mark_conflict
  mark_ambiguous = ground (arith, get-put LookupKey-discrete entry_key k true t.ambiguous)

  mark_seen : (mark_conflict t entry_key e.reply).seen ≡ t.seen
  unfolding mark_conflict
  mark_seen = ground arith

module _ (t : Tables) (e : Entry) where
  round_same :
      slot (tuple_key e.original) (round t e)
      ≡ note e.original.destination (slot (tuple_key e.original) t) e.reply
  unfolding round note
  round_same = ground (
    arith,
    mark_table (tuple_key e.original) t e,
    mark_ambiguous (tuple_key e.original) t e,
    mark_seen (tuple_key e.original) t e,
    get-put LookupKey-discrete (tuple_key e.original) (tuple_key e.original) e.reply t.seen,
    get-put LookupKey-discrete (tuple_key e.original) (tuple_key e.original) e.reply.source
        (mark_conflict t (tuple_key e.original) e.reply).table,
  )

  round_other : (k : LookupKey) → tuple_key e.original ≢ k → slot k (round t e) ≡ slot k t
  unfolding round
  round_other k ne = ground (
    arith,
    mark_table k t e,
    mark_ambiguous k t e,
    mark_seen k t e,
    get-put LookupKey-discrete (tuple_key e.original) k e.reply t.seen,
    get-put LookupKey-discrete (tuple_key e.original) k e.reply.source
        (mark_conflict t (tuple_key e.original) e.reply).table,
  )

notes : Endpoint → Slot → List Tuple → Slot
notes dst s [] = s
notes dst s (r ∷ rs) = notes dst (note dst s r) rs

slot-rounds :
    (k : LookupKey) (es : List Entry) (t : Tables)
    → slot k (rounds t es) ≡ notes (key_destination k) (slot k t) (replies k es)
unfolding rounds notes
slot-rounds k [] t = refl
slot-rounds k (e ∷ es) t = elim (LookupKey-discrete (tuple_key e.original) k) [
  | yes same ↦ rw (if_pos _ same) (
      slot-rounds k es (round t e)
      ∙ ap (λ (s : Slot). notes (key_destination k) s (replies k es)) (at_key k same))
  | no other ↦ rw (if_neg _ other) (
      slot-rounds k es (round t e)
      ∙ ap (λ (s : Slot). notes (key_destination k) s (replies k es)) (round_other t e k other))
]
  where
    at_key :
        (j : LookupKey)
        → tuple_key e.original ≡ j
        → slot j (round t e) ≡ note (key_destination j) (slot j t) e.reply
    at_key j same =
        subst (λ (i : LookupKey). slot i (round t e) ≡ note (key_destination i) (slot i t) e.reply)
          same (round_same t e)

-- All of the tuples are the first one.
abbrev pub agree : Tuple → List Tuple → Bool
agree r [] = true
agree r (x ∷ xs) = test (Tuple-discrete r x) && agree r xs

-- The destination that the replies of a key prove: they agree, and it is not the original one.
abbrev pub proven_destination : Endpoint → List Tuple → Option Endpoint
proven_destination dst [] = none
proven_destination dst (r ∷ rs) =
    if agree r rs && not (test (Endpoint-discrete r.source dst)) then some r.source else none

notes_of_torn :
    (dst : Endpoint) (p : Option Tuple) (rs : List Tuple)
    → (notes dst (record { resolved = none; previous = p; torn = true }) rs).resolved ≡ none
unfolding notes note
notes_of_torn dst p [] = refl
notes_of_torn dst p (r ∷ rs) = ground (arith, notes_of_torn dst (some r) rs)

abbrev settled : Endpoint → Tuple → Slot
settled dst r = record {
  resolved = if test (Endpoint-discrete r.source dst) then none else some r.source;
  previous = some r;
  torn = false;
}

notes-settled :
    (dst : Endpoint) (r : Tuple) (rs : List Tuple)
    → (notes dst (settled dst r) rs).resolved
      ≡ (if agree r rs && not (test (Endpoint-discrete r.source dst)) then some r.source else none)
unfolding notes note
notes-settled dst r [] = ground arith
notes-settled dst r (x ∷ rs) = ground (arith, notes_of_torn dst (some x) rs, notes-settled dst x rs)

notes_of_empty :
    (dst : Endpoint) (rs : List Tuple)
    → (notes dst (record { resolved = none; previous = none; torn = false }) rs).resolved
      ≡ proven_destination dst rs
unfolding notes note
notes_of_empty dst [] = refl
notes_of_empty dst (r ∷ rs) = ground (arith, notes-settled dst r rs)

-- For every dump and key, `buildTable` maps the key to the source of its reply tuple when all entries
-- with this original tuple have the same reply and it differs from the original destination; in every
-- other case (no entry, an untranslated one, or two different replies in any order) it has no value.
pub get-build_table :
    (k : LookupKey) (es : List Entry)
    → get LookupKey-discrete k (build_table es)
      ≡ proven_destination (key_destination k) (replies k es)
unfolding build_table get
get-build_table k es =
    ap (λ (s : Slot). s.resolved) (slot-rounds k es empty_tables)
    ∙ notes_of_empty (key_destination k) (replies k es)

pub build_table-nil : build_table [] ≡ []
unfolding build_table
build_table-nil = refl
