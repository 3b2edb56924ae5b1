-- ===== src/Runtime/Events.antt =====
-- EventStore of runtime/events.py, with outbox_rows and mark_event_delivered of runtime/store.py.
pub mod Resume
pub mod Delivered
use graph_engineering.Prelude.{
  ℕ, ◌+◌, String, Bool, true, false, not, ◌&&◌, Option, none, some, List, [], ◌∷◌, ◌++◌, ◌==◌, ◌≡◌,
  if◌then◌else◌, elem, select, update_where, all, Except, ok, raise, value_error,
}

-- Table event_outbox, in the order of the rowid.
pub record OutboxRow : Type 0 where
  pub event_id : String
  pub event_json : String
  pub delivered : Bool

-- A line of the file: whether json.loads returns on it, and the event_id of the JSON in it if that is
-- a text.
pub record Line : Type 0 where
  pub readable : Bool
  pub event_id : Option String
  pub content : String

pub record Store : Type 0 where
  pub outbox : List OutboxRow
  pub file : List Line

unfoldable pub cons_id : Option String → List String → List String
cons_id none ids = ids
cons_id (some id) ids = id ∷ ids

unfoldable pub line_ids : List Line → List String
unfolding cons_id
line_ids [] = []
line_ids (l ∷ ls) = cons_id l.event_id (line_ids ls)

-- _existing_ids
abbrev pub existing_ids : Store → List String
existing_ids s = line_ids s.file

-- outbox_rows
abbrev pub outbox_rows : List OutboxRow → List OutboxRow
outbox_rows rows = select (λ row. not row.delivered) rows

abbrev pub is_open : String → OutboxRow → Bool
is_open event_id row = event_id == row.event_id && not row.delivered

abbrev pub set_delivered : OutboxRow → OutboxRow
set_delivered row = record row { delivered = true }

-- mark_event_delivered
unfoldable pub mark_event_delivered : String → Store → Store
mark_event_delivered event_id s = record s {
  outbox = update_where (is_open event_id) set_delivered s.outbox;
}

-- enqueue_event writes the id of the row into its JSON.
unfoldable pub line_of : OutboxRow → Line
line_of row = record { readable = true; event_id = some row.event_id; content = row.event_json }

unfoldable pub write_line : OutboxRow → Store → Store
unfolding line_of
write_line row s = record s { file = s.file ++ line_of row ∷ [] }

unfoldable pub write_missing : List String → OutboxRow → Store → Store
unfolding write_line
write_missing existing row s = if elem row.event_id existing then s else write_line row s

unfoldable pub deliver : List String → OutboxRow → Store → Store
unfolding write_missing mark_event_delivered
deliver existing row s = mark_event_delivered row.event_id (write_missing existing row s)

-- The loop of _flush_locked, with the number of events delivered so far.
unfoldable pub deliver_all : List String → List OutboxRow → ℕ → Store → ℕ × Store
unfolding deliver
deliver_all existing [] delivered s = (delivered, s)
deliver_all existing (row ∷ rows) delivered s =
    deliver_all (row.event_id ∷ existing) rows (delivered + 1) (deliver existing row s)

-- A flush of a file whose lines can all be read.
unfoldable pub flush : Store → ℕ × Store
unfolding deliver_all
flush s = deliver_all (existing_ids s) (outbox_rows s.outbox) 0 s

abbrev pub is_readable : Line → Bool
is_readable l = l.readable

-- The whole flush: where json.loads raises on a line, it has neither written nor marked anything.
unfoldable pub read_and_flush : Store → Except ℕ × Store
unfolding flush
read_and_flush s =
    if all is_readable s.file
    then (ok (flush s).0, (flush s).1)
    else (raise (value_error "JSONDecodeError"), s)

-- A part of a line at the end of the file: the JSON of an object that is cut off is not JSON.
unfoldable pub tear : String → Store → Store
tear text s = record s {
  file = s.file ++ record { readable = false; event_id = none; content = text } ∷ [];
}

-- What a flush has left when the process stops in it: between two events, between the line of an
-- event and the mark of it, or in the write of the JSON of an event.
pub data Stopped : List String → List OutboxRow → Store → Store → Type 0 where
  between : {existing : List String} {rows : List OutboxRow} {s : Store} → Stopped existing rows s s
  unmarked :
      {existing : List String} {row : OutboxRow} {rows : List OutboxRow} {s : Store}
      → elem row.event_id existing ≡ false
      → Stopped existing (row ∷ rows) s (write_line row s)
  torn :
      {existing : List String} {row : OutboxRow} {rows : List OutboxRow} {s : Store} (text : String)
      → elem row.event_id existing ≡ false
      → Stopped existing (row ∷ rows) s (tear text s)
  later :
      {existing : List String} {row : OutboxRow} {rows : List OutboxRow} {s t : Store}
      → Stopped (row.event_id ∷ existing) rows (deliver existing row s) t
      → Stopped existing (row ∷ rows) s t
