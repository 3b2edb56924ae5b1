-- ===== src/Runtime/Events/Resume.antt =====
-- The flush of runtime/events.py, whole and resumed.
use graph_engineering.Prelude.{
  ℕ, ◌+◌, String, Bool, true, false, ◌||◌, Option, none, some, List, [], ◌∷◌, ◌++◌, map, ◌==◌,
  eq_iff, ◌≡◌, refl, sym, ◌∙◌, ap, subst, inl, inr, arith, Bool-cases, elem, distinct, all, ◌&&◌,
  ◌⊎◌, Exception, ok, raise, value_error, select, update_where,
}
use graph_engineering.Runtime.Events.{
  OutboxRow, Line, Store, is_open, set_delivered, cons_id, line_ids, existing_ids, outbox_rows,
  mark_event_delivered, line_of, write_line, write_missing, deliver, deliver_all, flush, Stopped,
  between, unmarked, torn, later, is_readable, read_and_flush, tear,
}

abbrev pub SameIds : List String → List String → Type 0
SameIds xs ys = (id : String) → elem id xs ≡ elem id ys

abbrev pub ids_of : List OutboxRow → List String
ids_of rows = map (λ row. row.event_id) rows

deliver-same :
    (xs ys : List String) (row : OutboxRow) (s : Store)
    → elem row.event_id xs ≡ elem row.event_id ys
    → deliver xs row s ≡ deliver ys row s
unfolding deliver write_missing
deliver-same xs ys row s e = rw e refl

-- The loop reads of the ids only which there are.
deliver_all-same :
    (xs ys : List String) (rows : List OutboxRow) (n m : ℕ) (s : Store)
    → SameIds xs ys
    → (deliver_all xs rows n s).1 ≡ (deliver_all ys rows m s).1
unfolding deliver_all elem
deliver_all-same xs ys [] n m s same = refl
deliver_all-same xs ys (row ∷ rows) n m s same =
    deliver_all-same (row.event_id ∷ xs) (row.event_id ∷ ys) rows (n + 1) (m + 1) (deliver xs row s)
      (λ id. ap (λ b. (id == row.event_id) || b) (same id))
    ∙ ap (λ t. (deliver_all (row.event_id ∷ ys) rows (m + 1) t).1)
        (deliver-same xs ys row s (same row.event_id))

or_swap : (a b c d : Bool) → d ≡ (b || c) → (a || d) ≡ (b || (a || c))
or_swap true true c d e = refl
or_swap true false c d e = refl
or_swap false true c d e = e
or_swap false false c d e = e

elem-cons :
    (id new : String) (o : Option String) (xs ys : List String)
    → elem id xs ≡ elem id (new ∷ ys)
    → elem id (cons_id o xs) ≡ elem id (new ∷ cons_id o ys)
unfolding cons_id elem
elem-cons id new none xs ys e = e
elem-cons id new (some k) xs ys e = or_swap (id == k) (id == new) (elem id ys) (elem id xs) e

line_ids-snoc :
    (ls : List Line) (row : OutboxRow)
    → SameIds (line_ids (ls ++ line_of row ∷ [])) (row.event_id ∷ line_ids ls)
unfolding line_ids line_of
line_ids-snoc [] row id = refl
line_ids-snoc (l ∷ ls) row id =
    elem-cons id row.event_id l.event_id (line_ids (ls ++ line_of row ∷ [])) (line_ids ls)
      (line_ids-snoc ls row id)

mark_none :
    (id : String) (rows : List OutboxRow)
    → elem id (ids_of rows) ≡ false
    → update_where (is_open id) set_delivered rows ≡ rows
unfolding elem update_where
mark_none id [] h = refl
mark_none id (row ∷ rows) h =
    let other : is_open id row ≡ false = ground arith in
    let rest : elem id (ids_of rows) ≡ false = ground arith in
    rw other (ap (λ rs. row ∷ rs) (mark_none id rows rest))

-- The mark of the first row that is not delivered leaves the others that are not.
marked_rows :
    (row : OutboxRow) (rows rest : List OutboxRow)
    → distinct (ids_of rows) ≡ true
    → outbox_rows rows ≡ row ∷ rest
    → outbox_rows (update_where (is_open row.event_id) set_delivered rows) ≡ rest
unfolding distinct select update_where
marked_rows row [] rest h e = cc
marked_rows row (r ∷ rows) rest h e = elim (Bool-cases r.delivered) [
  | inl d ↦
      let skipped : is_open row.event_id r ≡ false = ground arith in
      let rest_rows : outbox_rows rows ≡ row ∷ rest = ground arith in
      let rest_ids : distinct (ids_of rows) ≡ true = ground arith in
      rw skipped (rw d (marked_rows row rows rest rest_ids rest_rows))
  | inr d ↦
      let same : r ≡ row = ground arith in
      let rest_rows : outbox_rows rows ≡ rest = ground arith in
      let absent : elem row.event_id (ids_of rows) ≡ false = ground arith in
      let reached : is_open row.event_id r ≡ true = rw same (
        rw ((eq_iff row.event_id row.event_id).1 refl) (
          let open' : row.delivered ≡ false = sym (ap (λ x. x.delivered) same) ∙ d in
          ground arith)) in
      rw reached (ap outbox_rows (mark_none row.event_id rows absent) ∙ rest_rows)
]

marked_ids :
    (id : String) (rows : List OutboxRow)
    → ids_of (update_where (is_open id) set_delivered rows) ≡ ids_of rows
unfolding update_where
marked_ids id [] = refl
marked_ids id (r ∷ rows) = elim (Bool-cases (is_open id r)) [
  | inl e ↦ rw e (ap (λ ids. r.event_id ∷ ids) (marked_ids id rows))
  | inr e ↦ rw e (ap (λ ids. r.event_id ∷ ids) (marked_ids id rows))
]

-- What the loop keeps: the ids are those of the file, the rows those that are not delivered.
pub record Under (ids : List String) (rows : List OutboxRow) (s : Store) : Type 0 where
  pub read : SameIds ids (existing_ids s)
  pub waiting : outbox_rows s.outbox ≡ rows
  pub apart : distinct (ids_of s.outbox) ≡ true

or_known : (a b : Bool) → (a ≡ true → b ≡ true) → (a || b) ≡ b
or_known true b h = sym (h refl)
or_known false b h = refl

missing_outbox :
    (ids : List String) (row : OutboxRow) (s : Store) → (write_missing ids row s).outbox ≡ s.outbox
unfolding write_missing write_line
missing_outbox ids row s = elim (Bool-cases (elem row.event_id ids)) [
  | inl e ↦ rw e refl
  | inr e ↦ rw e refl
]

missing-ids :
    (ids : List String) (row : OutboxRow) (s : Store)
    → SameIds ids (existing_ids s)
    → SameIds (row.event_id ∷ ids) (existing_ids (write_missing ids row s))
unfolding write_missing write_line elem
missing-ids ids row s same id = elim (Bool-cases (elem row.event_id ids)) [
  | inl e ↦ rw e (
      or_known (id == row.event_id) (elem id ids) (λ t.
        let known : id ≡ row.event_id = ground (arith, eq_iff id row.event_id) in
        subst (λ k. elem k ids ≡ true) (sym known) e)
      ∙ same id)
  | inr e ↦ rw e (ap (λ b. (id == row.event_id) || b) (same id) ∙ sym (line_ids-snoc s.file row id))
]

pub deliver-Under :
    (ids : List String) (row : OutboxRow) (rows : List OutboxRow) (s : Store)
    → Under ids (row ∷ rows) s
    → Under (row.event_id ∷ ids) rows (deliver ids row s)
unfolding deliver mark_event_delivered
deliver-Under ids row rows s u = record {
  read = missing-ids ids row s u.read;
  waiting =
      ap (λ o. outbox_rows (update_where (is_open row.event_id) set_delivered o))
        (missing_outbox ids row s)
      ∙ marked_rows row s.outbox rows u.apart u.waiting;
  apart =
      ap (λ o. distinct (ids_of (update_where (is_open row.event_id) set_delivered o)))
        (missing_outbox ids row s)
      ∙ ap distinct (marked_ids row.event_id s.outbox)
      ∙ u.apart;
}

-- What a flush does from here is what the loop does from here.
flush-Under :
    (ids : List String) (rows : List OutboxRow) (n : ℕ) (s : Store)
    → Under ids rows s
    → (flush s).1 ≡ (deliver_all ids rows n s).1
unfolding flush
flush-Under ids rows n s u =
    ap (λ o. (deliver_all (existing_ids s) o 0 s).1) u.waiting
    ∙ deliver_all-same (existing_ids s) ids rows 0 n s (λ id. sym (u.read id))

-- The line of an event is not written again.
deliver_written :
    (ids : List String) (row : OutboxRow) (s : Store)
    → elem row.event_id ids ≡ false
    → deliver (row.event_id ∷ ids) row (write_line row s) ≡ deliver ids row s
unfolding deliver write_missing elem
deliver_written ids row s new = rw new (rw ((eq_iff row.event_id row.event_id).1 refl) refl)

written :
    (ids : List String) (row : OutboxRow) (rows : List OutboxRow) (n : ℕ) (s : Store)
    → elem row.event_id ids ≡ false
    → Under ids (row ∷ rows) s
    → (flush (write_line row s)).1 ≡ (deliver_all ids (row ∷ rows) n s).1
unfolding deliver_all deliver write_line write_missing elem
written ids row rows n s new u =
    let now : Under (row.event_id ∷ ids) (row ∷ rows) (write_line row s) = record {
      read =
          λ id. ap (λ b. (id == row.event_id) || b) (u.read id) ∙ sym (line_ids-snoc s.file row id);
      waiting = u.waiting;
      apart = u.apart;
    } in
    flush-Under (row.event_id ∷ ids) (row ∷ rows) n (write_line row s) now
    ∙ deliver_all-same (row.event_id ∷ row.event_id ∷ ids) (row.event_id ∷ ids) rows (n + 1) (n + 1)
        (deliver (row.event_id ∷ ids) row (write_line row s))
        (λ id. or_known (id == row.event_id) ((id == row.event_id) || elem id ids) (λ t. rw t refl))
    ∙ ap (λ x. (deliver_all (row.event_id ∷ ids) rows (n + 1) x).1) (deliver_written ids row s new)

abbrev pub Readable : Store → Type 0
Readable s = all is_readable s.file ≡ true

-- A file that json.loads does not get through.
abbrev pub Unreadable : Store → Type 0
Unreadable s = all is_readable s.file ≡ false

all_snoc :
    (ls : List Line) (l : Line)
    → all is_readable (ls ++ l ∷ []) ≡ (all is_readable ls && is_readable l)
unfolding all
all_snoc [] l = ground arith
all_snoc (x ∷ ls) l = let rest = all_snoc ls l in ground arith

line-Readable : (row : OutboxRow) (s : Store) → Readable s → Readable (write_line row s)
unfolding write_line line_of
line-Readable row s h = let both = all_snoc s.file (line_of row) in ground arith

tear-Unreadable : (text : String) (s : Store) → Unreadable (tear text s)
unfolding tear
tear-Unreadable text s =
    all_snoc s.file (record { readable = false; event_id = none; content = text }) ∙ ground arith

deliver-Readable :
    (ids : List String) (row : OutboxRow) (s : Store) → Readable s → Readable (deliver ids row s)
unfolding deliver write_missing mark_event_delivered
deliver-Readable ids row s h = elim (Bool-cases (elem row.event_id ids)) [
  | inl e ↦ rw e h
  | inr e ↦ rw e (line-Readable row s h)
]

resumed :
    (ids : List String) (rows : List OutboxRow) (n : ℕ) (s t : Store)
    → Under ids rows s
    → Readable s
    → Stopped ids rows s t
    → (Readable t × ((flush t).1 ≡ (deliver_all ids rows n s).1)) ⊎ Unreadable t
unfolding deliver_all
resumed ids rows n s t u h between = inl (h, flush-Under ids rows n s u)
resumed ids rows n s t u h (unmarked {row = row} {rows = rest} new) =
    inl (line-Readable row s h, written ids row rest n s new u)
resumed ids rows n s t u h (torn text new) = inr (tear-Unreadable text s)
resumed ids rows n s t u h (later {row = row} {rows = rest} path) =
    resumed (row.event_id ∷ ids) rest (n + 1) (deliver ids row s) t (deliver-Under ids row rest s u)
      (deliver-Readable ids row s h) path

read_flushes : (s : Store) → Readable s → read_and_flush s ≡ (ok (flush s).0, (flush s).1)
unfolding read_and_flush
read_flushes s h = rw h refl

unread : (s : Store) → Unreadable s → read_and_flush s ≡ (raise (value_error "JSONDecodeError"), s)
unfolding read_and_flush
unread s h = rw h refl

-- The ids of the outbox being distinct, as its primary key has them, and the lines of the file being
-- JSON: where the process stops in a flush between two events, between the line of an event and the mark
-- of it, or in the write of the JSON of an event, either the file can be read, and the next flush
-- returns and leaves the same file and the same outbox as a flush that is not stopped, or it ends in
-- a part of a line, and every further flush raises and writes nothing.
pub flush_resumes :
    (s t : Store)
    → distinct (ids_of s.outbox) ≡ true
    → Readable s
    → Stopped (existing_ids s) (outbox_rows s.outbox) s t
    → (Readable t
        × ((n : ℕ) × ((read_and_flush t).0 ≡ ok n))
        × ((read_and_flush t).1 ≡ (read_and_flush s).1))
      ⊎ (Unreadable t × ((e : Exception) × (read_and_flush t ≡ (raise e, t))))
flush_resumes s t apart h path =
    let u : Under (existing_ids s) (outbox_rows s.outbox) s = record {
      read = λ id. refl;
      waiting = refl;
      apart = apart;
    } in
    elim (resumed (existing_ids s) (outbox_rows s.outbox) 0 s t u h path) [
      | inl (whole, same) ↦ inl (
        whole,
        (_, ap (λ x. x.0) (read_flushes t whole)),
        ap (λ x. x.1) (read_flushes t whole)
            ∙ same
            ∙ sym (flush-Under (existing_ids s) (outbox_rows s.outbox) 0 s u)
            ∙ sym (ap (λ x. x.1) (read_flushes s h)),
      )
      | inr broken ↦ inr (broken, (value_error "JSONDecodeError", unread t broken))
    ]
