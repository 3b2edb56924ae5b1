-- ===== src/Runtime/Events/Delivered.antt =====
-- What a flush of runtime/events.py has written when it returns.
use graph_engineering.Prelude.{String, not, List, elem, select}
use graph_engineering.Runtime.Events.{OutboxRow}

-- The rows that the file has no line of.
abbrev pub missing : List String → List OutboxRow → List OutboxRow
missing ids rows = select (λ row. not (elem row.event_id ids)) rows
