-- ===== src/Outbox/Store/Table.antt =====
-- src/adapters/store/memory.ts: the rows of one model whose data are outbox events. The counters of
-- calls and the revisions of rows, which only transactions read, are left out.
use active_ts.Prelude.{ℕ, Bool, true, false, not, Option, none, some, List, ◌==◌}
use active_ts.Prelude.Text.{String, str_eq}
use active_ts.Prelude.Assoc.{lookup, insert, erase}
use active_ts.SafeKeys.{text}
use active_ts.EntityKey.{entity_id_key}
use active_ts.DataValue.{clone_portable_data}
use active_ts.Outbox.Event.{OutboxEvent, is_some}
use active_ts.Errors.{Result, ok, throw, not_found, conflict, validation, guard, ◌>>=◌, ◌>>◌}

-- By the keys of the ids.
abbrev pub Rows : Type 0
Rows = List (String × OutboxEvent)

-- `clonePortableDataObject`: of an event's fields only the data may be no portable value.
unfoldable pub portable_row : OutboxEvent → Result OutboxEvent
portable_row e = do payload ← clone_portable_data e.payload; ok (record e { payload = payload })

-- `memoryVersionMatches`, where a version is expected.
abbrev pub version_matches : OutboxEvent → Option ℕ → Bool
version_matches row none = true
version_matches row (some v) = elim row.version [ none ↦ false | some w ↦ w == v ]

unfoldable pub row_get : String → Rows → Result (Option OutboxEvent)
row_get id rows = do key ← entity_id_key (text id); ok (lookup key rows)

unfoldable pub row_create : String → OutboxEvent → Rows → Result Rows
row_create id e rows = do
  key ← entity_id_key (text id)
  clean ← portable_row e
  guard (str_eq clean.id id) validation
  guard (not (is_some (lookup key rows))) conflict
  ok (insert key clean rows)

-- The row of a key, which must be there.
abbrev pub found_row : Option OutboxEvent → Result OutboxEvent
found_row none = throw not_found
found_row (some row) = ok row

unfoldable pub row_update : String → OutboxEvent → Option ℕ → Rows → Result Rows
row_update id e expected rows = do
  key ← entity_id_key (text id)
  clean ← portable_row e
  guard (str_eq clean.id id) validation
  row ← found_row (lookup key rows)
  guard (version_matches row expected) conflict
  ok (insert key clean rows)

-- What `delete` checks where a version is expected.
abbrev pub check_delete : Option OutboxEvent → Option ℕ → Result (Unit {0})
check_delete row none = ok tt
check_delete none (some v) = throw not_found
check_delete (some row) (some v) = guard (version_matches row (some v)) conflict

unfoldable pub row_delete : String → Option ℕ → Rows → Result Rows
row_delete id expected rows = do
  key ← entity_id_key (text id)
  check_delete (lookup key rows) expected
  ok (erase key rows)
