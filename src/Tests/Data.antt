-- ===== src/Tests/Data.antt =====
-- Test data.
use active_ts.Prelude.{ℕ, none, some, Option, [], ◌∷◌}
use active_ts.Prelude.Text.{String}
use active_ts.SafeKeys.{EntityId, text}
use active_ts.DataValue.{null, object, field, end}
use active_ts.Outbox.Event.{OutboxEvent, update}

-- A pending event of the model `Post`.
abbrev pub event : String → Option EntityId → Option String → Option ℕ → OutboxEvent
event name id identity available = record {
  id = name;
  model = "Post";
  model_id = id;
  model_identity = identity;
  ancestor = none;
  project_id = none;
  scope = none;
  operation = update;
  payload = object (field "title" null end);
  data_encoding = none;
  reconcile_from_store = none;
  created_at = 1;
  sequence = none;
  version = none;
  lease_token = none;
  lease_expires_at = none;
  delivery_attempts = none;
  available_at = available;
  dead_lettered_at = none;
  last_delivery_error = none;
}

abbrev pub same_text : String → String
same_text s = s

-- The event under a parent that has a namespace.
abbrev pub child_event : String → Option String → OutboxEvent
child_event name identity = record (event name (some (text "7")) identity none) {
  ancestor =
      some (record { path = record { kind = "Blog"; id = text "b" } ∷ []; namespace = some "n" });
}
