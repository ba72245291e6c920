-- ===== src/Server/Bodies.antt =====
-- src/server/routing.rs: the rewriting of a request's body before it is forwarded.
-- `serde_json::from_slice` and `serde_json::to_vec` are parameters; writing a value does not fail.
pub mod Redacted
mod Examples
use rs_llmctl.Base.{
  ℕ, zero, suc, String, Bool, Option, none, some, List, [], ◌∷◌, is_empty, if◌then◌else◌, str_eq,
}
use rs_llmctl.Base.Json.{
  Json, null, bool, number, other_number, text, array, object, Items, no_items, item, Fields,
  no_fields, field, get, insert_field,
}
use rs_llmctl.Server.Routing.{ResolvedModelRoute}

pub data Rewritten (B : Type 0) : Type 0 where
  ok : B → Rewritten B
  err : String → Rewritten B

-- `as_object_mut` and `insert`
abbrev pub set_field : String → Json → Json → Json
set_field key value (object fields) = object (insert_field key value fields)
set_field key value null = null
set_field key value (bool b) = bool b
set_field key value (number n) = number n
set_field key value (other_number s) = other_number s
set_field key value (text s) = text s
set_field key value (array items) = array items

-- `get_mut(index)` and the change of what it finds
abbrev pub set_content_at : ℕ → String → Items → Items
set_content_at i redacted no_items = no_items
set_content_at zero redacted (item message items) =
    item (set_field "content" (text redacted) message) items
set_content_at (suc i) redacted (item message items) =
    item message (set_content_at i redacted items)

abbrev pub redact_each : List (ℕ × String) → Items → Items
redact_each [] items = items
redact_each ((index, redacted) ∷ redactions) items =
    redact_each redactions (set_content_at index redacted items)

abbrev pub not_json : String
not_json = "request body must be valid JSON"

abbrev pub not_an_array : String
not_an_array = "request body messages must be a JSON array"

abbrev pub not_an_object : String
not_an_object = "request body must be a JSON object"

-- an assignment through `get_mut(key)`: the first such key's value
abbrev pub put_field : String → Json → Fields → Fields
put_field key value no_fields = no_fields
put_field key value (field j w fields) =
    if str_eq j key then field j value fields else field j w (put_field key value fields)

abbrev pub put : String → Json → Json → Json
put key value (object fields) = object (put_field key value fields)
put key value other = other

-- `and_then(as_array_mut)`
abbrev pub array_of : Option Json → Option Items
array_of (some (array items)) = some items
array_of _ = none

-- the messages of a body, if they are an array
abbrev pub messages_of : Json → Option Items
messages_of value = array_of (get "messages" value)

module _ {B : Type 0} (from_slice : B → Option Json) (to_vec : Json → B) where
  abbrev pub redact_messages : List (ℕ × String) → Json → Option Items → Rewritten B
  redact_messages redactions value none = err not_an_array
  redact_messages redactions value (some items) =
      ok (to_vec (put "messages" (array (redact_each redactions items)) value))

  abbrev pub redact_value : List (ℕ × String) → Option Json → Rewritten B
  redact_value redactions none = err not_json
  redact_value redactions (some value) = redact_messages redactions value (messages_of value)

  unfoldable pub apply_message_redactions : B → List (ℕ × String) → Rewritten B
  apply_message_redactions body redactions =
      if is_empty redactions then ok body else redact_value redactions (from_slice body)

  abbrev pub set_model : String → Option Json → Rewritten B
  set_model alias none = err not_json
  set_model alias (some (object fields)) =
      ok (to_vec (object (insert_field "model" (text alias) fields)))
  set_model alias (some other) = err not_an_object

  unfoldable pub rewrite_chat_model : B → ResolvedModelRoute → Rewritten B
  rewrite_chat_model body route =
      if str_eq route.requested_alias route.upstream_alias
      then ok body
      else set_model route.upstream_alias (from_slice body)
