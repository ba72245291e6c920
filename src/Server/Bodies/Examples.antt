-- ===== src/Server/Bodies/Examples.antt =====
-- src/server/routing.rs: the theorems at a body of two messages. A body is its value.
use rs_llmctl.Base.{if◌then◌else◌, str_eq, ℕ, String, some, List, [], ◌∷◌, ◌≡◌, refl}
use rs_llmctl.Base.Json.{
  Json, text, array, object, Items, no_items, item, Fields, no_fields, field, field_of,
}
use rs_llmctl.Server.Bodies.{ok, apply_message_redactions}
use rs_llmctl.Server.Bodies.Redacted.{
  message_at, last_for, Redacted, apply_message_redactions-Redacted,
}

abbrev message : String → Json
message content = object (field "role" (text "user") (field "content" (text content) no_fields))

abbrev items : Items
items = item (message "hello") (item (message "a@b.c") no_items)

abbrev body : Fields
body = field "model" (text "m") (field "messages" (array items) no_fields)

abbrev redactions : List (ℕ × String)
redactions = (1, "[REDACTED:EMAIL]") ∷ (7, "x") ∷ []

test-redacted :
    apply_message_redactions some (λ v. v) (object body) redactions
    ≡ ok (
        object (
          field "model" (text "m") (
            field "messages"
              (array (item (message "hello") (item (message "[REDACTED:EMAIL]") no_items)))
              no_fields)))
unfolding apply_message_redactions
test-redacted = refl

apply_message_redactions-Redacted_example :
    (fields : Fields) × (left : Items) × (apply_message_redactions some
        (λ v. v)
        (object body)
        redactions
      ≡ ok (object fields))
    × ((key : String)
        → field_of key fields
          ≡ (if str_eq "messages" key then some (array left) else field_of key body))
    × ((i : ℕ) → Redacted (last_for i redactions) (message_at i items) (message_at i left))
apply_message_redactions-Redacted_example =
    apply_message_redactions-Redacted some (λ v. v) (object body) body items (1, "[REDACTED:EMAIL]")
      ((7, "x") ∷ []) refl refl
