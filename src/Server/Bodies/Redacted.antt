-- ===== src/Server/Bodies/Redacted.antt =====
-- src/server/routing.rs: what is written as a rewritten body.
use rs_llmctl.Base.{
  ℕ, zero, suc, String, Bool, true, false, Option, none, some, List, [], ◌∷◌, ◌≡◌, refl, ◌∙◌, inl,
  inr, ◌⊎◌, subst, if◌then◌else◌, str_eq, eq_iff, ◌==◌, arith, Bool-cases,
}
use rs_llmctl.Base.Json.{
  Json, null, bool, number, other_number, text, array, object, Items, no_items, item, Fields,
  no_fields, field, field_of, insert_field,
}
use rs_llmctl.Server.Routing.{ResolvedModelRoute}
use rs_llmctl.Server.Bodies.{
  ok, set_field, set_content_at, redact_each, put_field, apply_message_redactions,
  rewrite_chat_model,
}

field_of-insert_field :
    (k j : String) (v : Json) (fs : Fields)
    → field_of j (insert_field k v fs) ≡ (if str_eq k j then some v else field_of j fs)
field_of-insert_field k j v no_fields = refl
field_of-insert_field k j v (field i w fs) =
    ground (arith, eq_iff k j, eq_iff i k, eq_iff i j, field_of-insert_field k j v fs)

field_of-put_field :
    (k j : String) (v w : Json) (fs : Fields)
    → field_of k fs ≡ some w
    → field_of j (put_field k v fs) ≡ (if str_eq k j then some v else field_of j fs)
field_of-put_field k j v w no_fields h = absurd (cc)
field_of-put_field k j v w (field i u fs) h =
    ground (arith, eq_iff k j, eq_iff i k, eq_iff i j, field_of-put_field k j v w fs)

-- a list of messages at an index
abbrev pub message_at : ℕ → Items → Option Json
message_at i no_items = none
message_at zero (item m ms) = some m
message_at (suc i) (item m ms) = message_at i ms

abbrev pub or_text : Option String → Option String → Option String
or_text (some u) earlier = some u
or_text none earlier = earlier

-- the last text that stands for an index
abbrev pub last_for : ℕ → List (ℕ × String) → Option String
last_for i [] = none
last_for i ((n, t) ∷ rs) = or_text (last_for i rs) (if n == i then some t else none)

-- What becomes of a message: nothing if no redaction is for it or it is no object; else its content is
-- the text, and its other fields are as they were.
abbrev pub Redacted : Option String → Option Json → Option Json → Type 0
Redacted none message left = left ≡ message
Redacted (some t) (some (object fs)) left =
    (fields : Fields) × (left ≡ some (object fields))
    × ((j : String)
        → field_of j fields ≡ (if str_eq "content" j then some (text t) else field_of j fs))
Redacted (some t) none left = left ≡ none
Redacted (some t) (some null) left = left ≡ some null
Redacted (some t) (some (bool b)) left = left ≡ some (bool b)
Redacted (some t) (some (number n)) left = left ≡ some (number n)
Redacted (some t) (some (other_number s)) left = left ≡ some (other_number s)
Redacted (some t) (some (text s)) left = left ≡ some (text s)
Redacted (some t) (some (array ms)) left = left ≡ some (array ms)

abbrev set_opt : String → Option Json → Option Json
set_opt t none = none
set_opt t (some v) = some (set_field "content" (text t) v)

-- A redaction in front of the others.
Redacted-set_opt :
    (o : Option String) (t : String) (message left : Option Json)
    → Redacted o (set_opt t message) left
    → Redacted (or_text o (some t)) message left
Redacted-set_opt none t none left r = r
Redacted-set_opt none t (some (object fs)) left r =
    (insert_field "content" (text t) fs, r, λ j. field_of-insert_field "content" j (text t) fs)
Redacted-set_opt none t (some null) left r = r
Redacted-set_opt none t (some (bool b)) left r = r
Redacted-set_opt none t (some (number n)) left r = r
Redacted-set_opt none t (some (other_number s)) left r = r
Redacted-set_opt none t (some (text s)) left r = r
Redacted-set_opt none t (some (array ms)) left r = r
Redacted-set_opt (some u) t none left r = r
Redacted-set_opt (some u) t (some (object fs)) left (fields, same, each) = (
  fields,
  same,
  λ j. each j ∙ twice (str_eq "content" j) j (field_of-insert_field "content" j (text t) fs),
)
  where
    twice :
        (b : Bool) (j : String)
        → field_of j (insert_field "content" (text t) fs)
          ≡ (if b then some (text t) else field_of j fs)
        → (if b then some (text u) else field_of j (insert_field "content" (text t) fs))
          ≡ (if b then some (text u) else field_of j fs)
    twice true j e = refl
    twice false j e = e
Redacted-set_opt (some u) t (some null) left r = r
Redacted-set_opt (some u) t (some (bool b)) left r = r
Redacted-set_opt (some u) t (some (number n)) left r = r
Redacted-set_opt (some u) t (some (other_number s)) left r = r
Redacted-set_opt (some u) t (some (text s)) left r = r
Redacted-set_opt (some u) t (some (array ms)) left r = r

message_at-set_content_at :
    (i n : ℕ) (t : String) (ms : Items)
    → message_at i (set_content_at n t ms)
      ≡ (if n == i then set_opt t (message_at i ms) else message_at i ms)
message_at-set_content_at i n t no_items = ground arith
message_at-set_content_at zero zero t (item m ms) = refl
message_at-set_content_at zero (suc n) t (item m ms) = ground arith
message_at-set_content_at (suc i) zero t (item m ms) = ground arith
message_at-set_content_at (suc i) (suc n) t (item m ms) =
    ground (arith, message_at-set_content_at i n t ms)

redact_each-Redacted :
    (i : ℕ) (rs : List (ℕ × String)) (ms : Items)
    → Redacted (last_for i rs) (message_at i ms) (message_at i (redact_each rs ms))
redact_each-Redacted i [] ms = refl
redact_each-Redacted i ((n, t) ∷ rs) ms = one_more (last_for i rs) (n == i) (
    subst (λ m. Redacted (last_for i rs) m (message_at i (redact_each rs (set_content_at n t ms))))
      (message_at-set_content_at i n t ms) (redact_each-Redacted i rs (set_content_at n t ms)))
  where
    left : Option Json
    left = message_at i (redact_each rs (set_content_at n t ms))

    one_more :
        (o : Option String) (same : Bool)
        → Redacted o (if same then set_opt t (message_at i ms) else message_at i ms) left
        → Redacted (or_text o (if same then some t else none)) (message_at i ms) left
    one_more o true r = Redacted-set_opt o t (message_at i ms) left r
    one_more none false r = r
    one_more (some u) false r = r

module _ {B : Type 0} (from_slice : B → Option Json) (to_vec : Json → B) where
  -- A body that is read as an object with an array of messages, and a list of redactions that is not
  -- empty. The body that results is the writing of an object that has every key but `messages` as it
  -- was, and in `messages` an array. The message at every index of the array is what it was, if no
  -- redaction is for it or if it is no object; else it is an object that has the last text given for
  -- the index as its content, and every other field as it was.
  pub apply_message_redactions-Redacted :
      (body : B) (fs : Fields) (items : Items) (r : ℕ × String) (rs : List (ℕ × String))
      → from_slice body ≡ some (object fs)
      → field_of "messages" fs ≡ some (array items)
      → (fields : Fields) × (left : Items) × (apply_message_redactions from_slice to_vec body
            (r ∷ rs)
          ≡ ok (to_vec (object fields)))
        × ((key : String)
            → field_of key fields
              ≡ (if str_eq "messages" key then some (array left) else field_of key fs))
        × ((i : ℕ) → Redacted (last_for i (r ∷ rs)) (message_at i items) (message_at i left))
  unfolding apply_message_redactions
  apply_message_redactions-Redacted body fs items r rs e f =
      let left = redact_each (r ∷ rs) items in
      (
        put_field "messages" (array left) fs,
        left,
        rw (e, f) refl,
        λ key. field_of-put_field "messages" key (array left) (array items) fs f,
        λ i. redact_each-Redacted i (r ∷ rs) items,
      )

  -- A body that is read as an object is left as it is if the route's upstream has the name that was
  -- asked for; else it becomes the writing of an object that has the upstream's name as its model, and
  -- every other key as it was.
  pub rewrite_chat_model-fields :
      (body : B) (fs : Fields) (route : ResolvedModelRoute)
      → from_slice body ≡ some (object fs)
      → (str_eq route.requested_alias route.upstream_alias ≡ true)
          × (rewrite_chat_model from_slice to_vec body route ≡ ok body)
        ⊎ ((fields : Fields) × (rewrite_chat_model from_slice to_vec body route
              ≡ ok (to_vec (object fields)))
            × ((key : String)
                → field_of key fields ≡ (
                    if str_eq "model" key
                    then some (text route.upstream_alias)
                    else field_of key fs)))
  unfolding rewrite_chat_model
  rewrite_chat_model-fields body fs route e =
      elim (Bool-cases (str_eq route.requested_alias route.upstream_alias)) [
        | inl same ↦ inl (same, rw same refl)
        | inr other ↦ inr (
          insert_field "model" (text route.upstream_alias) fs,
          rw (other, e) refl,
          λ key. field_of-insert_field "model" key (text route.upstream_alias) fs,
        )
      ]
