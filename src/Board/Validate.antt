-- ===== src/Board/Validate.antt =====
-- src/skcoord/card.py: `validate_overlay_event`, which the writer and the reader of the overlay call.
use Prim.Native.Char.{code}
use skcoord.Prelude.{
  ℕ, zero, suc, String, Bool, true, false, not, ◌&&◌, ◌||◌, Option, get_or, List, [], ◌∷◌, ◌++◌,
  ◌==◌, contains, any_of, is_some, is_blank, leb, if◌then◌else◌, Result, ok, err, value_error,
}
use skcoord.Board.Overlay.{
  CardEvent, Action, move, set_priority, set_swimlane, add_label, remove_label, link, assign,
  unassign, describe, verdict, unsupported, action_of,
}

-- [A-Za-z0-9]
abbrev pub is_alphanumeric : ℕ → Bool
is_alphanumeric c = (leb 48 c && leb c 57) || (leb 65 c && leb c 90) || (leb 97 c && leb c 122)

-- [A-Za-z0-9._@:-]
abbrev pub is_writer_char : ℕ → Bool
is_writer_char c =
    is_alphanumeric c
    || (leb 45 c && leb c 46)
    || (leb 58 c && leb c 58)
    || (leb 64 c && leb c 64)
    || (leb 95 c && leb c 95)

-- [A-Za-z0-9._@:-]{0,limit}\Z
unfoldable pub is_writer_rest : ℕ → String → Bool
is_writer_rest limit String.[] = true
is_writer_rest zero (String.◌∷◌ c s) = false
is_writer_rest (suc limit) (String.◌∷◌ c s) = is_writer_char (code c) && is_writer_rest limit s

-- _WRITER_RE.fullmatch
unfoldable pub is_writer : String → Bool
unfolding is_writer_rest
is_writer String.[] = false
is_writer (String.◌∷◌ c s) = is_alphanumeric (code c) && is_writer_rest 127 s

-- _ACTION_FIELDS
abbrev pub allowed : Action → List String
allowed move = "column" ∷ "order" ∷ []
allowed set_priority = "priority" ∷ []
allowed set_swimlane = "swimlane" ∷ []
allowed add_label = "label" ∷ []
allowed remove_label = "label" ∷ []
allowed link = "link_key" ∷ "link_value" ∷ []
allowed verdict = "link_key" ∷ "link_value" ∷ []
allowed assign = "owner" ∷ []
allowed unassign = []
allowed describe = "title" ∷ "description" ∷ []
allowed unsupported = []

abbrev pub named : String → Bool → List String
named name there = if there then name ∷ [] else []

-- {name for name in _OVERLAY_PAYLOAD_FIELDS if getattr(event, name) is not None}
abbrev pub populated : CardEvent → List String
populated e =
    named "column" (is_some e.column)
    ++ named "order" (is_some e.order)
    ++ named "priority" (is_some e.priority)
    ++ named "swimlane" (is_some e.swimlane)
    ++ named "label" (is_some e.label)
    ++ named "link_key" (is_some e.link_key)
    ++ named "link_value" (is_some e.link_value)
    ++ named "owner" (is_some e.owner)
    ++ named "title" (is_some e.title)
    ++ named "description" (is_some e.description)

-- bool(populated - allowed)
unfoldable pub has_reserved : Action → CardEvent → Bool
has_reserved a e = any_of (λ name. not (contains name (allowed a))) (populated e)

-- not str(value or "").strip()
abbrev pub is_missing : Option String → Bool
is_missing value = is_blank (get_or value "")

-- Whether the payload that the action asks for is missing.
unfoldable pub lacks_payload : Action → CardEvent → Bool
lacks_payload move e = not (is_some e.column) && not (is_some e.order)
lacks_payload set_priority e = is_missing e.priority
lacks_payload set_swimlane e = is_missing e.swimlane
lacks_payload add_label e = is_missing e.label
lacks_payload remove_label e = is_missing e.label
lacks_payload link e = is_missing e.link_key || not (is_some e.link_value)
lacks_payload verdict e =
    is_missing e.link_key || not (is_some e.link_value) || not (get_or e.link_key "" == "verdict")
lacks_payload assign e = is_missing e.owner
lacks_payload describe e = not (is_some e.title) && not (is_some e.description)
lacks_payload _ e = false

abbrev pub is_supported : Action → Bool
is_supported unsupported = false
is_supported _ = true

unfoldable pub validate_action : Action → Bool → CardEvent → Result Unit
unfolding lacks_payload has_reserved
validate_action a require_writer e =
    if not (is_supported a)
    then err (value_error "unsupported overlay action")
    else if (require_writer && not (is_writer e.writer))
    then err (value_error "overlay writer must be a nonempty bounded identity")
    else if has_reserved a e
    then err (value_error "overlay action carries reserved fields")
    else if lacks_payload a e
    then err (value_error "overlay action lacks its payload")
    else ok tt

unfoldable pub validate_overlay_event : CardEvent → Bool → Result Unit
unfolding validate_action
validate_overlay_event e require_writer = validate_action (action_of e.action) require_writer e
