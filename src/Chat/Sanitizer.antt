-- ===== src/Chat/Sanitizer.antt =====
-- backend/app/services/history_sanitizer.py: a bounded copy of the history, free of image data,
-- for the language model.
pub mod DataUris
pub mod Bounds
use root_agent.Common.{
  ltb, leb, ◌==◌, if◌then◌else◌, length, take, ℕ, ◌+◌, ◌-◌, ◌/◌, Bool, true, false, ◌&&◌, ◌||◌,
  none, some, List, [], ◌∷◌, ◌++◌, map, reverse, Text, codes, is_space,
}
use root_agent.Chat.Json.{Json, Items, Fields, JsonLibrary}
use root_agent.Chat.Message.{Message, is_kind}

abbrev pub max_tool_observation_chars : ℕ
max_tool_observation_chars = 20000

abbrev pub max_history_message_chars : ℕ
max_history_message_chars = 50000

abbrev pub max_history_chars : ℕ
max_history_chars = 200000

abbrev pub truncated : Text
truncated = codes "\n[truncated]"

-- `_bounded`
unfoldable pub bounded : Text → ℕ → Text
bounded value limit =
    if leb (length value) limit then value else take (limit - length truncated) value ++ truncated

-- One character of the pattern `data:image/` under `re.IGNORECASE`, where `i` also stands for the
-- dotted and the dotless i.
abbrev pub matches_letter : ℕ → ℕ → Bool
matches_letter p c =
    p == c || (leb b'a' p && leb p b'z' && c == p - 32) || (p == b'i' && (c == 0x130 || c == 0x131))

abbrev pub matches_prefix : Text → Text → Bool
matches_prefix [] text = true
matches_prefix (p ∷ pattern) [] = false
matches_prefix (p ∷ pattern) (c ∷ text) = matches_letter p c && matches_prefix pattern text

abbrev pub image_uri : Text
image_uri = codes "data:image/"

abbrev pub removed : Text
removed = codes "[image data removed]"

-- The characters that end a URI: `[\s"']`.
abbrev pub ends_uri : ℕ → Bool
ends_uri c = is_space c || c == 0x22 || c == 0x27

-- `_IMAGE_DATA_URI.sub("[image data removed]", value)`, from the left. The flag is set inside a
-- match: the pattern's letters are no end of a URI, so the rest of it is passed over alike.
unfoldable pub scan : Bool → Text → Text
scan inside [] = []
scan true (c ∷ text) =
    let rest = scan true text in
    let copied = c ∷ scan false text in if ends_uri c then copied else rest
scan false (c ∷ text) =
    let replaced = removed ++ scan true text in
    let copied = c ∷ scan false text in
    if matches_prefix image_uri (c ∷ text) then replaced else copied

unfoldable pub remove_data_uris : Text → Text
unfolding scan
remove_data_uris = scan false

-- `_sanitize_value`
unfoldable mutual
  pub sanitize_value : Json → Json
  sanitize_value Json.null = Json.null
  sanitize_value (Json.boolean b) = Json.boolean b
  sanitize_value (Json.number n) = Json.number n
  sanitize_value (Json.str s) = Json.str (remove_data_uris s)
  sanitize_value (Json.arr items) = Json.arr (sanitize_items items)
  sanitize_value (Json.obj fields) = Json.obj (sanitize_fields fields)

  pub sanitize_items : Items → Items
  sanitize_items Items.nil = Items.nil
  sanitize_items (Items.cons item items) = Items.cons (sanitize_value item) (sanitize_items items)

  pub sanitize_fields : Fields → Fields
  sanitize_fields Fields.end = Fields.end
  sanitize_fields (Fields.field key item fields) =
      Fields.field key (sanitize_value item) (sanitize_fields fields)

-- The loop over the reversed history, with the characters taken so far.
unfoldable pub select : ℕ → List Message → ℕ → List Message
unfolding bounded
select maximum [] total = []
select maximum (message ∷ messages) total =
    let remaining = maximum - total in
    let content =
      if ltb remaining (length message.content)
      then bounded message.content remaining
      else message.content in
    let rest = select maximum messages (total + length content) in
    if leb remaining 0 then [] else record message { content = content } ∷ rest

module _ (J : JsonLibrary) where
  unfoldable pub sanitize_content : Text → ℕ → Text
  unfolding bounded remove_data_uris sanitize_value
  sanitize_content content limit =
      bounded
        (elim (J.loads content) [
          | none ↦ remove_data_uris content
          | some parsed ↦ J.dumps (sanitize_value parsed)
        ])
        limit

  unfoldable pub sanitize_message : Message → Message
  unfolding sanitize_content
  sanitize_message message =
      let limit =
        if is_kind "tool" message then max_tool_observation_chars else max_history_message_chars in
      record message { content = sanitize_content message.content limit }

  unfoldable pub sanitize_history : List Message → List Message
  unfolding sanitize_message select
  sanitize_history messages =
      reverse (select max_history_chars (reverse (map sanitize_message messages)) 0)
