-- ===== src/Redis/History.antt =====
-- The stored message history of a session: `save_message`, `get_session_history` and
-- `delete_message`. A message is stored as JSON text in a Redis list. The list commands and the
-- JSON library are not part of the program: `ListKey` and `Codec` have what is called of them.
pub mod Turns
pub mod Stored
use root_agent.Common.{
  ltb, leb, ◌==◌, if◌then◌else◌, length, drop, ℕ, zero, suc, ◌+◌, ◌-◌, ◌<◌, String, ◌≡◌, Bool, true,
  false, not, ◌&&◌, Option, none, some, List, [], ◌∷◌, ◌++◌, str_eq,
}
use root_agent.Chat.Message.{Message, is_user}

-- The list at one key.
pub record ListKey : Type 1 where
  pub Key : Type 0
  -- `LRANGE key 0 -1`
  pub lrange : Key → List String
  pub rpush : Key → String → Key
  -- `LREM key 1 value`
  pub lrem : Key → String → Key

abbrev pub erase_first : String → List String → List String
erase_first v [] = []
erase_first v (x ∷ xs) = if str_eq x v then xs else x ∷ erase_first v xs

pub record IsListKey (K : ListKey) : Type 0 where
  pub lrange-rpush : (k : K.Key) (v : String) → K.lrange (K.rpush k v) ≡ K.lrange k ++ v ∷ []
  pub lrange-lrem : (k : K.Key) (v : String) → K.lrange (K.lrem k v) ≡ erase_first v (K.lrange k)

-- `model_dump_json`; `json.loads` with `model_validate`, where `none` is an exception; and
-- `json.loads(text).get("message_id")`.
pub record Codec : Type 0 where
  pub dump : Message → String
  pub load : String → Option Message
  pub message_id : String → Option String

-- What storing a message relies on: it is read back as it was written.
pub record IsCodec (C : Codec) (m : Message) : Type 0 where
  pub load-dump : C.load (C.dump m) ≡ some m
  pub message_id-dump : C.message_id (C.dump m) ≡ some m.message_id

abbrev pub get_elem? {ℓ} : {A : Type ℓ} → List A → ℕ → Option A
get_elem? [] i = none
get_elem? (x ∷ xs) zero = some x
get_elem? (x ∷ xs) (suc i) = get_elem? xs i

abbrev pub user_at : List Message → ℕ → Bool
user_at messages i = elim (get_elem? messages i) [ none ↦ false | some m ↦ is_user m ]

-- `for i in range(len(messages) - 1, -1, -1)`, with `i` rounds left.
unfoldable pub find_start : List Message → ℕ → ℕ → ℕ → ℕ
find_start messages zero user_count last_n = 0
find_start messages (suc i) user_count last_n =
    let count = if user_at messages i then user_count + 1 else user_count in
    let rest = find_start messages i count last_n in
    if user_at messages i && count == last_n then i else rest

-- `while start_idx < len(messages) and not (messages[start_idx].step_kind == "user")`
unfoldable pub skip_to_user : List Message → ℕ → ℕ → ℕ
skip_to_user messages start_idx zero = start_idx
skip_to_user messages start_idx (suc fuel) =
    let rest = skip_to_user messages (start_idx + 1) fuel in
    if ltb start_idx (length messages) && not (user_at messages start_idx) then rest else start_idx

-- The selection by `last_n`, where `none` stands for -1.
unfoldable pub recent : List Message → Option ℕ → List Message
unfolding find_start skip_to_user
recent messages none = messages
recent messages (some last_n) =
    let found = find_start messages (length messages) 0 (last_n + 1) in
    let start_idx = skip_to_user messages found (length messages) in
    if leb (length messages) start_idx then [] else drop start_idx messages

abbrev load_all : Codec → List String → Option (List Message)
load_all C [] = some []
load_all C (text ∷ texts) = elim (C.load text) [
  | none ↦ none
  | some m ↦ elim (load_all C texts) [ none ↦ none | some ms ↦ some (m ∷ ms) ]
]

module _ (K : ListKey) (C : Codec) where
  unfoldable pub save_message : K.Key → Message → K.Key
  save_message key message = K.rpush key (C.dump message)

  unfoldable pub get_session_history : K.Key → Option ℕ → Option (List Message)
  unfolding recent
  get_session_history key last_n = elim (load_all C (K.lrange key)) [
    | none ↦ none
    | some ms ↦ some (recent ms last_n)
  ]

  -- The loop over the texts that were there when the call began.
  unfoldable pub delete_loop : K.Key → List String → String → K.Key × Bool
  delete_loop key [] message_id = (key, false)
  delete_loop key (text ∷ texts) message_id =
      let rest = delete_loop key texts message_id in
      elim (C.message_id text) [
        | none ↦ rest
        | some found ↦ if str_eq found message_id then (K.lrem key text, true) else rest
      ]

  unfoldable pub delete_message : K.Key → String → K.Key × Bool
  unfolding delete_loop
  delete_message key message_id = delete_loop key (K.lrange key) message_id
