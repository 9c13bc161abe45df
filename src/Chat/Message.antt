-- ===== src/Chat/Message.antt =====
-- `Message` of backend/app/models/chat.py. Texts that the code measures or cuts are lists of code
-- points; identifiers and kinds, which it only compares, are `String`s, and a UUID is a number.
use root_agent.Common.{ℕ, String, Bool, false, Option, none, some, List, str_eq}

pub record Message : Type 0 where
  pub message_id : String
  pub role : String
  pub content : List ℕ
  pub timestamp : ℕ
  pub step_kind : Option String
  pub step_index : Option ℕ
  pub artifact_ids : List ℕ

-- `message.step_kind == kind`
abbrev pub is_kind : String → Message → Bool
is_kind kind m = elim m.step_kind [ none ↦ false | some k ↦ str_eq k kind ]

abbrev pub is_user : Message → Bool
is_user = is_kind "user"
