-- ===== src/Redis/History/Stored.antt =====
-- What saving and deleting do to the stored history.
use root_agent.Common.{
  if◌then◌else◌, Bool-cases, Option-cases, any, find?, ℕ, String, ◌≡◌, refl, sym, ap, ◌∙◌, inl, inr,
  Bool, true, false, Option, none, some, List, [], ◌∷◌, ◌++◌, arith, str_eq, eq_iff,
}
use mathlib.Core.Option.{none-ne-some, some-injective}
use root_agent.Chat.Message.{Message}
use root_agent.Redis.History.{
  ListKey, IsListKey, Codec, IsCodec, load_all, erase_first, recent, save_message,
  get_session_history, delete_loop, delete_message,
}

abbrev pub append_to : Option (List Message) → Message → Option (List Message)
append_to none m = none
append_to (some ms) m = some (ms ++ m ∷ [])

abbrev pub selected : Option (List Message) → Option ℕ → Option (List Message)
selected none n = none
selected (some ms) n = some (recent ms n)

-- The list without its first element that passes the test.
abbrev pub erase_where : (String → Bool) → List String → List String
erase_where p [] = []
erase_where p (x ∷ xs) = if p x then xs else x ∷ erase_where p xs

erase_first_found :
    (p : String → Bool) (xs : List String) (v : String)
    → find? p xs ≡ some v
    → (p v ≡ true) × (erase_first v xs ≡ erase_where p xs)
erase_first_found p [] v e = absurd (none-ne-some v e)
erase_first_found p (x ∷ xs) v e = elim (Bool-cases (p x)) [
  | inl px ↦
      let same : x ≡ v = some-injective x v (rw px at e) in
      (ap p (sym same) ∙ px, rw (px, (eq_iff x v).1 same) refl)
  | inr px ↦
      let ih = erase_first_found p xs v (rw px at e) in
      (ih.0, ground (arith, ih.0, ih.1, eq_iff x v, px))
]

erase_where-none :
    (p : String → Bool) (xs : List String) → find? p xs ≡ none → erase_where p xs ≡ xs
erase_where-none p [] e = refl
erase_where-none p (x ∷ xs) e = ground (arith, erase_where-none p xs)

any-none : (p : String → Bool) (xs : List String) → find? p xs ≡ none → any p xs ≡ false
any-none p [] e = refl
any-none p (x ∷ xs) e = ground (arith, any-none p xs)

any_found :
    (p : String → Bool) (xs : List String) (v : String) → find? p xs ≡ some v → any p xs ≡ true
any_found p [] v e = absurd (none-ne-some v e)
any_found p (x ∷ xs) v e = ground (arith, any_found p xs v)

erase_where_last :
    (p : String → Bool) (xs : List String) (v : String)
    → any p xs ≡ false
    → p v ≡ true
    → erase_where p (xs ++ v ∷ []) ≡ xs
erase_where_last p [] v e pv = rw pv
erase_where_last p (x ∷ xs) v e pv = ground (arith, erase_where_last p xs v)

any_last :
    (p : String → Bool) (xs : List String) (v : String) → p v ≡ true → any p (xs ++ v ∷ []) ≡ true
any_last p [] v pv = rw pv
any_last p (x ∷ xs) v pv = ground (arith, any_last p xs v)

module _ (C : Codec) where
  abbrev pub has_id : String → String → Bool
  has_id id text = elim (C.message_id text) [ none ↦ false | some found ↦ str_eq found id ]

module _ (K : ListKey) (LK : IsListKey K) (C : Codec) where
  -- The messages that the key holds, if all its texts are valid.
  abbrev pub stored : K.Key → Option (List Message)
  stored key = load_all C (K.lrange key)

  own : (m : Message) → IsCodec C m → has_id C m.message_id (C.dump m) ≡ true
  own m LC = ground (arith, LC.message_id-dump, eq_iff m.message_id m.message_id)

  load_all-append :
      (texts : List String) (m : Message)
      → IsCodec C m
      → load_all C (texts ++ C.dump m ∷ []) ≡ append_to (load_all C texts) m
  load_all-append [] m LC = rw LC.load-dump
  load_all-append (t ∷ ts) m LC = ground (arith, load_all-append ts m LC)

  stored-save :
      (key : K.Key) (m : Message)
      → IsCodec C m
      → stored (save_message K C key m) ≡ append_to (stored key) m
  unfolding save_message
  stored-save key m LC =
      ap (load_all C) (LK.lrange-rpush key (C.dump m)) ∙ load_all-append (K.lrange key) m LC

  -- A history that is read back after a message was saved is selected from the messages that
  -- were stored before and, as the last, that message. It cannot be read if one of them is invalid.
  pub history-save :
      (key : K.Key) (m : Message) (last_n : Option ℕ)
      → IsCodec C m
      → get_session_history K C (save_message K C key m) last_n
        ≡ selected (append_to (stored key) m) last_n
  unfolding get_session_history
  history-save key m last_n LC = ground (arith, stored-save key m LC)

  delete_loop_lem :
      (key : K.Key) (texts : List String) (id : String)
      → delete_loop K C key texts id
        ≡ elim (find? (has_id C id) texts) [ none ↦ (key, false) | some t ↦ (K.lrem key t, true) ]
  unfolding delete_loop
  delete_loop_lem key [] id = refl
  delete_loop_lem key (t ∷ ts) id = ground (arith, delete_loop_lem key ts id)

  found_or_none :
      (key : K.Key) (id : String) (texts : List String)
      → let r : K.Key × Bool = elim (find? (has_id C id) texts) [
        | none ↦ (key, false)
        | some t ↦ (K.lrem key t, true)
      ] in
        (K.lrange key ≡ texts → K.lrange r.0 ≡ erase_where (has_id C id) texts)
        × (r.1 ≡ any (has_id C id) texts)
  found_or_none key id texts = elim (Option-cases (find? (has_id C id) texts)) [
    | inl e ↦ rw e (
      λ same. same ∙ sym (erase_where-none (has_id C id) texts e),
      sym (any-none (has_id C id) texts e),
    )
    | inr (t, e) ↦ rw e (
      λ same.
          LK.lrange-lrem key t
          ∙ ap (erase_first t) same
          ∙ (erase_first_found (has_id C id) texts t e).1,
      sym (any_found (has_id C id) texts t e),
    )
  ]

  -- `delete_message` takes out the first message that has the identifier and nothing else, and
  -- says whether there was one.
  pub delete_message_lem :
      (key : K.Key) (id : String)
      → (K.lrange (delete_message K C key id).0 ≡ erase_where (has_id C id) (K.lrange key))
        × ((delete_message K C key id).1 ≡ any (has_id C id) (K.lrange key))
  unfolding delete_message
  delete_message_lem key id =
      let both = found_or_none key id (K.lrange key) in
      rw (delete_loop_lem key (K.lrange key) id) (both.0 refl, both.1)

  -- Deleting takes back the save of a message whose identifier no stored text had: the same texts
  -- are stored as before.
  pub delete-save :
      (key : K.Key) (m : Message)
      → IsCodec C m
      → any (has_id C m.message_id) (K.lrange key) ≡ false
      → (K.lrange (delete_message K C (save_message K C key m) m.message_id).0 ≡ K.lrange key)
        × ((delete_message K C (save_message K C key m) m.message_id).1 ≡ true)
  unfolding save_message
  delete-save key m LC fresh =
      let both = delete_message_lem (K.rpush key (C.dump m)) m.message_id in
      (
        both.0
            ∙ ap (erase_where (has_id C m.message_id)) (LK.lrange-rpush key (C.dump m))
            ∙ erase_where_last (has_id C m.message_id) (K.lrange key) (C.dump m) fresh (own m LC),
        both.1
            ∙ ap (any (has_id C m.message_id)) (LK.lrange-rpush key (C.dump m))
            ∙ any_last (has_id C m.message_id) (K.lrange key) (C.dump m) (own m LC),
      )
