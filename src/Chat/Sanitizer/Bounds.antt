-- ===== src/Chat/Sanitizer/Bounds.antt =====
-- How long what the language model is given can be, and which messages it keeps.
use root_agent.Common.{
  ltb, leb, ltb→lt, Bool-cases, length, take, sum_by, length-append, sum_by-append, length-take, ℕ,
  ◌+◌, ◌-◌, ◌≤◌, ◌<◌, ◌≡◌, refl, ap, ◌∙◌, inl, inr, true, false, List, [], ◌∷◌, ◌++◌, map, reverse,
  arith, Text,
}
use mathlib.Core.List.{reverse-append, reverse-reverse}
use root_agent.Chat.Message.{Message}
use root_agent.Chat.Json.{JsonLibrary}
use root_agent.Chat.Sanitizer.{
  truncated, bounded, select, sanitize_history, max_history_chars, sanitize_message,
  sanitize_history, max_history_chars,
}

-- The characters of a history.
abbrev pub size : List Message → ℕ
size = sum_by (λ m. length m.content)

size-append : (xs ys : List Message) → size (xs ++ ys) ≡ size xs + size ys
size-append xs ys = sum_by-append (λ m. length m.content) xs ys

size-reverse : (ms : List Message) → size (reverse ms) ≡ size ms
size-reverse [] = refl
size-reverse (m ∷ ms) =
    ap size (reverse-append (m ∷ []) ms)
    ∙ omega (arith, size-append (reverse ms) (reverse (m ∷ [])), size-reverse ms)

-- Everything is kept while there is room.
select_all :
    (maximum : ℕ) (ms : List Message) (total : ℕ)
    → total + size ms < maximum
    → select maximum ms total ≡ ms
unfolding select
select_all maximum [] total room = refl
select_all maximum (m ∷ ms) total room =
    let more : leb (maximum - total) 0 ≡ false = ground arith in
    let fits : ltb (maximum - total) (length m.content) ≡ false = ground arith in
    rw (more, fits)
      (ap (λ l. m ∷ l) (select_all maximum ms (total + length m.content) (omega arith)))

-- Of the messages that are left, none is taken, or the first one is, cut.
pub data IsCutOf : List Message → List Message → Type 0 where
  nothing : (rest : List Message) → IsCutOf rest []
  cut :
      (m : Message) (rest : List Message) (limit : ℕ)
      → IsCutOf (m ∷ rest) (record m { content = bounded m.content limit } ∷ [])

abbrev pub NewestKept : List Message → List Message → Type 0
NewestKept ms taken =
    (whole : List Message) × (rest : List Message) × (last : List Message) × (ms ≡ whole ++ rest)
    × (taken ≡ whole ++ last)
    × IsCutOf rest last

length-cut : (v : Text) (limit : ℕ) → limit < length v → limit ≤ length (bounded v limit)
unfolding bounded
length-cut v limit lt =
    ground (arith, length-append (take (limit - 12) v) truncated, length-take (limit - 12) v)

select_full :
    (maximum : ℕ) (ms : List Message) (total : ℕ) → maximum ≤ total → select maximum ms total ≡ []
unfolding select
select_full maximum [] total full = refl
select_full maximum (m ∷ ms) total full =
    let stop : leb (maximum - total) 0 ≡ true = ground arith in rw stop

select_newest :
    (maximum : ℕ) (ms : List Message) (total : ℕ) → NewestKept ms (select maximum ms total)
unfolding select
select_newest maximum [] total = ([], [], [], refl, refl, nothing [])
select_newest maximum (m ∷ ms) total = elim (Bool-cases (leb (maximum - total) 0)) [
  | inl full ↦ ([], m ∷ ms, [], refl, rw full, nothing (m ∷ ms))
  | inr more ↦ elim (Bool-cases (ltb (maximum - total) (length m.content))) [
    | inl long ↦
        let long' = ltb→lt (maximum - total) (length m.content) long in
        let over = length-cut m.content (maximum - total) long' in
        (
          [],
          m ∷ ms,
          record m { content = bounded m.content (maximum - total) } ∷ [],
          refl,
          rw (more, long)
              (ap (λ l. record m { content = bounded m.content (maximum - total) } ∷ l)
                (select_full maximum ms (total + length (bounded m.content (maximum - total)))
                  (omega arith))),
          cut m ms (maximum - total),
        )
    | inr fits ↦
        let (whole, rest, last, split, taken, c) =
          select_newest maximum ms (total + length m.content) in
        (m ∷ whole, rest, last, ap (λ l. m ∷ l) split, rw (more, fits) (ap (λ l. m ∷ l) taken), c)
  ]
]

module _ (J : JsonLibrary) (messages : List Message) where
  -- Backwards from the newest message, sanitized messages are taken whole; then, if there are
  -- more, at most one is cut, and all older ones are dropped.
  pub sanitize_history_newest :
      NewestKept
        (reverse (map (sanitize_message J) messages))
        (reverse (sanitize_history J messages))
  unfolding sanitize_history
  sanitize_history_newest =
      rw reverse-reverse
        (select_newest max_history_chars (reverse (map (sanitize_message J) messages)) 0)

  -- If the sanitized messages have fewer than 200000 characters, all of them are kept whole.
  pub sanitize_history_whole :
      size (map (sanitize_message J) messages) < max_history_chars
      → sanitize_history J messages ≡ map (sanitize_message J) messages
  unfolding sanitize_history
  sanitize_history_whole room =
      let all = map (sanitize_message J) messages in
      rw (select_all max_history_chars (reverse all) 0 (omega (arith, size-reverse all)))
        (reverse-reverse all)

-- A text that is cut to a limit under 12 characters comes out longer than the limit: the mark
-- alone has 12.
pub bounded_overrun :
    (v : Text) (limit : ℕ) → limit < length v → limit < 12 → limit < length (bounded v limit)
unfolding bounded
bounded_overrun v limit long short = ground (arith, length-append (take (limit - 12) v) truncated)
