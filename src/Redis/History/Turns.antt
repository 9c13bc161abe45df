-- ===== src/Redis/History/Turns.antt =====
-- Which messages `get_session_history` selects.
use root_agent.Common.{
  ltb, leb, if◌then◌else◌, leb→le, Bool-cases, length, take, drop, filter, take-append-drop, ℕ,
  zero, suc, ◌+◌, ◌≤◌, ◌<◌, min, ◌≡◌, refl, sym, ◌∙◌, inl, inr, true, not, ◌&&◌, some, List, [],
  ◌∷◌, ◌++◌, arith,
}
use root_agent.Chat.Message.{Message, is_user}
use mathlib.Core.Bool.{false≢true}
use root_agent.Redis.History.{skip_to_user, recent, user_at, find_start}

abbrev pub users : List Message → ℕ
users = λ ms. length (filter is_user ms)

users-drop-suc :
    (ms : List Message) (i : ℕ)
    → users (drop i ms)
      ≡ (if user_at ms i then suc (users (drop (suc i) ms)) else users (drop (suc i) ms))
users-drop-suc [] zero = refl
users-drop-suc [] (suc i) = refl
users-drop-suc (x ∷ xs) zero = ground arith
users-drop-suc (x ∷ xs) (suc i) = users-drop-suc xs i

users-drop-le : (ms : List Message) (i : ℕ) → users (drop i ms) ≤ users ms
users-drop-le ms zero = omega arith
users-drop-le [] (suc i) = omega arith
users-drop-le (x ∷ xs) (suc i) = ground (arith, users-drop-le xs i)

drop-length : (ms : List Message) → drop (length ms) ms ≡ []
drop-length [] = refl
drop-length (x ∷ xs) = drop-length xs

-- Backwards from the end the loop stops at the `last_n`-th user message, or goes through.
users-find_start :
    (ms : List Message) (i c n : ℕ)
    → c ≡ users (drop i ms)
    → c < n
    → users (drop (find_start ms i c n) ms) ≡ min n (users ms)
unfolding find_start
users-find_start ms zero c n e lt = omega arith
users-find_start ms (suc i) c n e lt = ground (
  arith,
  users-find_start ms i (c + 1) n,
  users-find_start ms i c n,
  users-drop-suc ms i,
  users-drop-le ms i,
)

abbrev pub StartsWithUser : List Message → Type 0
StartsWithUser [] = Unit
StartsWithUser (m ∷ ms) = is_user m ≡ true

starts_at_user : (ms : List Message) (i : ℕ) → user_at ms i ≡ true → StartsWithUser (drop i ms)
starts_at_user [] i u = absurd (false≢true u)
starts_at_user (x ∷ xs) zero u = u
starts_at_user (x ∷ xs) (suc i) u = starts_at_user xs i u

drop_all : (ms : List Message) (i : ℕ) → length ms ≤ i → drop i ms ≡ []
drop_all [] zero le = refl
drop_all [] (suc i) le = refl
drop_all (x ∷ xs) zero le = absurd (omega arith)
drop_all (x ∷ xs) (suc i) le = drop_all xs i (omega arith)

-- The loop passes over no user message, and with enough rounds it ends at one or at the end.
skip_to_user_lem :
    (ms : List Message) (i fuel : ℕ)
    → length ms ≤ i + fuel
    → (users (drop (skip_to_user ms i fuel) ms) ≡ users (drop i ms))
      × StartsWithUser (drop (skip_to_user ms i fuel) ms)
unfolding skip_to_user
skip_to_user_lem ms i zero le = rw (drop_all ms i (omega arith)) (refl, tt)
skip_to_user_lem ms i (suc fuel) le = elim (Bool-cases (ltb i (length ms) && not (user_at ms i))) [
  | inl e ↦
      let ih = skip_to_user_lem ms (i + 1) fuel (omega arith) in
      rw e (ih.0 ∙ ground (arith, users-drop-suc ms i), ih.1)
  | inr e ↦ rw e (
    refl,
    elim (Bool-cases (user_at ms i)) [
      | inl u ↦ starts_at_user ms i u
      | inr n ↦ rw (drop_all ms i (ground arith)) tt
    ],
  )
]

recent-eq-drop :
    (ms : List Message) (n : ℕ)
    → recent ms (some n)
      ≡ drop (skip_to_user ms (find_start ms (length ms) 0 (n + 1)) (length ms)) ms
unfolding recent
recent-eq-drop ms n =
    let j = skip_to_user ms (find_start ms (length ms) 0 (n + 1)) (length ms) in
    elim (Bool-cases (leb (length ms) j)) [
      | inl e ↦ rw e (sym (drop_all ms j (leb→le _ j e)))
      | inr e ↦ rw e
    ]

-- The selected messages are the end of the history. They begin with a user message, if there are
-- any, and hold the last `last_n + 1` user messages, or all of them if there are fewer.
pub recent_turns :
    (messages : List Message) (last_n : ℕ)
    → ((earlier : List Message) × (earlier ++ recent messages (some last_n) ≡ messages))
      × (users (recent messages (some last_n)) ≡ min (last_n + 1) (users messages))
      × StartsWithUser (recent messages (some last_n))
recent_turns ms n =
    let i = find_start ms (length ms) 0 (n + 1) in
    let j = skip_to_user ms i (length ms) in
    let skipped = skip_to_user_lem ms i (length ms) (omega arith) in
    rw (recent-eq-drop ms n) (
      (take j ms, take-append-drop j ms),
      skipped.0 ∙ users-find_start ms (length ms) 0 (n + 1) (rw (drop-length ms)) (omega arith),
      skipped.1,
    )
