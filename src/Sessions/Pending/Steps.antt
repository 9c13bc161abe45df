-- ===== src/Sessions/Pending/Steps.antt =====
-- The steps of a request to delete a session: its lock, and its mark on the chat.
use root_agent.Common.{
  ltb, ◌==◌, if◌then◌else◌, ==_refl, Bool-cases, any, find?, ℕ, ◌+◌, ◌≤◌, String, ◌≡◌, refl, sym,
  ap, ◌∙◌, subst, inl, inr, Bool, true, false, ◌&&◌, Option, none, some, List, [], ◌∷◌, map, arith,
  str_eq_refl,
}
use root_agent.Common.Result.{Result, ok, err}
use mathlib.Core.Option.{some-injective}
use root_agent.Redis.Server.{Server, IsRedis, until}
use root_agent.Redis.Lock.{lock_key, owns}
use root_agent.Redis.Lock.Laws.{holder, holder-acquire, holder-release}
use root_agent.Run.Model.{Chat}
use root_agent.Sessions.{World, Setting, Step, SessionError, commit_failed}
use root_agent.Sessions.Service.{request_session_deletion, mark, commit}
use root_agent.Sessions.Pending.{Locking, is_marked, try_lock, unlocked}

module _ (R : Server) (L : IsRedis R) (K : Locking) (ordered : K.now ≤ K.later)
    (user_id session_id : ℕ) (s : R.State) where
  abbrev user : String
  user = K.name user_id

  abbrev session : String
  session = K.name session_id

  -- A lock that was free is the request's own once it is taken, until it runs out.
  pub taken_shows :
      holder R user session s K.now ≡ none
      → holder R user session (try_lock R K user_id session_id s).0 K.later
        ≡ until (K.now + K.ttl) K.later K.token
  taken_shows free = holder-acquire R L s K.now user session K.token K.ttl K.later ordered free

  -- A lock that was free is free again after it was taken and given back.
  pub free_again :
      holder R user session s K.now ≡ none
      → holder R user session
          (unlocked R K user_id session_id K.token (try_lock R K user_id session_id s).0)
          K.later
        ≡ none
  unfolding owns
  free_again free =
      let taken = (try_lock R K user_id session_id s).0 in
      let shows : holder R user session taken K.later ≡ until (K.now + K.ttl) K.later K.token =
        holder-acquire R L s K.now user session K.token K.ttl K.later ordered free in
      let after_release =
        holder-release R L taken K.later user session K.token K.later (omega arith) in
      elim (Bool-cases (ltb K.later (K.now + K.ttl))) [
        | inl held ↦
            let mine : holder R user session taken K.later ≡ some K.token = shows ∙ rw held refl in
            let own : owns R taken K.later (lock_key user session) K.token ≡ true =
              rw (owns, mine) (str_eq_refl K.token) in
            after_release ∙ rw own refl
        | inr expired ↦
            let gone : holder R user session taken K.later ≡ none = shows ∙ rw expired refl in
            let own : owns R taken K.later (lock_key user session) K.token ≡ false =
              rw (owns, gone) refl in
            after_release ∙ (rw own gone)
      ]

module _ (S : Setting) (chat : Chat) where
  is_wanted : Chat → Bool
  is_wanted c = c.id == chat.id && is_marked c

  wanted_among :
      (p : Chat → Bool) (cs : List Chat)
      → find? p cs ≡ some chat
      → is_marked chat ≡ true
      → any (λ c. c.id == chat.id && is_marked c) cs ≡ true
  wanted_among p [] is on = absurd (cc)
  wanted_among p (c ∷ cs) is on = elim (Bool-cases (p c)) [
    | inl here ↦
        let same : c ≡ chat = some-injective c chat (rw here at is) in
        let id : (c.id == chat.id) ≡ true = ap (λ d. Chat.id d == chat.id) same ∙ ==_refl chat.id in
        let set : is_marked c ≡ true = ap is_marked same ∙ on in rw (id, set) refl
    | inr off ↦ let rest = wanted_among p cs (rw off at is) on in ground (arith, rest)
  ]

  marked_among :
      (p : Chat → Bool) (cs : List Chat)
      → find? p cs ≡ some chat
      → any
          (λ c. c.id == chat.id && is_marked c)
          (map (λ c. if c.id == chat.id then mark S c else c) cs)
        ≡ true
  marked_among p [] is = absurd (cc)
  marked_among p (c ∷ cs) is = elim (Bool-cases (p c)) [
    | inl here ↦
        let same : c ≡ chat = some-injective c chat (rw here at is) in
        let id : (c.id == chat.id) ≡ true = ap (λ d. Chat.id d == chat.id) same ∙ ==_refl chat.id in
        rw (id, id) refl
    | inr off ↦
        let rest = marked_among p cs (rw off at is) in
        elim (Bool-cases (c.id == chat.id)) [
          | inl id ↦ rw (id, id) refl
          | inr other ↦ rw (other, other) rest
        ]
  ]

  -- What a request leaves behind.
  unfoldable pub Requested : World → Result SessionError (Unit {0}) × World → Type 0
  Requested w (err e, w') = w' ≡ w
  Requested w (ok done, w') = any (λ c. c.id == chat.id && is_marked c) w'.chats ≡ true

  pub request_session_deletion-Requested :
      (p : Chat → Bool) (w : World)
      → find? p w.chats ≡ some chat
      → Requested w (request_session_deletion S chat w)
  unfolding request_session_deletion Requested
  request_session_deletion-Requested p w is = by_mark chat.deletion_requested_at refl
    where
      asked : World
      asked = record w { chats = map (λ c. if c.id == chat.id then mark S c else c) w.chats }

      by_mark :
          (x : Option ℕ)
          → chat.deletion_requested_at ≡ x
          → Requested w
              (elim x as (λ y. Step (Unit {0})) [ some at ↦ (ok tt, w) | none ↦ commit S asked w ])
      by_mark (some at) set = wanted_among p w.chats is (rw (is_marked, set) refl)
      by_mark none set = elim (Bool-cases S.commit_fails) [
        | inl fails ↦
            let step : commit S asked w ≡ (err commit_failed, w) = rw (commit, fails) refl in
            subst (λ r. Requested w r) (sym step) refl
        | inr fine ↦
            let step : commit S asked w ≡ (ok tt, asked) = rw (commit, fine) refl in
            subst (λ r. Requested w r) (sym step) (marked_among p w.chats is)
      ]
