-- ===== src/Redis/Ticket/Laws.antt =====
-- A ticket admits its user once, before it expires.
use Prim.Native.String.{count}
use root_agent.Common.{
  ltb, if◌then◌else◌, Option-cases, ℕ, ◌+◌, ◌≤◌, String, ◌≡◌, ap, ◌∙◌, inl, inr, false, ◌||◌,
  Option, none, some, List, [], ◌∷◌, arith, str_eq, eq_iff,
}
use mathlib.Core.Option.{none-ne-some}
use root_agent.Redis.Server.{Server, IsRedis, until}
use root_agent.Redis.Ticket.{ticket_key, issue_ws_ticket, issue_loop, consume_ws_ticket, truthy}

module _ (R : Server) (L : IsRedis R) (digest : String → String) where
  abbrev stored : R.State → ℕ → String → Option String
  stored s t ticket = R.get s t (ticket_key R digest ticket)

  -- What a well-formed ticket is exchanged for, and that it is gone afterwards.
  consume_lem :
      (s : R.State) (now : ℕ) (ticket : String)
      → (str_eq ticket "" || ltb 256 (count ticket)) ≡ false
      → (consume_ws_ticket R digest s now ticket).1 ≡ truthy (stored s now ticket)
  unfolding consume_ws_ticket
  consume_lem s now ticket fine =
      rw fine (ap (truthy) (L.getdel-value s now (ticket_key R digest ticket)))

  abbrev key : String → String
  key = ticket_key R digest

  -- A ticket that was presented admits nobody again, whatever it gave the first time, until it is
  -- issued anew. Between the two calls only time passes.
  pub consume_twice :
      (s : R.State) (now t : ℕ) (ticket : String)
      → now ≤ t
      → (consume_ws_ticket R digest (consume_ws_ticket R digest s now ticket).0 t ticket).1 ≡ none
  unfolding consume_ws_ticket
  consume_twice s now t ticket le = ground (
    arith,
    L.getdel-value (R.getdel s now (key ticket)).0 t (key ticket),
    L.get-getdel s now t (key ticket) (key ticket) le,
    eq_iff (key ticket) (key ticket),
  )

  -- What the loop stores when it hands a ticket out.
  pub stored-issue_loop :
      (s : R.State) (now t : ℕ) (user_id : String) (ttl : ℕ) (draws : List String) {s' : R.State}
      {ticket : String} {expires_in : ℕ}
      → now ≤ t
      → issue_loop R digest s now user_id ttl draws ≡ (s', some (ticket, expires_in))
      → (stored s' t ticket ≡ until (now + ttl) t user_id) × (expires_in ≡ ttl)
  unfolding issue_loop
  stored-issue_loop s now t user_id ttl [] le e = absurd (none-ne-some _ (ap (λ p. p.1) e))
  stored-issue_loop s now t user_id ttl (d ∷ draws) {s' = s'} {ticket = ticket} le e =
      elim (Option-cases (stored s now d)) [
        | inl free ↦ ground (
          arith,
          L.set-done s now (key d) user_id ttl free,
          L.get-set s now t (key d) (key d) user_id ttl le free,
          eq_iff (key d) (key d),
        )
        | inr (w, taken) ↦
            stored-issue_loop s now t user_id ttl draws le
              (rw (L.set-taken s now (key d) user_id w ttl taken) at e)
      ]

  -- A ticket that was issued and is presented, to the server as the issuing call left it, admits
  -- its user before its lifetime is over and nobody afterwards.
  pub consume-issue :
      (s : R.State) (now t : ℕ) (user_id : String) (ttl : ℕ) (draw : ℕ → String) {s' : R.State}
      {ticket : String} {expires_in : ℕ}
      → now ≤ t
      → str_eq user_id "" ≡ false
      → (str_eq ticket "" || ltb 256 (count ticket)) ≡ false
      → issue_ws_ticket R digest s now user_id ttl draw ≡ (s', some (ticket, expires_in))
      → (consume_ws_ticket R digest s' t ticket).1
        ≡ (if ltb t (now + expires_in) then some user_id else none)
  unfolding issue_ws_ticket
  consume-issue s now t user_id ttl draw {s' = s'} {ticket = ticket} le named fine e =
      let both = stored-issue_loop s now t user_id ttl (draw 0 ∷ draw 1 ∷ draw 2 ∷ []) le e in
      consume_lem s' t ticket fine ∙ ground (arith, both.0, both.1)
