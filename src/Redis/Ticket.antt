-- ===== src/Redis/Ticket.antt =====
-- Single-use WebSocket tickets: `issue_ws_ticket` and `consume_ws_ticket`. `digest` is SHA-256 in
-- hexadecimal, and the tickets are what `secrets.token_urlsafe` draws.
pub mod Laws
use Prim.Native.String.{count}
use root_agent.Common.{
  ltb, if◌then◌else◌, ℕ, ◌-◌, ◌<◌, String, ◌<>◌, ◌||◌, Option, none, some, List, [], ◌∷◌, str_eq,
}
use root_agent.Redis.Server.{Server}

-- `str(value) if value else None`
abbrev pub truthy : Option String → Option String
truthy none = none
truthy (some v) = if str_eq v "" then none else some v

module _ (R : Server) (digest : String → String) where
  unfoldable pub ticket_key : String → String
  ticket_key ticket = "ws-ticket:" <> digest ticket

  -- The loop of three attempts. `none` is the `RuntimeError` after the last one.
  unfoldable pub issue_loop : R.State → ℕ → String → ℕ → List String → R.State × Option (String × ℕ)
  issue_loop s now user_id ttl [] = (s, none)
  issue_loop s now user_id ttl (ticket ∷ draws) =
      let (s', created) = R.set_nx_ex s now (ticket_key ticket) user_id ttl in
      let rest = issue_loop s' now user_id ttl draws in
      if created then (s', some (ticket, ttl)) else rest

  unfoldable pub issue_ws_ticket :
      R.State → ℕ → String → ℕ → (ℕ → String) → R.State × Option (String × ℕ)
  unfolding issue_loop
  issue_ws_ticket s now user_id ttl draw =
      issue_loop s now user_id ttl (draw 0 ∷ draw 1 ∷ draw 2 ∷ [])

  unfoldable pub consume_ws_ticket : R.State → ℕ → String → R.State × Option String
  consume_ws_ticket s now ticket =
      let (s', value) = R.getdel s now (ticket_key ticket) in
      if str_eq ticket "" || ltb 256 (count ticket) then (s, none) else (s', truthy value)
