-- ===== src/Tests/Redis.antt =====
-- The theorems on backend/app/services/redis_store.py at concrete inputs.
use root_agent.Common.{
  ltb, if◌then◌else◌, ℕ, ◌+◌, ◌≤◌, min, String, ◌≡◌, refl, true, Option, none, some, List, [], ◌∷◌,
  ◌++◌, arith, str_eq, Memᴰ, codes,
}
use root_agent.Redis.Server.Memory.{memory, memory-IsRedis, nothing, Keys}
use root_agent.Redis.Lock.{acquire_run_lock}
use root_agent.Redis.Lock.Laws.{holder}
use root_agent.Redis.Lock.Exclusion
use root_agent.Redis.Lock.Exclusion.{exclusion}
use root_agent.Redis.Ticket.{consume_ws_ticket, issue_ws_ticket, issue_loop}
use root_agent.Redis.Ticket.Laws.{consume_twice, consume-issue}
use root_agent.Redis.RateLimit.{Bucket, check_rate_limit, visible}
use root_agent.Redis.RateLimit.Memory.{sorted_lists, sorted_lists-IsSortedSet}
use root_agent.Redis.RateLimit.Window
use root_agent.Redis.RateLimit.Window.{window_bound}
use root_agent.Redis.RateLimit.Retry.{retry_allowed}
use root_agent.Redis.History.{ListKey, IsListKey, Codec, IsCodec, recent, erase_first}
use root_agent.Redis.History.Turns.{recent_turns, users, StartsWithUser}
use root_agent.Chat.Message.{Message}

-- One worker holds the lock for 60 seconds, of which 5 have passed.
abbrev idle : Exclusion.World memory
idle = record { server = nothing; now = 100; leases = [] }

abbrev lease : Exclusion.Lease
lease = record { token = "t1"; deadline = 160 }

abbrev granted : Keys
granted = (acquire_run_lock memory nothing 100 "u" "s" "t1" 60).0

abbrev held : Exclusion.World memory
held = record { server = granted; now = 105; leases = lease ∷ [] }

held_reached : Exclusion.Reach memory "u" "s" 60 idle held
unfolding acquire_run_lock
held_reached =
    Exclusion.next (Exclusion.next Exclusion.here (Exclusion.acquire idle "t1" refl))
      (Exclusion.tick (record { server = granted; now = 100; leases = lease ∷ [] }) 5)

exclusion_example :
    (holder memory "u" "s" granted 105 ≡ some lease.token) × (lease.token ≡ lease.token)
unfolding acquire_run_lock
exclusion_example =
    exclusion memory memory-IsRedis "u" "s" 60 lease lease refl held_reached (Memᴰ.head refl)
      (Memᴰ.head refl) (omega arith) (omega arith)

abbrev digest : String → String
digest s = s

abbrev issued : Keys × Option (String × ℕ)
issued = issue_ws_ticket memory digest nothing 100 "u" 30 (λ n. "ticket")

consume_twice_example :
    (consume_ws_ticket memory digest
      (consume_ws_ticket memory digest issued.0 110 "ticket").0
      111
      "ticket").1
    ≡ none
consume_twice_example =
    consume_twice memory memory-IsRedis digest issued.0 110 111 "ticket" (omega arith)

consume-issue_example :
    (consume_ws_ticket memory digest issued.0 110 "ticket").1
    ≡ (if ltb 110 (100 + 30) then some "u" else none)
unfolding issue_ws_ticket issue_loop
consume-issue_example =
    consume-issue memory memory-IsRedis digest nothing 100 110 "u" 30 (λ n. "ticket") (omega arith)
      refl refl refl

abbrev unused : Bucket sorted_lists
unused = record { set = []; deadline = 0 }

-- One call was allowed at 1000 milliseconds, with a limit of one in ten seconds.
abbrev after_one : Bucket sorted_lists
after_one = (check_rate_limit sorted_lists unused 1000 1 10 "a").0

one_call : Window.Calls sorted_lists sorted_lists-IsSortedSet 1 10 (1000 ∷ []) after_one 1000
unfolding check_rate_limit visible
one_call = Window.call 1000 "a" (Window.start unused 0 (omega arith)) (omega arith) refl

window_bound_example :
    Window.live_count sorted_lists sorted_lists-IsSortedSet 1 10 (1000 ∷ []) 2000 ≤ 1
window_bound_example =
    window_bound sorted_lists sorted_lists-IsSortedSet 1 10 2000 one_call (omega arith)

retry_allowed_example :
    (check_rate_limit sorted_lists
      (check_rate_limit sorted_lists after_one 2000 1 10 "b").0
      11000
      1
      10
      "c").1.allowed
    ≡ true
unfolding check_rate_limit
retry_allowed_example =
    retry_allowed sorted_lists sorted_lists-IsSortedSet 1 10 2000 11000 "b" "c" one_call
      (omega arith) (omega arith) refl (omega arith)

-- Two messages are stored, the second a question.
abbrev note : String → String → Message
note id kind = record {
  message_id = id;
  role = kind;
  content = codes "hi";
  timestamp = 1;
  step_kind = some kind;
  step_index = none;
  artifact_ids = [];
}

abbrev lists : ListKey
lists = record {
  Key = List String;
  lrange = λ k. k;
  rpush = λ k v. k ++ v ∷ [];
  lrem = λ k v. erase_first v k;
}

lists-IsListKey : IsListKey lists
lists-IsListKey = record { lrange-rpush = λ k v. refl; lrange-lrem = λ k v. refl }

-- A text that is the identifier of its message.
abbrev by_name : Codec
by_name = record {
  dump = λ m. m.message_id;
  load = λ t. if str_eq t "broken" then none else some (note t "user");
  message_id = λ t. some t;
}

by_name-IsCodec : IsCodec by_name (note "m3" "user")
by_name-IsCodec = record { load-dump = refl; message_id-dump = refl }

abbrev two_texts : List String
two_texts = "m1" ∷ "m2" ∷ []

recent_turns_example :
    ((earlier : List Message) × (earlier
          ++ recent (note "m1" "assistant" ∷ note "m2" "user" ∷ []) (some 0)
        ≡ note "m1" "assistant" ∷ note "m2" "user" ∷ []))
    × (users (recent (note "m1" "assistant" ∷ note "m2" "user" ∷ []) (some 0))
        ≡ min 1 (users (note "m1" "assistant" ∷ note "m2" "user" ∷ [])))
    × StartsWithUser (recent (note "m1" "assistant" ∷ note "m2" "user" ∷ []) (some 0))
recent_turns_example = recent_turns (note "m1" "assistant" ∷ note "m2" "user" ∷ []) 0
