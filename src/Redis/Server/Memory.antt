-- ===== src/Redis/Server/Memory.antt =====
-- A server in memory: a key has a value and the time at which it expires. It meets `IsRedis`.
use root_agent.Common.{
  if◌then◌else◌, ℕ, ◌+◌, ◌≤◌, String, ◌≡◌, refl, Bool, true, false, Option, none, some, arith,
  str_eq,
}
use root_agent.Redis.Server.{Server, IsRedis, until}

abbrev pub Keys : Type 0
Keys = String → Option (String × ℕ)

abbrev shown : Option (String × ℕ) → ℕ → Option String
shown none t = none
shown (some (v, deadline)) t = until deadline t v

abbrev pub write : Keys → String → Option (String × ℕ) → Keys
write s k e j = if str_eq k j then e else s j

abbrev on_vacant : Option String → Keys → String → Option (String × ℕ) → Keys × Bool
on_vacant none s k e = (write s k e, true)
on_vacant (some w) s k e = (s, false)

abbrev on_held : Option String → Keys → String → ℕ → Keys × Bool
on_held none s k deadline = (s, false)
on_held (some w) s k deadline = (write s k (some (w, deadline)), true)

abbrev pub memory : Server
memory = record {
  State = Keys;
  get = λ s t k. shown (s k) t;
  set_nx_ex = λ s now k v ttl. on_vacant (shown (s k) now) s k (some (v, now + ttl));
  del = λ s now k. write s k none;
  expire = λ s now k ttl. on_held (shown (s k) now) s k (now + ttl);
  getdel = λ s now k. (write s k none, shown (s k) now);
}

shown_gone : (e : Option (String × ℕ)) (now t : ℕ) → now ≤ t → shown e now ≡ none → shown e t ≡ none
shown_gone e now t le gone = ground arith

shown-write :
    (s : Keys) (k j : String) (e : Option (String × ℕ)) (t : ℕ)
    → shown (write s k e j) t ≡ (if str_eq k j then shown e t else shown (s j) t)
shown-write s k j e t = ground arith

pub memory-IsRedis : IsRedis memory
memory-IsRedis = record {
  get_gone = λ s now t k le gone. shown_gone (s k) now t le gone;
  set-taken = λ s now k v w ttl held. rw held;
  set-done = λ s now k v ttl free. rw free;
  get-set = λ s now t k j v ttl le free. rw free (shown-write s k j _ t);
  get-del = λ s now t k j le. shown-write s k j none t;
  expire-missing = λ s now k ttl free. rw free;
  expire-done = λ s now k w ttl held. rw held;
  get-expire = λ s now t k j w ttl le held. rw held (shown-write s k j _ t);
  getdel-value = λ s now k. refl;
  get-getdel = λ s now t k j le. shown-write s k j none t;
}

abbrev pub nothing : Keys
nothing j = none
