-- ===== src/Tests/Pending.antt =====
-- The theorem on deleting sessions under their locks, and rounds of the worker, at concrete inputs.
use root_agent.Common.{
  ◌==◌, if◌then◌else◌, ◌+◌, ◌≡◌, refl, true, false, none, some, [], ◌∷◌, map, arith, codes, text_eq,
}
use root_agent.Common.Result.{ok}
use root_agent.Redis.Server.Memory.{Keys, memory, memory-IsRedis}
use root_agent.Redis.Lock.{acquire_run_lock}
use root_agent.Run.Model.{Chat}
use root_agent.Sessions.{World, Setting, delete_prefix, chat_storage_prefix}
use root_agent.Sessions.Service.{delete_session, wipe_session}
use root_agent.Sessions.Pending.{
  Locking, delete_session_route, reconcile_pending_session_deletion, worker_round,
}
use root_agent.Sessions.Pending.Settles.{Settled, delete_session_route_settles}

abbrev setting : Setting
setting = record {
  uuid = λ n. (n + 48) ∷ [];
  clean = λ name fallback. name;
  fallback = codes "f";
  new_id = 6;
  now = 100;
  upload_fails = λ key. false;
  list_fails = λ key. text_eq key (codes "1/5/");
  remove_fails = λ key. false;
  redis_fails = false;
  is_local = true;
  bad_workspace = λ id. false;
  rmtree_fails = λ id. false;
  commit_fails = false;
  refresh_fails = false;
}

abbrev locking : Locking
locking = record {
  name = λ n. if n == 1 then "u" else "s";
  now = 10;
  later = 20;
  ttl = 60;
  token = "t";
  acquire_fails = false;
  release_fails = false;
}

-- Both chats wait for their deletion, and the storage cannot list the objects of the first.
abbrev first : Chat
first = record { id = 5; user_id = 1; session_id = 8; deletion_requested_at = some 40 }

abbrev second : Chat
second = record { id = 6; user_id = 1; session_id = 9; deletion_requested_at = some 50 }

abbrev world : World
world = record {
  users = 1 ∷ [];
  chats = first ∷ second ∷ [];
  runs = [];
  artifacts = [];
  objects = [];
  keys = [];
  workspaces = [];
}

abbrev no_locks : Keys
no_locks = λ key. none

delete_session_route_settles_example :
    Settled memory memory-IsRedis locking setting
      (omega arith)
      1
      9
      no_locks
      second
      world
      (delete_session_route memory locking setting 1 9 no_locks world)
delete_session_route_settles_example =
    delete_session_route_settles memory memory-IsRedis locking setting (omega arith) 1 9 no_locks
      second world refl

-- The worker's round fails at the first chat, the second stays, and the job that `process` would do
-- is not looked at.
blocked :
    (worker_round memory locking setting (λ cs. cs) (λ s w. (ok true, (s, w))) no_locks world).0
    ≡ false
unfolding worker_round reconcile_pending_session_deletion delete_session wipe_session delete_prefix
    chat_storage_prefix acquire_run_lock
blocked = refl

stays :
    map Chat.id
      (worker_round memory locking setting
        (λ cs. cs)
        (λ s w. (ok true, (s, w)))
        no_locks
        world).1.1.chats
    ≡ 5 ∷ 6 ∷ []
unfolding worker_round reconcile_pending_session_deletion delete_session wipe_session delete_prefix
    chat_storage_prefix acquire_run_lock
stays = refl
