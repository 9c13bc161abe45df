-- ===== src/Redis/Lock/Exclusion.antt =====
-- Many workers, one lock: any interleaving of the three calls with the passing of time and with
-- commands on other keys. A worker that was given the lock counts on it until its lease ends.
use root_agent.Common.{
  All_mono, All-filter_mono, subst, Option-cases, filter, All, ℕ, ◌+◌, ◌≤◌, ◌<◌, String, ◌≡◌,
  All_mono, All-filter_mono, All-Memᴰ, Memᴰ, Option-cases, sym, ap, ◌∙◌, inl, inr, arith, eq_iff,
  none, sym, ap, ◌∙◌, subst, inl, inr, true, false, not, none, some, List, [], ◌∷◌, arith, str_eq,
  eq_iff,
}
use root_agent.Redis.Server.{Server, IsRedis}
use root_agent.Redis.Lock.{lock_key, owns, acquire_run_lock, release_run_lock, renew_run_lock}
use mathlib.Core.Option.{some-ne-none}
use root_agent.Redis.Lock.Laws.{
  acquire_free, renew_lost, acquire_busy, holder, holder-acquire, holder-release, holder-renew,
  renew_result,
}

pub record Lease : Type 0 where
  pub token : String
  pub deadline : ℕ

-- The leases that workers count on: those granted and not given back.
pub record World (R : Server) : Type 0 where
  pub server : R.State
  pub now : ℕ
  pub leases : List Lease

abbrev others : String → List Lease → List Lease
others token = filter (λ l. not (str_eq l.token token))

module _ (R : Server) (user session : String) where
  -- `ttl` is the lock's time to live. A step of the environment leaves the lock's key alone.
  pub data Step (ttl : ℕ) : World R → World R → Type 0 where
    acquire :
        (w : World R) (token : String) {s : R.State}
        → acquire_run_lock R w.server w.now user session token ttl ≡ (s, some token)
        → Step ttl w (record w {
          server = s;
          leases = record { token = token; deadline = w.now + ttl } ∷ w.leases;
        })
    acquire_failed :
        (w : World R) (token : String) {s : R.State}
        → acquire_run_lock R w.server w.now user session token ttl ≡ (s, none)
        → Step ttl w (record w { server = s })
    release :
        (w : World R) (token : String)
        → Step ttl w (record w {
          server = release_run_lock R w.server w.now user session token;
          leases = others token w.leases;
        })
    renew :
        (w : World R) (token : String) {s : R.State}
        → renew_run_lock R w.server w.now user session token ttl ≡ (s, true)
        → Step ttl w (record w {
          server = s;
          leases = record { token = token; deadline = w.now + ttl } ∷ w.leases;
        })
    renew_failed :
        (w : World R) (token : String) {s : R.State}
        → renew_run_lock R w.server w.now user session token ttl ≡ (s, false)
        → Step ttl w (record w { server = s })
    tick : (w : World R) (n : ℕ) → Step ttl w (record w { now = w.now + n })
    environment :
        (w : World R) (s : R.State)
        → ((t : ℕ) → w.now ≤ t → holder R user session s t ≡ holder R user session w.server t)
        → Step ttl w (record w { server = s })

  pub data Reach (ttl : ℕ) (start : World R) : World R → Type 0 where
    here : Reach ttl start start
    next : {v w : World R} → Reach ttl start v → Step ttl v w → Reach ttl start w

  -- A lease that the server backs: until its deadline the lock shows its token. No lease runs
  -- longer than the lock's time to live.
  pub record IsBacked (ttl : ℕ) (s : R.State) (now : ℕ) (l : Lease) : Type 0 where
    pub shown : (t : ℕ) → now ≤ t → t < l.deadline → holder R user session s t ≡ some l.token
    pub bounded : l.deadline ≤ now + ttl

  abbrev pub Backed : ℕ → World R → Type 0
  Backed ttl w = All (IsBacked ttl w.server w.now) w.leases

module _ (R : Server) (L : IsRedis R) (user session : String) (ttl : ℕ) (w : World R) where
  abbrev key : String
  key = lock_key user session

  abbrev grant : String → Lease
  grant token = record { token = token; deadline = w.now + ttl }

  -- A lease on a lock that shows nothing is over.
  over_when_free :
      (s : R.State) (l : Lease)
      → holder R user session w.server w.now ≡ none
      → IsBacked R user session ttl w.server w.now l
      → IsBacked R user session ttl s w.now l
  over_when_free s l free b = record {
    shown = λ t le lt. cc (free, b.shown w.now (omega arith) (omega arith));
    bounded = b.bounded;
  }

  acquire_was_free :
      (token : String) {s : R.State}
      → acquire_run_lock R w.server w.now user session token ttl ≡ (s, some token)
      → holder R user session w.server w.now ≡ none
  acquire_was_free token e = elim (Option-cases (holder R user session w.server w.now)) [
    | inl free ↦ free
    | inr (h, held) ↦ absurd (
        some-ne-none token
          (ap (λ p. p.1) (sym e ∙ acquire_busy R L w.server w.now user session token ttl h held)))
  ]

  granted_when_acquired :
      (token : String) {s : R.State}
      → acquire_run_lock R w.server w.now user session token ttl ≡ (s, some token)
      → IsBacked R user session ttl s w.now (grant token)
  granted_when_acquired token e = record {
    shown = λ t le lt. ground (
      arith,
      rw e at (
          holder-acquire R L w.server w.now user session token ttl t le (acquire_was_free token e)),
    );
    bounded = omega arith;
  }

  acquired-Backed :
      (token : String) {s : R.State}
      → acquire_run_lock R w.server w.now user session token ttl ≡ (s, some token)
      → Backed R user session ttl w
      → All (IsBacked R user session ttl s w.now) (grant token ∷ w.leases)
  acquired-Backed token {s} e b = (
    granted_when_acquired token e,
    All_mono w.leases (λ l. over_when_free s l (acquire_was_free token e)) b,
  )

  kept_when_released :
      (token : String) (l : Lease)
      → not (str_eq l.token token) ≡ true
      → IsBacked R user session ttl w.server w.now l
      → IsBacked R user session ttl (release_run_lock R w.server w.now user session token) w.now l
  unfolding owns
  kept_when_released token l other b = record {
    shown = λ t le lt. ground (
      arith,
      holder-release R L w.server w.now user session token t le,
      b.shown w.now (omega arith) (omega arith),
      b.shown t le lt,
      eq_iff l.token token,
    );
    bounded = b.bounded;
  }

  kept_when_renewed :
      (token : String) {s : R.State} (l : Lease)
      → renew_run_lock R w.server w.now user session token ttl ≡ (s, true)
      → IsBacked R user session ttl w.server w.now l
      → IsBacked R user session ttl s w.now l
  unfolding owns
  kept_when_renewed token {s} l e b = record {
    shown = λ t le lt. ground (
      arith,
      holder-renew R L w.server w.now user session token ttl t le,
      renew_result R L w.server w.now user session token ttl,
      b.shown w.now (omega arith) (omega arith),
      b.shown t le lt,
      b.bounded,
      eq_iff l.token token,
      e,
    );
    bounded = b.bounded;
  }

  refused_acquire :
      (token : String) {s : R.State}
      → acquire_run_lock R w.server w.now user session token ttl ≡ (s, none)
      → s ≡ w.server
  refused_acquire token e = elim (Option-cases (holder R user session w.server w.now)) [
    | inl free ↦ absurd (
        some-ne-none token
          (sym (acquire_free R L w.server w.now user session token ttl free) ∙ ap (λ p. p.1) e))
    | inr (h, held) ↦
        ap (λ p. p.0) (sym e ∙ acquire_busy R L w.server w.now user session token ttl h held)
  ]

  refused_renew :
      (token : String) {s : R.State}
      → renew_run_lock R w.server w.now user session token ttl ≡ (s, false)
      → s ≡ w.server
  refused_renew token e =
      ap (λ p. p.0)
        (sym e
          ∙ renew_lost R L w.server w.now user session token ttl
              (sym (renew_result R L w.server w.now user session token ttl) ∙ ap (λ p. p.1) e))

  renewed-Backed :
      (token : String) {s : R.State}
      → renew_run_lock R w.server w.now user session token ttl ≡ (s, true)
      → IsBacked R user session ttl s w.now (grant token)
  unfolding owns
  renewed-Backed token e = record {
    shown = λ t le lt. ground (
      arith,
      rw e at (holder-renew R L w.server w.now user session token ttl t le),
      sym (renew_result R L w.server w.now user session token ttl) ∙ ap (λ p. p.1) e,
    );
    bounded = omega arith;
  }

module _ (R : Server) (L : IsRedis R) (user session : String) (ttl : ℕ) where
  Step-Backed :
      {v w : World R}
      → Step R user session ttl v w
      → Backed R user session ttl v
      → Backed R user session ttl w
  Step-Backed (acquire w token e) b = acquired-Backed R L user session ttl w token e b
  Step-Backed (acquire_failed w token e) b = rw (refused_acquire R L user session ttl w token e) b
  Step-Backed (release w token) b =
      All-filter_mono (λ l. not (str_eq l.token token)) w.leases
        (kept_when_released R L user session ttl w token) b
  Step-Backed (renew w token e) b = (
    renewed-Backed R L user session ttl w token e,
    All_mono w.leases (λ l. kept_when_renewed R L user session ttl w token l e) b,
  )
  Step-Backed (renew_failed w token e) b = rw (refused_renew R L user session ttl w token e) b
  Step-Backed (tick w n) b =
      All_mono w.leases
        (λ l h. record {
          shown = λ t le lt. h.shown t (omega arith) lt;
          bounded = omega (arith, h.bounded);
        })
        b
  Step-Backed (environment w s same) b =
      All_mono w.leases
        (λ l h. record { shown = λ t le lt. same t le ∙ h.shown t le lt; bounded = h.bounded }) b

  Reach-Backed :
      {v w : World R}
      → Reach R user session ttl v w
      → Backed R user session ttl v
      → Backed R user session ttl w
  Reach-Backed here b = b
  Reach-Backed (next r st) b = Step-Backed st (Reach-Backed r b)

  -- Any workers acquire, renew and give back the lock of one session in any interleaving, while
  -- time passes and other keys change. From a start with no leases: of two leases that have not
  -- run out, both are the token that the server shows, so they are one worker's.
  pub exclusion :
      {v w : World R} (a b : Lease)
      → v.leases ≡ []
      → Reach R user session ttl v w
      → Memᴰ a w.leases
      → Memᴰ b w.leases
      → w.now < a.deadline
      → w.now < b.deadline
      → (holder R user session w.server w.now ≡ some a.token) × (a.token ≡ b.token)
  exclusion {v} {w} a b none_yet r ma mb la lb =
      let backed =
        Reach-Backed r
          (subst (λ ls. All (IsBacked R user session ttl v.server v.now) ls) (sym none_yet) tt) in
      let ha = (All-Memᴰ _ a w.leases backed ma).shown w.now (omega arith) la in
      let hb = (All-Memᴰ _ b w.leases backed mb).shown w.now (omega arith) lb in (ha, cc (ha, hb))
