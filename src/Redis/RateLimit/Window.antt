-- ===== src/Redis/RateLimit/Window.antt =====
-- Sequences of calls for one identity, and how many of them a window can allow.
use root_agent.Common.{
  filter-filter, ltb, leb, if◌then◌else◌, ltb→lt, leb→le, Bool-cases, length, filter, All,
  length-filter, ℕ, ◌+◌, ◌-◌, ◌*◌, ◌≤◌, String, ◌≡◌, refl, sym, ap, ◌∙◌, inl, inr, Bool, false,
  List, [], ◌∷◌, arith, All_mono,
}
use root_agent.Redis.RateLimit.{SortedSet, IsSortedSet, Bucket, visible, pruned, check_rate_limit}

-- A request at `s` counts against the window that ends at `t`.
abbrev pub live : ℕ → ℕ → ℕ → Bool
live window t s = ltb t (s + window)

none_live :
    (window now t : ℕ) (log : List ℕ)
    → now + window ≤ t
    → All (λ s. s ≤ now) log
    → length (filter (live window t) log) ≡ 0
none_live window now t [] le h = refl
none_live window now t (s ∷ log) le h = ground (arith, none_live window now t log le h.1)

module _ (S : SortedSet) (L : IsSortedSet S) (limit window_seconds : ℕ) where
  abbrev W : ℕ
  W = window_seconds * 1000

  abbrev pub live_count : List ℕ → ℕ → ℕ
  live_count log t = length (filter (live W t) log)

  -- The calls so far: the times of the allowed ones, the latest first, the key that they left, and
  -- the time of the last one. A new member is no member yet: it ends in random text.
  pub data Calls : List ℕ → Bucket S → ℕ → Type 0 where
    start : (b : Bucket S) (now : ℕ) → b.deadline ≤ now → Calls [] b now
    call :
        {log : List ℕ} {b : Bucket S} {now : ℕ} (t : ℕ) (member : String)
        → Calls log b now
        → now ≤ t
        → S.has (visible S b t) member ≡ false
        → Calls
            (if (check_rate_limit S b t limit window_seconds member).1.allowed
              then t ∷ log
              else log)
            (check_rate_limit S b t limit window_seconds member).0
            t

  pub record IsCounted (log : List ℕ) (b : Bucket S) (now : ℕ) : Type 0 where
    pub counted :
        (t u : ℕ) → now ≤ u → u ≤ t → live_count log t ≡ live_count (S.scores (visible S b u)) t
    pub within : (t : ℕ) → now ≤ t → live_count log t ≤ limit
    pub recent : All (λ s. s ≤ now) log

  -- Pruning removes only what no later window counts.
  pub live-pruned :
      (z : S.Z) (now t : ℕ)
      → now ≤ t
      → live_count (S.scores (pruned S z now W)) t ≡ live_count (S.scores z) t
  unfolding pruned
  live-pruned z now t le = elim (Bool-cases (leb W now)) [
    | inl e ↦
        rw (e, L.scores-zremrangebyscore z (now - W))
          (ap length
            (filter-filter (live W t) (λ s. ltb (now - W) s) (S.scores z) (λ s h. ground arith)))
    | inr e ↦ rw e
  ]

  module _ (log : List ℕ) (b : Bucket S) (now t : ℕ) (member : String) (le : now ≤ t) where
    abbrev z : S.Z
    z = pruned S (visible S b t) t W

    abbrev allowed : Bool
    allowed = ltb (S.zcard z) limit

    abbrev log' : List ℕ
    log' = if allowed then t ∷ log else log

    abbrev b' : Bucket S
    b' = record { set = if allowed then S.zadd z t member else z; deadline = t + W }

    fresh-pruned : S.has (visible S b t) member ≡ false → S.has z member ≡ false
    unfolding pruned
    fresh-pruned fresh = elim (Bool-cases (leb W t)) [
      | inl e ↦ rw e (L.has-zremrangebyscore (visible S b t) (t - W) member fresh)
      | inr e ↦ rw e fresh
    ]

    pub base : IsCounted log b now → (v : ℕ) → t ≤ v → live_count log v ≡ live_count (S.scores z) v
    base h v le' = h.counted v t le le' ∙ sym (live-pruned (visible S b t) t v le')

    recent_step : IsCounted log b now → All (λ s. s ≤ t) log'
    recent_step h =
        let earlier : All (λ (s : ℕ). s ≤ t) log =
          All_mono log (λ s (p : s ≤ now). omega arith) h.recent in
        elim (Bool-cases allowed) [ inl e ↦ rw e (omega arith, earlier) | inr e ↦ rw e earlier ]

    within_step : IsCounted log b now → (u : ℕ) → t ≤ u → live_count log' u ≤ limit
    within_step h u le' = elim (Bool-cases allowed) [
      | inl e ↦ rw e (
          ground (
            arith,
            base h u le',
            length-filter (live W u) (S.scores z),
            L.zcard_lem z,
            ltb→lt (S.zcard z) limit e,
          ))
      | inr e ↦ rw e (h.within u (omega arith))
    ]

    counted_step :
        IsCounted log b now
        → S.has (visible S b t) member ≡ false
        → (v u : ℕ) → t ≤ u
        → u ≤ v
        → live_count log' v ≡ live_count (S.scores (visible S b' u)) v
    unfolding visible
    counted_step h fresh v u le₁ le₂ = elim (Bool-cases (leb (t + W) u)) [
      | inl gone ↦
          rw (gone, L.scores-empty)
            (none_live W t v log' (omega (arith, leb→le (t + W) u gone)) (recent_step h))
      | inr kept ↦ rw kept (elim (Bool-cases allowed) [
        | inl e ↦
            rw (e, L.count-zadd z t member (live W v) (fresh-pruned fresh))
              (ground (arith, base h v (omega arith)))
        | inr e ↦ rw e (base h v (omega arith))
      ])
    ]

  visible_expired : (b : Bucket S) (u : ℕ) → b.deadline ≤ u → visible S b u ≡ S.empty
  unfolding visible
  visible_expired b u le = ground arith

  pub Calls-IsCounted :
      {log : List ℕ} {b : Bucket S} {now : ℕ} → Calls log b now → IsCounted log b now
  unfolding check_rate_limit
  Calls-IsCounted (start b now gone) = record {
    counted = λ t u le₁ le₂. rw (visible_expired b u (omega arith), L.scores-empty);
    within = λ t le. omega arith;
    recent = tt;
  }
  Calls-IsCounted (call {log} {b} {now} t member calls le fresh) =
      let h = Calls-IsCounted calls in
      record {
        counted = counted_step log b now t member le h fresh;
        within = within_step log b now t member le h;
        recent = recent_step log b now t member le h;
      }

  -- Whatever calls were made at times that do not fall, no window of `window_seconds` that ends
  -- with the last call or later holds more than `limit` allowed requests.
  pub window_bound :
      {log : List ℕ} {b : Bucket S} {now : ℕ} (t : ℕ)
      → Calls log b now
      → now ≤ t
      → live_count log t ≤ limit
  window_bound t calls le = (Calls-IsCounted calls).within t le
