-- ===== src/Redis/RateLimit/Retry.antt =====
-- What a refused caller is told.
use root_agent.Common.{
  ltb, leb, leb→le, Bool-cases, Option-cases, length, filter, length-filter, ℕ, ◌+◌, ◌-◌, ◌*◌, ◌≤◌,
  ◌<◌, String, ◌≡◌, refl, sym, ap, inl, inr, Bool, true, false, some, List, [], ◌∷◌, arith, Memᴰ,
}
use root_agent.Redis.RateLimit.{SortedSet, IsSortedSet, Bucket, visible, pruned, check_rate_limit}
use root_agent.Redis.RateLimit.Window.{live, Calls, IsCounted, Calls-IsCounted}

-- A list with a member that fails the test has fewer that pass it.
filter_fewer :
    (p : ℕ → Bool) (s : ℕ) (xs : List ℕ)
    → Memᴰ s xs
    → p s ≡ false
    → length (filter p xs) < length xs
filter_fewer p s [] m out = elim m [ ]
filter_fewer p s (x ∷ xs) (Memᴰ.head e) out = ground (arith, length-filter p xs, ap p e)
filter_fewer p s (x ∷ xs) (Memᴰ.tail m) out = ground (arith, filter_fewer p s xs m out)

module _ (S : SortedSet) (L : IsSortedSet S) (limit window_seconds : ℕ) where
  abbrev W : ℕ
  W = window_seconds * 1000

  all_live : (now : ℕ) (xs : List ℕ) → now < W → length (filter (live W now) xs) ≡ length xs
  all_live now [] lt = refl
  all_live now (x ∷ xs) lt = ground (arith, all_live now xs lt)

  later_only :
      (now : ℕ) (xs : List ℕ)
      → W ≤ now
      → length (filter (λ s. ltb (now - W) s) xs) ≡ length (filter (live W now) xs)
  later_only now [] le = refl
  later_only now (x ∷ xs) le = ground (arith, later_only now xs le)

  -- What is left after pruning is what the window counts.
  length-pruned :
      (z : S.Z) (now : ℕ)
      → length (S.scores (pruned S z now W)) ≡ length (filter (live W now) (S.scores z))
  unfolding pruned
  length-pruned z now = elim (Bool-cases (leb W now)) [
    | inl e ↦
        rw (e, L.scores-zremrangebyscore z (now - W)) (later_only now (S.scores z) (leb→le W now e))
    | inr e ↦ rw e (sym (all_live now (S.scores z) (ground arith)))
  ]

  allowed_with_room :
      (b : Bucket S) (t : ℕ) (member : String)
      → length (filter (live W t) (S.scores (visible S b t))) < limit
      → (check_rate_limit S b t limit window_seconds member).1.allowed ≡ true
  unfolding check_rate_limit
  allowed_with_room b t member room =
      ground (arith, L.zcard_lem (pruned S (visible S b t) t W), length-pruned (visible S b t) t)

  shown_room :
      (z : S.Z) (deadline t : ℕ)
      → 1 ≤ limit
      → length (filter (live W t) (S.scores z)) < limit
      → length
          (filter (live W t) (S.scores (visible S (record { set = z; deadline = deadline }) t)))
        < limit
  unfolding visible
  shown_room z deadline t pos room = elim (Bool-cases (leb deadline t)) [
    | inl e ↦ rw (e, L.scores-empty) (omega arith)
    | inr e ↦ rw e room
  ]

  module _ (b : Bucket S) (t : ℕ) (member : String) where
    abbrev z : S.Z
    z = pruned S (visible S b t) t W

    abbrev told : ℕ
    told = (check_rate_limit S b t limit window_seconds member).1.retry_after_seconds

    abbrev refused : Bucket S
    refused = record { set = z; deadline = t + W }

    full_when_refused :
        (check_rate_limit S b t limit window_seconds member).1.allowed ≡ false
        → limit ≤ length (S.scores z)
    unfolding check_rate_limit
    full_when_refused no_room = ground (arith, L.zcard_lem z)

    told_long_enough :
        (m : String) (oldest : ℕ)
        → (check_rate_limit S b t limit window_seconds member).1.allowed ≡ false
        → S.lowest z ≡ some (m, oldest)
        → W + oldest ≤ t + told * 1000
    unfolding check_rate_limit
    told_long_enough m oldest no_room e = rw (no_room, e) (omega arith)

    left_when_refused :
        (check_rate_limit S b t limit window_seconds member).1.allowed ≡ false
        → (check_rate_limit S b t limit window_seconds member).0 ≡ refused
    unfolding check_rate_limit
    left_when_refused no_room = rw no_room

    -- At the time that the caller was told the oldest request has left the window.
    room_later :
        (log : List ℕ) (now t' : ℕ)
        → IsCounted S L limit window_seconds log b now
        → now ≤ t
        → 1 ≤ limit
        → (check_rate_limit S b t limit window_seconds member).1.allowed ≡ false
        → t + told * 1000 ≤ t'
        → length (filter (live W t') (S.scores z)) < limit
    room_later log now t' h le pos no_room later = elim (Option-cases (S.lowest z)) [
      | inl e ↦
          let full : limit ≤ length (S.scores z) = full_when_refused no_room in
          absurd (omega (arith, ap length (L.lowest-none z e)))
      | inr ((m, oldest), e) ↦
          let late : W + oldest ≤ t + told * 1000 = told_long_enough m oldest no_room e in
          let fewer =
            filter_fewer (live W t') oldest (S.scores z) (L.lowest-mem z m oldest e)
              (ground arith) in
          omega (
            arith,
            fewer,
            length-pruned (visible S b t) t,
            h.counted t t le (omega arith),
            h.within t le,
          )
    ]

  -- A caller that is refused at `t` and waits at least the `retry_after_seconds` that it was told
  -- is allowed, if the limit lets anyone in and nobody else calls for that identity meanwhile.
  pub retry_allowed :
      {log : List ℕ} {b : Bucket S} {now : ℕ} (t t' : ℕ) (member member' : String)
      → Calls S L limit window_seconds log b now
      → now ≤ t
      → 1 ≤ limit
      → (check_rate_limit S b t limit window_seconds member).1.allowed ≡ false
      → t + (check_rate_limit S b t limit window_seconds member).1.retry_after_seconds * 1000 ≤ t'
      → (check_rate_limit S
          (check_rate_limit S b t limit window_seconds member).0
          t'
          limit
          window_seconds
          member').1.allowed
        ≡ true
  retry_allowed {log} {b} {now} t t' member member' calls le pos no_room later =
      let room =
        room_later b t member log now t' (Calls-IsCounted S L limit window_seconds calls) le pos
          no_room later in
      rw (left_when_refused b t member no_room) (
        allowed_with_room (refused b t member) t' member'
          (shown_room (z b t member) (t + W) t' pos room))
