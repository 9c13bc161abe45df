-- ===== src/Redis/RateLimit/Memory.antt =====
-- Sorted sets in memory: members with their scores, from the lowest score up. They meet
-- `IsSortedSet`.
use root_agent.Common.{
  ltb, leb, if◌then◌else◌, length, filter, ℕ, String, ◌≡◌, refl, Bool, false, ◌&&◌, ◌||◌, Option,
  none, some, List, [], ◌∷◌, arith, str_eq, Memᴰ,
}
use root_agent.Redis.RateLimit.{SortedSet, IsSortedSet}

abbrev Members : Type 0
Members = List (ℕ × String)

abbrev score_list : Members → List ℕ
score_list [] = []
score_list ((s, m) ∷ z) = s ∷ score_list z

abbrev has_member : Members → String → Bool
has_member [] m = false
has_member ((s, n) ∷ z) m = str_eq n m || has_member z m

abbrev without : Members → String → Members
without [] m = []
without ((s, n) ∷ z) m = let rest = without z m in if str_eq n m then rest else (s, n) ∷ rest

abbrev place : Members → ℕ → String → Members
place [] s m = (s, m) ∷ []
place ((t, n) ∷ z) s m = if leb t s then (t, n) ∷ place z s m else (s, m) ∷ (t, n) ∷ z

abbrev outside : Members → ℕ → ℕ → Members
outside [] lo hi = []
outside ((s, m) ∷ z) lo hi =
    let rest = outside z lo hi in if leb lo s && leb s hi then rest else (s, m) ∷ rest

abbrev first : Members → Option (String × ℕ)
first [] = none
first ((s, m) ∷ z) = some (m, s)

abbrev pub sorted_lists : SortedSet
sorted_lists = record {
  Z = Members;
  empty = [];
  zremrangebyscore = outside;
  zcard = λ z. length (score_list z);
  zadd = λ z s m. place (without z m) s m;
  lowest = first;
  scores = score_list;
  has = has_member;
}

scores-outside :
    (z : Members) (hi : ℕ) → score_list (outside z 0 hi) ≡ filter (λ s. ltb hi s) (score_list z)
scores-outside [] hi = refl
scores-outside ((s, m) ∷ z) hi = ground (arith, scores-outside z hi)

has-outside :
    (z : Members) (hi : ℕ) (m : String)
    → has_member z m ≡ false
    → has_member (outside z 0 hi) m ≡ false
has-outside [] hi m h = refl
has-outside ((s, n) ∷ z) hi m h = ground (arith, has-outside z hi m)

without_absent : (z : Members) (m : String) → has_member z m ≡ false → without z m ≡ z
without_absent [] m h = refl
without_absent ((s, n) ∷ z) m h = ground (arith, without_absent z m)

count-place :
    (z : Members) (s : ℕ) (m : String) (p : ℕ → Bool)
    → length (filter p (score_list (place z s m))) ≡ length (filter p (s ∷ score_list z))
count-place [] s m p = refl
count-place ((t, n) ∷ z) s m p = ground (arith, count-place z s m p)

first-none : (z : Members) → first z ≡ none → score_list z ≡ []
first-none [] e = refl
first-none ((s, m) ∷ z) e = cc

first-mem : (z : Members) (m : String) (s : ℕ) → first z ≡ some (m, s) → Memᴰ s (score_list z)
first-mem [] m s e = absurd (cc)
first-mem ((t, n) ∷ z) m s e = Memᴰ.head (ground arith)

pub sorted_lists-IsSortedSet : IsSortedSet sorted_lists
sorted_lists-IsSortedSet = record {
  scores-empty = refl;
  zcard_lem = λ z. refl;
  scores-zremrangebyscore = scores-outside;
  has-zremrangebyscore = has-outside;
  count-zadd = λ z s m p fresh. rw (without_absent z m fresh) (count-place z s m p);
  lowest-none = first-none;
  lowest-mem = first-mem;
}
