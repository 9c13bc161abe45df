-- ===== src/Common/Lists.antt =====
-- Python's lists: measured by native numbers, filtered by Boolean tests, sliced.
use Prim.Native.Nat.{ℕ, zero, suc, ◌+◌, ◌-◌, ◌≤◌, min}
use mathlib.Core.Path.{◌≡◌, refl, ap, subst, sym}
use mathlib.Core.Logic.{inl, inr}
use mathlib.Core.Bool.{Bool, true, false, ◌||◌}
use mathlib.Core.List.{List, [], ◌∷◌, ◌++◌, Memᴰ}
use mathlib.Core.Option.{Option, none, some}
use native.Mathlib.Omega.{arith}
use root_agent.Common.Tests.{if◌then◌else◌, Bool-cases}

module _ {ℓ} {A : Type ℓ} where
  abbrev pub length : List A → ℕ
  length [] = 0
  length (x ∷ xs) = suc (length xs)

  abbrev pub take : ℕ → List A → List A
  take zero xs = []
  take (suc n) [] = []
  take (suc n) (x ∷ xs) = x ∷ take n xs

  abbrev pub drop : ℕ → List A → List A
  drop zero xs = xs
  drop (suc n) [] = []
  drop (suc n) (x ∷ xs) = drop n xs

  -- `[x for x in xs if p(x)]`
  abbrev pub filter : (A → Bool) → List A → List A
  filter p [] = []
  filter p (x ∷ xs) = if p x then x ∷ filter p xs else filter p xs

  -- `any(p(x) for x in xs)`
  abbrev pub any : (A → Bool) → List A → Bool
  any p [] = false
  any p (x ∷ xs) = p x || any p xs

  -- The first element that passes, or `None`.
  abbrev pub find? : (A → Bool) → List A → Option A
  find? p [] = none
  find? p (x ∷ xs) = if p x then some x else find? p xs

  -- A sum over the elements.
  abbrev pub sum_by : (A → ℕ) → List A → ℕ
  sum_by f [] = 0
  sum_by f (x ∷ xs) = f x + sum_by f xs

  abbrev pub All {κ} : (A → Type κ) → List A → Type κ
  All P [] = Unit
  All P (x ∷ xs) = P x × All P xs

  pub length-append : (xs ys : List A) → length (xs ++ ys) ≡ length xs + length ys
  length-append [] ys = omega arith
  length-append (x ∷ xs) ys = omega (arith, length-append xs ys)

  pub sum_by-append : (f : A → ℕ) (xs ys : List A) → sum_by f (xs ++ ys) ≡ sum_by f xs + sum_by f ys
  sum_by-append f [] ys = omega arith
  sum_by-append f (x ∷ xs) ys = omega (arith, sum_by-append f xs ys)

  pub length-take : (n : ℕ) (xs : List A) → length (take n xs) ≡ min n (length xs)
  length-take zero xs = omega arith
  length-take (suc n) [] = omega arith
  length-take (suc n) (x ∷ xs) = omega (arith, length-take n xs)

  pub length-drop : (n : ℕ) (xs : List A) → length (drop n xs) ≡ length xs - n
  length-drop zero xs = omega arith
  length-drop (suc n) [] = omega arith
  length-drop (suc n) (x ∷ xs) = omega (arith, length-drop n xs)

  pub take-append-drop : (n : ℕ) (xs : List A) → take n xs ++ drop n xs ≡ xs
  take-append-drop zero xs = refl
  take-append-drop (suc n) [] = refl
  take-append-drop (suc n) (x ∷ xs) = ap (λ t. x ∷ t) (take-append-drop n xs)

  pub length-filter : (p : A → Bool) (xs : List A) → length (filter p xs) ≤ length xs
  length-filter p [] = omega arith
  length-filter p (x ∷ xs) = ground (arith, length-filter p xs)

  pub sum_by-filter :
      (f : A → ℕ) (p : A → Bool) (xs : List A) → sum_by f (filter p xs) ≤ sum_by f xs
  sum_by-filter f p [] = omega arith
  sum_by-filter f p (x ∷ xs) = ground (arith, sum_by-filter f p xs)

  pub All-filter {κ} :
      (P : A → Type κ) (p : A → Bool) (xs : List A) → All P xs → All P (filter p xs)
  All-filter P p [] h = h
  All-filter P p (x ∷ xs) (hx, hs) = ground (arith, All-filter P p xs hs)

  pub All-append {κ} : (P : A → Type κ) (xs ys : List A) → All P xs → All P ys → All P (xs ++ ys)
  All-append P [] ys hx hy = hy
  All-append P (x ∷ xs) ys hx hy = (hx.0, All-append P xs ys hx.1 hy)

module _ {ℓ} {A : Type ℓ} where
  pub All_mono {κ ι} :
      {P : A → Type κ} {Q : A → Type ι} (xs : List A) → ((a : A) → P a → Q a) → All P xs → All Q xs
  All_mono [] f h = tt
  All_mono (x ∷ xs) f h = (f x h.0, All_mono xs f h.1)

  pub All-Memᴰ {κ} : (P : A → Type κ) (a : A) (xs : List A) → All P xs → Memᴰ a xs → P a
  All-Memᴰ P a [] h m = elim m [ ]
  All-Memᴰ P a (x ∷ xs) h (Memᴰ.head e) = subst P (sym e) h.0
  All-Memᴰ P a (x ∷ xs) h (Memᴰ.tail m) = All-Memᴰ P a xs h.1 m

  -- What passes the test satisfies it.
  pub All-filter_mono {κ ι} :
      {P : A → Type κ} {Q : A → Type ι} (p : A → Bool) (xs : List A)
      → ((a : A) → p a ≡ true → P a → Q a)
      → All P xs
      → All Q (filter p xs)
  All-filter_mono p [] f h = tt
  All-filter_mono p (x ∷ xs) f h = elim (Bool-cases (p x)) [
    | inl e ↦ rw e (f x e h.0, All-filter_mono p xs f h.1)
    | inr e ↦ rw e (All-filter_mono p xs f h.1)
  ]

pub append_assoc {ℓ} : {A : Type ℓ} (xs ys zs : List A) → (xs ++ ys) ++ zs ≡ xs ++ (ys ++ zs)
append_assoc [] ys zs = refl
append_assoc (x ∷ xs) ys zs = ap (λ t. x ∷ t) (append_assoc xs ys zs)

pub append_nil {ℓ} : {A : Type ℓ} (xs : List A) → xs ++ [] ≡ xs
append_nil [] = refl
append_nil (x ∷ xs) = ap (λ t. x ∷ t) (append_nil xs)

-- A filter that keeps what another one keeps.
pub filter-filter :
    {A : Type 0} (p q : A → Bool) (xs : List A)
    → ((x : A) → p x ≡ true → q x ≡ true)
    → filter p (filter q xs) ≡ filter p xs
filter-filter p q [] h = refl
filter-filter p q (x ∷ xs) h = elim (Bool-cases (p x)) [
  | inl on ↦ rw (h x on, on) (ap (λ t. x ∷ t) (filter-filter p q xs h))
  | inr off ↦ elim (Bool-cases (q x)) [
    | inl kept ↦ rw (kept, off) (filter-filter p q xs h)
    | inr out ↦ rw (out, off) (filter-filter p q xs h)
  ]
]
