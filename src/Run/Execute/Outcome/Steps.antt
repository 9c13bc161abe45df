-- ===== src/Run/Execute/Outcome/Steps.antt =====
-- Code that raises, one step after the other: what holds of the state after each.
use root_agent.Common.{
  Bool-cases, Option-cases, ◌≡◌, refl, inl, inr, Bool, true, false, Option, none, some,
}
use root_agent.Common.Result.{Result, ok, err}
use root_agent.Run.Model.{
  Exn, Call, World, M, ◌>>◌, call, catch_with, quietly, when, resume, is_exception,
}

-- Whether `m` takes a state of `P` to one of `Q`, however it ends; and whether it also returns.
abbrev pub Leaves {ℓ} : {A : Type ℓ} → (World → Type 0) → (World → Type 0) → M A → Type 0
Leaves P Q m = (w : World) → P w → Q (m w).1

abbrev pub Reaches : (World → Type 0) → (World → Type 0) → M (Unit {0}) → Type 0
Reaches P Q m = (w : World) → P w → ((m w).0 ≡ ok tt) × Q (m w).1

module _ (raises : Call → Option Exn) where
  pub call-Leaves : (P : World → Type 0) (c : Call) → Leaves P P (call raises c)
  call-Leaves P c w p = elim (Option-cases (raises c)) [
    | inl up ↦ rw (up, call) p
    | inr (e, at) ↦ rw (at, call) p
  ]

  pub call-Reaches : (P : World → Type 0) (c : Call) → raises c ≡ none → Reaches P P (call raises c)
  call-Reaches P c up w p = (rw (up, call) refl, rw (up, call) p)

resumed {ℓ} :
    {A : Type ℓ} (R : World → Type 0) (x : Result Exn (Unit {0})) (w : World) (k : M A)
    → x ≡ ok tt
    → R (k w).1
    → R (resume x w (λ _. k)).1
resumed R (ok done) w k is r = r
resumed R (err e) w k is r = absurd (cc)

-- A step that returns, and what comes after it.
pub reach_then {ℓ} :
    {A : Type ℓ} (P Q R : World → Type 0) (m : M (Unit {0})) (k : M A)
    → Reaches P Q m
    → Leaves Q R k
    → Leaves P R (m >> k)
reach_then P Q R m k first next w p =
    let (is, q) = first w p in resumed R (m w).0 (m w).1 k is (next (m w).1 q)

resumed_keeps {ℓ κ} :
    {A : Type ℓ} {B : Type κ} (P : World → Type 0) (x : Result Exn A) (w : World) (f : A → M B)
    → P w
    → ((a : A) → Leaves P P (f a))
    → P (resume x w f).1
resumed_keeps P (ok a) w f p next = next a w p
resumed_keeps P (err e) w f p next = p

-- Two steps that keep what holds.
pub keep_then {ℓ} :
    {A : Type ℓ} (P : World → Type 0) (m : M (Unit {0})) (k : M A)
    → Leaves P P m
    → Leaves P P k
    → Leaves P P (m >> k)
keep_then P m k first next w p =
    resumed_keeps P (m w).0 (m w).1 (λ _. k) (first w p) (λ _ w' p'. next w' p')

caught_keeps {ℓ} :
    {A : Type ℓ} (P : World → Type 0) (x : Result Exn A) (w : World) (handler : Exn → M A)
    → P w
    → ((e : Exn) → Leaves P P (handler e))
    → P (catch_with (x, w) handler).1
caught_keeps P (ok a) w handler p next = p
caught_keeps P (err e) w handler p next = elim (Bool-cases (is_exception e)) [
  | inl caught ↦ rw caught (next e w p)
  | inr passes ↦ rw passes p
]

pub quietly-Leaves :
    (P : World → Type 0) (m log : M (Unit {0}))
    → Leaves P P m
    → Leaves P P log
    → Leaves P P (quietly m log)
quietly-Leaves P m log keeps logs w p =
    caught_keeps P (m w).0 (m w).1 (λ _. log) (keeps w p) (λ _ w' p'. logs w' p')

-- What raises no more than an `Exception`.
abbrev pub IsMild {ℓ} : {A : Type ℓ} → Result Exn A → Type 0
IsMild (ok a) = Unit
IsMild (err e) = is_exception e ≡ true

pub call-IsMild :
    (raises : Call → Option Exn) (c : Call) (w : World)
    → ((e : Exn) → raises c ≡ some e → is_exception e ≡ true)
    → IsMild (call raises c w).0
call-IsMild raises c w mild = elim (Option-cases (raises c)) [
  | inl up ↦ rw (up, call) tt
  | inr (e, at) ↦ rw (at, call) (mild e at)
]

caught-Reaches :
    (P : World → Type 0) (x : Result Exn (Unit {0})) (w : World) (log : M (Unit {0}))
    → IsMild x
    → P w
    → Reaches P P log
    → ((catch_with (x, w) (λ _. log)).0 ≡ ok tt) × P (catch_with (x, w) (λ _. log)).1
caught-Reaches P (ok done) w log mild p logs = (refl, p)
caught-Reaches P (err e) w log mild p logs = rw mild (logs w p)

pub quietly-Reaches :
    (P : World → Type 0) (m log : M (Unit {0}))
    → ((w : World) → IsMild (m w).0)
    → Leaves P P m
    → Reaches P P log
    → Reaches P P (quietly m log)
quietly-Reaches P m log mild keeps logs w p =
    caught-Reaches P (m w).0 (m w).1 log (mild w) (keeps w p) logs

pub when-Reaches :
    (P : World → Type 0) (due : Bool) (m : M (Unit {0})) → Reaches P P m → Reaches P P (when due m)
when-Reaches P true m reaches = reaches
when-Reaches P false m reaches = λ w p. (refl, p)

pub when-Leaves :
    (P : World → Type 0) (due : Bool) (m : M (Unit {0})) → Leaves P P m → Leaves P P (when due m)
when-Leaves P true m keeps = keeps
when-Leaves P false m keeps = λ w p. p

pub when-IsMild :
    (due : Bool) (m : M (Unit {0})) (w : World) → IsMild (m w).0 → IsMild (when due m w).0
when-IsMild true m w mild = mild
when-IsMild false m w mild = tt

-- What has returned is not handled.
pub caught_reached :
    (Q : World → Type 0) (x : Result Exn (Unit {0})) (w : World) (handler : Exn → M (Unit {0}))
    → x ≡ ok tt
    → Q w
    → ((catch_with (x, w) handler).0 ≡ ok tt) × Q (catch_with (x, w) handler).1
caught_reached Q (ok done) w handler is q = (refl, q)
caught_reached Q (err e) w handler is q = absurd (cc)
