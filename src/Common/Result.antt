-- ===== src/Common/Result.antt =====
-- Code that raises: a value or an exception, and the same with a state that survives the raise.
use mathlib.Core.Bool.{Bool, true, false}
use mathlib.Core.Path.{◌≡◌, refl}

pub data Result {ℓ κ} (E : Type κ) (A : Type ℓ) : Type (ℓ ⊔ κ) where
  ok : A → Result E A
  err : E → Result E A

infixl 5 ◌>>=◌ ◌>>◌
abbrev pub ◌>>=◌ {ℓ ι κ} :
    {E : Type κ} {A : Type ℓ} {B : Type ι} → Result E A → (A → Result E B) → Result E B
ok a >>= f = f a
err e >>= f = err e

abbrev pub ◌>>◌ {ℓ κ} : {E : Type κ} {B : Type ℓ} → Result E (Unit {0}) → Result E B → Result E B
m >> k = m >>= λ _. k

-- `if bad: raise e`
abbrev pub refuse {κ} : {E : Type κ} → Bool → E → Result E (Unit {0})
refuse true e = err e
refuse false e = ok tt

abbrev pub is_ok {ℓ κ} : {E : Type κ} {A : Type ℓ} → Result E A → Bool
is_ok (ok a) = true
is_ok (err e) = false

-- A step on a state, and what comes after it if it did not raise.
abbrev pub after {κ ℓ ι} :
    {E : Type κ} {W : Type ℓ} {A B : Type ι}
    → Result E A × W
    → (A → W → Result E B × W)
    → Result E B × W
after (err e, w) next = (err e, w)
after (ok a, w) next = next a w

-- A chain that returns has returned at each of its calls.
pub bind_ok {ℓ ι κ} :
    {E : Type κ} {A : Type ℓ} {B : Type ι} (m : Result E A) (k : A → Result E B) (b : B)
    → (m >>= k) ≡ ok b
    → (a : A) × ((m ≡ ok a) × (k a ≡ ok b))
bind_ok (ok a) k b h = (a, (refl, h))
bind_ok (err e) k b h = absurd (cc)

pub refuse_ok {κ} : {E : Type κ} (c : Bool) (e : E) → refuse c e ≡ ok tt → c ≡ false
refuse_ok true e h = absurd (cc)
refuse_ok false e h = refl
