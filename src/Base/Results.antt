-- ===== src/Base/Results.antt =====
-- Code that may raise: a value, or the exception.
use mathlib.Core.Path.{◌≡◌, refl}
use mathlib.Core.Bool.{Bool, true, false}

pub data Result {ℓ} (E : Type 0) (A : Type ℓ) : Type ℓ where
  ok : A → Result E A
  raise : E → Result E A

-- What follows runs on the value; an exception passes by it.
abbrev pub ◌>>=◌ {ℓ κ} :
    {Error : Type 0} {V : Type ℓ} {W : Type κ}
    → Result Error V
    → (V → Result Error W)
    → Result Error W
◌>>=◌ (raise error) next = raise error
◌>>=◌ (ok value) next = next value

-- if bad: raise e
abbrev pub refuse_if : {E : Type 0} → Bool → E → Result E (Unit {0})
refuse_if true e = raise e
refuse_if false e = ok tt

-- A check, and then the rest.
abbrev pub ◌>>◌ {ℓ} :
    {Error : Type 0} {W : Type ℓ} → Result Error (Unit {0}) → Result Error W → Result Error W
check >> rest = check >>= λ passed. rest

infixl 5 ◌>>=◌ ◌>>◌
module _ {E : Type 0} where
  -- A chain of checks that returns has passed each of them.
  pub refuse_if-eq-ok : (b : Bool) (e : E) → refuse_if b e ≡ ok tt → b ≡ false
  refuse_if-eq-ok true e h = cc
  refuse_if-eq-ok false e h = refl

  pub >>-eq-ok {ℓ} :
      {W : Type ℓ} (check : Result E (Unit {0})) (rest : Result E W) {value : W}
      → (check >> rest) ≡ ok value
      → (check ≡ ok tt) × (rest ≡ ok value)
  >>-eq-ok (raise error) rest h = cc
  >>-eq-ok (ok tt) rest h = (refl, h)

  pub >>=-eq-ok {ℓ κ} :
      {V : Type ℓ} {W : Type κ} (run : Result E V) (next : V → Result E W) {value : W}
      → (run >>= next) ≡ ok value
      → (found : V) × (run ≡ ok found) × (next found ≡ ok value)
  >>=-eq-ok (raise error) next h = cc
  >>=-eq-ok (ok found) next h = (found, refl, h)
