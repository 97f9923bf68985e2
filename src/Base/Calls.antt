-- ===== src/Base/Calls.antt =====
-- A call that may raise: the exception, or the value returned.
use mathlib.Core.Path.{◌≡◌, refl}
use mathlib.Core.Bool.{Bool, true, false}
use mathlib.Core.Logic.{◌⊎◌, inl, inr}
use mathlib.Core.Option.{Option, none, some}

pub data Result (E : Type 0) (A : Type 0) : Type 0 where
  ok : A → Result E A
  err : E → Result E A

-- The rest of a method runs only on a value.
infixl 5 ◌>>=◌ ◌>>◌
abbrev pub ◌>>=◌ : {E X Y : Type 0} → Result E X → (X → Result E Y) → Result E Y
err problem >>= rest = err problem
ok value >>= rest = rest value

abbrev pub ◌>>◌ : {E Y : Type 0} → Result E (Unit {0}) → Result E Y → Result E Y
check >> rest = check >>= λ done. rest

-- `if test: raise e`
abbrev pub raise_if : {E : Type 0} → Bool → E → Result E (Unit {0})
raise_if true e = err e
raise_if false e = ok tt

-- The value of a lookup, or the exception for a missing row.
abbrev pub or_raise : {E A : Type 0} → Option A → E → Result E A
or_raise none e = err e
or_raise (some a) e = ok a

-- A method that returned got through its first part.
pub >>=-eq-ok :
    {E X Y : Type 0} (first : Result E X) (rest : X → Result E Y) {out : Y}
    → (first >>= rest) ≡ ok out
    → (value : X) × (first ≡ ok value) × (rest value ≡ ok out)
>>=-eq-ok (err problem) rest p = cc
>>=-eq-ok (ok value) rest p = (value, refl, p)

pub ok_inj : {E A : Type 0} {a b : A} → ◌≡◌ {A = Result E A} (ok a) (ok b) → a ≡ b
ok_inj h = cc

pub raise_if-eq-ok : {E : Type 0} (t : Bool) (e : E) → raise_if t e ≡ ok tt → t ≡ false
raise_if-eq-ok true e h = cc
raise_if-eq-ok false e h = refl

pub or_raise-eq-ok :
    {E A : Type 0} (o : Option A) (e : E) {a : A} → or_raise o e ≡ ok a → o ≡ some a
or_raise-eq-ok none e h = cc
or_raise-eq-ok (some a) e h = cc

pub Result-cases :
    {E A : Type 0} (m : Result E A) → ((a : A) × (m ≡ ok a)) ⊎ ((e : E) × (m ≡ err e))
Result-cases (ok a) = inl (a, refl)
Result-cases (err e) = inr (e, refl)
