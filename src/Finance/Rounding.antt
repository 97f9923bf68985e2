-- ===== src/Finance/Rounding.antt =====
-- `(quantity * unit_price).quantize(Decimal("0.01"))` of backend/app/modules/finance/service.py: the
-- exact product, rounded to hundredths, half to even. Products beyond the 28 digits of the decimal
-- context are not modelled.
use coreops_platform.Base.{
  ℕ, zero, suc, ◌+◌, ◌-◌, ◌*◌, ◌/◌, ◌%◌, ◌^◌, ◌≤◌, ◌<◌, ◌≡◌, refl, sym, subst, false, ◌==◌, ltb,
  leb, if◌then◌else◌, arith, ◌⊎◌, inl, inr,
}
use native.Mathlib.Nat.{div-add-mod, mod-lt, mul_comm}
use coreops_platform.Base.Int.{ℤ, pos, negsuc}
use coreops_platform.Finance.Model.{Decimal}

-- The quotient, or the next, by the remainder.
abbrev pub half_even : ℕ → ℕ → ℕ → ℕ
half_even q r d =
    if ltb (2 * r) d then q else if ltb d (2 * r) then q + 1 else if q % 2 == 0 then q else q + 1

-- n / d, half to even.
unfoldable pub round_half_even : ℕ → ℕ → ℕ
round_half_even n d = half_even (n / d) (n % d) d

-- |coefficient| / 10 ^ scale in hundredths.
unfoldable pub cents : ℕ → ℕ → ℕ
unfolding round_half_even
cents n scale = if leb scale 2 then n * 10 ^ (2 - scale) else round_half_even n (10 ^ (scale - 2))

abbrev pub negate : ℕ → ℤ
negate zero = pos 0
negate (suc n) = negsuc n

unfoldable pub quantize : Decimal → ℤ
unfolding cents
quantize d = elim d.coefficient [
  | pos n ↦ pos (cents n d.scale)
  | negsuc n ↦ negate (cents (suc n) d.scale)
]

abbrev pub times : ℤ → ℕ → ℤ
times (pos n) k = pos (n * k)
times (negsuc n) k = negate (suc n * k)

-- The total of a line.
unfoldable pub line_total_of : ℕ → ℕ → Decimal → ℤ
unfolding quantize
line_total_of digits scale price =
    quantize (record { coefficient = times price.coefficient digits; scale = scale + price.scale })

abbrev pub magnitude : ℤ → ℕ
magnitude (pos n) = n
magnitude (negsuc n) = suc n

-- The number with the sign of another.
abbrev pub signed : ℤ → ℕ → ℤ
signed (pos n) m = pos m
signed (negsuc n) m = negate m

-- m units are nearest to a / (2 * d), where 2 * m * d is `b`: nearer than a half, or at a half and
-- even.
abbrev pub IsWithin : ℕ → ℕ → ℕ → ℕ → Type 0
IsWithin a b d m = ((a < b + d) × (b < a + d)) ⊎ ((a ≤ b + d) × (b ≤ a + d) × (m % 2 ≡ 0))

-- m hundredths are nearest to n / 10 ^ scale, half to even.
abbrev pub IsNearest : ℕ → ℕ → ℕ → Type 0
IsNearest n scale m = IsWithin (200 * n) (2 * (m * 10 ^ scale)) (10 ^ scale) m

half_even-cases :
    (q r d : ℕ)
    → ((half_even q r d ≡ q) × (2 * r < d))
      ⊎ ((half_even q r d ≡ suc q) × (d < 2 * r))
      ⊎ ((half_even q r d ≡ q) × (2 * r ≡ d) × (q % 2 ≡ 0))
      ⊎ ((half_even q r d ≡ suc q) × (2 * r ≡ d) × (suc q % 2 ≡ 0))
half_even-cases q r d = ground arith

round_half_even-IsWithin :
    (n d : ℕ) → 0 < d → IsWithin (2 * n) (2 * (d * round_half_even n d)) d (round_half_even n d)
unfolding round_half_even
round_half_even-IsWithin n d h =
    let e : d * (n / d) + n % d ≡ n = div-add-mod n d in
    let l : n % d < d = mod-lt n h in
    elim (half_even-cases (n / d) (n % d) d) [
      | inl (p, r) ↦ rw p (inl (omega (arith, e, r), omega (arith, e, h)))
      | inr (inl (p, r)) ↦ rw p (inl (omega (arith, e, l), omega (arith, e, r)))
      | inr (inr (inl (p, t, z))) ↦ rw p (inr (omega (arith, e, t), omega (arith, e, t), z))
      | inr (inr (inr (p, t, z))) ↦ rw p (inr (omega (arith, e, t), omega (arith, e, t), z))
    ]

pow-pos : (k : ℕ) → 0 < 10 ^ k
pow-pos zero = omega arith
pow-pos (suc k) = omega (arith, pow-pos k)

cents_far : (n k : ℕ) → cents n (suc (suc (suc k))) ≡ round_half_even n (10 ^ suc k)
unfolding cents
cents_far n k =
    let f : leb (suc (suc (suc k))) 2 ≡ false = ground arith in
    let g : suc (suc (suc k)) - 2 ≡ suc k = omega arith in rw (f, g) refl

-- A hundredfold of both sides.
scaled :
    (n d m p : ℕ)
    → p ≡ 100 * d
    → IsWithin (2 * n) (2 * (d * m)) d m
    → IsWithin (200 * n) (2 * (m * p)) p m
scaled n d m p e h =
    let c : m * p ≡ 100 * (d * m) = rw e (omega (arith, mul_comm d m)) in
    elim h [
      | inl (a, b) ↦ inl (omega (arith, a, c, e), omega (arith, b, c, e))
      | inr (a, b, z) ↦ inr (omega (arith, a, c, e), omega (arith, b, c, e), z)
    ]

cents-IsNearest : (n scale : ℕ) → IsNearest n scale (cents n scale)
unfolding cents
cents-IsNearest n zero = inl (omega arith, omega arith)
cents-IsNearest n (suc zero) = inl (omega arith, omega arith)
cents-IsNearest n (suc (suc zero)) = inl (omega arith, omega arith)
cents-IsNearest n (suc (suc (suc k))) =
    let d = 10 ^ suc k in
    let m = round_half_even n d in
    subst (IsNearest n (suc (suc (suc k)))) (sym (cents_far n k)) (
      scaled n d m (10 ^ suc (suc (suc k))) (omega arith)
        (round_half_even-IsWithin n d (pow-pos (suc k))))

cents_of_zero : (scale : ℕ) → cents 0 scale ≡ 0
cents_of_zero scale = elim (cents-IsNearest 0 scale) [
  | inl (a, b) ↦ none_left (cents 0 scale) (10 ^ scale) (pow-pos scale) (omega (arith, b))
  | inr (a, b, z) ↦ none_left (cents 0 scale) (10 ^ scale) (pow-pos scale) (omega (arith, b))
]
  where
    none_left : (m p : ℕ) → 0 < p → 2 * (m * p) ≤ p → m ≡ 0
    none_left zero p h l = refl
    none_left (suc m) p h l = omega (arith, h, l)

quantize-negate :
    (n scale : ℕ)
    → quantize (record { coefficient = negate n; scale = scale }) ≡ negate (cents n scale)
unfolding quantize
quantize-negate zero scale = rw (cents_of_zero scale) refl
quantize-negate (suc n) scale = refl

pub line_total_of-IsNearest :
    (digits scale : ℕ) (price : Decimal)
    → (m : ℕ) × (line_total_of digits scale price ≡ signed price.coefficient m)
      × IsNearest (magnitude price.coefficient * digits) (scale + price.scale) m
unfolding line_total_of quantize
line_total_of-IsNearest digits scale price = go price.coefficient
  where
    go :
        (c : ℤ)
        → (m : ℕ) × (quantize (record { coefficient = times c digits; scale = scale + price.scale })
            ≡ signed c m)
          × IsNearest (magnitude c * digits) (scale + price.scale) m
    go (pos n) = (
      cents (n * digits) (scale + price.scale),
      refl,
      cents-IsNearest (n * digits) (scale + price.scale),
    )
    go (negsuc n) = (
      cents (suc n * digits) (scale + price.scale),
      quantize-negate (suc n * digits) (scale + price.scale),
      cents-IsNearest (suc n * digits) (scale + price.scale),
    )
