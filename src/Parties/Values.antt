-- ===== src/Parties/Values.antt =====
-- The values of custom fields, and what backend/app/modules/parties/custom_fields.py takes from
-- Python's builtins to convert them.
use coreops_platform.Base.{ℕ, String, Bool, true, false, Option, ◌==◌, str_eq}

-- A JSON value. A number, a list or an object is known by the number that stands for its contents, and
-- equal to no truth value (Python has `True == 1`).
pub data Value : Type 0 where
  null : Value
  truth : Bool → Value
  text : String → Value
  many : ℕ → Value
  other : ℕ → Value

abbrev pub bool_eq : Bool → Bool → Bool
bool_eq true true = true
bool_eq false false = true
bool_eq true false = false
bool_eq false true = false

abbrev pub value_eq : Value → Value → Bool
value_eq null null = true
value_eq (truth a) (truth b) = bool_eq a b
value_eq (text a) (text b) = str_eq a b
value_eq (many a) (many b) = a == b
value_eq (other a) (other b) = a == b
value_eq _ _ = false

-- `str`, `float`, `str(Decimal(str(raw)))`, `isoformat`, `str.strip` and `str.lower`. The second and
-- third fail on what is no number.
pub record Builtins : Type 0 where
  pub str_of : Value → String
  pub float_of : Value → Option Value
  pub decimal_text : Value → Option String
  pub iso_of : Value → String
  pub strip : String → String
  pub lower : String → String
