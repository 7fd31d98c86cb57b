-- ===== src/JsValue.antt =====
-- JavaScript values of type `unknown`, as far as the repository looks into them. Finite numbers are
-- whole; arrays, dates and the like are objects with the fields that they have.
use layercache.Base.{ℤ, Bool, true, false, Option, none, some, if◌then◌else◌, arith, ◌≡◌, refl}
use Prim.Native.String.{String}
use text.Mathlib.Text.{◌==◌ as str_eq}
use text.Mathlib.TextEquality.{eq_iff}

pub data Num : Type 0 where
  nan infinity neg_infinity : Num
  finite : ℤ → Num

mutual
  pub data Value : Type 0 where
    undefined null : Value
    bool : Bool → Value
    num : Num → Value
    str : String → Value
    object : Fields → Value

  pub data Fields : Type 0 where
    end : Fields
    field : String → Value → Fields → Fields

-- `v.name`; a missing field reads as undefined
unfoldable pub read : String → Fields → Value
read k end = undefined
read k (field j v fs) = if str_eq j k then v else read k fs

-- `{ ...v, name: x }`
unfoldable pub write : String → Value → Fields → Fields
write k x end = field k x end
write k x (field j v fs) = if str_eq j k then field k x fs else field j v (write k x fs)

pub read-write :
    (j k : String) (x : Value) (fs : Fields)
    → read j (write k x fs) ≡ (if str_eq k j then x else read j fs)
unfolding read write
read-write j k x end = refl
read-write j k x (field i v fs) =
    ground (arith, eq_iff k j, eq_iff i k, eq_iff i j, read-write j k x fs)

-- `x ?? undefined` of a number: a finite number, if it is one
abbrev pub finite? : Value → Option ℤ
finite? (num (finite z)) = some z
finite? v = none

-- a number, or null
abbrev pub or_null : Option ℤ → Value
or_null none = null
or_null (some z) = num (finite z)

abbrev pub is_nullish : Value → Bool
is_nullish undefined = true
is_nullish null = true
is_nullish v = false

abbrev pub is_null : Value → Bool
is_null null = true
is_null v = false
