-- ===== src/Json.antt =====
-- JavaScript values as JSON.parse and the SQL parser build them, and the numbers inside them.
pub mod Depth
use ask_sql.Prelude.{
  ℕ, suc, ◌*◌, Bool, true, false, Option, none, some, Text, text_eq, if◌then◌else◌, ltb,
}

-- A number: NaN, an infinity with its sign, or a rational `± m / suc d`, with its sign.
pub data Num : Type 0 where
  nan : Num
  infinite : Bool → Num
  ratio : Bool → ℕ → ℕ → Num

-- The number of a natural number.
abbrev pub whole : ℕ → Num
whole n = ratio false n 0

-- An object is the list of its own properties in enumeration order.
mutual
  pub data Fields : Type 0 where
    field : Text → Json → Fields → Fields
    end : Fields

  pub data Json : Type 0 where
    obj : Fields → Json
    arr : Items → Json
    str : Text → Json
    num : Num → Json
    bool : Bool → Json
    null : Json

  pub data Items : Type 0 where
    cons : Json → Items → Items
    nil : Items

-- `v[key]` of an object; `none` is undefined.
unfoldable pub get : Text → Fields → Option Json
get k end = none
get k (field j v fs) = if text_eq k j then some v else get k fs

-- `typeof v === 'number'`
abbrev pub is_num : Json → Bool
is_num (num n) = true
is_num _ = false

-- `x > n` for a natural number `n`
unfoldable pub exceeds : Num → ℕ → Bool
exceeds nan n = false
exceeds (infinite negative) n = if negative then false else true
exceeds (ratio true m d) n = false
exceeds (ratio false m d) n = ltb (n * suc d) m

infixr 65 ◌+++◌
unfoldable pub ◌+++◌ : Items → Items → Items
nil +++ ys = ys
cons x xs +++ ys = cons x (xs +++ ys)

-- `k` is the key of a property of the object, with value `v`.
pub data Has (k : Text) (v : Json) : Fields → Type 0 where
  first : {fs : Fields} → Has k v (field k v fs)
  later : {j : Text} {w : Json} {fs : Fields} → Has k v fs → Has k v (field j w fs)

-- `x` is an element of the array.
pub data In (x : Json) : Items → Type 0 where
  head : {xs : Items} → In x (cons x xs)
  tail : {y : Json} {xs : Items} → In x xs → In x (cons y xs)
