-- ===== src/Json/Depth.antt =====
-- How deep a value is nested.
use ask_sql.Prelude.{ℕ, suc}
use Prim.Native.Nat.{max}
use ask_sql.Json.{Json, null, bool, num, str, arr, obj, Items, nil, cons, Fields, end, field}

-- The depth at which a value is left, its own level counted.
unfoldable mutual
  pub depth : Json → ℕ
  depth (arr xs) = suc (depth_items xs)
  depth (obj fs) = suc (depth_fields fs)
  depth null = 1
  depth (bool b) = 1
  depth (num n) = 1
  depth (str s) = 1

  pub depth_items : Items → ℕ
  depth_items nil = 0
  depth_items (cons x rest) = max (depth_items rest) (depth x)

  pub depth_fields : Fields → ℕ
  depth_fields end = 0
  depth_fields (field key v rest) = max (depth_fields rest) (depth v)
