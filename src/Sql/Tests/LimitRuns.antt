-- ===== src/Sql/Tests/LimitRuns.antt =====
-- Runs of the inspection of row limits.
use ask_sql.Prelude.{Text, codes, text_eq, ◌≡◌, refl}
use ask_sql.Json.{Num, whole, Json, num, str, arr, obj, cons, nil, Fields, field, end, get, exceeds}
use ask_sql.Engine.{postgres}
use ask_sql.Sql.Limit.{within, high, last_select, count_status, tree_status, inspect_limit}

abbrev no_text : Num → Text
no_text n = codes ""

abbrev node_of : Num → Json
node_of n = obj (field (codes "type") (str (codes "number")) (field (codes "value") (num n) end))

abbrev limited : Num → Fields
limited n =
    field (codes "limit")
      (obj (
        field (codes "seperator") (str (codes ""))
          (field (codes "value") (arr (cons (node_of n) nil)) end)))
      end

within_run :
    inspect_limit no_text (limited (whole 5)) 10 (codes "SELECT 1 LIMIT 5") postgres ≡ within
unfolding inspect_limit last_select tree_status count_status get text_eq exceeds
within_run = refl

high_run : inspect_limit no_text (limited (whole 50)) 10 (codes "SELECT 1 LIMIT 50") postgres ≡ high
unfolding inspect_limit last_select tree_status count_status get text_eq exceeds
high_run = refl
