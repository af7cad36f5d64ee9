-- ===== src/Sql/Tests.antt =====
-- Runs of the walk over syntax trees, and its theorems at concrete trees.
mod GuardRuns
mod LimitRuns
use ask_sql.Prelude.{
  ◌≤◌, true, false, none, some, [], Text, codes, ◌≡◌, ◌≢◌, refl, ◌↔◌, Member, starts_with, has,
  text_eq, to_lower_case, includes, ends_with,
}
use ask_sql.Json.{Num, Json, str, arr, obj, Items, nil, cons, Fields, end, field, get, first}
use ask_sql.Json.Depth.{depth}
use ask_sql.Engine.{postgres, oracle}
use ask_sql.Sql.Deny.{universal_deny, universal_deny_prefixes, default_deny_set}
use ask_sql.Sql.Policy.{default_guard_policy, deny_set_of, context_of, function_denied}
use ask_sql.Sql.Names.{
  looks_like_file_or_url, scheme_tail, before_dot, behind_dot, ends_in_extension, function_name_of,
  string_of,
}
use ask_sql.Sql.Walk.{
  is_call, called, last_segment, any_prefix, any_suffix, is_denied, type_violation, into_violation,
  file_violation, sequence_violation, call_violation, node_violation, walk,
}
use ask_sql.Sql.Walk.Sound.{root, below_field, IsReadOnlyTree, walk_iff}
use ask_sql.Sql.Walk.Denied.{on_postgres, Forbidden, walk-Forbidden}

abbrev no_number : Num → Text
no_number n = []

abbrev doc : Text → Json → Fields → Fields
doc k v fs = field k v fs

-- `pkg.f(...)`, behind its schema
abbrev call_of : Text → Items → Fields
call_of schema parts = doc (codes "type") (str (codes "function")) (
    doc (codes "name")
      (obj (
        doc (codes "schema") (obj (doc (codes "value") (str schema) end))
          (doc (codes "name") (arr parts) end)))
      end)

abbrev part : Text → Json
part s = obj (doc (codes "value") (str s) end)

abbrev select_of : Json → Json
select_of column =
    obj (
      doc (codes "type") (str (codes "select")) (doc (codes "columns") (arr (cons column nil)) end))

sleep_run :
    walk no_number
      (context_of default_guard_policy postgres)
      400
      (select_of (obj (call_of [] (cons (part (codes "PG_SLEEP")) nil))))
    ≡ some (function_denied (codes "pg_sleep"))
unfolding walk node_violation type_violation into_violation file_violation sequence_violation
    call_violation is_denied context_of deny_set_of default_deny_set universal_deny
    universal_deny_prefixes function_name_of last_segment any_prefix any_suffix get text_eq has
    to_lower_case starts_with includes ends_with string_of
sleep_run = refl

package_run :
    walk no_number
      (context_of default_guard_policy oracle)
      400
      (select_of (obj (call_of (codes "UTL_HTTP") (cons (part (codes "REQUEST")) nil))))
    ≡ some (function_denied (codes "request"))
unfolding walk node_violation type_violation into_violation file_violation sequence_violation
    call_violation is_denied context_of deny_set_of default_deny_set universal_deny
    universal_deny_prefixes function_name_of last_segment any_prefix any_suffix get text_eq has
    to_lower_case starts_with includes ends_with string_of
package_run = refl

-- A package behind its owner: the prefix list is compared with the whole name and with its last
-- segment, neither of which begins with the package.
owner_run :
    walk no_number (context_of default_guard_policy oracle) 400 (
      select_of (
        obj (
          call_of
            (codes "SYS")
            (cons (part (codes "UTL_HTTP")) (cons (part (codes "REQUEST")) nil)))))
    ≡ none
unfolding walk node_violation type_violation into_violation file_violation sequence_violation
    call_violation is_denied context_of deny_set_of default_deny_set universal_deny
    universal_deny_prefixes function_name_of last_segment any_prefix any_suffix get text_eq has
    to_lower_case starts_with includes ends_with string_of
owner_run = refl

file_run : looks_like_file_or_url (codes "Data.CSV.gz") ≡ true
unfolding looks_like_file_or_url scheme_tail before_dot behind_dot ends_in_extension includes
    starts_with has text_eq
file_run = refl

table_run : looks_like_file_or_url (codes "public.orders") ≡ false
unfolding looks_like_file_or_url scheme_tail before_dot behind_dot ends_in_extension includes
    starts_with has text_eq
table_run = refl

abbrev count_call : Fields
count_call = call_of [] (cons (part (codes "COUNT")) nil)

abbrev counting : Json
counting = obj (doc (codes "expr") (obj count_call) end)

counted : walk no_number (context_of default_guard_policy postgres) 400 counting ≡ none
unfolding walk node_violation type_violation into_violation file_violation sequence_violation
    call_violation is_denied context_of deny_set_of default_deny_set universal_deny
    universal_deny_prefixes function_name_of last_segment any_prefix any_suffix get text_eq has
    to_lower_case starts_with includes ends_with string_of
counted = refl

count_is_call : is_call count_call ≡ true
unfolding get text_eq to_lower_case
count_is_call = refl

count_named : called no_number count_call ≡ some (codes "count")
unfolding function_name_of get text_eq to_lower_case string_of
count_named = refl

walk_iff_example :
    (walk no_number (context_of default_guard_policy postgres) 400 counting ≡ none) ↔ (
      (depth counting ≤ 400)
      × IsReadOnlyTree no_number (context_of default_guard_policy postgres) counting)
walk_iff_example = walk_iff no_number (context_of default_guard_policy postgres) 400 counting

walk-Forbidden_example :
    ((f : Text)
      → Forbidden default_guard_policy f postgres
      → (codes "count" ≢ f) × (last_segment (codes "count") ≢ f))
    × ((t : Text)
        → Member t universal_deny_prefixes
        → (starts_with t (codes "count") ≡ false)
          × (starts_with t (last_segment (codes "count")) ≡ false))
walk-Forbidden_example =
    walk-Forbidden no_number default_guard_policy 400 on_postgres counted (below_field first root)
      count_is_call count_named
