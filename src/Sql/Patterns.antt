-- ===== src/Sql/Patterns.antt =====
-- packages/core/src/guard.ts: the regular expressions of the guard.
use ask_sql.Prelude.{
  ℕ, Bool, true, false, not, ◌||◌, List, [], ◌∷◌, codes, ◌==◌, is_letter, is_word,
}
use ask_sql.Regex.{Regex, start, finish, boundary, unit, many, group, then_, either}
use ask_sql.Regex.Build.{
  word, class, unit_is, one_or_more, optional, spaces, spaces_or_none, in_order, any_word, any_of,
}

-- `/;\s*$/u`
abbrev pub trailing_semicolon : Regex
trailing_semicolon = in_order (unit_is b';' ∷ spaces_or_none ∷ finish ∷ [])

-- `/^\s*pragma\b/iu`
abbrev pub pragma_start : Regex
pragma_start = in_order (start ∷ spaces_or_none ∷ word true (codes "pragma") ∷ boundary true ∷ [])

abbrev is_name_start : ℕ → Bool
is_name_start c = is_letter c || c == b'_'

abbrev is_argument : ℕ → Bool
is_argument c = is_word c || c == b'.' || c == b'"' || c == b'\'' || c == b'`'

-- `/^\s*pragma\s+([A-Za-z_][A-Za-z0-9_]*)\s*(?:\(\s*([A-Za-z0-9_."'`]+)\s*\))?\s*$/iu`
abbrev pub pragma_command : Regex
pragma_command = in_order (
    start
    ∷ spaces_or_none
    ∷ word true (codes "pragma")
    ∷ spaces
    ∷ group 1 (then_ (class true is_name_start) (many (class true is_word)))
    ∷ spaces_or_none
    ∷ optional (
        in_order (
          unit_is b'('
          ∷ spaces_or_none
          ∷ group 2 (one_or_more (class true is_argument))
          ∷ spaces_or_none
          ∷ unit_is b')'
          ∷ []))
    ∷ spaces_or_none
    ∷ finish
    ∷ [])

-- `/^\s*(show|desc|describe)\b/iu`
abbrev pub show_start : Regex
show_start = in_order (
    start
    ∷ spaces_or_none
    ∷ any_word true (codes "show") (codes "desc" ∷ codes "describe" ∷ [])
    ∷ boundary true
    ∷ [])

-- `SHOW_TAIL_EXECUTES`
abbrev pub show_tail_executes : Regex
show_tail_executes =
    either
      (in_order (unit_is b'(' ∷ spaces_or_none ∷ word false (codes "select") ∷ boundary false ∷ []))
      (in_order (
        boundary false
        ∷ class false is_name_start
        ∷ many (class false is_word)
        ∷ spaces_or_none
        ∷ unit_is b'('
        ∷ []))

abbrev two_words : List ℕ → List ℕ → Regex
two_words a b = in_order (word false a ∷ spaces ∷ word false b ∷ [])

abbrev one_word : List ℕ → Regex
one_word a = word false a

-- `MYSQL_SHOW_ALLOW`
abbrev pub mysql_show_allow : Regex
mysql_show_allow = in_order (
    start
    ∷ spaces_or_none
    ∷ word false (codes "show")
    ∷ spaces
    ∷ optional (then_ (word false (codes "full")) spaces)
    ∷ any_of (one_word (codes "tables")) (
        one_word (codes "databases")
        ∷ one_word (codes "schemas")
        ∷ one_word (codes "columns")
        ∷ one_word (codes "fields")
        ∷ one_word (codes "index")
        ∷ one_word (codes "indexes")
        ∷ one_word (codes "keys")
        ∷ two_words (codes "create") (codes "table")
        ∷ two_words (codes "create") (codes "view")
        ∷ two_words (codes "table") (codes "status")
        ∷ one_word (codes "triggers")
        ∷ one_word (codes "events")
        ∷ two_words (codes "open") (codes "tables")
        ∷ one_word (codes "status")
        ∷ one_word (codes "variables")
        ∷ two_words (codes "character") (codes "set")
        ∷ one_word (codes "collation")
        ∷ one_word (codes "engines")
        ∷ one_word (codes "warnings")
        ∷ one_word (codes "errors")
        ∷ [])
    ∷ boundary false
    ∷ [])

abbrev is_object_name : ℕ → Bool
is_object_name c = is_word c || c == b'.' || c == b'`' || c == b'"'

-- `/^\s*(desc|describe)\s+[A-Za-z0-9_.`"]+\s*$/iu`
abbrev pub describe_command : Regex
describe_command = in_order (
    start
    ∷ spaces_or_none
    ∷ any_word true (codes "desc") (codes "describe" ∷ [])
    ∷ spaces
    ∷ one_or_more (class true is_object_name)
    ∷ spaces_or_none
    ∷ finish
    ∷ [])

-- `/^\s*explain(\s+query\s+plan|\s+analyze|\s+verbose|\s*\([^)]*\))*\s+/iu`
abbrev pub explain_start : Regex
explain_start = in_order (
    start
    ∷ spaces_or_none
    ∷ word true (codes "explain")
    ∷ many (
        any_of
          (in_order (spaces ∷ word true (codes "query") ∷ spaces ∷ word true (codes "plan") ∷ []))
          (in_order (spaces ∷ word true (codes "analyze") ∷ [])
            ∷ in_order (spaces ∷ word true (codes "verbose") ∷ [])
            ∷ in_order (
                spaces_or_none
                ∷ unit_is b'('
                ∷ many (unit (λ c. not (c == b')')))
                ∷ unit_is b')'
                ∷ [])
            ∷ []))
    ∷ spaces
    ∷ [])

abbrev key_share : Regex
key_share = in_order (word true (codes "key") ∷ spaces ∷ word true (codes "share") ∷ [])

abbrev no_key_update : Regex
no_key_update = in_order (
    word true (codes "no")
    ∷ spaces
    ∷ word true (codes "key")
    ∷ spaces
    ∷ word true (codes "update")
    ∷ [])

-- `/\bfor\s+(update|share|no\s+key\s+update|key\s+share)\b/iu`
abbrev pub for_update : Regex
for_update = in_order (
    boundary true
    ∷ word true (codes "for")
    ∷ spaces
    ∷ any_of (word true (codes "update"))
        (word true (codes "share") ∷ no_key_update ∷ key_share ∷ [])
    ∷ boundary true
    ∷ [])

-- `/\block\s+in\s+share\s+mode\b/iu`
abbrev pub lock_in_share_mode : Regex
lock_in_share_mode = in_order (
    boundary true
    ∷ word true (codes "lock")
    ∷ spaces
    ∷ word true (codes "in")
    ∷ spaces
    ∷ word true (codes "share")
    ∷ spaces
    ∷ word true (codes "mode")
    ∷ boundary true
    ∷ [])

-- `/\binto\s+(outfile|dumpfile)\b/iu`
abbrev pub into_file : Regex
into_file = in_order (
    boundary true
    ∷ word true (codes "into")
    ∷ spaces
    ∷ any_word true (codes "outfile") (codes "dumpfile" ∷ [])
    ∷ boundary true
    ∷ [])
