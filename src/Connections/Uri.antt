-- ===== src/Connections/Uri.antt =====
-- packages/server/src/dynamicConnections.ts: what a MongoDB connection string names.
use ask_sql.Prelude.{
  ℕ, Bool, false, not, ◌||◌, none, some, List, [], ◌∷◌, Text, codes, if◌then◌else◌, ◌==◌,
  to_lower_case, begins_with, includes, map,
}
use ask_sql.Regex.{Regex, unit, many, start, test, is_nil, exec}
use ask_sql.Regex.Build.{word, unit_is, optional, in_order}
use ask_sql.Sql.Rewrite.{trim}
use ask_sql.Connections.Address.{split}

-- `/^mongodb(\+srv)?:\/\//i`
abbrev pub mongo_scheme : Regex
mongo_scheme = in_order (
    start
    ∷ word false (codes "mongodb")
    ∷ optional (word false (codes "+srv"))
    ∷ word false (codes "://")
    ∷ [])

abbrev pub has_mongo_scheme : Text → Bool
has_mongo_scheme = test mongo_scheme

-- `/\/\/[^/@]*:[^/@]*@/`
abbrev pub no_credentials_end : ℕ → Bool
no_credentials_end c = not (c == b'/' || c == b'@')

abbrev pub credentials : Regex
credentials = in_order (
    word false (codes "//")
    ∷ many (unit no_credentials_end)
    ∷ unit_is b':'
    ∷ many (unit no_credentials_end)
    ∷ unit_is b'@'
    ∷ [])

abbrev pub has_embedded_credentials : Text → Bool
has_embedded_credentials = test credentials

-- `uri.replace(/^mongodb(\+srv)?:\/\//i, '')`
abbrev pub after_scheme : Text → Text
after_scheme uri = elim (exec mongo_scheme uri) [ none ↦ uri | some (_, q) ↦ q.rest ]

-- The text before the first code unit that is in the class.
unfoldable pub before : (ℕ → Bool) → Text → Text
before p [] = []
before p (c ∷ s) = if p c then [] else c ∷ before p s

-- `text.slice(text.lastIndexOf(c) + 1)`
unfoldable pub after_last : ℕ → Text → Text
after_last c [] = []
after_last c (d ∷ s) = let rest = after_last c s in if d == c || includes c s then rest else d ∷ s

abbrev pub inside_brackets : Text → Text
inside_brackets [] = []
inside_brackets (c ∷ s) = before (λ d. d == b']') s

-- One item of the list, with its port taken off.
unfoldable pub host_name : Text → Text
host_name item =
    let host = trim item in
    to_lower_case
      (trim (if begins_with b'[' host then inside_brackets host else before (λ d. d == b':') host))

unfoldable pub not_empty : List Text → List Text
not_empty [] = []
not_empty (h ∷ hs) = if is_nil h then not_empty hs else h ∷ not_empty hs

unfoldable pub mongo_uri_hosts : Text → List Text
unfolding host_name not_empty
mongo_uri_hosts uri =
    let authority = before (λ d. d == b'/' || d == b'?') (after_scheme uri) in
    not_empty (map host_name (split b',' (after_last b'@' authority)))
