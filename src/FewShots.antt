-- ===== src/FewShots.antt =====
-- packages/core/src/history.ts: `MemoryFewShotStore`, which keeps approved examples for each
-- connection and user, and finds those that share words with a question.
pub mod Distinct
pub mod Every
pub mod Shared
pub mod Ranking
pub mod Added
pub mod Retrieval
mod Tests
use ask_sql.Prelude.{
  ℕ, zero, suc, ◌+◌, Bool, true, false, not, ◌&&◌, ◌||◌, Option, none, some, List, [], ◌∷◌, Text,
  codes, length, take, has, text_eq, if◌then◌else◌, ltb, leb, ◌==◌, to_lower_case, is_decimal,
}
use ask_sql.Sql.Rewrite.{trim}
use ask_sql.History.{key}

pub record FewShotExample : Type 0 where
  pub question : Text
  pub sql : Text

abbrev pub Examples : Type 0
Examples = List (Text × List FewShotExample)

-- `STOP`
abbrev pub stop_words : List Text
stop_words =
    codes "the"
    ∷ codes "a"
    ∷ codes "an"
    ∷ codes "of"
    ∷ codes "in"
    ∷ codes "on"
    ∷ codes "for"
    ∷ codes "to"
    ∷ codes "by"
    ∷ codes "and"
    ∷ codes "or"
    ∷ codes "how"
    ∷ codes "many"
    ∷ codes "what"
    ∷ codes "is"
    ∷ codes "are"
    ∷ codes "per"
    ∷ codes "each"
    ∷ codes "all"
    ∷ codes "show"
    ∷ codes "list"
    ∷ codes "get"
    ∷ []

-- `/[a-z0-9_]/`
abbrev pub is_term_unit : ℕ → Bool
is_term_unit c = (leb b'a' c && leb c b'z') || (is_decimal c || c == b'_')

abbrev pub extend_first : ℕ → List Text → List Text
extend_first c [] = (c ∷ []) ∷ []
extend_first c (w ∷ ws) = (c ∷ w) ∷ ws

-- The pieces between two runs of other units: some may be empty, and a filter takes those out.
unfoldable pub pieces : Text → List Text
pieces [] = [] ∷ []
pieces (c ∷ s) = let rest = pieces s in if is_term_unit c then extend_first c rest else [] ∷ rest

abbrev pub is_term : Text → Bool
is_term w = ltb 2 (length w) && not (has stop_words w)

-- The words that pass the filter and were not seen before, as `new Set` lists them.
unfoldable pub new_terms : List Text → List Text → List Text
new_terms seen [] = []
new_terms seen (w ∷ ws) =
    let skip = new_terms seen ws in
    let keep = new_terms (w ∷ seen) ws in if is_term w && not (has seen w) then w ∷ keep else skip

unfoldable pub terms : Text → List Text
terms s = new_terms [] (pieces (to_lower_case s))

unfoldable pub overlap : List Text → List Text → ℕ
overlap [] b = 0
overlap (t ∷ ts) b = if has b t then suc (overlap ts b) else overlap ts b

-- `Map.prototype.get` and `Map.prototype.set`
unfoldable pub examples_of : Text → Examples → List FewShotExample
examples_of k [] = []
examples_of k ((j, es) ∷ bs) = if text_eq j k then es else examples_of k bs

unfoldable pub set_examples : Text → List FewShotExample → Examples → Examples
set_examples k es [] = (k, es) ∷ []
set_examples k es ((j, ds) ∷ bs) =
    if text_eq j k then (j, es) ∷ bs else (j, ds) ∷ set_examples k es bs

-- `e.question.trim().toLowerCase()`
abbrev pub normal_question : FewShotExample → Text
normal_question e = to_lower_case (trim e.question)

-- The list without the first example of that question.
unfoldable pub without_question : Text → List FewShotExample → List FewShotExample
without_question q [] = []
without_question q (e ∷ es) =
    if text_eq (normal_question e) q then es else e ∷ without_question q es

unfoldable pub add_example : ℕ → Text → FewShotExample → Option Text → Examples → Examples
add_example cap_per_conn connection_id example user_id examples =
    let k = key connection_id user_id in
    set_examples k
      (take cap_per_conn
        (example ∷ without_question (normal_question example) (examples_of k examples)))
      examples

-- An example with its score.
abbrev pub Scored : Type 0
Scored = FewShotExample × ℕ

unfoldable pub scored : List Text → List FewShotExample → List Scored
scored q [] = []
scored q (e ∷ es) =
    let score = overlap q (terms e.question) in
    if ltb 0 score then (e, score) ∷ scored q es else scored q es

-- The stable sort, the highest score first: an entry goes behind those that score more.
unfoldable pub insert_scored : Scored → List Scored → List Scored
insert_scored e [] = e ∷ []
insert_scored e (d ∷ ds) =
    let rest = insert_scored e ds in if ltb e.1 d.1 then d ∷ rest else e ∷ d ∷ ds

unfoldable pub sort_scored : List Scored → List Scored
sort_scored [] = []
sort_scored (e ∷ es) = insert_scored e (sort_scored es)

abbrev pub unscored : List Scored → List FewShotExample
unscored [] = []
unscored ((e, score) ∷ es) = e ∷ unscored es

unfoldable pub retrieve : Text → Text → ℕ → Option Text → Examples → List FewShotExample
retrieve connection_id question limit user_id examples = unscored (
    take limit
      (sort_scored (scored (terms question) (examples_of (key connection_id user_id) examples))))
