-- ===== src/Ask/Texts.antt =====
-- packages/core/src/engine.ts: the texts that the loop of `askImpl` puts into a repair prompt, an error
-- or a note.
use ask_sql.Prelude.{
  false, Option, none, some, List, [], ◌∷◌, ◌++◌, Text, codes, length, take, ltb, if◌then◌else◌,
}
use ask_sql.Errors.{ErrorCode, Thrown, ask_error, ask_sql_error}
use ask_sql.Floors.Columns.{UnknownColumn}
use ask_sql.Ask.{FanOut, EpochMismatch}

-- `"…"`
abbrev pub in_quotes : Text → Text
in_quotes s = b'"' ∷ s ++ (b'"' ∷ [])

-- `names.join(', ')`
unfoldable pub join_names : List Text → Text
join_names [] = []
join_names (n ∷ []) = n
join_names (n ∷ m ∷ ns) = n ++ codes ", " ++ join_names (m ∷ ns)

-- The first twelve, and a sign that there are more.
unfoldable pub first_twelve : List Text → Text
first_twelve names =
    join_names (take 12 names) ++ (if ltb 12 (length names) then codes ", ..." else [])

-- An error with texts of its own, that is not worth a retry.
unfoldable pub failing : ErrorCode → Text → Text → Thrown
failing code user_message detail = ask_error (
    ask_sql_error code
      (record { user_message = some user_message; detail = some detail; retryable = some false }))

-- An error with the default retry hint, and the default message where none is given.
unfoldable pub raised : ErrorCode → Option Text → Text → Thrown
raised code user_message detail = ask_error (
    ask_sql_error code
      (record { user_message = user_message; detail = some detail; retryable = none }))

unfoldable pub metadata_failure : Text → Text
metadata_failure hint =
    codes
      "That question is about database structure. Answer it with a read-only query, using this as a starting point: "
    ++ hint

unfoldable pub near_failure : Text → Text
near_failure near =
    codes "There is no exact match, but a "
    ++ in_quotes near
    ++ codes " table exists. If the question meant that table, answer using it."

unfoldable pub no_statement_failure : Text
no_statement_failure =
    codes "The response contained no SQL statement. Reply with one SELECT in a ```sql fence."

unfoldable pub ordered_set_hint : Text
ordered_set_hint =
    codes
      " The safety validator cannot read WITHIN GROUP here. Answer without it: return the rows themselves rather than concatenating them into one value."

unfoldable pub quote_hint : Text
quote_hint =
    codes
      " A text value contains an apostrophe that is not escaped: write it doubled, as 'O''Brien'."

unfoldable pub rejected_failure : Text → Text → Text
rejected_failure reason hints =
    codes "The SQL validator rejected it: "
    ++ reason
    ++ codes "."
    ++ hints
    ++ codes " Produce a single read-only SELECT."

unfoldable pub unknown_table_failure : Text → Option Text → Text
unknown_table_failure table nearest =
    codes "Table "
    ++ in_quotes table
    ++ codes " does not exist in the schema."
    ++ suggestion nearest
    ++ codes " Use only tables from the <schema> block."
  where
    suggestion : Option Text → Text
    suggestion none = []
    suggestion (some n) = codes " Did you mean " ++ in_quotes n ++ codes "?"

unfoldable pub unknown_table_message : Text → Option Text → List Text → Text
unknown_table_message table closest names =
    codes "The AI kept referring to a table called "
    ++ in_quotes table
    ++ codes ", which this database does not have, so nothing was run."
    ++ suggestion closest
    ++ codes " Available: "
    ++ first_twelve names
    ++ codes "."
  where
    suggestion : Option Text → Text
    suggestion none = []
    suggestion (some n) = codes " Did you mean " ++ n ++ codes "?"

unfoldable pub ambiguous_failure : Text → Text
ambiguous_failure column =
    in_quotes column
    ++ codes
        " exists on more than one of the joined tables, so on its own it is ambiguous. Qualify it with the table or alias it belongs to."

unfoldable pub grouping_failure : Text → Text
grouping_failure column =
    codes "The query selects "
    ++ in_quotes column
    ++ codes
        " alongside an aggregate but has no GROUP BY, so it does not answer the question. Either group by "
    ++ in_quotes column
    ++ codes ", or drop it and aggregate over the whole table - whichever the question asks for."

unfoldable pub nested_failure : Text → Text
nested_failure name =
    name
    ++ codes
        "() contains another aggregate, which no SQL engine allows. Aggregate once over the rows, or aggregate the inner result in a subquery or CTE and then aggregate that."

abbrev pub parent_column : FanOut → Text
parent_column f = in_quotes (f.parent ++ b'.' ∷ f.column)

unfoldable pub fan_out_failure : FanOut → Text
fan_out_failure f =
    codes "The query sums "
    ++ parent_column f
    ++ codes " while joined to "
    ++ in_quotes f.child
    ++ codes ", which has many rows per "
    ++ in_quotes f.parent
    ++ codes " row, so each value is counted once per "
    ++ in_quotes f.child
    ++ codes " row and the total is too high. Aggregate "
    ++ in_quotes f.child
    ++ codes
        " in a separate subquery or CTE and join the result, or drop the join if the question does not need it."

unfoldable pub fan_out_note : FanOut → Text
fan_out_note f =
    codes "This sums "
    ++ parent_column f
    ++ codes " across a join to "
    ++ in_quotes f.child
    ++ codes ", which has many rows per "
    ++ in_quotes f.parent
    ++ codes " row, so the total is counted more than once and is too high."

unfoldable pub epoch_failure : EpochMismatch → Text
epoch_failure e =
    in_quotes e.column
    ++ codes " is "
    ++ e.db_type
    ++ codes ", so it holds a number, not a date, and comparing it with "
    ++ e.compared_to
    ++ codes
        " does not select the rows intended: against text nothing matches, and against epoch seconds a column of milliseconds matches everything. Compare it in its own units - build the bound as a number, for example (strftime('%s','now') - 7*86400) * 1000 for milliseconds - or convert the column with the matching divisor before comparing."

unfoldable pub epoch_note : EpochMismatch → Text
epoch_note e =
    codes "This compares "
    ++ in_quotes e.column
    ++ codes ", which is "
    ++ e.db_type
    ++ codes ", against "
    ++ e.compared_to
    ++ codes
        ". A number and a date are not the same kind of value, so the rows selected are not the rows the question asked for."

unfoldable pub unknown_column_message : UnknownColumn → Text
unknown_column_message u =
    codes "The AI kept using a "
    ++ in_quotes u.column
    ++ codes " column on "
    ++ u.table
    ++ codes ", which does not exist, so nothing was run. "
    ++ u.table
    ++ codes " has: "
    ++ first_twelve u.available
    ++ codes
        ". Try naming the column you mean - or use a larger model, which is usually the real fix."

unfoldable pub unknown_column_failure : UnknownColumn → Text → Text
unknown_column_failure u where_it_lives =
    codes "Column "
    ++ in_quotes u.column
    ++ codes " does not exist on table "
    ++ in_quotes u.table
    ++ codes ". Its real columns are: "
    ++ join_names u.available
    ++ codes "."
    ++ where_it_lives
    ++ codes " Use only columns shown in the <schema> block."

unfoldable pub code_failure : Text → Text → List Text → Text
code_failure column literal values =
    codes "No row has "
    ++ column
    ++ codes " = "
    ++ literal
    ++ codes ". The values it actually holds are: "
    ++ join_names values
    ++ codes
        ". Pick from those, and if none of them answers the question, say so rather than choosing one."

unfoldable pub code_note : Text → Text → Text
code_note column literal =
    codes "No row has "
    ++ column
    ++ codes " = "
    ++ literal
    ++ codes
        ", so this returns nothing for that reason rather than because nothing matched the question. If it is a status or type code, what each value means is defined in the application, not the database."

unfoldable pub dangling_note : Text → Text
dangling_note pronoun =
    in_quotes pronoun
    ++ codes
        " does not refer to anything earlier in this conversation, so the query below picked a subject on its own. Name who you mean and ask again if that is wrong."
