-- ===== src/Ask/Safe.antt =====
-- The loop of `askImpl` behind the guard of packages/core/src/guard.ts: what reaches a user.
use ask_sql.Prelude.{false, Option, some, List, Text, ◌≡◌, ◌∙◌}
use ask_sql.Json.{Num, Json}
use ask_sql.Strip.Scan.{strip_comments_and_strings}
use ask_sql.Strip.Trim.{has_multiple_statements, trim_trailing_noise}
use ask_sql.Sql.Policy.{GuardPolicy}
use ask_sql.Sql.Rewrite.{trim}
use ask_sql.Sql.Guard.{DialectInfo, without_semicolon}
use ask_sql.Sql.Guard.Verdict.{verdict_on}
use ask_sql.Sql.Guard.Sound.{IsRead, verdict_on-IsRead}
use ask_sql.Ask.{Setting, Calls, AskResult, answered}
use ask_sql.Ask.Loop.{ask_loop}
use ask_sql.Ask.Sound.{ask_loop-IsGood}

module _ (number_text : Num → Text) (parse : Text → Text → Option (Json × List Text))
    (policy : GuardPolicy) (dialect : DialectInfo) where
  -- A statement that comes from a text which is one statement and only reads.
  abbrev pub IsFromRead : Text → Type 0
  IsFromRead sql =
      (t : Text) × (sql ≡ (verdict_on number_text parse policy dialect t).sql)
      × (has_multiple_statements (strip_comments_and_strings (trim t) (some dialect.engine))
          ≡ false)
      × IsRead number_text parse policy dialect
          (without_semicolon (trim (strip_comments_and_strings (trim t) (some dialect.engine))))
          (trim_trailing_noise (trim t) (some dialect.engine))

-- With the SQL guard in the place of `guardSql`, the statement of every answer is what the guard made
-- of a text that is one statement and only reads: a pragma of SQLite, a SHOW or DESCRIBE of MySQL, or
-- a SELECT whose tree is read-only at any depth. The model, its prompts and the repairs are arbitrary.
pub ask_loop-IsFromRead :
    (number_text : Num → Text) (parse : Text → Text → Option (Json × List Text))
    (policy : GuardPolicy) (setting : Setting) (calls : Calls)
    → ((t : Text) → calls.guard_sql t ≡ verdict_on number_text parse policy setting.dialect t)
    → (schema_text user_prompt : Text) {r : AskResult}
    → ask_loop setting calls schema_text user_prompt ≡ some (answered r)
    → IsFromRead number_text parse policy setting.dialect r.sql
ask_loop-IsFromRead number_text parse policy setting calls same schema_text user_prompt h =
    let good = ask_loop-IsGood setting calls schema_text user_prompt h in
    let (v, (t, from, allowed), sql, _) = good.guarded in
    let is : v ≡ verdict_on number_text parse policy setting.dialect t = from ∙ same t in
    let (single, read) =
      verdict_on-IsRead number_text parse policy setting.dialect t (rw is at allowed) in
    (t, rw is at sql, single, read)
