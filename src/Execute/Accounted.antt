-- ===== src/Execute/Accounted.antt =====
-- What `executeGuarded` does to the database and leaves in the history.
use ask_sql.Prelude.{
  ◌≤◌, Bool, true, false, ◌&&◌, ◌||◌, Option, none, some, List, [], ◌∷◌, ◌++◌, Text, Member,
  at_head, further, leb, if◌then◌else◌, ◌≡◌, ◌⊎◌, refl, inl, inr, arith,
}
use mathlib.Core.Path
use ask_sql.Json.{Num, Json}
use ask_sql.Errors.{Thrown, ask_error, db_unreachable, AskSqlError, from}
use ask_sql.Sql.Policy.{GuardPolicy}
use ask_sql.Sql.Guard.{GuardVerdict}
use ask_sql.Sql.Guard.Verdict.{verdict_on}
use ask_sql.Sql.Guard.Sound.{verdict_on-IsRead}
use ask_sql.Ask.Safe.{IsFromRead}
use ask_sql.Execute.{
  ResultSet, Request, Executed, returned, threw, ExecuteOptions, ok, blocked, error, no_code, rule,
  code, HistoryRow, executes, records, Connection, Ran, prior_auto, prior_lowered, row, capped_max,
  request, with_caveats, mapped_error, after_execute, blocked_error, with_verdict, once_connected,
  execute_guarded,
}

is_truncated : (t a b f : Bool) → (a ≡ true) ⊎ (b ≡ true) → f ≡ true → (t || ((a || b) && f)) ≡ true
is_truncated true a b f h k = refl
is_truncated false true b f h k = k
is_truncated false false true f h k = k
is_truncated false false false f (inl h) k = h
is_truncated false false false f (inr h) k = h

or_left : (t b : Bool) → t ≡ true → (t || b) ≡ true
or_left true b h = refl
or_left false b h = cc

module _ (conn : Connection) (opts : ExecuteOptions) where
  -- A limit that the guard put there or lowered, and that is filled, hides rows.
  abbrev pub HidesRows : GuardVerdict → Type 0
  HidesRows verdict =
      ((verdict.auto_limited || prior_auto opts.prior) ≡ true)
      ⊎ ((verdict.lowered_limit || prior_lowered opts.prior) ≡ true)

  -- The result that comes of what the database returned: its rows, and the warnings of its limit.
  pub record IsResultOf (verdict : GuardVerdict) (given shown : ResultSet) : Type 0 where
    pub same_count : shown.row_count ≡ given.row_count
    pub kept_mark : given.truncated ≡ true → shown.truncated ≡ true
    pub marked : HidesRows verdict → capped_max conn opts ≤ given.row_count → shown.truncated ≡ true
    pub kept_warnings : (ws : List Text) × (shown.warnings ≡ given.warnings ++ ws)

  -- The row of the history and the result of the call tell what the database did.
  pub data Tells (verdict : GuardVerdict) : Executed → HistoryRow → Executed → Type 0 where
    tells_rows :
        (given shown : ResultSet)
        → IsResultOf verdict given shown
        → Tells verdict
            (returned given)
            (row conn opts verdict.sql ok no_code (some given.row_count))
            (returned shown)
    tells_error :
        (err : Thrown) (e : AskSqlError)
        → e ≡ mapped_error conn opts err
        → Tells verdict
            (threw err)
            (row conn opts verdict.sql error (code e.code) none)
            (threw (ask_error e))

  -- The three ways that a call goes.
  pub data Accounts (sql : Text) : Ran → Type 0 where
    unreachable :
        (err : Thrown)
        → conn.connect ≡ some err
        → Accounts sql ([], threw (ask_error (from err db_unreachable)))
    refused :
        conn.connect ≡ none
        → (conn.guard_sql sql).allowed ≡ false
        → Accounts sql (
          records (row conn opts sql blocked (rule (conn.guard_sql sql).rule_id) none) ∷ [],
          threw (blocked_error conn opts sql (conn.guard_sql sql)),
        )
    ran :
        (r : Request) (h : HistoryRow) (result : Executed)
        → conn.connect ≡ none
        → (conn.guard_sql sql).allowed ≡ true
        → r.sql ≡ (conn.guard_sql sql).sql
        → r.max_rows ≤ conn.policy_max_rows
        → Tells (conn.guard_sql sql) (conn.execute r) h result
        → Accounts sql (executes r ∷ records h ∷ [], result)

  caveats-truncated :
      (verdict : GuardVerdict) (result : ResultSet)
      → HidesRows verdict
      → capped_max conn opts ≤ result.row_count
      → (with_caveats conn opts verdict result).truncated ≡ true
  unfolding with_caveats
  caveats-truncated verdict result h full =
      let filled : leb (capped_max conn opts) result.row_count ≡ true = ground arith in
      is_truncated result.truncated _ _ _ h filled

  after_execute-Tells :
      (verdict : GuardVerdict) (done : Executed)
      → Tells verdict done
          (after_execute conn opts verdict done).0
          (after_execute conn opts verdict done).1
  unfolding after_execute with_caveats
  after_execute-Tells verdict (returned result) =
      tells_rows result (with_caveats conn opts verdict result) (record {
        same_count = refl;
        kept_mark = λ h. or_left result.truncated _ h;
        marked = caveats-truncated verdict result;
        kept_warnings = (_, refl);
      })
  after_execute-Tells verdict (threw err) = tells_error err (mapped_error conn opts err) refl

  with_verdict-Accounts :
      (sql : Text) (v : GuardVerdict)
      → conn.connect ≡ none
      → conn.guard_sql sql ≡ v
      → Accounts sql (with_verdict conn opts sql v)
  with_verdict-Accounts sql v up same =
      Path.subst (λ w. Accounts sql (with_verdict conn opts sql w)) same
        (by_allowed (conn.guard_sql sql).allowed refl)
    where
      verdict : GuardVerdict
      verdict = conn.guard_sql sql

      by_allowed :
          (b : Bool)
          → verdict.allowed ≡ b
          → Accounts sql (
              if b
              then (
                executes (request conn opts verdict.sql)
                    ∷ records
                        (after_execute conn opts verdict
                          (conn.execute (request conn opts verdict.sql))).0
                    ∷ [],
                (after_execute conn opts verdict (conn.execute (request conn opts verdict.sql))).1,
              )
              else (
                records (row conn opts sql blocked (rule verdict.rule_id) none) ∷ [],
                threw (blocked_error conn opts sql verdict),
              ))
      by_allowed true e =
          ran (request conn opts verdict.sql) _ _ up e refl (omega arith)
            (after_execute-Tells verdict (conn.execute (request conn opts verdict.sql)))
      by_allowed false e = refused up e

  pub execute_guarded-Accounts : (sql : Text) → Accounts sql (execute_guarded conn opts sql)
  unfolding execute_guarded
  execute_guarded-Accounts sql = by_connect conn.connect refl
    where
      by_connect :
          (o : Option Thrown) → conn.connect ≡ o → Accounts sql (once_connected conn opts o sql)
      by_connect (some err) down = unreachable err down
      by_connect none up = with_verdict-Accounts sql (conn.guard_sql sql) up refl

  request-allowed :
      (sql : Text) (o : Ran) (r : Request)
      → Accounts sql o
      → Member (executes r) o.0
      → ((conn.guard_sql sql).allowed ≡ true) × (r.sql ≡ (conn.guard_sql sql).sql)
  request-allowed sql o r (unreachable err down) m = elim m [ ]
  request-allowed sql o r (refused up blocks) (at_head same) = cc
  request-allowed sql o r (refused up blocks) (further m) = elim m [ ]
  request-allowed sql o r (ran q h result up allowed from cap t) (at_head same) =
      let is : q ≡ r = cc in (allowed, Path.subst (λ x. x.sql ≡ (conn.guard_sql sql).sql) is from)
  request-allowed sql o r (ran q h result up allowed from cap t) (further (at_head same)) = cc
  request-allowed sql o r (ran q h result up allowed from cap t) (further (further m)) = elim m [ ]

-- With the SQL guard in the place of `guardSql`, all that a call of `executeGuarded` asks the database to
-- execute is what the guard made of a text that is one statement and only reads.
pub execute_guarded-IsFromRead :
    (number_text : Num → Text) (parse : Text → Text → Option (Json × List Text))
    (policy : GuardPolicy) (conn : Connection) (opts : ExecuteOptions)
    → ((t : Text) → conn.guard_sql t ≡ verdict_on number_text parse policy conn.dialect t)
    → (sql : Text) (r : Request) → Member (executes r) (execute_guarded conn opts sql).0
    → IsFromRead number_text parse policy conn.dialect r.sql
execute_guarded-IsFromRead number_text parse policy conn opts same sql r m =
    let (allowed, from) =
      request-allowed conn opts sql _ r (execute_guarded-Accounts conn opts sql) m in
    let (single, read) =
      verdict_on-IsRead number_text parse policy conn.dialect sql (rw (same sql) at allowed) in
    (sql, rw (same sql) at from, single, read)
