-- ===== src/Sql/Guard/Closed.antt =====
-- `guardSql` fails closed: every verdict is a refusal that names its rule, or names no rule.
use ask_sql.Prelude.{
  ℕ, suc, Bool, true, false, ◌&&◌, ◌||◌, Option, none, some, List, [], ◌∷◌, Text, codes, text_eq,
  length, ltb, if◌then◌else◌, Option-cases, ◌≡◌, refl, ◌⊎◌, inl, inr,
}
use ask_sql.Json.{Num, Json, obj, Fields}
use ask_sql.Strip.Scan.{strip_comments_and_strings}
use ask_sql.Strip.Trim.{has_multiple_statements, trim_trailing_noise}
use ask_sql.Regex.{test, is_nil}
use ask_sql.Sql.Policy.{GuardPolicy, PartialGuardPolicy, resolve_guard_policy, context_of}
use ask_sql.Sql.Executable.{has_mysql_executable_comment}
use ask_sql.Sql.Walk.{walk}
use ask_sql.Sql.Limit.{
  LimitStatus, unlimited, within, nonliteral, high, unbounded, lower_limit_in_text,
}
use ask_sql.Sql.Rewrite.{trim}
use ask_sql.Sql.Patterns.{
  pragma_start, show_start, show_tail_executes, mysql_show_allow, describe_command,
}
use ask_sql.Sql.Guard.{
  DialectInfo, GuardVerdict, GuardRule, blocked, is_sqlite, is_mysql_engine, is_fetch, reads_pragma,
  pragma_verdict, show_verdict, without_semicolon,
}
use ask_sql.Sql.Guard.Statement.{
  Prepared, explain_parts, inner_of, lexical_violation, statements_of, only_statement, type_text,
  prepare,
}
use ask_sql.Sql.Guard.Verdict.{
  replace_all, parsed_text, capped, cap_verdict, tree_verdict, statement_verdict, body_verdict,
  verdict_on, guard_sql,
}

abbrev pub IsClosed : Text → GuardVerdict → Type 0
IsClosed original v =
    ((rule : GuardRule) × (v ≡ blocked original rule)) ⊎ ((v.allowed ≡ true) × (v.rule_id ≡ none))

refuses : (original : Text) (rule : GuardRule) → IsClosed original (blocked original rule)
refuses original rule = inl (rule, refl)

IsClosed-if :
    {original : Text} (b : Bool) {v w : GuardVerdict}
    → IsClosed original v
    → IsClosed original w
    → IsClosed original (if b then v else w)
IsClosed-if true p q = p
IsClosed-if false p q = q

IsClosed-else :
    {original : Text} (rule : GuardRule) (b : Bool) {w : GuardVerdict}
    → IsClosed original w
    → IsClosed original (if b then blocked original rule else w)
IsClosed-else rule b q = IsClosed-if b (refuses _ _) q

module _ (number_text : Num → Text) where
  capped-IsClosed :
      (dialect : DialectInfo) (original : Text) (max_rows : ℕ) (body : Text) (tables : List Text)
      (status : LimitStatus)
      → IsClosed original (capped number_text dialect original max_rows body tables status)
  unfolding capped
  capped-IsClosed dialect original n body tables unlimited =
      IsClosed-if (is_fetch dialect.limit_style) (inr (refl, refl)) (inr (refl, refl))
  capped-IsClosed dialect original n body tables within = inr (refl, refl)
  capped-IsClosed dialect original n body tables nonliteral = refuses _ _
  capped-IsClosed dialect original n body tables (unbounded at) =
      IsClosed-else _ (text_eq (replace_all number_text n body at) body) (inr (refl, refl))
  capped-IsClosed dialect original n body tables high =
      elim (Option-cases (lower_limit_in_text number_text body n dialect.engine)) [
        | inl e ↦ rw (e, capped) (inr (refl, refl))
        | inr ([], e) ↦ rw (e, capped) (inr (refl, refl))
        | inr (c ∷ s, e) ↦ rw (e, capped) (inr (refl, refl))
      ]

  cap_verdict-IsClosed :
      (dialect : DialectInfo) (original : Text) (max_rows : ℕ) (body : Text) (prepared : Prepared)
      (explained : Option (Text × Text)) (root : Fields) (tables : List Text)
      → IsClosed original
          (cap_verdict number_text dialect original max_rows body prepared explained root tables)
  unfolding cap_verdict
  cap_verdict-IsClosed dialect original n body prepared (some x) root tables = inr (refl, refl)
  cap_verdict-IsClosed dialect original n body prepared none root tables =
      elim (Option-cases prepared.tail) [
        | inr (tail, e) ↦ rw (e, cap_verdict) (inr (refl, refl))
        | inl e ↦ rw (e, cap_verdict) (capped-IsClosed dialect original n body tables _)
      ]

  tree_verdict-IsClosed :
      (policy : GuardPolicy) (dialect : DialectInfo) (original body : Text) (prepared : Prepared)
      (explained : Option (Text × Text)) (ast : Json) (tables : List Text)
      → IsClosed original
          (tree_verdict number_text policy dialect original body prepared explained ast tables)
  unfolding tree_verdict
  tree_verdict-IsClosed policy dialect original body prepared explained ast tables =
      elim (Option-cases (only_statement (statements_of ast))) [
        | inl e ↦ rw (e, tree_verdict) (refuses _ _)
        | inr (root, e) ↦
            rw (e, tree_verdict)
              (IsClosed-if (text_eq (type_text root) (codes "select"))
                (elim (Option-cases (
                  walk number_text (context_of policy dialect.engine) (suc policy.max_depth)
                    (obj root))) [
                      | inl w ↦ rw w (
                          cap_verdict-IsClosed dialect original policy.max_rows body prepared
                            explained root tables)
                      | inr (rule, w) ↦ rw w (refuses _ _)
                    ])
                (refuses _ _))
      ]

  module _ (parse : Text → Text → Option (Json × List Text)) where
    statement_verdict-IsClosed :
        (policy : GuardPolicy) (dialect : DialectInfo) (original body : Text)
        → IsClosed original (statement_verdict number_text parse policy dialect original body)
    unfolding statement_verdict
    statement_verdict-IsClosed policy dialect original body =
        elim (Option-cases (prepare number_text dialect body)) [
          | inl e ↦ rw (e, statement_verdict) (refuses _ _)
          | inr (prepared, e) ↦
              let inner = inner_of prepared.inner (explain_parts body) in
              let s = strip_comments_and_strings inner (some dialect.engine) in
              elim (Option-cases (lexical_violation dialect s)) [
                | inr (rule, l) ↦ rw (e, l, statement_verdict) (refuses _ _)
                | inl l ↦
                    elim (Option-cases
                      (parse (parsed_text number_text parse dialect inner) dialect.grammar)) [
                        | inl q ↦ rw (e, l, q, statement_verdict) (refuses _ _)
                        | inr ((ast, tables), q) ↦
                            rw (e, l, q, statement_verdict)
                              (tree_verdict-IsClosed policy dialect original body prepared
                                (explain_parts body) ast tables)
                      ]
              ]
        ]

    verdict_on-IsClosed :
        (policy : GuardPolicy) (dialect : DialectInfo) (original : Text)
        → IsClosed original (verdict_on number_text parse policy dialect original)
    unfolding verdict_on body_verdict pragma_verdict show_verdict
    verdict_on-IsClosed policy dialect original =
        let t = trim original in
        let stripped = strip_comments_and_strings t (some dialect.engine) in
        let body = trim_trailing_noise t (some dialect.engine) in
        let s = without_semicolon (trim stripped) in
        IsClosed-else _ (is_nil t) (
          IsClosed-else _ (ltb policy.max_sql_length (length t)) (
            IsClosed-else _ (is_mysql_engine dialect.engine && has_mysql_executable_comment t) (
              IsClosed-else _ (has_multiple_statements stripped) (
                IsClosed-if (is_sqlite dialect.engine && test pragma_start s)
                  (IsClosed-if (reads_pragma body) (inr (refl, refl)) (refuses _ _))
                  (IsClosed-if (is_mysql_engine dialect.engine && test show_start s)
                    (IsClosed-else _ (test show_tail_executes s) (
                      IsClosed-if (test mysql_show_allow s || test describe_command body)
                        (inr (refl, refl)) (refuses _ _)))
                    (statement_verdict-IsClosed policy dialect original body))))))

    -- Fail closed: a verdict is either a refusal that returns the text as it came in, names its rule
    -- and carries no warning, no flag and no table list, or it is allowed and names no rule.
    pub guard_sql-IsClosed :
        (sql : Text) (dialect : DialectInfo) (partial : PartialGuardPolicy) {verdict : GuardVerdict}
        → guard_sql number_text parse sql dialect partial ≡ some verdict
        → IsClosed sql verdict
    unfolding guard_sql
    guard_sql-IsClosed sql dialect partial {verdict} h =
        elim (Option-cases (resolve_guard_policy partial)) [
          | inl e ↦ cc (rw (e, guard_sql) at h)
          | inr (policy, e) ↦
              let same : verdict_on number_text parse policy dialect sql ≡ verdict =
                cc (rw (e, guard_sql) at h) in
              rw (← same) (verdict_on-IsClosed policy dialect sql)
        ]
