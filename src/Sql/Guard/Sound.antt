-- ===== src/Sql/Guard/Sound.antt =====
-- What `guardSql` allows: read-only commands, and statements whose tree is read-only at any depth.
use ask_sql.Prelude.{
  suc, Bool, true, false, ◌&&◌, ◌||◌, Option, none, some, List, Text, codes, text_eq, text_eq_iff,
  if◌then◌else◌, <|>_none, &&_true, ||_false, Bool-cases, Option-cases, length, ltb, ◌≡◌, ◌⊎◌, refl,
  inl, inr, arith,
}
use ask_sql.Json.{Num, Json, obj, Fields}
use ask_sql.Strip.Scan.{strip_comments_and_strings}
use ask_sql.Strip.Trim.{has_multiple_statements, trim_trailing_noise}
use ask_sql.Regex.{Regex, test, is_nil}
use ask_sql.Regex.Sound.{Finds, test_iff}
use ask_sql.Sql.Policy.{GuardPolicy, PartialGuardPolicy, resolve_guard_policy, context_of}
use ask_sql.Sql.Patterns.{
  pragma_start, show_start, show_tail_executes, mysql_show_allow, describe_command, for_update,
  lock_in_share_mode, into_file,
}
use ask_sql.Sql.Executable.{has_mysql_executable_comment}
use ask_sql.Sql.Walk.{walk}
use ask_sql.Sql.Walk.Sound.{IsReadOnlyTree, walk_iff}
use ask_sql.Sql.Rewrite.{trim}
use ask_sql.Sql.Guard.{
  DialectInfo, GuardVerdict, GuardRule, blocked, locking_clause, into_outfile, is_sqlite,
  is_mysql_engine, reads_pragma, pragma_verdict, show_verdict, without_semicolon,
}
use ask_sql.Sql.Guard.Statement.{
  Prepared, explain_parts, when_, inner_of, lexical_violation, statements_of, only_statement,
  type_text, prepare,
}
use ask_sql.Sql.Guard.Verdict.{
  parsed_text, tree_verdict, statement_verdict, body_verdict, verdict_on, guard_sql,
}

-- A verdict that refuses under a condition and allows comes from its other branch.
allowed_else :
    (original : Text) (rule : GuardRule) (b : Bool) (v : GuardVerdict)
    → (if b then blocked original rule else v).allowed ≡ true
    → (b ≡ false) × (v.allowed ≡ true)
allowed_else original rule true v h = cc
allowed_else original rule false v h = (refl, h)

allowed_then :
    (original : Text) (rule : GuardRule) (b : Bool) (v : GuardVerdict)
    → (if b then v else blocked original rule).allowed ≡ true
    → (b ≡ true) × (v.allowed ≡ true)
allowed_then original rule true v h = (refl, h)
allowed_then original rule false v h = cc

-- No locking clause and no INTO OUTFILE stands in the text outside literals and comments.
pub record HasNoClause (s : Text) : Type 0 where
  pub no_for_update : Finds for_update none s → ⊥
  pub no_lock : Finds lock_in_share_mode none s → ⊥
  pub no_file : Finds into_file none s → ⊥

-- A SHOW or DESCRIBE command without a subquery and without a call.
pub record IsShow (stripped body : Text) : Type 0 where
  pub no_call : Finds show_tail_executes none stripped → ⊥
  pub known : Finds mysql_show_allow none stripped ⊎ Finds describe_command none body

when_none : (b : Bool) (rule : GuardRule) → when_ b rule ≡ none → b ≡ false
when_none true rule h = cc
when_none false rule h = refl

not_found : (r : Regex) (s : Text) → test r s ≡ false → Finds r none s → ⊥
not_found r s h f = let t = (test_iff r s).1 f in cc

lexical_violation-HasNoClause :
    (dialect : DialectInfo) (s : Text) → lexical_violation dialect s ≡ none → HasNoClause s
unfolding lexical_violation
lexical_violation-HasNoClause dialect s h =
    let (a, rest) =
      <|>_none (when_ (test for_update s || test lock_in_share_mode s) locking_clause) _ h in
    let (b, _) = <|>_none (when_ (test into_file s) into_outfile) _ rest in
    let (up, lock) = ||_false (test for_update s) _ (when_none _ locking_clause a) in
    record {
      no_for_update = not_found for_update s up;
      no_lock = not_found lock_in_share_mode s lock;
      no_file = not_found into_file s (when_none (test into_file s) into_outfile b);
    }

show_verdict-IsShow :
    (original stripped body : Text)
    → (show_verdict original stripped body).allowed ≡ true
    → IsShow stripped body
unfolding show_verdict
show_verdict-IsShow original stripped body h =
    let (call, h₁) = allowed_else original _ (test show_tail_executes stripped) _ h in
    let (known, _) =
      allowed_then original _ (test mysql_show_allow stripped || test describe_command body) _ h₁ in
    record {
      no_call = not_found show_tail_executes stripped call;
      known = elim (Bool-cases (test mysql_show_allow stripped)) [
        | inl e ↦ inl ((test_iff mysql_show_allow stripped).0 e)
        | inr e ↦ inr ((test_iff describe_command body).0 (ground arith))
      ];
    }

module _ (number_text : Num → Text) (parse : Text → Text → Option (Json × List Text)) where
  -- The body, with its FETCH clause or its EXPLAIN taken off, is one SELECT for the parser, and every
  -- node of its tree is read-only.
  pub record IsReadStatement (policy : GuardPolicy) (dialect : DialectInfo) (body : Text)
      : Type 0 where
    pub prepared : Prepared
    pub prepares : prepare number_text dialect body ≡ some prepared
    pub no_clause : HasNoClause (
        strip_comments_and_strings
          (inner_of prepared.inner (explain_parts body))
          (some dialect.engine))
    pub ast : Json
    pub tables : List Text
    pub parses :
        parse
          (parsed_text number_text parse dialect (inner_of prepared.inner (explain_parts body)))
          dialect.grammar
        ≡ some (ast, tables)
    pub root : Fields
    pub single : only_statement (statements_of ast) ≡ some root
    pub is_select : type_text root ≡ codes "select"
    pub read_only : IsReadOnlyTree number_text (context_of policy dialect.engine) (obj root)

  tree_verdict-select :
      (policy : GuardPolicy) (dialect : DialectInfo) (original body : Text) (prepared : Prepared)
      (explained : Option (Text × Text)) (ast : Json) (tables : List Text)
      → (tree_verdict number_text policy dialect original body prepared explained ast
          tables).allowed
        ≡ true
      → (root : Fields) × (only_statement (statements_of ast) ≡ some root)
        × (type_text root ≡ codes "select")
        × IsReadOnlyTree number_text (context_of policy dialect.engine) (obj root)
  unfolding tree_verdict
  tree_verdict-select policy dialect original body prepared explained ast tables h =
      elim (Option-cases (only_statement (statements_of ast))) [
        | inl e ↦ cc (rw (e, tree_verdict) at h)
        | inr (root, e) ↦
            let ctx = context_of policy dialect.engine in
            let h₁ = rw (e, tree_verdict) at h in
            let (select, h₂) =
              allowed_then original _ (text_eq (type_text root) (codes "select")) _ h₁ in
            elim (Option-cases (walk number_text ctx (suc policy.max_depth) (obj root))) [
              | inl w ↦ (
                root,
                e,
                (text_eq_iff _ _).0 select,
                ((walk_iff number_text ctx (suc policy.max_depth) (obj root)).0 w).1,
              )
              | inr (rule, w) ↦ cc (rw w at h₂)
            ]
      ]

  statement_verdict-IsReadStatement :
      (policy : GuardPolicy) (dialect : DialectInfo) (original body : Text)
      → (statement_verdict number_text parse policy dialect original body).allowed ≡ true
      → IsReadStatement policy dialect body
  unfolding statement_verdict
  statement_verdict-IsReadStatement policy dialect original body h =
      elim (Option-cases (prepare number_text dialect body)) [
        | inl e ↦ cc (rw (e, statement_verdict) at h)
        | inr (prepared, e) ↦
            let h₁ = rw (e, statement_verdict) at h in
            let inner = inner_of prepared.inner (explain_parts body) in
            let s = strip_comments_and_strings inner (some dialect.engine) in
            elim (Option-cases (lexical_violation dialect s)) [
              | inr (rule, l) ↦ cc (rw l at h₁)
              | inl l ↦
                  let h₂ = rw l at h₁ in
                  elim (Option-cases
                    (parse (parsed_text number_text parse dialect inner) dialect.grammar)) [
                      | inl q ↦ cc (rw q at h₂)
                      | inr ((ast, tables), q) ↦
                          let (root, single, select, read_only) =
                            tree_verdict-select policy dialect original body prepared
                              (explain_parts body) ast tables (rw q at h₂) in
                          record {
                            prepared = prepared;
                            prepares = e;
                            no_clause = lexical_violation-HasNoClause dialect s l;
                            ast = ast;
                            tables = tables;
                            parses = q;
                            root = root;
                            single = single;
                            is_select = select;
                            read_only = read_only;
                          }
                    ]
            ]
      ]

  -- What is allowed: a pragma of SQLite that only reads, a SHOW or DESCRIBE of MySQL, or a statement.
  pub data IsRead (policy : GuardPolicy) (dialect : DialectInfo) (stripped body : Text)
      : Type 0 where
    pragma :
        is_sqlite dialect.engine ≡ true
        → reads_pragma body ≡ true
        → IsRead policy dialect stripped body
    show :
        is_mysql_engine dialect.engine ≡ true
        → IsShow stripped body
        → IsRead policy dialect stripped body
    statement : IsReadStatement policy dialect body → IsRead policy dialect stripped body

  body_verdict-IsRead :
      (policy : GuardPolicy) (dialect : DialectInfo) (original stripped body : Text)
      → (body_verdict number_text parse policy dialect original stripped body).allowed ≡ true
      → IsRead policy dialect stripped body
  unfolding body_verdict pragma_verdict
  body_verdict-IsRead policy dialect original stripped body h =
      elim (Bool-cases (is_sqlite dialect.engine && test pragma_start stripped)) [
        | inl e ↦
            let h₁ : (pragma_verdict original body).allowed ≡ true = rw (e, body_verdict) at h in
            pragma (&&_true _ _ e).0 (allowed_then original _ (reads_pragma body) _ h₁).0
        | inr e ↦ elim (Bool-cases (is_mysql_engine dialect.engine && test show_start stripped)) [
          | inl f ↦
              show (&&_true _ _ f).0
                (show_verdict-IsShow original stripped body (rw (e, f, body_verdict) at h))
          | inr f ↦ statement (
              statement_verdict-IsReadStatement policy dialect original body
                (rw (e, f, body_verdict) at h))
        ]
      ]

  pub verdict_on-IsRead :
      (policy : GuardPolicy) (dialect : DialectInfo) (original : Text)
      → (verdict_on number_text parse policy dialect original).allowed ≡ true
      → (has_multiple_statements (strip_comments_and_strings (trim original) (some dialect.engine))
          ≡ false)
        × IsRead policy dialect
            (without_semicolon
              (trim (strip_comments_and_strings (trim original) (some dialect.engine))))
            (trim_trailing_noise (trim original) (some dialect.engine))
  unfolding verdict_on
  verdict_on-IsRead policy dialect original h =
      let t = trim original in
      let stripped = strip_comments_and_strings t (some dialect.engine) in
      let (_, h₁) = allowed_else original _ (is_nil t) _ h in
      let (_, h₂) = allowed_else original _ (ltb policy.max_sql_length (length t)) _ h₁ in
      let (_, h₃) =
        allowed_else original _ (is_mysql_engine dialect.engine && has_mysql_executable_comment t) _
          h₂ in
      let (single, h₄) = allowed_else original _ (has_multiple_statements stripped) _ h₃ in
      (single, body_verdict-IsRead policy dialect original _ _ h₄)

  -- If `guardSql` allows a text, then the policy was resolved, no separator stands inside the text
  -- outside literals and comments, and the text without its trailing noise is a pragma of SQLite that
  -- only reads, or a SHOW or DESCRIBE of MySQL without subquery and call, or a single SELECT for the
  -- parser, EXPLAIN and FETCH clause taken off, without a locking clause and an INTO OUTFILE and with
  -- a tree in which every node, at any depth, is read-only under the policy.
  pub guard_sql-IsRead :
      (sql : Text) (dialect : DialectInfo) (partial : PartialGuardPolicy) {verdict : GuardVerdict}
      → guard_sql number_text parse sql dialect partial ≡ some verdict
      → verdict.allowed ≡ true
      → (policy : GuardPolicy) × (resolve_guard_policy partial ≡ some policy)
        × (has_multiple_statements (strip_comments_and_strings (trim sql) (some dialect.engine))
            ≡ false)
        × IsRead policy dialect
            (without_semicolon (trim (strip_comments_and_strings (trim sql) (some dialect.engine))))
            (trim_trailing_noise (trim sql) (some dialect.engine))
  unfolding guard_sql
  guard_sql-IsRead sql dialect partial {verdict} h allowed =
      elim (Option-cases (resolve_guard_policy partial)) [
        | inl e ↦ cc (rw (e, guard_sql) at h)
        | inr (policy, e) ↦
            let same : verdict_on number_text parse policy dialect sql ≡ verdict =
              cc (rw (e, guard_sql) at h) in
            let (single, read) = verdict_on-IsRead policy dialect sql (rw same allowed) in
            (policy, e, single, read)
      ]
