-- ===== src/Ask/Loop.antt =====
-- packages/core/src/engine.ts: the loop of `askImpl`, from the call of the model to the verdict, and
-- its rounds. A row of the history stands beside the error with which it is written.
use ask_sql.Prelude.{
  ℕ, zero, suc, ◌+◌, Bool, true, false, not, ◌&&◌, Option, none, some, [], ◌∷◌, ◌++◌, Text, codes,
  take, map, if◌then◌else◌, ◌==◌,
}
use ask_sql.Errors.{
  Thrown, ask_error, llm_context_overflow, llm_bad_output, llm_refusal, llm_unavailable,
  guard_blocked, or_else,
}
use ask_sql.Regex.{test, is_nil}
use ask_sql.Sql.Guard.{GuardVerdict}
use ask_sql.Sql.Rewrite.{trim}
use ask_sql.IdentifierCase.{without_literals_and_comments, has_unterminated_literal}
use ask_sql.IdentifierCase.Names.{non_empty}
use ask_sql.Floors.{TableInfo, first_unknown_table}
use ask_sql.Ask.{
  Setting, Calls, State, Extraction, ModelReply, replied, refused, Outcome, threw, Round, again,
  ended,
}
use ask_sql.Ask.Texts
use ask_sql.Ask.Texts.{raised}
use ask_sql.Ask.Checks.{chosen_verdict, within_group, is_literal_answer}
use ask_sql.Ask.Turn.{repair_prompt, retry, can_repair, attempts, fail, ambiguous_floor}

abbrev pub shown_name : TableInfo → Text
shown_name t = elim t.schema [
  | some (c ∷ s) ↦ c ∷ s ++ b'.' ∷ t.name
  | some [] ↦ t.name
  | none ↦ t.name
]

abbrev pub is_overflow : Thrown → Bool
is_overflow (ask_error e) = elim e.code [ llm_context_overflow ↦ true | _ ↦ false ]
is_overflow _ = false

module _ (setting : Setting) (calls : Calls) where
  -- The hallucination floor for tables, behind the test for a hardcoded answer.
  unfoldable pub table_floor : State → Extraction → GuardVerdict → Round
  table_floor s extraction verdict =
      if is_literal_answer verdict
      then fail setting calls llm_bad_output
          (codes "That question doesn't seem to match any table in this database.")
          (codes "literal-only SELECT with no table reference")
      else elim (first_unknown_table calls.table_list verdict.sql setting.catalog
          setting.dialect.grammar verdict.tables) [
            | none ↦ ambiguous_floor setting calls s extraction verdict
            | some table ↦
                if can_repair setting calls s
                then retry setting calls s verdict.sql
                    (Texts.unknown_table_failure table (non_empty (calls.closest_table_name table)))
                    true
                else fail setting calls llm_bad_output
                    (Texts.unknown_table_message table (non_empty (calls.closest_table_name table))
                      (map shown_name setting.catalog.tables))
                    (codes "unknown table " ++ table ++ codes " after " ++ attempts setting calls s)
          ]

  abbrev pub hints_for : Text → Text
  hints_for sql =
      (if has_unterminated_literal sql (setting.dialect.quote_char == b'`')
        then Texts.quote_hint
        else [])
      ++ (if test within_group (without_literals_and_comments sql)
          then Texts.ordered_set_hint
          else [])

  -- A statement that the guard blocks.
  unfoldable pub rejected : State → Extraction → GuardVerdict → Round
  rejected s extraction verdict =
      if can_repair setting calls s
      then retry setting calls s extraction.sql
          (Texts.rejected_failure
            (or_else (calls.reason_of verdict)
              (or_else (calls.rule_text verdict) (codes "not allowed")))
            (hints_for extraction.sql))
          false
      else ended (
          threw
            (raised guard_blocked
              (some (
                codes "Blocked for safety: "
                ++ or_else (calls.reason_of verdict)
                    (codes "the generated statement is not allowed.")))
              (codes "ruleId="
                ++ or_else (calls.rule_text verdict) (codes "unknown")
                ++ codes " after "
                ++ attempts setting calls s))
            (some (record {
              question = setting.question;
              sql = extraction.sql;
              error_code = verdict.rule_id;
            })))

  unfoldable pub judged : State → Extraction → Round
  judged s extraction =
      let verdict = chosen_verdict setting calls extraction.sql in
      let seen : State = record s { last_sql = extraction.sql } in
      if verdict.allowed
      then table_floor seen extraction verdict
      else rejected seen extraction verdict

  -- A reply without a statement, and without a reason why there is none.
  unfoldable pub no_statement : State → Text → Round
  no_statement s text =
      if can_repair setting calls s
      then retry setting calls s s.last_sql Texts.no_statement_failure false
      else if s.every_reply_empty
      then ended (
          threw
            (raised llm_unavailable
              (some (
                codes
                  "The AI model returned an empty response. Check the model name is right and that your account can use it."))
              (codes "model returned nothing on all " ++ attempts setting calls s))
            none)
      else ended (
          threw
            (raised (if calls.is_model_refusal text then llm_refusal else llm_bad_output) none (
              codes "no SQL extracted after "
              ++ attempts setting calls s
              ++ codes "; raw preview: "
              ++ take 200 text))
            none)

  -- A reply that calls the question impossible: two rephrasings that cost no attempt.
  unfoldable pub impossible_reply : State → Text → Round
  impossible_reply s reason =
      let near = non_empty (calls.closest_table_name setting.question) in
      let give_up : Round =
        fail setting calls llm_bad_output
          (codes "I wasn't able to build a query for that one: " ++ reason)
          (codes "model returned IMPOSSIBLE sentinel") in
      if calls.is_metadata_question setting.question && not s.tried_metadata_repair
      then again (record s {
        tried_metadata_repair = true;
        user_prompt =
            repair_prompt setting calls s s.last_sql
              (Texts.metadata_failure calls.catalog_query_hint) false;
      })
      else elim near [
        | none ↦ give_up
        | some name ↦
            if not s.tried_fuzzy_repair
            then again (record s {
              tried_fuzzy_repair = true;
              user_prompt =
                  repair_prompt setting calls s s.last_sql (Texts.near_failure name) false;
            })
            else give_up
      ]

  unfoldable pub after_reply : State → Text → Round
  after_reply s text = elim (calls.extract_sql text) [
    | some extraction ↦ judged s extraction
    | none ↦ elim (non_empty (calls.extract_impossible text)) [
      | some reason ↦ impossible_reply s reason
      | none ↦ no_statement s text
    ]
  ]

  abbrev pub heard : State → Text → ℕ → ℕ → State
  heard s text input output = record s {
    calls_made = suc s.calls_made;
    input_tokens = s.input_tokens + input;
    output_tokens = s.output_tokens + output;
    every_reply_empty = s.every_reply_empty && is_nil (trim text);
  }

  -- A prompt that is too long is shortened once; any other error ends the question.
  unfoldable pub on_reply : State → ModelReply → Round
  on_reply s (refused err) =
      if is_overflow err && not s.context_shrunk
      then again (record s {
        calls_made = suc s.calls_made;
        context_shrunk = true;
        schema_text = calls.tighter_schema;
        user_prompt = calls.tighter_prompt;
      })
      else ended (threw err none)
  on_reply s (replied text input output) = after_reply (heard s text input output) text

  unfoldable pub turn : State → Round
  unfolding on_reply
  turn s = on_reply s (calls.call_model s.calls_made s.user_prompt)

  -- The loop, on fuel; none where the fuel runs out.
  unfoldable pub run : ℕ → State → Option Outcome
  run zero s = none
  run (suc fuel) s = elim (turn s) [ again s' ↦ run fuel s' | ended outcome ↦ some outcome ]

-- The variables before the first round.
abbrev pub initial : Text → Text → State
initial schema_text user_prompt = record {
  attempt = 0;
  calls_made = 0;
  user_prompt = user_prompt;
  schema_text = schema_text;
  last_sql = [];
  every_reply_empty = true;
  semantic_notes = [];
  context_shrunk = false;
  tried_metadata_repair = false;
  tried_fuzzy_repair = false;
  input_tokens = 0;
  output_tokens = 0;
}

-- A round for each attempt and for each of the three retries that cost none.
abbrev pub max_rounds : ℕ
max_rounds = 6

unfoldable pub ask_loop : Setting → Calls → Text → Text → Option Outcome
unfolding run
ask_loop setting calls schema_text user_prompt =
    run setting calls max_rounds (initial schema_text user_prompt)
