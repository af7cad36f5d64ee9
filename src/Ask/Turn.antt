-- ===== src/Ask/Turn.antt =====
-- packages/core/src/engine.ts: one round of the loop of `askImpl`. The events for listeners are left
-- out; a note reaches the reader as a warning of the verdict.
use ask_sql.Prelude.{
  suc, Bool, true, false, ◌&&◌, Option, none, some, List, [], ◌∷◌, ◌++◌, Text, codes, map, ltb,
  if◌then◌else◌,
}
use ask_sql.Json.{whole}
use ask_sql.Errors.{ErrorCode, llm_bad_output}
use ask_sql.Sql.Guard.{GuardVerdict}
use ask_sql.IdentifierCase.Names.{non_empty}
use ask_sql.Floors.Columns.{ambiguous_column, first_unknown_column}
use ask_sql.Ask.{
  Setting, Calls, State, Extraction, FanOut, EpochMismatch, answered, threw, Round, again, ended,
  max_repairs,
}
use ask_sql.Ask.Texts
use ask_sql.Ask.Texts.{failing, raised}
use ask_sql.Ask.Checks.{where_it_lives, impossible_code}

module _ (setting : Setting) (calls : Calls) where
  -- The repair prompt for a failure, with the schema text of the state.
  abbrev pub repair_prompt : State → Text → Text → Bool → Text
  repair_prompt s sql failure allow_impossible = calls.build_repair_user (record {
    failed_sql = sql;
    failure = failure;
    schema_text = s.schema_text;
    allow_impossible = allow_impossible;
  })

  -- The next attempt, with a repair prompt.
  abbrev pub retry : State → Text → Text → Bool → Round
  retry s sql failure allow_impossible = again (record s {
    attempt = suc s.attempt;
    user_prompt = repair_prompt s sql failure allow_impossible;
  })

  abbrev pub can_repair : State → Bool
  can_repair s = ltb s.attempt max_repairs

  abbrev pub attempts : State → Text
  attempts s = calls.number_text (whole (suc s.attempt)) ++ codes " attempts"

  abbrev pub fail : ErrorCode → Text → Text → Round
  fail code user_message detail = ended (threw (failing code user_message detail) none)

  -- The answer, with the notes as warnings.
  abbrev pub with_notes : GuardVerdict → List Text → GuardVerdict
  with_notes verdict notes = record verdict { warnings = verdict.warnings ++ notes }

  unfoldable pub answer : State → Extraction → GuardVerdict → Round
  answer s extraction verdict =
      let dangling = calls.dangling_reference setting.question setting.has_context in
      let notes =
        s.semantic_notes
        ++ elim dangling [ none ↦ [] | some pronoun ↦ Texts.dangling_note pronoun ∷ [] ] in
      ended (
        answered (record {
          sql = verdict.sql;
          explanation = extraction.explanation;
          guard = with_notes verdict notes;
          connection_id = setting.connection_id;
          input_tokens = s.input_tokens;
          output_tokens = s.output_tokens;
          repairs = s.attempt;
        }))

  abbrev pub noted : State → Text → State
  noted s note = record s { semantic_notes = s.semantic_notes ++ (note ∷ []) }

  -- The coded-value floor.
  unfoldable pub code_floor : State → Extraction → GuardVerdict → Round
  code_floor s extraction verdict = elim (impossible_code calls verdict.sql) [
    | none ↦ answer s extraction verdict
    | some code ↦
        let literal = calls.number_text code.literal in
        if can_repair s && setting.allow_data_in_prompt
        then retry s verdict.sql
            (Texts.code_failure code.column literal (map calls.sanitize_value code.values)) true
        else answer (noted s (Texts.code_note code.column literal)) extraction verdict
  ]

  -- The column-level hallucination floor.
  unfoldable pub column_floor : State → Extraction → GuardVerdict → Round
  column_floor s extraction verdict =
      elim (first_unknown_column calls.table_list calls.column_list verdict.sql setting.catalog
        setting.dialect.grammar) [
          | none ↦ code_floor s extraction verdict
          | some unknown ↦
              if can_repair s
              then retry s verdict.sql
                  (Texts.unknown_column_failure unknown
                    (where_it_lives unknown setting.catalog calls.join_graph))
                  true
              else fail llm_bad_output (Texts.unknown_column_message unknown) (
                  codes "unknown column "
                  ++ unknown.table
                  ++ b'.' ∷ unknown.column
                  ++ codes " after "
                  ++ attempts s)
        ]

  -- A semantic floor that repairs while it can, and then lets the statement pass.
  abbrev pub or_repair : Option Text → Text → State → (State → Round) → Round
  or_repair none sql s next = next s
  or_repair (some failure) sql s next = if can_repair s then retry s sql failure false else next s

  -- The same with a note for the reader where the statement passes.
  abbrev pub or_note : Option (Text × Text) → Text → State → (State → Round) → Round
  or_note none sql s next = next s
  or_note (some (failure, note)) sql s next =
      if can_repair s then retry s sql failure false else next (noted s note)

  abbrev pub fan_out_texts : Option FanOut → Option (Text × Text)
  fan_out_texts none = none
  fan_out_texts (some f) = some (Texts.fan_out_failure f, Texts.fan_out_note f)

  abbrev pub epoch_texts : Option EpochMismatch → Option (Text × Text)
  epoch_texts none = none
  epoch_texts (some e) = some (Texts.epoch_failure e, Texts.epoch_note e)

  abbrev pub mapped : (Text → Text) → Option Text → Option Text
  mapped f none = none
  mapped f (some t) = some (f t)

  abbrev pub ambiguous_in : Text → Option Text
  ambiguous_in sql =
      ambiguous_column calls.table_list calls.column_list sql setting.catalog
        setting.dialect.grammar

  -- The semantic floors, the last one first.
  unfoldable pub epoch_floor : State → Extraction → GuardVerdict → Round
  epoch_floor s extraction verdict =
      or_note (epoch_texts (calls.epoch_unit_mismatch verdict.sql)) verdict.sql s
        (λ t. column_floor t extraction verdict)

  unfoldable pub fan_out_floor : State → Extraction → GuardVerdict → Round
  fan_out_floor s extraction verdict =
      or_note (fan_out_texts (calls.fan_out_aggregate verdict.sql)) verdict.sql s
        (λ t. epoch_floor t extraction verdict)

  unfoldable pub nested_floor : State → Extraction → GuardVerdict → Round
  nested_floor s extraction verdict =
      or_repair (mapped Texts.nested_failure (non_empty (calls.nested_aggregate verdict.sql)))
        verdict.sql s (λ t. fan_out_floor t extraction verdict)

  unfoldable pub grouping_floor : State → Extraction → GuardVerdict → Round
  grouping_floor s extraction verdict =
      or_repair (mapped Texts.grouping_failure (non_empty (calls.ungrouped_aggregate verdict.sql)))
        verdict.sql s (λ t. nested_floor t extraction verdict)

  unfoldable pub ambiguous_floor : State → Extraction → GuardVerdict → Round
  ambiguous_floor s extraction verdict =
      or_repair (mapped Texts.ambiguous_failure (ambiguous_in verdict.sql)) verdict.sql s
        (λ t. grouping_floor t extraction verdict)
