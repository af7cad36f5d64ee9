-- ===== src/Ask/Descent.antt =====
-- What is left of attempts and retries: every reply that leads to another round uses one up.
use ask_sql.Prelude.{
  ℕ, ◌+◌, ◌-◌, ◌≤◌, ◌<◌, Bool, true, false, not, ◌&&◌, Option, none, some, Text, if◌then◌else◌,
  Bool-cases, Option-cases, &&_true, ◌≡◌, ◌⊎◌, refl, inl, inr, arith,
}
use ask_sql.Sql.Guard.{GuardVerdict}
use ask_sql.IdentifierCase.Names.{non_empty}
use ask_sql.Floors.{first_unknown_table}
use ask_sql.Floors.Columns.{first_unknown_column}
use ask_sql.Ask.{Setting, Calls, State, Extraction, Outcome, Round, again, ended}
use ask_sql.Ask.Texts
use ask_sql.Ask.Checks.{chosen_verdict, is_literal_answer, impossible_code}
use ask_sql.Ask.Turn.{
  retry, can_repair, answer, code_floor, column_floor, or_repair, or_note, noted, fan_out_texts,
  epoch_texts, mapped, ambiguous_in, epoch_floor, fan_out_floor, nested_floor, grouping_floor,
  ambiguous_floor,
}
use ask_sql.Ask.Loop.{table_floor, rejected, judged, no_statement, impossible_reply, after_reply}

abbrev pub unused : Bool → ℕ
unused true = 0
unused false = 1

-- What is left of attempts and of retries that cost none.
abbrev pub room : State → ℕ
room s =
    2
    - s.attempt
    + unused s.context_shrunk
    + unused s.tried_metadata_repair
    + unused s.tried_fuzzy_repair

abbrev pub IsInRange : State → Type 0
IsInRange s = s.attempt ≤ 2

-- A round that goes on leaves less room; the model is not called in it again.
abbrev pub GoesDown : State → Round → Type 0
GoesDown s (again t) = (t.attempt ≤ 2) × (room t < room s) × (t.calls_made ≡ s.calls_made)
GoesDown s (ended outcome) = Unit

pub Round-cases : (r : Round) → ((o : Outcome) × (r ≡ ended o)) ⊎ ((t : State) × (r ≡ again t))
Round-cases (ended o) = inl (o, refl)
Round-cases (again t) = inr (t, refl)

module _ (setting : Setting) (calls : Calls) where
  retry-GoesDown :
      (s : State) (sql failure : Text) (allow : Bool)
      → can_repair setting calls s ≡ true
      → GoesDown s (retry setting calls s sql failure allow)
  retry-GoesDown s sql failure allow h =
      let less : s.attempt < 2 = ground arith in (omega arith, omega arith, refl)

  either_way :
      (s : State) (b : Bool) (x y : Round)
      → (b ≡ true → GoesDown s x)
      → GoesDown s y
      → GoesDown s (if b then x else y)
  either_way s true x y f g = f refl
  either_way s false x y f g = g

  retry_if :
      (s : State) (b : Bool) (sql failure : Text) (allow : Bool) (y : Round)
      → (b ≡ true → can_repair setting calls s ≡ true)
      → GoesDown s y
      → GoesDown s (if b then retry setting calls s sql failure allow else y)
  retry_if s b sql failure allow y h g =
      either_way s b (retry setting calls s sql failure allow) y
        (λ e. retry-GoesDown s sql failure allow (h e)) g

  code_floor-GoesDown :
      (s : State) (extraction : Extraction) (verdict : GuardVerdict)
      → GoesDown s (code_floor setting calls s extraction verdict)
  unfolding code_floor answer
  code_floor-GoesDown s extraction verdict =
      elim (Option-cases (impossible_code calls verdict.sql)) [
        | inl e ↦ rw (e, code_floor) tt
        | inr (code, e) ↦
            rw (e, code_floor)
              (retry_if s (can_repair setting calls s && setting.allow_data_in_prompt) verdict.sql _
                true _ (λ h. (&&_true _ _ h).0) tt)
      ]

  column_floor-GoesDown :
      (s : State) (extraction : Extraction) (verdict : GuardVerdict)
      → GoesDown s (column_floor setting calls s extraction verdict)
  unfolding column_floor
  column_floor-GoesDown s extraction verdict =
      elim (Option-cases (
        first_unknown_column calls.table_list calls.column_list verdict.sql setting.catalog
          setting.dialect.grammar)) [
            | inl e ↦ rw (e, column_floor) (code_floor-GoesDown s extraction verdict)
            | inr (unknown, e) ↦
                rw (e, column_floor)
                  (retry_if s (can_repair setting calls s) verdict.sql _ true _ (λ h. h) tt)
          ]

  or_repair-GoesDown :
      (failure : Option Text) (sql : Text) (s : State) (next : State → Round)
      → GoesDown s (next s)
      → GoesDown s (or_repair setting calls failure sql s next)
  or_repair-GoesDown none sql s next h = h
  or_repair-GoesDown (some failure) sql s next h =
      either_way s (can_repair setting calls s) _ _ (λ e. retry-GoesDown s sql failure false e) h

  or_note-GoesDown :
      (texts : Option (Text × Text)) (sql : Text) (s : State) (next : State → Round)
      → GoesDown s (next s)
      → ((note : Text) → GoesDown s (next (noted setting calls s note)))
      → GoesDown s (or_note setting calls texts sql s next)
  or_note-GoesDown none sql s next h k = h
  or_note-GoesDown (some (failure, note)) sql s next h k =
      either_way s (can_repair setting calls s) _ _ (λ e. retry-GoesDown s sql failure false e)
        (k note)

  GoesDown-noted :
      (s : State) (note : Text) (r : Round) → GoesDown (noted setting calls s note) r → GoesDown s r
  GoesDown-noted s note (again t) h = h
  GoesDown-noted s note (ended outcome) h = tt

  -- The chain of floors, whatever comes behind it.
  or_note-GoesDown_always :
      (texts : Option (Text × Text)) (sql : Text) (s : State) (next : State → Round)
      → ((t : State) → GoesDown t (next t))
      → GoesDown s (or_note setting calls texts sql s next)
  or_note-GoesDown_always texts sql s next h = or_note-GoesDown texts sql s next (h s) (λ note.
      GoesDown-noted s note (next (noted setting calls s note)) (h (noted setting calls s note)))

  epoch_floor-GoesDown :
      (s : State) (extraction : Extraction) (verdict : GuardVerdict)
      → GoesDown s (epoch_floor setting calls s extraction verdict)
  unfolding epoch_floor
  epoch_floor-GoesDown s extraction verdict =
      or_note-GoesDown_always (epoch_texts setting calls (calls.epoch_unit_mismatch verdict.sql))
        verdict.sql s (λ t. column_floor setting calls t extraction verdict)
        (λ t. column_floor-GoesDown t extraction verdict)

  fan_out_floor-GoesDown :
      (s : State) (extraction : Extraction) (verdict : GuardVerdict)
      → GoesDown s (fan_out_floor setting calls s extraction verdict)
  unfolding fan_out_floor
  fan_out_floor-GoesDown s extraction verdict =
      or_note-GoesDown_always (fan_out_texts setting calls (calls.fan_out_aggregate verdict.sql))
        verdict.sql s (λ t. epoch_floor setting calls t extraction verdict)
        (λ t. epoch_floor-GoesDown t extraction verdict)

  nested_floor-GoesDown :
      (s : State) (extraction : Extraction) (verdict : GuardVerdict)
      → GoesDown s (nested_floor setting calls s extraction verdict)
  unfolding nested_floor
  nested_floor-GoesDown s extraction verdict =
      or_repair-GoesDown
        (mapped setting calls Texts.nested_failure (non_empty (calls.nested_aggregate verdict.sql)))
        verdict.sql s (λ t. fan_out_floor setting calls t extraction verdict)
        (fan_out_floor-GoesDown s extraction verdict)

  grouping_floor-GoesDown :
      (s : State) (extraction : Extraction) (verdict : GuardVerdict)
      → GoesDown s (grouping_floor setting calls s extraction verdict)
  unfolding grouping_floor
  grouping_floor-GoesDown s extraction verdict =
      or_repair-GoesDown
        (mapped setting calls Texts.grouping_failure
          (non_empty (calls.ungrouped_aggregate verdict.sql)))
        verdict.sql s (λ t. nested_floor setting calls t extraction verdict)
        (nested_floor-GoesDown s extraction verdict)

  ambiguous_floor-GoesDown :
      (s : State) (extraction : Extraction) (verdict : GuardVerdict)
      → GoesDown s (ambiguous_floor setting calls s extraction verdict)
  unfolding ambiguous_floor
  ambiguous_floor-GoesDown s extraction verdict =
      or_repair-GoesDown
        (mapped setting calls Texts.ambiguous_failure (ambiguous_in setting calls verdict.sql))
        verdict.sql s (λ t. grouping_floor setting calls t extraction verdict)
        (grouping_floor-GoesDown s extraction verdict)

  table_floor-GoesDown :
      (s : State) (extraction : Extraction) (verdict : GuardVerdict)
      → GoesDown s (table_floor setting calls s extraction verdict)
  unfolding table_floor
  table_floor-GoesDown s extraction verdict = elim (Bool-cases (is_literal_answer verdict)) [
    | inl l ↦ rw (l, table_floor) tt
    | inr l ↦
        elim (Option-cases (
          first_unknown_table calls.table_list verdict.sql setting.catalog setting.dialect.grammar
            verdict.tables)) [
              | inl e ↦ rw (l, e, table_floor) (ambiguous_floor-GoesDown s extraction verdict)
              | inr (table, e) ↦
                  rw (l, e, table_floor)
                    (retry_if s (can_repair setting calls s) verdict.sql _ true _ (λ h. h) tt)
            ]
  ]

  rejected-GoesDown :
      (s : State) (extraction : Extraction) (verdict : GuardVerdict)
      → GoesDown s (rejected setting calls s extraction verdict)
  unfolding rejected
  rejected-GoesDown s extraction verdict =
      retry_if s (can_repair setting calls s) extraction.sql _ false _ (λ h. h) tt

  no_statement-GoesDown : (s : State) (text : Text) → GoesDown s (no_statement setting calls s text)
  unfolding no_statement
  no_statement-GoesDown s text =
      retry_if s (can_repair setting calls s) s.last_sql _ false _ (λ h. h)
        (either_way s s.every_reply_empty _ _ (λ h. tt) tt)

  impossible_reply-GoesDown :
      (s : State) (reason : Text)
      → IsInRange s
      → GoesDown s (impossible_reply setting calls s reason)
  unfolding impossible_reply
  impossible_reply-GoesDown s reason range =
      either_way s (calls.is_metadata_question setting.question && not s.tried_metadata_repair) _ _
        (λ h.
          let fresh : s.tried_metadata_repair ≡ false = ground arith in
          (range, rw fresh (omega arith), refl))
        (elim (Option-cases (non_empty (calls.closest_table_name setting.question))) [
          | inl e ↦ rw e tt
          | inr (name, e) ↦ rw e (
              either_way s (not s.tried_fuzzy_repair) _ _
                (λ h.
                  let fresh : s.tried_fuzzy_repair ≡ false = ground arith in
                  (range, rw fresh (omega arith), refl))
                tt)
        ])

  judged-GoesDown :
      (s : State) (extraction : Extraction) → GoesDown s (judged setting calls s extraction)
  unfolding judged
  judged-GoesDown s extraction =
      let verdict = chosen_verdict setting calls extraction.sql in
      let seen : State = record s { last_sql = extraction.sql } in
      either_way s verdict.allowed _ _
        (λ h.
          GoesDown-seen s extraction.sql (table_floor setting calls seen extraction verdict)
            (table_floor-GoesDown seen extraction verdict))
        (GoesDown-seen s extraction.sql (rejected setting calls seen extraction verdict)
          (rejected-GoesDown seen extraction verdict))
    where
      GoesDown-seen :
          (s : State) (sql : Text) (r : Round)
          → GoesDown (record s { last_sql = sql }) r
          → GoesDown s r
      GoesDown-seen s sql (again t) h = h
      GoesDown-seen s sql (ended outcome) h = tt

  pub after_reply-GoesDown :
      (s : State) (text : Text) → IsInRange s → GoesDown s (after_reply setting calls s text)
  unfolding after_reply
  after_reply-GoesDown s text range = elim (Option-cases (calls.extract_sql text)) [
    | inr (extraction, e) ↦ rw (e, after_reply) (judged-GoesDown s extraction)
    | inl e ↦ elim (Option-cases (non_empty (calls.extract_impossible text))) [
      | inr (reason, f) ↦ rw (e, f, after_reply) (impossible_reply-GoesDown s reason range)
      | inl f ↦ rw (e, f, after_reply) (no_statement-GoesDown s text)
    ]
  ]
