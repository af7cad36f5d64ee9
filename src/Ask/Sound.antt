-- ===== src/Ask/Sound.antt =====
-- The loop of `askImpl` and the statement of its answer.
use ask_sql.Prelude.{
  ℕ, zero, suc, not, ◌&&◌, Option, none, some, Text, ◌<|>◌, Bool-cases, Option-cases, ◌≡◌, refl,
  inl, inr, arith,
}
use mathlib.Core.Path
use ask_sql.Errors.{or_else}
use ask_sql.Sql.Guard.{GuardVerdict}
use ask_sql.IdentifierCase.Names.{non_empty, quote_catalog_identifiers, quote_reserved_aliases}
use ask_sql.Floors.{first_unknown_table}
use ask_sql.Floors.Known.{first_unknown_table-IsKnownEntry}
use ask_sql.Ask.{
  Setting, Calls, State, Extraction, ModelReply, replied, refused, AskResult, Outcome, answered,
  threw, ended,
}
use ask_sql.Ask.Checks.{allowed_verdict, names_only, chosen_verdict, is_literal_answer}
use ask_sql.Ask.Turn.{can_repair}
use ask_sql.Ask.Loop.{
  is_overflow, table_floor, rejected, judged, no_statement, impossible_reply, after_reply, heard,
  on_reply, turn, run, initial, max_rounds, ask_loop,
}
use ask_sql.Ask.Descent.{IsInRange, Round-cases}
use ask_sql.Ask.Bounds.{turn-IsLess}
use ask_sql.Ask.Good.{OnAnswer, IsAllowed, IsGood, either_round}
use ask_sql.Ask.Good.Floors.{ambiguous_floor-IsGood}

module _ (setting : Setting) (calls : Calls) where
  table_floor-IsGood :
      (s : State) (extraction : Extraction) (v : GuardVerdict)
      → IsInRange s
      → IsAllowed setting calls v
      → OnAnswer (IsGood setting calls) (table_floor setting calls s extraction v)
  unfolding table_floor
  table_floor-IsGood s extraction v range allowed = elim (Bool-cases (is_literal_answer v)) [
    | inl l ↦ rw (l, table_floor) tt
    | inr l ↦
        elim (Option-cases (
          first_unknown_table calls.table_list v.sql setting.catalog setting.dialect.grammar
            v.tables)) [
              | inr (table, e) ↦
                  rw (l, e, table_floor)
                    (either_round setting calls (can_repair setting calls s) _ _ (λ h. tt)
                      (λ h. tt))
              | inl e ↦
                  rw (l, e, table_floor)
                    (ambiguous_floor-IsGood setting calls s extraction v (
                      range,
                      allowed,
                      (
                        l,
                        λ tables f.
                            first_unknown_table-IsKnownEntry calls.table_list v.sql setting.catalog
                              setting.dialect.grammar tables (rw f at e),
                      ),
                    ))
            ]
  ]

  allowed_verdict-IsAllowed :
      (o : Option Text) {v : GuardVerdict}
      → allowed_verdict calls.guard_sql o ≡ some v
      → (t : Text) × (v ≡ calls.guard_sql t)
  allowed_verdict-IsAllowed none h = cc
  allowed_verdict-IsAllowed (some t) {v} h = elim (Bool-cases (calls.guard_sql t).allowed) [
    | inl e ↦ (t, cc (rw e at h))
    | inr e ↦ cc (rw e at h)
  ]

  chosen_verdict-of_guard :
      (sql : Text) → (t : Text) × (chosen_verdict setting calls sql ≡ calls.guard_sql t)
  unfolding chosen_verdict
  chosen_verdict-of_guard sql =
      let quote = setting.dialect.quote_char in
      let quoted_names =
        quote_catalog_identifiers setting.any_reserved sql setting.quotable_names quote
          setting.quotable_tables in
      let with_aliases =
        quote_reserved_aliases setting.engine_reserved (or_else quoted_names sql) quote in
      let normalised = with_aliases <|> quoted_names in
      pick (allowed_verdict calls.guard_sql (non_empty normalised))
        (allowed_verdict calls.guard_sql (names_only quoted_names normalised)) sql
        (λ v h. allowed_verdict-IsAllowed (non_empty normalised) h)
        (λ v h. allowed_verdict-IsAllowed (names_only quoted_names normalised) h)
    where
      pick :
          (a b : Option GuardVerdict) (sql : Text)
          → ((v : GuardVerdict) → a ≡ some v → (t : Text) × (v ≡ calls.guard_sql t))
          → ((v : GuardVerdict) → b ≡ some v → (t : Text) × (v ≡ calls.guard_sql t))
          → (t : Text) × (or_else (a <|> b) (calls.guard_sql sql) ≡ calls.guard_sql t)
      pick (some v) b sql f g = f v refl
      pick none (some v) sql f g = g v refl
      pick none none sql f g = (sql, refl)

  judged-IsGood :
      (s : State) (extraction : Extraction)
      → IsInRange s
      → OnAnswer (IsGood setting calls) (judged setting calls s extraction)
  unfolding judged rejected
  judged-IsGood s extraction range =
      let v = chosen_verdict setting calls extraction.sql in
      let seen : State = record s { last_sql = extraction.sql } in
      let (t, from) = chosen_verdict-of_guard extraction.sql in
      either_round setting calls v.allowed (table_floor setting calls seen extraction v) _
        (λ h. table_floor-IsGood seen extraction v range (t, from, h))
        (λ h. either_round setting calls (can_repair setting calls seen) _ _ (λ e. tt) (λ e. tt))

  impossible_reply-IsGood :
      (s : State) (reason : Text)
      → OnAnswer (IsGood setting calls) (impossible_reply setting calls s reason)
  unfolding impossible_reply
  impossible_reply-IsGood s reason =
      either_round setting calls
        (calls.is_metadata_question setting.question && not s.tried_metadata_repair) _ _ (λ h. tt)
        (λ h. elim (Option-cases (non_empty (calls.closest_table_name setting.question))) [
          | inl e ↦ rw e tt
          | inr (name, e) ↦
              rw e (either_round setting calls (not s.tried_fuzzy_repair) _ _ (λ k. tt) (λ k. tt))
        ])

  no_statement-IsGood :
      (s : State) (text : Text)
      → OnAnswer (IsGood setting calls) (no_statement setting calls s text)
  unfolding no_statement
  no_statement-IsGood s text =
      either_round setting calls (can_repair setting calls s) _ _ (λ h. tt)
        (λ h. either_round setting calls s.every_reply_empty _ _ (λ k. tt) (λ k. tt))

  after_reply-IsGood :
      (s : State) (text : Text)
      → IsInRange s
      → OnAnswer (IsGood setting calls) (after_reply setting calls s text)
  unfolding after_reply
  after_reply-IsGood s text range = elim (Option-cases (calls.extract_sql text)) [
    | inr (extraction, e) ↦ rw (e, after_reply) (judged-IsGood s extraction range)
    | inl e ↦ elim (Option-cases (non_empty (calls.extract_impossible text))) [
      | inr (reason, f) ↦ rw (e, f, after_reply) (impossible_reply-IsGood s reason)
      | inl f ↦ rw (e, f, after_reply) (no_statement-IsGood s text)
    ]
  ]

  on_reply-IsGood :
      (s : State) (reply : ModelReply)
      → IsInRange s
      → OnAnswer (IsGood setting calls) (on_reply setting calls s reply)
  unfolding on_reply
  on_reply-IsGood s (refused err) range =
      either_round setting calls (is_overflow err && not s.context_shrunk) _ _ (λ h. tt) (λ h. tt)
  on_reply-IsGood s (replied text input output) range =
      after_reply-IsGood (heard setting calls s text input output) text range

  turn-IsGood : (s : State) → IsInRange s → OnAnswer (IsGood setting calls) (turn setting calls s)
  unfolding turn
  turn-IsGood s range = on_reply-IsGood s (calls.call_model s.calls_made s.user_prompt) range

  IsGood-ended :
      (o : Outcome) {r : AskResult}
      → OnAnswer (IsGood setting calls) (ended o)
      → o ≡ answered r
      → IsGood setting calls r
  IsGood-ended (threw x row) h e = cc
  IsGood-ended (answered a) h e =
      Path.subst (IsGood setting calls) (let same : _ ≡ _ = cc in same) h

  run-IsGood :
      (fuel : ℕ) (s : State) {r : AskResult}
      → IsInRange s
      → run setting calls fuel s ≡ some (answered r)
      → IsGood setting calls r
  unfolding run
  run-IsGood zero s range h = cc
  run-IsGood (suc fuel) s {r} range h = elim (Round-cases (turn setting calls s)) [
    | inr (t, e) ↦
        let (range', _, _) = rw e at (turn-IsLess setting calls s range) in
        run-IsGood fuel t range' (rw (e, run) at h)
    | inl (o, e) ↦
        let same : o ≡ answered r = cc (rw (e, run) at h) in
        IsGood-ended o (rw e at (turn-IsGood s range)) same
  ]

  -- An answer of the loop has at most two repairs behind it, and its statement is one that the guard
  -- gave out for a text that it allowed, and not what the test for hardcoded answers refuses. Every
  -- table that the guard lists is known. Every column that the parser reads of a table of the
  -- catalog is one of a table of that name, or one that SQLite has in every table; and where the
  -- statement has one scope, the catalog has all its base tables and there is one, every column read
  -- without a table is an alias, or one that SQLite has in every table, or a column of one of them.
  -- Unless both repairs are used up, no column read without a table, that is no alias, is one of two
  -- of the statement's tables, where it has one scope, no USING or NATURAL and only tables of the
  -- catalog; and the tests find no ungrouped or nested aggregate, no inflated sum and no number
  -- compared with a date. An inflated sum, such a comparison and a code that no row has are named in
  -- the warnings of the verdict.
  pub ask_loop-IsGood :
      (schema_text user_prompt : Text) {r : AskResult}
      → ask_loop setting calls schema_text user_prompt ≡ some (answered r)
      → IsGood setting calls r
  unfolding ask_loop
  ask_loop-IsGood schema_text user_prompt h =
      run-IsGood max_rounds (initial schema_text user_prompt) (omega arith) h
