-- ===== src/Ask/Good/Floors.antt =====
-- The floors behind the guard, the last one first: what an answer from each of them has passed.
use ask_sql.Prelude.{
  ◌<◌, ◌&&◌, Option, none, some, List, [], ◌∷◌, ◌++◌, Text, Member, at_head, Member-append_left,
  Member-append_right, Option-cases, ◌≡◌, refl, inl, inr, ap,
}
use ask_sql.Sql.Guard.{GuardVerdict}
use ask_sql.IdentifierCase.Names.{non_empty}
use ask_sql.Floors.Columns.{first_unknown_column}
use ask_sql.Ask.{Setting, Calls, State, Extraction, FanOut, EpochMismatch}
use ask_sql.Ask.Texts
use ask_sql.Ask.Checks.{ImpossibleCode, impossible_code}
use ask_sql.Ask.Turn.{
  can_repair, answer, noted, code_floor, column_floor, mapped, fan_out_texts, epoch_texts,
  ambiguous_in, epoch_floor, fan_out_floor, nested_floor, grouping_floor, ambiguous_floor,
}
use ask_sql.Ask.Descent.{IsInRange}
use ask_sql.Ask.Good.{
  OnAnswer, IsAllowed, IsTableSafe, IsClean, IsColumnSafe, IsUnambiguous,
  ambiguous_in-IsUnambiguous, first_unknown_column-IsColumnSafe, IsNoted, IsCodeNoted, IsGood,
  either_round, or_repair-IsGood, or_note-IsGood, mapped-none,
}

module _ (setting : Setting) (calls : Calls) where
  -- What is known of the statement when it comes to a floor.
  abbrev pub IsSafe : State → GuardVerdict → Type 0
  IsSafe s v = IsInRange s × IsAllowed setting calls v × IsTableSafe setting calls v

  answer-IsGood :
      (s : State) (extraction : Extraction) (v : GuardVerdict)
      → IsSafe s v
      → IsColumnSafe setting calls v.sql
      → IsClean setting calls s.attempt v.sql
      → IsNoted setting calls v.sql s.semantic_notes
      → IsCodeNoted setting calls v.sql s.semantic_notes
      → OnAnswer (IsGood setting calls) (answer setting calls s extraction v)
  unfolding answer
  answer-IsGood s extraction v (range, allowed, tables) columns clean notes code = record {
    within = range;
    guarded = (v, allowed, refl, tables);
    columns = columns;
    clean = clean;
    caveats = (
      (λ f e. shown _ v.warnings (notes.0 f e), λ m e. shown _ v.warnings (notes.1 m e)),
      λ c e. shown _ v.warnings (code c e),
    );
    allowed = allowed.2;
  }
    where
      shown :
          {note : Text} {notes : List Text} (others warnings : List Text)
          → Member note notes
          → Member note (warnings ++ (notes ++ others))
      shown others warnings m = Member-append_right warnings (Member-append_left others m)

  code_floor-IsGood :
      (s : State) (extraction : Extraction) (v : GuardVerdict)
      → IsSafe s v
      → IsColumnSafe setting calls v.sql
      → IsClean setting calls s.attempt v.sql
      → IsNoted setting calls v.sql s.semantic_notes
      → OnAnswer (IsGood setting calls) (code_floor setting calls s extraction v)
  unfolding code_floor
  code_floor-IsGood s extraction v safe columns clean notes =
      elim (Option-cases (impossible_code calls v.sql)) [
        | inl e ↦
            rw (e, code_floor) (answer-IsGood s extraction v safe columns clean notes (λ c f. cc))
        | inr (code, e) ↦
            let note = Texts.code_note code.column (calls.number_text code.literal) in
            rw (e, code_floor)
              (either_round setting calls
                (can_repair setting calls s && setting.allow_data_in_prompt) _ _ (λ h. tt)
                (λ h.
                  answer-IsGood (noted setting calls s note) extraction v safe columns clean
                    (
                      λ f g. Member-append_left (note ∷ []) (notes.0 f g),
                      λ m g. Member-append_left (note ∷ []) (notes.1 m g),
                    )
                    (λ c f.
                      let same : code ≡ c = cc in
                      Member-append_right s.semantic_notes (
                        at_head (
                          ap
                            (λ (x : ImpossibleCode).
                              Texts.code_note x.column (calls.number_text x.literal))
                            same)))))
      ]

  column_floor-IsGood :
      (s : State) (extraction : Extraction) (v : GuardVerdict)
      → IsSafe s v
      → IsClean setting calls s.attempt v.sql
      → IsNoted setting calls v.sql s.semantic_notes
      → OnAnswer (IsGood setting calls) (column_floor setting calls s extraction v)
  unfolding column_floor
  column_floor-IsGood s extraction v safe clean notes =
      elim (Option-cases (
        first_unknown_column calls.table_list calls.column_list v.sql setting.catalog
          setting.dialect.grammar)) [
            | inl e ↦
                rw (e, column_floor)
                  (code_floor-IsGood s extraction v safe
                    (first_unknown_column-IsColumnSafe setting calls v.sql e) clean notes)
            | inr (unknown, e) ↦
                rw (e, column_floor)
                  (either_round setting calls (can_repair setting calls s) _ _ (λ h. tt) (λ h. tt))
          ]

  abbrev NotedFanOut : Text → List Text → Type 0
  NotedFanOut sql notes =
      (f : FanOut) → calls.fan_out_aggregate sql ≡ some f → Member (Texts.fan_out_note f) notes

  abbrev IsCleanBefore : State → Text → Type 0
  IsCleanBefore s sql =
      (s.attempt < 2 → IsUnambiguous setting calls sql)
      × (s.attempt < 2 → non_empty (calls.ungrouped_aggregate sql) ≡ none)
      × (s.attempt < 2 → non_empty (calls.nested_aggregate sql) ≡ none)

  epoch_texts-none : (o : Option EpochMismatch) → epoch_texts setting calls o ≡ none → o ≡ none
  epoch_texts-none none h = refl
  epoch_texts-none (some e) h = cc

  epoch_texts-some :
      (o : Option EpochMismatch) {failure note : Text} (e : EpochMismatch)
      → epoch_texts setting calls o ≡ some (failure, note)
      → o ≡ some e
      → note ≡ Texts.epoch_note e
  epoch_texts-some none e h k = cc
  epoch_texts-some (some d) e h k = let same : d ≡ e = cc in let p = ap Texts.epoch_note same in cc

  fan_out_texts-none : (o : Option FanOut) → fan_out_texts setting calls o ≡ none → o ≡ none
  fan_out_texts-none none h = refl
  fan_out_texts-none (some e) h = cc

  fan_out_texts-some :
      (o : Option FanOut) {failure note : Text} (e : FanOut)
      → fan_out_texts setting calls o ≡ some (failure, note)
      → o ≡ some e
      → note ≡ Texts.fan_out_note e
  fan_out_texts-some none e h k = cc
  fan_out_texts-some (some d) e h k =
      let same : d ≡ e = cc in let p = ap Texts.fan_out_note same in cc

  epoch_floor-IsGood :
      (s : State) (extraction : Extraction) (v : GuardVerdict)
      → IsSafe s v
      → IsCleanBefore s v.sql
      → (s.attempt < 2 → calls.fan_out_aggregate v.sql ≡ none)
      → NotedFanOut v.sql s.semantic_notes
      → OnAnswer (IsGood setting calls) (epoch_floor setting calls s extraction v)
  unfolding epoch_floor
  epoch_floor-IsGood s extraction v safe (a, u, n) fan_out notes =
      let found = calls.epoch_unit_mismatch v.sql in
      or_note-IsGood setting calls (epoch_texts setting calls found) v.sql s
        (λ t. column_floor setting calls t extraction v)
        (λ e.
          let no_epoch = epoch_texts-none found e in
          column_floor-IsGood s extraction v safe (a, u, n, fan_out, λ less. no_epoch)
            (notes, λ m f. cc))
        (λ failure note e late.
          column_floor-IsGood (noted setting calls s note) extraction v safe
            (a, u, n, fan_out, λ less. absurd (late less))
            (
              λ f g. Member-append_left (note ∷ []) (notes f g),
              λ m f. Member-append_right s.semantic_notes (at_head (epoch_texts-some found m e f)),
            ))

  fan_out_floor-IsGood :
      (s : State) (extraction : Extraction) (v : GuardVerdict)
      → IsSafe s v
      → IsCleanBefore s v.sql
      → OnAnswer (IsGood setting calls) (fan_out_floor setting calls s extraction v)
  unfolding fan_out_floor
  fan_out_floor-IsGood s extraction v safe clean =
      let found = calls.fan_out_aggregate v.sql in
      or_note-IsGood setting calls (fan_out_texts setting calls found) v.sql s
        (λ t. epoch_floor setting calls t extraction v)
        (λ e.
          let no_fan_out = fan_out_texts-none found e in
          epoch_floor-IsGood s extraction v safe clean (λ less. no_fan_out) (λ f g. cc))
        (λ failure note e late.
          epoch_floor-IsGood (noted setting calls s note) extraction v safe clean
            (λ less. absurd (late less))
            (λ f g.
              Member-append_right s.semantic_notes (at_head (fan_out_texts-some found f e g))))

  pub ambiguous_floor-IsGood :
      (s : State) (extraction : Extraction) (v : GuardVerdict)
      → IsSafe s v
      → OnAnswer (IsGood setting calls) (ambiguous_floor setting calls s extraction v)
  unfolding ambiguous_floor grouping_floor nested_floor
  ambiguous_floor-IsGood s extraction v safe =
      let ungrouped = non_empty (calls.ungrouped_aggregate v.sql) in
      let nested = non_empty (calls.nested_aggregate v.sql) in
      let ambiguous = ambiguous_in setting calls v.sql in
      or_repair-IsGood setting calls (mapped setting calls Texts.ambiguous_failure ambiguous) v.sql
        s (λ t. grouping_floor setting calls t extraction v)
        λ a.
          or_repair-IsGood setting calls (mapped setting calls Texts.grouping_failure ungrouped)
            v.sql s (λ t. nested_floor setting calls t extraction v)
            λ u.
              or_repair-IsGood setting calls (mapped setting calls Texts.nested_failure nested)
                v.sql s (λ t. fan_out_floor setting calls t extraction v)
                λ n. fan_out_floor-IsGood s extraction v safe (
                  λ less.
                      ambiguous_in-IsUnambiguous setting calls v.sql
                        (mapped-none setting calls Texts.ambiguous_failure ambiguous (a less)),
                  λ less. mapped-none setting calls Texts.grouping_failure ungrouped (u less),
                  λ less. mapped-none setting calls Texts.nested_failure nested (n less),
                )
