-- ===== src/Ask/Good.antt =====
-- What an answer of the loop has passed: the guard, the tests for tables and columns, and the semantic
-- floors or a warning in their place; and the two shapes of a semantic floor.
pub mod Floors
use ask_sql.Prelude.{
  ℕ, zero, suc, ◌≤◌, ◌<◌, Bool, true, false, not, ◌&&◌, Option, none, some, List, [], ◌∷◌, ◌++◌,
  Text, All, Member, at_head, further, Member-append_left, Member-append_right, ◌<|>◌, map, ltb,
  if◌then◌else◌, Bool-cases, Option-cases, ◌≡◌, refl, inl, inr, ap, arith,
}
use mathlib.Core.Path
use ask_sql.Errors.{or_else}
use ask_sql.Sql.Guard.{GuardVerdict}
use ask_sql.Sql.Rewrite.{without_fetch_tail}
use ask_sql.IdentifierCase.Names.{non_empty, quote_catalog_identifiers, quote_reserved_aliases}
use ask_sql.Floors.{first_unknown_table, collect_cte_names}
use ask_sql.Floors.Columns.{first_unknown_column}
use ask_sql.Floors.Known.{
  IsKnownEntry, IsKnownRef, first_unknown_table-IsKnownEntry, first_unknown_column-IsKnownRef,
}
use ask_sql.Floors.Unqualified.{IsStray, IsAmbiguous}
use ask_sql.Floors.Stray.{first_unknown_column-IsStray}
use ask_sql.Floors.Ambiguous.{ambiguous_column-IsAmbiguous}
use ask_sql.Ask.{
  Setting, Calls, State, Extraction, FanOut, EpochMismatch, ModelReply, replied, refused, AskResult,
  Outcome, answered, threw, Round, again, ended,
}
use ask_sql.Ask.Texts
use ask_sql.Ask.Checks.{
  allowed_verdict, names_only, chosen_verdict, is_literal_answer, ImpossibleCode, impossible_code,
}
use ask_sql.Ask.Turn.{
  can_repair, answer, noted, code_floor, column_floor, or_repair, or_note, mapped, fan_out_texts,
  epoch_texts, ambiguous_in, epoch_floor, fan_out_floor, nested_floor, grouping_floor,
  ambiguous_floor,
}
use ask_sql.Ask.Loop.{
  is_overflow, table_floor, rejected, judged, no_statement, impossible_reply, after_reply, heard,
  on_reply, turn, run, initial, max_rounds, ask_loop,
}
use ask_sql.Ask.Descent.{IsInRange, Round-cases}
use ask_sql.Ask.Bounds.{IsLess, turn-IsLess}

-- What holds of the answer, if the round gives one.
abbrev pub OnAnswer : (AskResult → Type 0) → Round → Type 0
OnAnswer P (again t) = Unit
OnAnswer P (ended (threw e row)) = Unit
OnAnswer P (ended (answered r)) = P r

module _ (setting : Setting) (calls : Calls) where
  -- A verdict of the guard that allows a text.
  abbrev pub IsAllowed : GuardVerdict → Type 0
  IsAllowed v = (t : Text) × (v ≡ calls.guard_sql t) × (v.allowed ≡ true)

  abbrev pub IsTableSafe : GuardVerdict → Type 0
  IsTableSafe v =
      (is_literal_answer v ≡ false)
      × ((tables : List Text)
          → v.tables ≡ some tables
          → All (IsKnownEntry setting.catalog v.sql) tables)

  -- What the parser reads of a text: its columns, and its tables.
  abbrev pub IsRead : Text → List Text → List Text → Type 0
  IsRead sql refs entries =
      (calls.column_list (without_fetch_tail sql) setting.dialect.grammar ≡ some refs)
      × (calls.table_list (without_fetch_tail sql) setting.dialect.grammar ≡ some entries)

  -- A column with a table of the catalog is known, and none without a table is a stray one.
  abbrev pub IsColumnSafe : Text → Type 0
  IsColumnSafe sql =
      ((refs : List Text)
        → calls.column_list (without_fetch_tail sql) setting.dialect.grammar ≡ some refs
        → All (IsKnownRef setting.catalog (collect_cte_names sql)) refs)
      × ((refs entries : List Text)
          → IsRead sql refs entries
          → All (λ ref. IsStray setting.catalog sql entries ref → ⊥) refs)

  -- No column that the parser reads without a table is one of two tables.
  abbrev pub IsUnambiguous : Text → Type 0
  IsUnambiguous sql =
      (refs entries : List Text) (ref : Text)
      → IsRead sql refs entries
      → Member ref refs
      → IsAmbiguous setting.catalog sql entries ref
      → ⊥

  pub ambiguous_in-IsUnambiguous :
      (sql : Text) → ambiguous_in setting calls sql ≡ none → IsUnambiguous sql
  ambiguous_in-IsUnambiguous sql h refs entries ref (e, f) m =
      ambiguous_column-IsAmbiguous calls.table_list calls.column_list sql setting.catalog
        setting.dialect.grammar refs entries h e f ref m

  pub first_unknown_column-IsColumnSafe :
      (sql : Text)
      → first_unknown_column calls.table_list calls.column_list sql setting.catalog
          setting.dialect.grammar
        ≡ none
      → IsColumnSafe sql
  first_unknown_column-IsColumnSafe sql h = (
    λ refs e.
        first_unknown_column-IsKnownRef calls.table_list calls.column_list sql setting.catalog
          setting.dialect.grammar refs h e,
    λ refs entries both.
        first_unknown_column-IsStray calls.table_list calls.column_list sql setting.catalog
          setting.dialect.grammar refs entries h both.0 both.1,
  )

  -- The floors that are passed before the second repair.
  abbrev pub IsClean : ℕ → Text → Type 0
  IsClean attempt sql =
      (attempt < 2 → IsUnambiguous sql)
      × (attempt < 2 → non_empty (calls.ungrouped_aggregate sql) ≡ none)
      × (attempt < 2 → non_empty (calls.nested_aggregate sql) ≡ none)
      × (attempt < 2 → calls.fan_out_aggregate sql ≡ none)
      × (attempt < 2 → calls.epoch_unit_mismatch sql ≡ none)

  -- A total that is too high, a number compared with a date and a code that no row has are named.
  abbrev pub IsNoted : Text → List Text → Type 0
  IsNoted sql notes =
      ((f : FanOut) → calls.fan_out_aggregate sql ≡ some f → Member (Texts.fan_out_note f) notes)
      × ((e : EpochMismatch)
          → calls.epoch_unit_mismatch sql ≡ some e
          → Member (Texts.epoch_note e) notes)

  abbrev pub IsCodeNoted : Text → List Text → Type 0
  IsCodeNoted sql notes =
      (c : ImpossibleCode)
      → impossible_code calls sql ≡ some c
      → Member (Texts.code_note c.column (calls.number_text c.literal)) notes

  pub record IsGood (r : AskResult) : Type 0 where
    pub within : r.repairs ≤ 2
    pub guarded : (v : GuardVerdict) × IsAllowed v × (r.sql ≡ v.sql) × IsTableSafe v
    pub columns : IsColumnSafe r.sql
    pub clean : IsClean r.repairs r.sql
    pub caveats : IsNoted r.sql r.guard.warnings × IsCodeNoted r.sql r.guard.warnings
    pub allowed : r.guard.allowed ≡ true

  pub either_round :
      (b : Bool) (x y : Round)
      → (b ≡ true → OnAnswer IsGood x)
      → (b ≡ false → OnAnswer IsGood y)
      → OnAnswer IsGood (if b then x else y)
  either_round true x y f g = f refl
  either_round false x y f g = g refl

  pub no_repair_left : (s : State) → can_repair setting calls s ≡ false → s.attempt < 2 → ⊥
  no_repair_left s h less = absurd (ground arith)

  pub or_repair-IsGood :
      (failure : Option Text) (sql : Text) (s : State) (next : State → Round)
      → ((s.attempt < 2 → failure ≡ none) → OnAnswer IsGood (next s))
      → OnAnswer IsGood (or_repair setting calls failure sql s next)
  or_repair-IsGood none sql s next h = h (λ less. refl)
  or_repair-IsGood (some failure) sql s next h =
      either_round (can_repair setting calls s) _ _ (λ e. tt)
        (λ e. h (λ less. absurd (no_repair_left s e less)))

  pub or_note-IsGood :
      (texts : Option (Text × Text)) (sql : Text) (s : State) (next : State → Round)
      → (texts ≡ none → OnAnswer IsGood (next s))
      → ((failure note : Text)
          → texts ≡ some (failure, note)
          → (s.attempt < 2 → ⊥)
          → OnAnswer IsGood (next (noted setting calls s note)))
      → OnAnswer IsGood (or_note setting calls texts sql s next)
  or_note-IsGood none sql s next h k = h refl
  or_note-IsGood (some (failure, note)) sql s next h k =
      either_round (can_repair setting calls s) _ _ (λ e. tt)
        (λ e. k failure note refl (no_repair_left s e))

  pub mapped-none : (f : Text → Text) (o : Option Text) → mapped setting calls f o ≡ none → o ≡ none
  mapped-none f none h = refl
  mapped-none f (some t) h = cc
