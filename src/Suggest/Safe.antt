-- ===== src/Suggest/Safe.antt =====
-- What is offered or remembered has passed the guard.
use ask_sql.Prelude.{
  ℕ, Bool, true, false, not, ◌&&◌, ◌||◌, Option, none, some, List, [], ◌∷◌, Text, text_eq,
  if◌then◌else◌, ◌<|>◌, &&_true, ◌≡◌, refl,
}
use mathlib.Core.Path
use ask_sql.Json.{Num, Json}
use ask_sql.Errors.{Thrown, ask_error, other_error, other_value, or_else}
use ask_sql.Regex.{is_nil}
use ask_sql.Sql.Policy.{GuardPolicy}
use ask_sql.Sql.Guard.{GuardVerdict}
use ask_sql.Sql.Guard.Verdict.{verdict_on}
use ask_sql.Sql.Guard.Sound.{verdict_on-IsRead}
use ask_sql.Sql.Rewrite.{trim}
use ask_sql.IdentifierCase.Names.{non_empty, looks_like_unknown_table}
use ask_sql.Floors.{SchemaCatalog}
use ask_sql.Floors.Columns.{UnknownColumn}
use ask_sql.FewShots.{FewShotExample, Examples}
use ask_sql.FewShots.Every.{Every, Every-add_example}
use ask_sql.Ask.{Extraction}
use ask_sql.Ask.Safe.{IsFromRead}
use ask_sql.Execute.{Connection, ExecuteOptions, Executed, returned, threw, execute_guarded}
use ask_sql.Suggest.{
  Repairer, is_query_error, guarded, another, recased, case_fix_for, try_repair, suggestion_for,
  beside, run_answer, if_named, known_repair, fix_with, suggest_fix, remembered, record_feedback,
}

module _ (parts : Repairer) where
  -- A statement that the guard gave out for a text that it allows.
  abbrev pub IsGuarded : Text → Type 0
  IsGuarded sql =
      (t : Text) × ((parts.guard_sql t).allowed ≡ true) × (sql ≡ (parts.guard_sql t).sql)

  abbrev pub AllGuarded : Option Text → Type 0
  AllGuarded none = Unit
  AllGuarded (some sql) = IsGuarded sql

  pub AllGuarded-some : (o : Option Text) {sql : Text} → AllGuarded o → o ≡ some sql → IsGuarded sql
  AllGuarded-some none h e = cc
  AllGuarded-some (some t) {sql} h e = let same : t ≡ sql = cc in Path.subst IsGuarded same h

  or-AllGuarded : (a b : Option Text) → AllGuarded a → AllGuarded b → AllGuarded (a <|> b)
  or-AllGuarded none b h k = k
  or-AllGuarded (some t) b h k = h

  non_empty-AllGuarded : (o : Option Text) → AllGuarded o → AllGuarded (non_empty o)
  non_empty-AllGuarded none h = tt
  non_empty-AllGuarded (some []) h = tt
  non_empty-AllGuarded (some (c ∷ s)) h = h

  if-AllGuarded :
      (b : Bool) (x y : Option Text)
      → (b ≡ true → AllGuarded x)
      → AllGuarded y
      → AllGuarded (if b then x else y)
  if-AllGuarded true x y h k = h refl
  if-AllGuarded false x y h k = k

  guarded-AllGuarded : (o : Option Text) → AllGuarded (guarded parts o)
  guarded-AllGuarded none = tt
  guarded-AllGuarded (some t) = if-AllGuarded (parts.guard_sql t).allowed _ _ (λ e. (t, e, refl)) tt

  another-AllGuarded : (failed : Text) (o : Option Extraction) → AllGuarded (another parts failed o)
  another-AllGuarded failed none = tt
  another-AllGuarded failed (some e) =
      let v = parts.guard_sql e.sql in
      if-AllGuarded (v.allowed && not (text_eq v.sql failed)) _ _
        (λ h. (e.sql, (&&_true _ _ h).0, refl)) tt

  known_repair-AllGuarded :
      (catalog : SchemaCatalog) (bad : Text) (o : Option Extraction)
      → AllGuarded (known_repair parts catalog bad o)
  known_repair-AllGuarded catalog bad none = tt
  known_repair-AllGuarded catalog bad (some e) =
      let v = parts.guard_sql e.sql in
      unless-AllGuarded (not v.allowed || text_eq v.sql bad) _
        (λ h. if_named-AllGuarded _ _ e.sql (is_allowed v.allowed _ h))
    where
      is_allowed : (a b : Bool) → (not a || b) ≡ false → a ≡ true
      is_allowed true b h = refl
      is_allowed false b h = cc

      if_named-AllGuarded :
          (table : Option Text) (column : Option UnknownColumn) (t : Text)
          → (parts.guard_sql t).allowed ≡ true
          → AllGuarded (if_named table column (parts.guard_sql t).sql)
      if_named-AllGuarded none none t h = (t, h, refl)
      if_named-AllGuarded none (some c) t h = tt
      if_named-AllGuarded (some t) c u h = tt

      unless-AllGuarded :
          (b : Bool) (y : Option Text)
          → (b ≡ false → AllGuarded y)
          → AllGuarded (if b then none else y)
      unless-AllGuarded true y h = tt
      unless-AllGuarded false y h = h refl

  suggestion_for-AllGuarded :
      (question : Text) (catalog : SchemaCatalog) (schema final_sql : Text) (was_cancelled : Bool)
      (err : Thrown)
      → AllGuarded (suggestion_for parts question catalog schema final_sql was_cancelled err)
  unfolding suggestion_for case_fix_for try_repair
  suggestion_for-AllGuarded question catalog schema final_sql was_cancelled (ask_error e) =
      let message = or_else e.detail e.user_message in
      if-AllGuarded (is_query_error e.code && not was_cancelled) _ _
        (λ h. non_empty-AllGuarded _ (
          or-AllGuarded _ _
            (if-AllGuarded (looks_like_unknown_table message) _ _
              (λ k. guarded-AllGuarded (recased parts catalog final_sql)) tt)
            (another-AllGuarded final_sql _)))
        tt
  suggestion_for-AllGuarded question catalog schema final_sql was_cancelled (other_error n m) = tt
  suggestion_for-AllGuarded question catalog schema final_sql was_cancelled (other_value t) = tt

  beside-AllGuarded :
      (question : Text) (catalog : SchemaCatalog) (schema final_sql : Text) (was_cancelled : Bool)
      (result : Executed)
      → AllGuarded (beside parts question catalog schema final_sql was_cancelled result)
  beside-AllGuarded question catalog schema final_sql was_cancelled (returned result) = tt
  beside-AllGuarded question catalog schema final_sql was_cancelled (threw err) =
      suggestion_for-AllGuarded question catalog schema final_sql was_cancelled err

  suggest_fix-AllGuarded :
      (catalog : Option SchemaCatalog) (question failed_sql : Text) (error_detail : Option Text)
      → AllGuarded (suggest_fix parts catalog question failed_sql error_detail)
  unfolding suggest_fix fix_with
  suggest_fix-AllGuarded catalog question failed_sql error_detail =
      if-AllGuarded (is_nil (trim failed_sql) || is_nil (trim question)) _ _ (λ h. tt)
        (with_catalog catalog)
    where
      with_catalog :
          (o : Option SchemaCatalog)
          → AllGuarded (elim o [
            | none ↦ none
            | some c ↦ fix_with parts c (trim question) (trim failed_sql) error_detail
          ])
      with_catalog none = tt
      with_catalog (some c) =
          or-AllGuarded _ _
            (if-AllGuarded (looks_like_unknown_table (or_else error_detail [])) _ _
              (λ k. guarded-AllGuarded (recased parts c (trim failed_sql))) tt)
            (known_repair-AllGuarded c (trim failed_sql) _)

  -- The ways in which a statement is offered to a user after an error.
  pub data Offers (sql : Text) : Type 0 where
    after_run :
        (conn : Connection) (opts : ExecuteOptions) (question : Text) (catalog : SchemaCatalog)
        (schema final_sql : Text) (was_cancelled : Bool)
        → (run_answer parts conn opts question catalog schema final_sql was_cancelled).2 ≡ some sql
        → Offers sql
    on_request :
        (catalog : Option SchemaCatalog) (question failed_sql : Text) (error_detail : Option Text)
        → suggest_fix parts catalog question failed_sql error_detail ≡ some sql
        → Offers sql

  Offers-IsGuarded : (sql : Text) → Offers sql → IsGuarded sql
  unfolding run_answer
  Offers-IsGuarded sql (after_run conn opts question catalog schema final_sql was_cancelled e) =
      AllGuarded-some _
        (beside-AllGuarded question catalog schema final_sql was_cancelled
          (execute_guarded conn opts final_sql).1)
        e
  Offers-IsGuarded sql (on_request catalog question failed_sql error_detail e) =
      AllGuarded-some _ (suggest_fix-AllGuarded catalog question failed_sql error_detail) e

module _ (number_text : Num → Text) (parse : Text → Text → Option (Json × List Text))
    (policy : GuardPolicy) (parts : Repairer)
    (same : (t : Text)
      → parts.guard_sql t ≡ verdict_on number_text parse policy parts.dialect t) where
  IsGuarded-IsFromRead :
      {sql : Text} → IsGuarded parts sql → IsFromRead number_text parse policy parts.dialect sql
  IsGuarded-IsFromRead (t, allowed, from) =
      let (single, read) =
        verdict_on-IsRead number_text parse policy parts.dialect t (rw (same t) at allowed) in
      (t, rw (same t) at from, single, read)

  -- With the SQL guard in the place of `guardSql`, every statement that is offered after an error, beside
  -- the error of a run or on request, is what the guard made of a text that is one statement and only
  -- reads; the model that repairs it is arbitrary.
  pub Offers-IsFromRead :
      (sql : Text) → Offers parts sql → IsFromRead number_text parse policy parts.dialect sql
  Offers-IsFromRead sql offer = IsGuarded-IsFromRead (Offers-IsGuarded parts sql offer)

  -- Examples that are remembered from a user's approval only read, if all did before.
  pub record_feedback-Every :
      (cap : ℕ) (connection_id : Text) (user_id : Option Text) (question sql : Text)
      (examples : Examples)
      → Every (λ e. IsFromRead number_text parse policy parts.dialect e.sql) examples
      → Every
          (λ e. IsFromRead number_text parse policy parts.dialect e.sql)
          (record_feedback parts cap connection_id user_id question sql examples)
  unfolding record_feedback
  record_feedback-Every cap connection_id user_id question sql examples h =
      by_text (is_nil (trim question) || is_nil (trim sql)) (parts.guard_sql (trim sql)).allowed
        refl
    where
      P : FewShotExample → Type 0
      P e = IsFromRead number_text parse policy parts.dialect e.sql

      v : GuardVerdict
      v = parts.guard_sql (trim sql)

      by_text :
          (b a : Bool)
          → v.allowed ≡ a
          → Every P (
              if b
              then examples
              else remembered parts cap connection_id user_id (trim question) v examples)
      by_text true a e = h
      by_text false true e = rw (e) (
          Every-add_example P cap connection_id (record { question = trim question; sql = v.sql })
            user_id examples (IsGuarded-IsFromRead (trim sql, e, refl)) h)
      by_text false false e = rw e h
