-- ===== src/Ask/Whole.antt =====
-- All of `askImpl` behind the guard of packages/core/src/guard.ts: what reaches a user, and that
-- something does.
use ask_sql.Prelude.{
  Bool, true, false, Option, none, some, List, [], ◌∷◌, Text, text_eq, if◌then◌else◌, Member,
  at_head, further, Bool-cases, ◌≡◌, ◌⊎◌, refl, sym, ap, ◌∙◌, inl, inr,
}
use ask_sql.Json.{Num, Json}
use ask_sql.Errors.{Thrown}
use ask_sql.Sql.Policy.{GuardPolicy}
use ask_sql.Sql.Rewrite.{trim}
use ask_sql.Sql.Guard.{GuardVerdict}
use ask_sql.Sql.Guard.Verdict.{verdict_on}
use ask_sql.Sql.Guard.Sound.{verdict_on-IsRead}
use ask_sql.Floors.{SchemaCatalog}
use ask_sql.Ask.{AskResult, answered, threw, Outcome, Extraction}
use ask_sql.Ask.Entry.{
  Connector, CatalogRead, read, unreadable, Around, find_connector, connector_by_id, refusal,
  to_loop, setting_for, written_answer, written_or_loop, fresh_catalog, with_catalog,
  with_connector, unless_refused, ask,
}
use ask_sql.Ask.Bounds.{ask_loop-Runs}
use ask_sql.Ask.Safe.{IsFromRead, ask_loop-IsFromRead}

module _ (number_text : Num → Text) (parse : Text → Text → Option (Json × List Text))
    (policy : GuardPolicy) (around : Around)
    (same : (q : Text) (conn : Connector) (catalog : SchemaCatalog) (t : Text)
      → (around.calls_for q conn catalog).guard_sql t
        ≡ verdict_on number_text parse policy conn.dialect t) where
  -- An answer on one of the connections, whose statement comes from a text that only reads there.
  abbrev pub IsFromReadOn : AskResult → Type 0
  IsFromReadOn r =
      (conn : Connector) × Member conn around.connectors
      × IsFromRead number_text parse policy conn.dialect r.sql

  find_connector-Member :
      (id : Text) (cs : List Connector) {c : Connector}
      → find_connector id cs ≡ some c
      → Member c cs
  unfolding find_connector
  find_connector-Member id [] h = cc
  find_connector-Member id (d ∷ cs) {c} h = elim (Bool-cases (text_eq d.id id)) [
    | inl e ↦ at_head (let same : d ≡ c = cc (rw (e, find_connector) at h) in same)
    | inr e ↦ further (find_connector-Member id cs (rw (e, find_connector) at h))
  ]

  connector_by_id-Member :
      (id : Option Text) (cs : List Connector) {c : Connector}
      → connector_by_id id cs ≡ some c
      → Member c cs
  connector_by_id-Member (some (k ∷ id)) cs h = find_connector-Member (k ∷ id) cs h
  connector_by_id-Member (some []) [] h = cc
  connector_by_id-Member (some []) (d ∷ cs) {c} h = at_head (let same : d ≡ c = cc in same)
  connector_by_id-Member none [] h = cc
  connector_by_id-Member none (d ∷ cs) {c} h = at_head (let same : d ≡ c = cc in same)

  to_loop-IsFromReadOn :
      (q : Text) (conn : Connector) (catalog : SchemaCatalog) {r : AskResult}
      → Member conn around.connectors
      → to_loop around q conn catalog ≡ some (answered r)
      → IsFromReadOn r
  unfolding to_loop
  to_loop-IsFromReadOn q conn catalog m h = (
    conn,
    m,
    ask_loop-IsFromRead number_text parse policy (setting_for around q conn catalog)
        (around.calls_for q conn catalog) (same q conn catalog) (around.schema_text q conn catalog)
        (around.user_prompt q conn catalog) h,
  )

  answered_if :
      (b : Bool) (a r : AskResult) (other : Option Outcome)
      → (if b then some (answered a) else other) ≡ some (answered r)
      → ((b ≡ true) × (a ≡ r)) ⊎ ((b ≡ false) × (other ≡ some (answered r)))
  answered_if true a r other h = inl (refl, cc)
  answered_if false a r other h = inr (refl, h)

  written_or_loop-IsFromReadOn :
      (q : Text) (conn : Connector) (catalog : SchemaCatalog) (o : Option Extraction)
      {r : AskResult}
      → Member conn around.connectors
      → written_or_loop around q conn catalog o ≡ some (answered r)
      → IsFromReadOn r
  written_or_loop-IsFromReadOn q conn catalog none m h = to_loop-IsFromReadOn q conn catalog m h
  written_or_loop-IsFromReadOn q conn catalog (some written) {r} m h =
      let verdict = (around.calls_for q conn catalog).guard_sql written.sql in
      elim (answered_if verdict.allowed (written_answer around conn written verdict) r _ h) [
        | inr (_, other) ↦ to_loop-IsFromReadOn q conn catalog m other
        | inl (allowed, made) ↦
            let is = same q conn catalog written.sql in
            let from : verdict.sql ≡ r.sql = ap (λ (x : AskResult). x.sql) made in
            let (single, reads) =
              verdict_on-IsRead number_text parse policy conn.dialect written.sql
                (rw is at allowed) in
            (conn, m, (written.sql, sym from ∙ ap (λ (v : GuardVerdict). v.sql) is, single, reads))
      ]

  with_catalog-IsFromReadOn :
      (q : Text) (conn : Connector) (c : CatalogRead) {r : AskResult}
      → Member conn around.connectors
      → with_catalog around q conn c ≡ some (answered r)
      → IsFromReadOn r
  with_catalog-IsFromReadOn q conn (unreadable err) m h = cc
  with_catalog-IsFromReadOn q conn (read catalog) m h =
      let full = fresh_catalog around q conn catalog in
      written_or_loop-IsFromReadOn q conn full (around.catalog_query_for q full conn.dialect) m h

  with_connector-IsFromReadOn :
      (connection_id : Option Text) (q : Text) (o : Option Connector) {r : AskResult}
      → connector_by_id connection_id around.connectors ≡ o
      → with_connector around connection_id q o ≡ some (answered r)
      → IsFromReadOn r
  with_connector-IsFromReadOn connection_id q none e h = cc
  with_connector-IsFromReadOn connection_id q (some conn) e h =
      with_catalog-IsFromReadOn q conn (around.get_catalog conn false)
        (connector_by_id-Member connection_id around.connectors e) h

  unless_refused-IsFromReadOn :
      (connection_id : Option Text) (q : Text) (o : Option Thrown) {r : AskResult}
      → unless_refused around connection_id q o ≡ some (answered r)
      → IsFromReadOn r
  unless_refused-IsFromReadOn connection_id q (some err) h = cc
  unless_refused-IsFromReadOn connection_id q none h =
      with_connector-IsFromReadOn connection_id q _ refl h

  -- With the SQL guard in the place of `guardSql`, the statement of every answer, written by the model or
  -- from the catalog, is what the guard made of a text that is one statement and only reads on one of the
  -- connections: a pragma of SQLite, a SHOW or DESCRIBE of MySQL, or a SELECT whose tree is read-only at
  -- any depth. The model, its prompts and the repairs are arbitrary.
  pub ask-IsFromReadOn :
      (question : Text) (connection_id : Option Text) {r : AskResult}
      → ask around question connection_id ≡ some (answered r)
      → IsFromReadOn r
  unfolding ask
  ask-IsFromReadOn question connection_id h =
      unless_refused-IsFromReadOn connection_id (trim question) (refusal around (trim question)) h

module _ (around : Around) where
  abbrev pub Ends : Option Outcome → Type 0
  Ends o = (outcome : Outcome) × (o ≡ some outcome)

  to_loop-Ends :
      (q : Text) (conn : Connector) (catalog : SchemaCatalog) → Ends (to_loop around q conn catalog)
  unfolding to_loop
  to_loop-Ends q conn catalog =
      let (_, outcome, e, _, _) =
        ask_loop-Runs (setting_for around q conn catalog) (around.calls_for q conn catalog)
          (around.schema_text q conn catalog) (around.user_prompt q conn catalog) in
      (outcome, e)

  if-Ends : (b : Bool) (x : Outcome) (y : Option Outcome) → Ends y → Ends (if b then some x else y)
  if-Ends true x y h = (x, refl)
  if-Ends false x y h = h

  written_or_loop-Ends :
      (q : Text) (conn : Connector) (catalog : SchemaCatalog) (o : Option Extraction)
      → Ends (written_or_loop around q conn catalog o)
  written_or_loop-Ends q conn catalog none = to_loop-Ends q conn catalog
  written_or_loop-Ends q conn catalog (some written) =
      if-Ends ((around.calls_for q conn catalog).guard_sql written.sql).allowed _ _
        (to_loop-Ends q conn catalog)

  with_catalog-Ends :
      (q : Text) (conn : Connector) (c : CatalogRead) → Ends (with_catalog around q conn c)
  with_catalog-Ends q conn (unreadable err) = (threw err none, refl)
  with_catalog-Ends q conn (read catalog) =
      let full = fresh_catalog around q conn catalog in
      written_or_loop-Ends q conn full (around.catalog_query_for q full conn.dialect)

  with_connector-Ends :
      (connection_id : Option Text) (q : Text) (o : Option Connector)
      → Ends (with_connector around connection_id q o)
  with_connector-Ends connection_id q none = (_, refl)
  with_connector-Ends connection_id q (some conn) =
      with_catalog-Ends q conn (around.get_catalog conn false)

  unless_refused-Ends :
      (connection_id : Option Text) (q : Text) (o : Option Thrown)
      → Ends (unless_refused around connection_id q o)
  unless_refused-Ends connection_id q (some err) = (threw err none, refl)
  unless_refused-Ends connection_id q none =
      with_connector-Ends connection_id q (connector_by_id connection_id around.connectors)

  -- A question always ends with an answer or an error.
  pub ask-Ends :
      (question : Text) (connection_id : Option Text) → Ends (ask around question connection_id)
  unfolding ask
  ask-Ends question connection_id =
      unless_refused-Ends connection_id (trim question) (refusal around (trim question))
