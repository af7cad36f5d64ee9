-- ===== src/Sql/Walk/Denied.antt =====
-- What no policy can take off the denylists, and the policy's own additions.
use ask_sql.Prelude.{
  ℕ, true, false, not, ◌&&◌, none, some, List, [], ◌∷◌, ◌++◌, Text, has, map, to_lower_case,
  if◌then◌else◌, starts_with, ◌≡◌, ◌≢◌, refl, inl, inr, Bool-cases, &&_true, Member, at_head,
  further, Member-append_left, Member-append_right, Member→has,
}
use mathlib.Core.Path
use ask_sql.Json.{Num, Json, Fields}
use ask_sql.Engine.{EngineKind, postgres, mysql, sqlite, duckdb, oracle}
use ask_sql.Sql.Deny.{
  universal_deny, engine_deny, default_deny_set, universal_deny_prefixes, is_duckdb,
}
use ask_sql.Sql.Deny.Others.{duckdb_only_deny, duckdb_file_functions, duckdb_deny_prefixes}
use ask_sql.Sql.Policy.{GuardPolicy, is_empty, duckdb_deny, deny_set_of, context_of}
use ask_sql.Sql.Walk.{is_call, called, last_segment, walk}
use ask_sql.Sql.Walk.Node.{IsAllowedName}
use ask_sql.Sql.Walk.Sound.{Node, walk_iff}

pub data IsSqlEngine : EngineKind → Type 0 where
  on_postgres : IsSqlEngine postgres
  on_mysql : IsSqlEngine mysql
  on_sqlite : IsSqlEngine sqlite
  on_duckdb : IsSqlEngine duckdb
  on_oracle : IsSqlEngine oracle

-- `f` is denied under the policy: by the list that all engines share, by the policy itself, or as a
-- function of DuckDB that discloses settings or, unless the policy allows it, reads files.
pub data Forbidden (policy : GuardPolicy) (f : Text) : EngineKind → Type 0 where
  everywhere : {engine : EngineKind} → Member f universal_deny → Forbidden policy f engine
  by_policy :
      {engine : EngineKind} {g : Text}
      → Member g policy.deny_functions
      → to_lower_case g ≡ f
      → Forbidden policy f engine
  discloses : Member f duckdb_only_deny → Forbidden policy f duckdb
  reads_file :
      policy.allow_file_functions ≡ false
      → Member f duckdb_file_functions
      → Forbidden policy f duckdb

Member-map :
    {x : Text} {xs : List Text} → Member x xs → Member (to_lower_case x) (map to_lower_case xs)
Member-map (at_head e) = rw e (at_head refl)
Member-map (further m) = further (Member-map m)

-- The lists of the code are in lower case.
lower_universal : map to_lower_case universal_deny ≡ universal_deny
unfolding to_lower_case universal_deny
lower_universal = refl

lower_only : map to_lower_case duckdb_only_deny ≡ duckdb_only_deny
unfolding to_lower_case
lower_only = refl

lower_files : map to_lower_case duckdb_file_functions ≡ duckdb_file_functions
unfolding to_lower_case
lower_files = refl

Member-lower :
    {x : Text} {xs : List Text} → Member x xs → map to_lower_case xs ≡ xs → to_lower_case x ≡ x
Member-lower {x} (at_head {w} e) h = let p : to_lower_case w ≡ w = cc in rw (← e) p
Member-lower (further {w} {ws} m) h = let p : map to_lower_case ws ≡ ws = cc in Member-lower m p

-- A list that the lower-cased set takes in, whose members are in lower case.
Member-set :
    {f : Text} {xs : List Text} (all : List Text)
    → map to_lower_case xs ≡ xs
    → Member f xs
    → Member f all
    → Member f (map to_lower_case all)
Member-set all same m k =
    Path.subst (λ z. Member z (map to_lower_case all)) (Member-lower m same) (Member-map k)

default-Forbidden :
    (policy : GuardPolicy) {engine : EngineKind} {f : Text}
    → IsSqlEngine engine
    → policy.deny_functions ≡ []
    → Forbidden policy f engine
    → Member f (default_deny_set engine)
unfolding default_deny_set
default-Forbidden policy on_postgres none_own (everywhere m) = Member-append_left [] m
default-Forbidden policy on_mysql none_own (everywhere m) = Member-append_left [] m
default-Forbidden policy on_sqlite none_own (everywhere m) = Member-append_left [] m
default-Forbidden policy on_oracle none_own (everywhere m) = Member-append_left [] m
default-Forbidden policy on_duckdb none_own (everywhere m) = Member-append_left _ m
default-Forbidden policy e none_own (by_policy {g} m same) =
    let a : Member g [] = rw none_own at m in elim a [ ]
default-Forbidden policy on_duckdb none_own (discloses m) =
    Member-append_right universal_deny (Member-append_right duckdb_file_functions m)
default-Forbidden policy on_duckdb none_own (reads_file allow m) =
    Member-append_right universal_deny (Member-append_left duckdb_only_deny m)

engine_deny-universal :
    {engine : EngineKind} → IsSqlEngine engine → engine_deny engine ≡ universal_deny
unfolding engine_deny
engine_deny-universal on_postgres = refl
engine_deny-universal on_mysql = refl
engine_deny-universal on_sqlite = refl
engine_deny-universal on_oracle = refl
engine_deny-universal on_duckdb = refl

set-Forbidden :
    (policy : GuardPolicy) {engine : EngineKind} {f : Text} (duck : List Text)
    → IsSqlEngine engine
    → (if is_duckdb engine then duckdb_deny policy.allow_file_functions else []) ≡ duck
    → Forbidden policy f engine
    → Member f (map to_lower_case (universal_deny ++ (duck ++ policy.deny_functions)))
set-Forbidden policy duck e same (everywhere m) =
    Member-set _ lower_universal m (Member-append_left (duck ++ policy.deny_functions) m)
set-Forbidden policy duck e same (by_policy {g} m lower) =
    rw (← lower) (Member-map (Member-append_right universal_deny (Member-append_right duck m)))
set-Forbidden policy duck e same (discloses m) = rw (← same) (
    Member-set _ lower_only m (
      Member-append_right universal_deny
        (Member-append_left policy.deny_functions (Member-append_left _ m))))
set-Forbidden policy duck e same (reads_file allow m) =
    rw (← same, allow)
      (Member-set _ lower_files m (
        Member-append_right universal_deny
          (Member-append_left policy.deny_functions (Member-append_right duckdb_only_deny m))))

is_empty-nil : (xs : List Text) → is_empty xs ≡ true → xs ≡ []
is_empty-nil [] h = refl
is_empty-nil (x ∷ xs) h = cc

deny_set_of-Forbidden :
    (policy : GuardPolicy) {engine : EngineKind} {f : Text}
    → IsSqlEngine engine
    → Forbidden policy f engine
    → Member f (deny_set_of policy engine)
unfolding deny_set_of
deny_set_of-Forbidden policy e k =
    elim (Bool-cases (is_empty policy.deny_functions && not policy.allow_file_functions)) [
      | inl b ↦
          rw b (default-Forbidden policy e (is_empty-nil policy.deny_functions (&&_true _ _ b).0) k)
      | inr b ↦ rw (b, engine_deny-universal e) (set-Forbidden policy _ e refl k)
    ]

deny_prefixes-Member :
    (policy : GuardPolicy) (engine : EngineKind) {t : Text}
    → Member t universal_deny_prefixes
    → Member t (context_of policy engine).deny_prefixes
unfolding context_of
deny_prefixes-Member policy engine m =
    elim (Bool-cases (is_duckdb engine && not policy.allow_file_functions)) [
      | inl b ↦ rw b (Member-append_left duckdb_deny_prefixes m)
      | inr b ↦ rw b m
    ]

refuted : {ws : List Text} (f name : Text) → Member f ws → has ws name ≡ false → name ≢ f
refuted {ws} f name m h e = let h' : has ws f ≡ false = rw e at h in let k = Member→has m in cc

-- On an SQL engine, whatever the policy, no call in an accepted tree names a forbidden function, by
-- its whole name or its last segment, and neither of the two begins with a prefix that is denied on
-- every engine. The functions that all engines deny, and those that the policy adds, are forbidden;
-- so are, on DuckDB, those that disclose settings and, unless the policy allows files, the readers.
pub walk-Forbidden :
    (number_text : Num → Text) (policy : GuardPolicy) (room : ℕ) {engine : EngineKind} {j : Json}
    {fs : Fields} {name : Text}
    → IsSqlEngine engine
    → walk number_text (context_of policy engine) room j ≡ none
    → Node fs j
    → is_call fs ≡ true
    → called number_text fs ≡ some name
    → ((f : Text) → Forbidden policy f engine → (name ≢ f) × (last_segment name ≢ f))
      × ((t : Text)
          → Member t universal_deny_prefixes
          → (starts_with t name ≡ false) × (starts_with t (last_segment name) ≡ false))
unfolding context_of
walk-Forbidden number_text policy room {engine} {j} {name} e accepted node call named =
    let ctx = context_of policy engine in
    let read_only = ((walk_iff number_text ctx room j).0 accepted).1 in
    let allowed : IsAllowedName ctx name = (read_only _ node).no_denied name call named in
    (
      λ f k.
          let m = deny_set_of-Forbidden policy e k in
          (
            refuted f name m (allowed.whole_name),
            refuted f (last_segment name) m (allowed.last_name),
          ),
      λ t m. allowed.no_prefix t (deny_prefixes-Member policy engine m),
    )
