-- ===== src/Connections.antt =====
-- packages/server/src/dynamicConnections.ts: which connection details a client may have opened. The
-- file system and its paths are Node's, so `FileSystem` stands for the calls of them.
pub mod Address
pub mod Uri
pub mod Files
pub mod Authority
pub mod Named
pub mod Credentials
pub mod Sound
mod Tests
use ask_sql.Prelude.{
  ℕ, zero, suc, ◌+◌, ◌*◌, ◌/◌, ◌%◌, Bool, true, false, not, ◌&&◌, ◌||◌, Option, none, some, List,
  [], ◌∷◌, ◌++◌, Text, codes, length, has, text_eq, if◌then◌else◌, ltb, ◌==◌, ◌<|>◌, is_space,
}
use ask_sql.Json.{Num, ratio}
use ask_sql.Regex.{is_nil}
use ask_sql.Sql.Rewrite.{trim}
use ask_sql.Connections.Address.{is_link_local}
use ask_sql.Connections.Uri.{has_mongo_scheme, has_embedded_credentials, mongo_uri_hosts}
use ask_sql.Connections.Files.{FileSystem, outside_roots}

-- What a client sends. Any text may come as the engine, and any number as the port.
pub record ConnectionSpec : Type 0 where
  pub name : Option Text
  pub engine : Text
  pub host : Option Text
  pub port : Option Num
  pub database : Option Text
  pub uri : Option Text

pub record DynamicConnectionOptions : Type 0 where
  pub enabled : Bool
  pub allowed_hosts : Option (List Text)
  pub allowed_file_roots : Option (List Text)
  pub allow_file_engines : Option Bool

-- The `detail` of the error that is thrown.
pub data SpecError : Type 0 where
  unknown_engine missing_name missing_file_path file_engines_off file_outside_roots : SpecError
  missing_uri bad_mongo_scheme embedded_credentials missing_database : SpecError
  link_local_mongo_host mongo_host_not_allowed missing_host bad_host : SpecError
  link_local_host host_not_allowed bad_port : SpecError

pub record EngineDefaults : Type 0 where
  pub port : Option ℕ
  pub user : Option Text
  pub uses_file_path : Bool
  pub uses_uri : Bool

abbrev pub by_host : ℕ → Text → EngineDefaults
by_host port user = record {
  port = some port;
  user = some user;
  uses_file_path = false;
  uses_uri = false;
}

abbrev pub by_file : EngineDefaults
by_file = record { port = none; user = none; uses_file_path = true; uses_uri = false }

abbrev pub by_uri : EngineDefaults
by_uri = record { port = none; user = none; uses_file_path = false; uses_uri = true }

-- `ENGINE_DEFAULTS`; none for a name that is not among its keys.
unfoldable pub engine_defaults : Text → Option EngineDefaults
engine_defaults engine =
    if text_eq engine (codes "postgres")
    then some (by_host 5432 (codes "postgres"))
    else if text_eq engine (codes "mysql")
    then some (by_host 3306 (codes "root"))
    else if text_eq engine (codes "oracle")
    then some (by_host 1521 (codes "system"))
    else if text_eq engine (codes "mongodb")
    then some by_uri
    else if text_eq engine (codes "sqlite") || text_eq engine (codes "duckdb")
    then some by_file
    else none

-- `text?.trim()`, where a missing text is like an empty one.
abbrev pub trimmed : Option Text → Text
trimmed none = []
trimmed (some t) = trim t

-- `if (test) throw`
abbrev pub refuse_if : Bool → SpecError → Option SpecError
refuse_if true e = some e
refuse_if false e = none

-- `options.allowedHosts && !options.allowedHosts.includes(host)`
abbrev pub is_not_allowed : Option (List Text) → Text → Bool
is_not_allowed none host = false
is_not_allowed (some hosts) host = not (has hosts host)

-- `/[/?#&@\s]/` on one code unit
abbrev pub is_bad_host_unit : ℕ → Bool
is_bad_host_unit c =
    c == b'/' || (c == b'?' || (c == b'#' || (c == b'&' || (c == b'@' || is_space c))))

unfoldable pub has_bad_host_unit : Text → Bool
has_bad_host_unit [] = false
has_bad_host_unit (c ∷ s) = is_bad_host_unit c || has_bad_host_unit s

-- `!Number.isInteger(port) || port < 1 || port > 65535`
unfoldable pub is_bad_port : Option Num → Bool
is_bad_port none = false
is_bad_port (some (ratio false m d)) =
    not (m % suc d == 0) || (ltb m (suc d) || ltb (65535 * suc d) m)
is_bad_port (some _) = true

-- The hosts of a URI, each on its own.
unfoldable pub mongo_hosts_error : Option (List Text) → List Text → Option SpecError
mongo_hosts_error allowed [] = none
mongo_hosts_error allowed (h ∷ hs) =
    refuse_if (is_link_local h) link_local_mongo_host
    <|> (refuse_if (is_not_allowed allowed h) mongo_host_not_allowed
        <|> mongo_hosts_error allowed hs)

unfoldable pub uri_error : ConnectionSpec → DynamicConnectionOptions → Option SpecError
uri_error spec options =
    let uri = trimmed spec.uri in
    refuse_if (is_nil uri) missing_uri
    <|> (refuse_if (not (has_mongo_scheme uri)) bad_mongo_scheme
        <|> (refuse_if (has_embedded_credentials uri) embedded_credentials
            <|> (refuse_if (is_nil (trimmed spec.database)) missing_database
                <|> mongo_hosts_error options.allowed_hosts (mongo_uri_hosts uri))))

unfoldable pub host_error : ConnectionSpec → DynamicConnectionOptions → Option SpecError
host_error spec options =
    let host = trimmed spec.host in
    refuse_if (is_nil host) missing_host
    <|> (refuse_if (has_bad_host_unit host) bad_host
        <|> (refuse_if (is_link_local host) link_local_host
            <|> (refuse_if (is_not_allowed options.allowed_hosts host) host_not_allowed
                <|> (refuse_if (is_bad_port spec.port) bad_port
                    <|> refuse_if (is_nil (trimmed spec.database)) missing_database))))

abbrev pub is_on : Option Bool → Bool
is_on (some true) = true
is_on _ = false

abbrev pub has_roots : Option (List Text) → Bool
has_roots (some (r ∷ rs)) = true
has_roots _ = false

-- `assertFileAllowed`
unfoldable pub file_allowed_error : FileSystem → Text → DynamicConnectionOptions → Option SpecError
file_allowed_error fs file options =
    refuse_if (not (is_on options.allow_file_engines) && not (has_roots options.allowed_file_roots))
      file_engines_off
    <|> elim options.allowed_file_roots [
      | none ↦ none
      | some roots ↦
          refuse_if (has_roots options.allowed_file_roots && outside_roots fs roots file)
            file_outside_roots
    ]

unfoldable pub file_error :
    FileSystem → ConnectionSpec → DynamicConnectionOptions → Option SpecError
unfolding file_allowed_error
file_error fs spec options =
    refuse_if (is_nil (trimmed spec.database)) missing_file_path
    <|> file_allowed_error fs (trimmed spec.database) options

-- `none` is the return without an error.
unfoldable pub assert_spec_allowed :
    FileSystem → ConnectionSpec → DynamicConnectionOptions → Option SpecError
assert_spec_allowed fs spec options = elim (engine_defaults spec.engine) [
  | none ↦ some unknown_engine
  | some defaults ↦
      refuse_if (is_nil (trimmed spec.name)) missing_name
      <|> (if defaults.uses_file_path
          then file_error fs spec options
          else if defaults.uses_uri
          then uri_error spec options
          else host_error spec options)
]
