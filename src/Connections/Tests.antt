-- ===== src/Connections/Tests.antt =====
-- Runs of the checks on connection details, and their theorems at concrete details.
use ask_sql.Prelude.{
  suc, ◌≤◌, true, false, none, some, [], ◌∷◌, ◌++◌, Text, codes, length, take, text_eq, drop, ◌≡◌,
  ◌≢◌, refl, inr, arith, skip_space, to_lower_case, starts_with, if◌then◌else◌, is_space, includes,
}
use ask_sql.Json.{ratio}
use ask_sql.Regex.{match, rounds, exec, exec_from}
use ask_sql.Sql.Rewrite.{trim_end}
use ask_sql.Connections.{
  ConnectionSpec, DynamicConnectionOptions, EngineDefaults, engine_defaults, assert_spec_allowed,
  host_error, has_bad_host_unit, is_bad_port,
}
use ask_sql.Connections.Address.{
  split, every, is_hex_literal, is_octal_literal, is_decimal_literal, digit_value, parse_int,
  part_value, part_values, octets_below, exceeds_octet, pop, octets_of, ipv4_octets, without_close,
  unmapped, is_link_local, is_link_local_literal,
}
use ask_sql.Connections.Address.Spelling.{
  figure, small, capital, single, more, in_hexadecimal, in_decimal, Address, last, dot,
}
use ask_sql.Connections.Address.RoundTrip.{two, ipv4_octets-Groups}
use ask_sql.Connections.Uri.{before, after_last, host_name, not_empty, mongo_uri_hosts}
use ask_sql.Connections.Named.{NamesHost, plain, with_user, with_path, with_port, in_front}
use ask_sql.Connections.Credentials.{HasCredentials}
use ask_sql.Connections.Files.{FileSystem}
use ask_sql.Connections.Sound.{IsSafe, assert_spec_allowed-IsSafe}

octets_run :
    (ipv4_octets (codes "169.16689918") ≡ some (169 ∷ 254 ∷ 170 ∷ 254 ∷ []))
    × (ipv4_octets (codes "0xA9FEA9FE") ≡ some (169 ∷ 254 ∷ 169 ∷ 254 ∷ []))
    × (ipv4_octets (codes "0251.0376.0251.0376") ≡ some (169 ∷ 254 ∷ 169 ∷ 254 ∷ []))
    × (ipv4_octets (codes "1.2.3.256") ≡ none)
    × (ipv4_octets (codes "db.internal") ≡ none)
unfolding ipv4_octets split part_values part_value is_hex_literal is_octal_literal
    is_decimal_literal every parse_int digit_value octets_of pop exceeds_octet octets_below
octets_run = (refl, refl, refl, refl, refl)

-- An IPv4 address that an IPv6 literal carries is known in its dotted form and not in its hexadecimal
-- one.
mapped_run :
    (is_link_local (codes "[::ffff:169.254.169.254]") ≡ true)
    × (is_link_local (codes "::ffff:a9fe:a9fe") ≡ false)
unfolding is_link_local is_link_local_literal unmapped without_close ipv4_octets split part_values
    part_value is_hex_literal is_octal_literal is_decimal_literal every parse_int digit_value
    octets_of pop exceeds_octet octets_below skip_space trim_end to_lower_case starts_with text_eq
    is_space
mapped_run = (refl, refl)

-- A password with a slash in it hides the host that stands behind the credentials.
hidden_host_run : mongo_uri_hosts (codes "mongodb://u:p/x@169.254.169.254/db") ≡ codes "u" ∷ []
unfolding mongo_uri_hosts before after_last host_name not_empty split exec exec_from match rounds
    skip_space trim_end to_lower_case is_space includes
hidden_host_run = refl

hosts_run :
    mongo_uri_hosts (codes "mongodb+srv://a%40b@One.Example:27017,[fe80::1]:5/x")
    ≡ codes "one.example" ∷ codes "fe80::1" ∷ []
unfolding mongo_uri_hosts before after_last host_name not_empty split exec exec_from match rounds
    skip_space trim_end to_lower_case is_space includes
hosts_run = refl

-- A file system in which only the root folder has a real path, and every path has the root as parent.
abbrev root_only : FileSystem
root_only = record {
  real_path = λ p. if text_eq p (codes "/") then some (codes "/") else none;
  resolve_path = λ p. p;
  dirname = λ p. take 1 p;
  basename = λ p. drop 1 p;
  join = λ a b. a ++ b;
  separator = codes "/";
}

abbrev options : DynamicConnectionOptions
options = record {
  enabled = true;
  allowed_hosts = none;
  allowed_file_roots = some (codes "/" ∷ []);
  allow_file_engines = none;
}

abbrev spec : Text → ConnectionSpec
spec host = record {
  name = some (codes "db");
  engine = codes "postgres";
  host = some host;
  port = some (ratio false 5432 0);
  database = some (codes "shop");
  uri = none;
}

spec_allowed : assert_spec_allowed root_only (spec (codes "db1")) options ≡ none
unfolding assert_spec_allowed engine_defaults host_error has_bad_host_unit is_bad_port is_link_local
    is_link_local_literal unmapped without_close ipv4_octets split part_values part_value
    is_hex_literal is_octal_literal is_decimal_literal every skip_space trim_end to_lower_case
    starts_with text_eq is_space
spec_allowed = refl

shorter_parent : (t : Text) → take 1 t ≢ t → suc (length (take 1 t)) ≤ length t
shorter_parent [] n = absurd (n refl)
shorter_parent (c ∷ []) n = absurd (n refl)
shorter_parent (c ∷ d ∷ t) n = omega arith

assert_spec_allowed-IsSafe_example :
    (defaults : EngineDefaults) × (engine_defaults (codes "postgres") ≡ some defaults)
    × IsSafe root_only (spec (codes "db1")) options defaults
assert_spec_allowed-IsSafe_example =
    assert_spec_allowed-IsSafe root_only (spec (codes "db1")) options spec_allowed

-- The second number is 16689662, as two small letters, four figures and a capital spell it.
mixed : Address (codes "169.0X00fea9Fe") (169 ∷ 16689662 ∷ [])
mixed =
    dot
      (in_decimal
        (more (figure 1 (omega arith) (omega arith)) (
          more (figure 6 (omega arith) (omega arith))
            (single (figure 9 (omega arith) (omega arith)))))
        (λ e. absurd (omega arith)))
      (last (
        in_hexadecimal (inr refl) (
          more (figure 0 (omega arith) (omega arith)) (
            more (figure 0 (omega arith) (omega arith)) (
              more (small 5 (omega arith)) (
                more (small 4 (omega arith)) (
                  more (small 0 (omega arith)) (
                    more (figure 9 (omega arith) (omega arith))
                      (more (capital 5 (omega arith)) (single (small 4 (omega arith))))))))))))

-- A connection string with a user, two hosts and a path names the first host.
names_run : NamesHost (codes "mongodb://u@db1:27,db2/x") (codes "db1")
unfolding is_space
names_run = record {
  scheme = codes "mongodb://";
  user = codes "u@";
  hosts = codes "db1:27,db2";
  tail = codes "/x";
  item = codes "db1:27";
  is_scheme = plain;
  is_user = with_user (codes "u") (ground arith);
  is_list = ground arith;
  is_tail = with_path;
  filled = λ e. cc;
  plain_host = ground arith;
  is_item = with_port (codes "27") (ground arith);
  is_among = in_front (codes "db2");
  joined = refl;
}

credentials_run : HasCredentials (codes "mongodb://u:p@db1/x")
credentials_run = record {
  front = codes "mongodb:";
  name = codes "u";
  password = codes "p";
  behind = codes "db1/x";
  plain_name = ground arith;
  plain_password = ground arith;
  split = refl;
}

ipv4_octets-Groups_example :
    ipv4_octets (codes "169.0X00fea9Fe") ≡ some (169 ∷ 254 ∷ 169 ∷ 254 ∷ [])
ipv4_octets-Groups_example =
    ipv4_octets-Groups {a = 169} {b = 254} {c = 169} {d = 254} mixed two (omega arith) (omega arith)
      (omega arith) (omega arith)
