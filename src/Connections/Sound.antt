-- ===== src/Connections/Sound.antt =====
-- What `assertSpecAllowed` lets through.
use ask_sql.Prelude.{
  ℕ, suc, ◌*◌, ◌/◌, ◌%◌, ◌≤◌, ◌<◌, Bool, true, false, not, ◌&&◌, Option, none, some, List, [], ◌∷◌,
  Text, to_lower_case, has→Member, Member, at_head, further, All, ltb, ◌==◌, ◌<|>◌, <|>_none,
  ||_false, Bool-cases, Option-cases, ◌≡◌, ◌⊎◌, refl, inl, inr, ap, arith,
}
use mathlib.Core.Path
use native.Mathlib.Nat.{div-add-mod'}
use ask_sql.Json.{Num, ratio, nan, infinite}
use ask_sql.Regex.{is_nil}
use ask_sql.Connections.{
  ConnectionSpec, DynamicConnectionOptions, SpecError, missing_name, missing_host, bad_host,
  link_local_host, host_not_allowed, bad_port, missing_database, missing_uri, bad_mongo_scheme,
  embedded_credentials, link_local_mongo_host, mongo_host_not_allowed, missing_file_path,
  file_engines_off, file_outside_roots, EngineDefaults, engine_defaults, trimmed, refuse_if,
  is_not_allowed, has_bad_host_unit, is_bad_port, mongo_hosts_error, uri_error, host_error, is_on,
  has_roots, file_allowed_error, file_error, assert_spec_allowed,
}
use ask_sql.Connections.Address.{is_link_local}
use ask_sql.Connections.Address.Spelling.{Address, Address-to_lower_case}
use ask_sql.Connections.Address.RoundTrip.{Groups}
use ask_sql.Connections.Address.LinkLocal.{is_link_local_iff}
use ask_sql.Connections.Uri.{has_mongo_scheme, has_embedded_credentials, mongo_uri_hosts}
use ask_sql.Connections.Named.{NamesHost, mongo_uri_hosts-NamesHost}
use ask_sql.Connections.Credentials.{HasCredentials, has_embedded_credentials-HasCredentials}
use ask_sql.Connections.Files.{FileSystem, real_path_or, is_inside, outside_roots}

-- The text is no spelling of an address 169.254.c.d.
abbrev pub IsNoMetadataAddress : Text → Type 0
IsNoMetadataAddress host =
    (ns : List ℕ) (c d : ℕ) → Groups 169 254 c d ns → c < 256 → d < 256 → Address host ns → ⊥

abbrev pub IsListed : Option (List Text) → Text → Type 0
IsListed none host = Unit
IsListed (some hosts) host = Member host hosts

abbrev pub IsHostSafe : DynamicConnectionOptions → Text → Type 0
IsHostSafe options host = IsNoMetadataAddress host × IsListed options.allowed_hosts host

-- A host of a connection string is compared with the list in lower case.
abbrev pub IsUriHostSafe : DynamicConnectionOptions → Text → Type 0
IsUriHostSafe options host =
    IsNoMetadataAddress host × IsListed options.allowed_hosts (to_lower_case host)

-- No port, or a whole number from 1 to 65535.
abbrev pub IsPort : Option Num → Type 0
IsPort none = Unit
IsPort (some port) = (n : ℕ) × (d : ℕ) × (port ≡ ratio false (n * suc d) d) × (1 ≤ n) × (n ≤ 65535)

abbrev pub IsBelow : FileSystem → Text → List Text → Type 0
IsBelow fs file roots =
    (root : Text) × Member root roots
    × (is_inside fs.separator (real_path_or fs (fs.resolve_path root))
          (real_path_or fs (fs.resolve_path file))
        ≡ true)

-- A client may name a file where that is turned on or roots are given; with roots, below one of them.
abbrev pub IsFileSafe : FileSystem → DynamicConnectionOptions → Text → Type 0
IsFileSafe fs options file =
    ((is_on options.allow_file_engines ≡ true) ⊎ (has_roots options.allowed_file_roots ≡ true))
    × ((roots : List Text)
        → options.allowed_file_roots ≡ some roots
        → has_roots options.allowed_file_roots ≡ true
        → IsBelow fs file roots)

pub data IsSafe (fs : FileSystem) (spec : ConnectionSpec) (options : DynamicConnectionOptions)
    (defaults : EngineDefaults) : Type 0 where
  host_safe :
      defaults.uses_file_path ≡ false
      → defaults.uses_uri ≡ false
      → IsHostSafe options (trimmed spec.host)
      → IsPort spec.port
      → IsSafe fs spec options defaults
  uri_safe :
      defaults.uses_uri ≡ true
      → ((host : Text) → NamesHost (trimmed spec.uri) host → IsUriHostSafe options host)
      → (HasCredentials (trimmed spec.uri) → ⊥)
      → IsSafe fs spec options defaults
  file_safe :
      defaults.uses_file_path ≡ true
      → IsFileSafe fs options (trimmed spec.database)
      → IsSafe fs spec options defaults

refuse_if-none : (b : Bool) (e : SpecError) → refuse_if b e ≡ none → b ≡ false
refuse_if-none true e h = cc
refuse_if-none false e h = refl

-- A check that is passed in a chain of checks, and the rest of the chain.
passed :
    (b : Bool) (e : SpecError) {rest : Option SpecError}
    → (refuse_if b e <|> rest) ≡ none
    → (b ≡ false) × (rest ≡ none)
passed b e {rest} h = let (p, q) = <|>_none (refuse_if b e) rest h in (refuse_if-none b e p, q)

second_false : (b c : Bool) → b ≡ true → (b && c) ≡ false → c ≡ false
second_false b c e h = ground arith

not-false : (b c : Bool) → b ≡ false → (not b && c) ≡ false → c ≡ false
not-false b c e h = ground arith

IsNoMetadataAddress-is_link_local :
    (host : Text) → is_link_local host ≡ false → IsNoMetadataAddress host
IsNoMetadataAddress-is_link_local host h ns c d g hc hd spelled =
    let there = (is_link_local_iff spelled g (omega arith) (omega arith) hc hd).1 (refl, refl) in cc

IsListed-is_not_allowed :
    (allowed : Option (List Text)) (host : Text)
    → is_not_allowed allowed host ≡ false
    → IsListed allowed host
IsListed-is_not_allowed none host h = tt
IsListed-is_not_allowed (some hosts) host h = has→Member hosts host (ground arith)

is_bad_port-IsPort : (port : Option Num) → is_bad_port port ≡ false → IsPort port
unfolding is_bad_port
is_bad_port-IsPort none h = tt
is_bad_port-IsPort (some nan) h = cc
is_bad_port-IsPort (some (infinite s)) h = cc
is_bad_port-IsPort (some (ratio true m d)) h = cc
is_bad_port-IsPort (some (ratio false m d)) h =
    let (whole, range) = ||_false (not (m % suc d == 0)) _ h in
    let (low, high) = ||_false (ltb m (suc d)) _ range in
    let none_left : m % suc d ≡ 0 = ground arith in
    let split = div-add-mod' m (suc d) in
    let same : m ≡ m / suc d * suc d = omega arith in
    let at_least : suc d ≤ m = ground arith in
    let at_most : m ≤ 65535 * suc d = ground arith in
    (m / suc d, d, ap (λ k. ratio false k d) same, grind arith, grind arith)

mongo_hosts_error-All :
    (options : DynamicConnectionOptions) (hosts : List Text)
    → mongo_hosts_error options.allowed_hosts hosts ≡ none
    → All (IsHostSafe options) hosts
unfolding mongo_hosts_error
mongo_hosts_error-All options [] h = tt
mongo_hosts_error-All options (x ∷ xs) h =
    let (local, h') = passed (is_link_local x) link_local_mongo_host h in
    let (listed, rest) =
      passed (is_not_allowed options.allowed_hosts x) mongo_host_not_allowed h' in
    (
      (
        IsNoMetadataAddress-is_link_local x local,
        IsListed-is_not_allowed options.allowed_hosts x listed,
      ),
      mongo_hosts_error-All options xs rest,
    )

outside_roots-IsBelow :
    (fs : FileSystem) (roots : List Text) (file : Text)
    → outside_roots fs roots file ≡ false
    → IsBelow fs file roots
unfolding outside_roots
outside_roots-IsBelow fs [] file h = cc
outside_roots-IsBelow fs (root ∷ roots) file h =
    let base = real_path_or fs (fs.resolve_path root) in
    let path = real_path_or fs (fs.resolve_path file) in
    elim (Bool-cases (is_inside fs.separator base path)) [
      | inl e ↦ (root, at_head refl, e)
      | inr e ↦
          let rest : outside_roots fs roots file ≡ false =
            not-false (is_inside fs.separator base path) (outside_roots fs roots file) e h in
          let (r, m, e') = outside_roots-IsBelow fs roots file rest in (r, further m, e')
    ]

file_error-IsFileSafe :
    (fs : FileSystem) (spec : ConnectionSpec) (options : DynamicConnectionOptions)
    → file_error fs spec options ≡ none
    → IsFileSafe fs options (trimmed spec.database)
unfolding file_error file_allowed_error
file_error-IsFileSafe fs spec options h =
    let file = trimmed spec.database in
    let (_, h') = passed (is_nil file) missing_file_path h in
    let (on, rest) =
      passed (not (is_on options.allow_file_engines) && not (has_roots options.allowed_file_roots))
        file_engines_off h' in
    (
      either_on (is_on options.allow_file_engines) (has_roots options.allowed_file_roots) on,
      λ roots e some_root.
          let rest' = rw e at rest in
          let check = has_roots options.allowed_file_roots && outside_roots fs roots file in
          let outside = refuse_if-none check file_outside_roots rest' in
          outside_roots-IsBelow fs roots file
            (second_false (has_roots options.allowed_file_roots) _ some_root outside),
    )
  where
    either_on : (a b : Bool) → (not a && not b) ≡ false → (a ≡ true) ⊎ (b ≡ true)
    either_on true b h = inl refl
    either_on false true h = inr refl
    either_on false false h = cc

host_error-safe :
    (spec : ConnectionSpec) (options : DynamicConnectionOptions)
    → host_error spec options ≡ none
    → IsHostSafe options (trimmed spec.host) × IsPort spec.port
unfolding host_error
host_error-safe spec options h =
    let host = trimmed spec.host in
    let (_, h1) = passed (is_nil host) missing_host h in
    let (_, h2) = passed (has_bad_host_unit host) bad_host h1 in
    let (local, h3) = passed (is_link_local host) link_local_host h2 in
    let (listed, h4) = passed (is_not_allowed options.allowed_hosts host) host_not_allowed h3 in
    let (port, _) = passed (is_bad_port spec.port) bad_port h4 in
    (
      (
        IsNoMetadataAddress-is_link_local host local,
        IsListed-is_not_allowed options.allowed_hosts host listed,
      ),
      is_bad_port-IsPort spec.port port,
    )

All-Member : (P : Text → Type 0) {h : Text} (hs : List Text) → All P hs → Member h hs → P h
All-Member P [] all m = elim m [ ]
All-Member P (w ∷ hs) all (at_head e) = Path.subst P e all.0
All-Member P (w ∷ hs) all (further m) = All-Member P hs all.1 m

-- A host that the connection string names is among those that are checked.
NamesHost-safe :
    (options : DynamicConnectionOptions) (uri host : Text)
    → All (IsHostSafe options) (mongo_uri_hosts uri)
    → NamesHost uri host
    → IsUriHostSafe options host
NamesHost-safe options uri host all named =
    let (no_address, listed) =
      All-Member (IsHostSafe options) (mongo_uri_hosts uri) all
        (mongo_uri_hosts-NamesHost uri host named) in
    (λ ns c d g hc hd spelled. no_address ns c d g hc hd (Address-to_lower_case spelled), listed)

uri_error-safe :
    (spec : ConnectionSpec) (options : DynamicConnectionOptions)
    → uri_error spec options ≡ none
    → All (IsHostSafe options) (mongo_uri_hosts (trimmed spec.uri))
      × (has_embedded_credentials (trimmed spec.uri) ≡ false)
unfolding uri_error
uri_error-safe spec options h =
    let uri = trimmed spec.uri in
    let (_, h1) = passed (is_nil uri) missing_uri h in
    let (_, h2) = passed (not (has_mongo_scheme uri)) bad_mongo_scheme h1 in
    let (plain, h3) = passed (has_embedded_credentials uri) embedded_credentials h2 in
    let (_, h4) = passed (is_nil (trimmed spec.database)) missing_database h3 in
    (mongo_hosts_error-All options (mongo_uri_hosts uri) h4, plain)

-- If `assertSpecAllowed` accepts a specification, its engine is one of the six, and one of three
-- holds. The engine takes a host: it is no spelling of an address 169.254.c.d (in one to four
-- numbers, each decimal, hexadecimal or octal, with letters of either case), is on the list of
-- allowed hosts, if there is one, and a port is a whole number from 1 to 65535. The engine takes a
-- connection string: each host name or IPv4 literal in its list of hosts is no such spelling either,
-- and in lower case is on that list (the string being `mongodb://` or `mongodb+srv://`, a user part
-- without a slash or question mark up to an at sign, the list, and a path or query); and it has no
-- name and password, both without a slash or at sign, with a colon between them, between two slashes
-- and an at sign. Or the engine takes a file: that is turned on or there are roots, and then the
-- file lies below one of the roots.
pub assert_spec_allowed-IsSafe :
    (fs : FileSystem) (spec : ConnectionSpec) (options : DynamicConnectionOptions)
    → assert_spec_allowed fs spec options ≡ none
    → (defaults : EngineDefaults) × (engine_defaults spec.engine ≡ some defaults)
      × IsSafe fs spec options defaults
unfolding assert_spec_allowed
assert_spec_allowed-IsSafe fs spec options h = elim (Option-cases (engine_defaults spec.engine)) [
  | inl e ↦ cc (rw (e, assert_spec_allowed) at h)
  | inr (defaults, e) ↦
      let h' = rw (e, assert_spec_allowed) at h in
      let (_, rest) = passed (is_nil (trimmed spec.name)) missing_name h' in
      elim (Bool-cases defaults.uses_file_path) [
        | inl f ↦
            let r : file_error fs spec options ≡ none = rw f at rest in
            (defaults, e, file_safe f (file_error-IsFileSafe fs spec options r))
        | inr f ↦ elim (Bool-cases defaults.uses_uri) [
          | inl u ↦
              let r : uri_error spec options ≡ none = rw (f, u) at rest in
              let (hosts, plain) = uri_error-safe spec options r in
              let secret : HasCredentials (trimmed spec.uri) → ⊥ =
                λ c. let found = has_embedded_credentials-HasCredentials _ c in cc in
              (
                defaults,
                e,
                uri_safe u (λ host n. NamesHost-safe options (trimmed spec.uri) host hosts n)
                    secret,
              )
          | inr u ↦
              let r : host_error spec options ≡ none = rw (f, u) at rest in
              let (host, port) = host_error-safe spec options r in
              (defaults, e, host_safe f u host port)
        ]
      ]
]
