-- ===== src/Connections/Named.antt =====
-- The hosts that a MongoDB connection string names, and that `mongoUriHosts` finds them.
use ask_sql.Prelude.{
  ℕ, Bool, false, ◌||◌, [], ◌∷◌, ◌++◌, Text, codes, ◌==◌, All, Member, at_head, further,
  begins_with, is_space, to_lower_case, map, append-nil, append_assoc, ◌≡◌, ◌≢◌, refl, sym, arith,
}
use mathlib.Core.Path
use ask_sql.Connections.Authority.{
  IsFree, before-IsFree, IsFree-imp, IsFree-append, IsFree-cons, after_last-IsFree,
  after_last-append, split-first, split-whole, trim-IsFree, Member-map, Member-not_empty,
  is_nil-to_lower_case,
}
use ask_sql.Regex.{exec, exec_from, match, rounds}
use ask_sql.Connections.Address.{split}
use ask_sql.Connections.Uri.{after_scheme, before, after_last, host_name, mongo_uri_hosts}

abbrev pub IsUserUnit : ℕ → Type 0
IsUserUnit c = (c ≢ b'/') × (c ≢ b'?')

-- A unit of a host or a port.
abbrev pub IsHostUnit : ℕ → Type 0
IsHostUnit c =
    (c ≢ b'/')
    × (c ≢ b'?')
    × (c ≢ b'@')
    × (c ≢ b',')
    × (c ≢ b':')
    × (c ≢ b'[')
    × (is_space c ≡ false)

-- What may stand in a list of hosts.
abbrev pub IsListUnit : ℕ → Type 0
IsListUnit c = (c ≢ b'/') × (c ≢ b'?') × (c ≢ b'@')

-- A host, or a host with a port.
pub data IsItem (host : Text) : Text → Type 0 where
  no_port : IsItem host host
  with_port : (port : Text) → All IsHostUnit port → IsItem host (host ++ b':' ∷ port)

-- One of the items of a list with commas.
pub data IsAmong (item : Text) : Text → Type 0 where
  alone : IsAmong item item
  in_front : (s : Text) → IsAmong item (item ++ b',' ∷ s)
  behind :
      (w : Text) (s : Text) → All (λ c. c ≢ b',') w → IsAmong item s → IsAmong item (w ++ b',' ∷ s)

pub data IsScheme : Text → Type 0 where
  plain : IsScheme (codes "mongodb://")
  seed_list : IsScheme (codes "mongodb+srv://")

pub data IsUser : Text → Type 0 where
  no_user : IsUser []
  with_user : (u : Text) → All IsUserUnit u → IsUser (u ++ b'@' ∷ [])

pub data IsTail : Text → Type 0 where
  no_tail : IsTail []
  with_path : {s : Text} → IsTail (b'/' ∷ s)
  with_query : {s : Text} → IsTail (b'?' ∷ s)

-- The connection string is a scheme, a user or none, a list of hosts, and a path or query or none; and
-- the host, a name or an IPv4 literal, is one of the list, with a port or without.
pub record NamesHost (uri host : Text) : Type 0 where
  pub scheme : Text
  pub user : Text
  pub hosts : Text
  pub tail : Text
  pub item : Text
  pub is_scheme : IsScheme scheme
  pub is_user : IsUser user
  pub is_list : All IsListUnit hosts
  pub is_tail : IsTail tail
  pub filled : host ≢ []
  pub plain_host : All IsHostUnit host
  pub is_item : IsItem host item
  pub is_among : IsAmong item hosts
  pub joined : uri ≡ scheme ++ (user ++ (hosts ++ tail))

after_scheme-IsScheme :
    {scheme : Text} (s : Text) → IsScheme scheme → after_scheme (scheme ++ s) ≡ s
unfolding exec exec_from match rounds
after_scheme-IsScheme s plain = refl
after_scheme-IsScheme s seed_list = refl

IsAmong-split :
    {item s : Text} → IsFree (λ d. d == b',') item → IsAmong item s → Member item (split b',' s)
IsAmong-split {item} free alone = rw (split-whole b',' item free) (at_head refl)
IsAmong-split {item} free (in_front s) = rw (split-first b',' item s free) (at_head refl)
IsAmong-split {item} free (behind w s h m) =
    let no_comma = IsFree-imp (λ c. c ≢ b',') (λ d. d == b',') (λ c n. ground arith) w h in
    rw (split-first b',' w s no_comma) (further (IsAmong-split free m))

IsHostUnit-IsFree :
    (p : ℕ → Bool) (f : (c : ℕ) → IsHostUnit c → p c ≡ false) (s : Text)
    → All IsHostUnit s
    → IsFree p s
IsHostUnit-IsFree p f s h = IsFree-imp IsHostUnit p f s h

no_bracket :
    (host rest : Text) → host ≢ [] → All IsHostUnit host → begins_with b'[' (host ++ rest) ≡ false
no_bracket [] rest filled h = absurd (filled refl)
no_bracket (c ∷ host) rest filled (h, hs) = ground arith

-- The item without its port, in lower case.
host_name-IsItem :
    {host item : Text}
    → host ≢ []
    → All IsHostUnit host
    → IsItem host item
    → host_name item ≡ to_lower_case host
unfolding host_name
host_name-IsItem {host} filled h no_port =
    let spaces = IsHostUnit-IsFree is_space (λ c u. u.6) host h in
    let colons = IsHostUnit-IsFree (λ d. d == b':') (λ c u. ground arith) host h in
    let whole = before-IsFree (λ d. d == b':') host [] colons (unfold before in refl) in
    let shown : before (λ d. d == b':') host ≡ host =
      Path.subst (λ t. before (λ d. d == b':') t ≡ host) (append-nil host) whole in
    let bracket =
      Path.subst (λ t. begins_with b'[' t ≡ false) (append-nil host)
        (no_bracket host [] filled h) in
    rw (trim-IsFree host spaces, bracket, shown, trim-IsFree host spaces) refl
host_name-IsItem {host} filled h (with_port port k) =
    let spaces = IsHostUnit-IsFree is_space (λ c u. u.6) host h in
    let colons = IsHostUnit-IsFree (λ d. d == b':') (λ c u. ground arith) host h in
    let port_spaces = IsHostUnit-IsFree is_space (λ c u. u.6) port k in
    let all_spaces : IsFree is_space (host ++ b':' ∷ port) =
      IsFree-append is_space host (b':' ∷ port) spaces
        (IsFree-cons is_space b':' port (unfold is_space in refl) port_spaces) in
    let shown = before-IsFree (λ d. d == b':') host (b':' ∷ port) colons (unfold before in refl) in
    let bracket = no_bracket host (b':' ∷ port) filled h in
    rw (trim-IsFree (host ++ b':' ∷ port) all_spaces, bracket, shown, trim-IsFree host spaces) refl

item_commas :
    {host item : Text} → All IsHostUnit host → IsItem host item → IsFree (λ d. d == b',') item
item_commas {host} h no_port = IsHostUnit-IsFree (λ d. d == b',') (λ c u. ground arith) host h
item_commas {host} h (with_port port k) =
    IsFree-append (λ d. d == b',') host (b':' ∷ port)
      (IsHostUnit-IsFree (λ d. d == b',') (λ c u. ground arith) host h)
      (IsFree-cons (λ d. d == b',') b':' port refl
        (IsHostUnit-IsFree (λ d. d == b',') (λ c u. ground arith) port k))

abbrev ends_authority : ℕ → Bool
ends_authority d = d == b'/' || d == b'?'

user-IsFree : {user : Text} → IsUser user → IsFree ends_authority user
unfolding IsFree
user-IsFree no_user = tt
user-IsFree (with_user u h) =
    IsFree-append ends_authority u (b'@' ∷ [])
      (IsFree-imp IsUserUnit ends_authority (λ c n. ground arith) u h) (refl, tt)

tail_stops : {tail : Text} → IsTail tail → before ends_authority tail ≡ []
unfolding before
tail_stops no_tail = refl
tail_stops with_path = refl
tail_stops with_query = refl

after_last-IsUser :
    {user : Text} (hosts : Text)
    → IsUser user
    → IsFree (λ d. d == b'@') hosts
    → after_last b'@' (user ++ hosts) ≡ hosts
after_last-IsUser hosts no_user h = after_last-IsFree b'@' hosts h
after_last-IsUser hosts (with_user u k) h =
    Path.subst (λ t. after_last b'@' t ≡ hosts) (sym (append_assoc u (b'@' ∷ []) hosts))
      (after_last-append b'@' u hosts h)

-- A host that the connection string names is found, in lower case.
pub mongo_uri_hosts-NamesHost :
    (uri host : Text) → NamesHost uri host → Member (to_lower_case host) (mongo_uri_hosts uri)
unfolding mongo_uri_hosts
mongo_uri_hosts-NamesHost uri host n =
    let list_free = IsFree-imp IsListUnit ends_authority (λ c u. ground arith) n.hosts n.is_list in
    let at_free = IsFree-imp IsListUnit (λ d. d == b'@') (λ c u. ground arith) n.hosts n.is_list in
    let rest = after_scheme-IsScheme (n.user ++ (n.hosts ++ n.tail)) n.is_scheme in
    let scheme_off : after_scheme uri ≡ n.user ++ (n.hosts ++ n.tail) = rw n.joined rest in
    let authority : before ends_authority (n.user ++ (n.hosts ++ n.tail)) ≡ n.user ++ n.hosts =
      Path.subst (λ t. before ends_authority t ≡ n.user ++ n.hosts)
        (append_assoc n.user n.hosts n.tail)
        (before-IsFree ends_authority (n.user ++ n.hosts) n.tail
          (IsFree-append ends_authority n.user n.hosts (user-IsFree n.is_user) list_free)
          (tail_stops n.is_tail)) in
    let found = IsAmong-split (item_commas n.plain_host n.is_item) n.is_among in
    let named = host_name-IsItem n.filled n.plain_host n.is_item in
    let there : Member (to_lower_case host) (map host_name (split b',' n.hosts)) =
      Path.subst (λ t. Member t (map host_name (split b',' n.hosts))) named
        (Member-map host_name (split b',' n.hosts) found) in
    rw (scheme_off, authority, after_last-IsUser n.hosts n.is_user at_free)
      (Member-not_empty (map host_name (split b',' n.hosts)) (is_nil-to_lower_case host n.filled)
        there)
