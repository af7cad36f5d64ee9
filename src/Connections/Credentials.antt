-- ===== src/Connections/Credentials.antt =====
-- What `hasEmbeddedCredentials` finds: a user name and a password in front of an at sign.
use ask_sql.Prelude.{ℕ, Bool, true, Option, some, [], ◌∷◌, ◌++◌, Text, All, ◌≡◌, ◌≢◌, refl, arith}
use ask_sql.Strip.Scan.{last_of}
use ask_sql.Regex.{unit, many}
use ask_sql.Regex.Sound.{Match, nothing, one, no_more, once_more, both, place, test_iff}
use ask_sql.Connections.Uri.{no_credentials_end, credentials, has_embedded_credentials}

abbrev pub IsPart : ℕ → Type 0
IsPart c = (c ≢ b'/') × (c ≢ b'@')

-- The text has two slashes, a name, a colon, a password and an at sign in a row, and neither the name
-- nor the password has a slash or an at sign.
pub record HasCredentials (uri : Text) : Type 0 where
  pub front : Text
  pub name : Text
  pub password : Text
  pub behind : Text
  pub plain_name : All IsPart name
  pub plain_password : All IsPart password
  pub split : uri ≡ front ++ b'/' ∷ b'/' ∷ (name ++ b':' ∷ (password ++ b'@' ∷ behind))

unit-Match :
    (class : ℕ → Bool) (before : Option ℕ) (c : ℕ) (s : Text)
    → class c ≡ true
    → Match (unit class) (place before (c ∷ s)) (place (some c) s)
unit-Match class before c s h = one (rw h refl)

IsPart-no_credentials_end : (c : ℕ) → IsPart c → no_credentials_end c ≡ true
IsPart-no_credentials_end c h = ground arith

many-Match :
    (before : Option ℕ) (u s : Text)
    → All IsPart u
    → Match (many (unit no_credentials_end)) (place before (u ++ s)) (place (last_of before u) s)
many-Match before [] s h = no_more
many-Match before (c ∷ u) s (h, hs) =
    once_more (unit-Match no_credentials_end before c (u ++ s) (IsPart-no_credentials_end c h))
      (omega arith) (many-Match (some c) u s hs)

pub has_embedded_credentials-HasCredentials :
    (uri : Text) → HasCredentials uri → has_embedded_credentials uri ≡ true
has_embedded_credentials-HasCredentials uri h =
    let secret = h.password ++ b'@' ∷ h.behind in
    (test_iff credentials uri).1 (
      h.front,
      b'/' ∷ b'/' ∷ (h.name ++ b':' ∷ secret),
      place (some b'@') h.behind,
      h.split,
      both (both (unit-Match _ _ _ _ refl) (both (unit-Match _ _ _ _ refl) nothing)) (
          both (many-Match _ h.name (b':' ∷ secret) h.plain_name) (
            both (unit-Match _ _ _ _ refl) (
              both (many-Match _ h.password (b'@' ∷ h.behind) h.plain_password)
                (unit-Match _ _ _ _ refl)))),
    )
