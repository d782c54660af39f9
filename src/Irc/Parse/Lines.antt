-- ===== src/Irc/Parse/Lines.antt =====
-- The line that another user's client has sent, and the source in it.
use mx3bot.Base.{ℕ, ◌≡◌, ◌≢◌, ◌<◌, refl, true, false, none, some, [], ◌∷◌, ◌++◌, leb, arith, length}
use mx3bot.CString.{Str}
use mx3bot.Strtok.{IsFree, is_in, strtok, strtok-IsFree, strtok_all}
use mx3bot.Irc.Parse.{Source, source_of, space}

-- nick!user@host
abbrev pub ident_of : Str → Str → Str → Str
ident_of nick user host = nick ++ b'!' ∷ (user ++ b'@' ∷ host)

-- `:ident command rest`
abbrev pub line_of : Str → Str → Str → Str
line_of ident command rest = (b':' ∷ ident) ++ b' ' ∷ (command ++ b' ' ∷ rest)

abbrev pub user_source : Str → Str → Str → Source
user_source nick user host = record {
  server = none;
  ident = some (ident_of nick user host);
  nick = some nick;
  user = some user;
  host = some host;
}

-- The parts of an ident are not empty, and no part has the byte that ends it.
pub record IsIdent (nick user host : Str) : Type 0 where
  pub nick_some : nick ≢ []
  pub user_some : user ≢ []
  pub host_some : host ≢ []
  pub nick_free : IsFree (b'!' ∷ []) nick
  pub user_free : IsFree (b'@' ∷ []) user
  pub free : IsFree space (ident_of nick user host)
  pub fits : length (ident_of nick user host) < 256

-- A line of less than 512 bytes with nothing to strip at its end.
pub record IsLine (line : Str) : Type 0 where
  pub no_return : IsFree (b'\r' ∷ []) line
  pub no_newline : IsFree (b'\n' ∷ []) line
  pub fits : length line < 512

pub strtok_until :
    (delims s : Str) (d : ℕ) (rest : Str)
    → s ≢ []
    → IsFree delims s
    → is_in delims d ≡ true
    → strtok (s ++ d ∷ rest) delims ≡ (some s, rest)
strtok_until delims [] d rest h free e = absurd (h refl)
strtok_until delims (c ∷ s) d rest h free e = strtok-IsFree delims c s d rest free e

pub strtok_rest : (s : Str) → s ≢ [] → strtok s [] ≡ (some s, [])
strtok_rest [] h = absurd (h refl)
strtok_rest (c ∷ s) h = strtok_all c s

pub source_of-IsIdent :
    (nick user host : Str)
    → IsIdent nick user host
    → source_of (ident_of nick user host) ≡ some (user_source nick user host)
unfolding source_of is_in
source_of-IsIdent nick user host h =
    let fits : leb 256 (length (ident_of nick user host)) ≡ false = ground (arith, h.fits) in
    rw
      (
        fits,
        strtok_until (b'!' ∷ []) nick b'!' (user ++ b'@' ∷ host) h.nick_some h.nick_free refl,
        strtok_until (b'@' ∷ []) user b'@' host h.user_some h.user_free refl,
        strtok_rest host h.host_some,
      )
      refl
