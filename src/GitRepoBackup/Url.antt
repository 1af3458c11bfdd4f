-- ===== src/GitRepoBackup/Url.antt =====
-- URLs of Git repositories: internal/config/url.go and url_validation.go. A text is the list of
-- its code points. net/url, net, strconv and the Unicode tables are a parameter.
pub mod Safe
mod Tests
use k8s_at_home.Prelude.{
  ℕ, String, Bool, true, false, not, ◌&&◌, ◌||◌, Option, none, some, List, [], ◌∷◌, ltb, leb, ◌==◌,
  if◌then◌else◌,
}
use k8s_at_home.Prelude.Bytes.{
  Bytes, codes, eqb, has_prefix, trim_prefix, holds, contains, split, cut,
}
use k8s_at_home.Prelude.Checks.{Result, ok, err, ◌>>=◌, ◌>>◌, refuse_if, each}

abbrev pub Text : Type 0
Text = Bytes

pub record GitUrl : Type 0 where
  pub scheme : Text
  pub user : Text
  pub host : Text
  pub port : Text
  pub path : Text

-- url.URL, the fields that are read; a user is a name and whether there is a password.
pub record ParsedUrl : Type 0 where
  pub scheme : Text
  pub opaque : Text
  pub user : Option (Text × Bool)
  pub hostname : Text
  pub port : Text
  pub path : Text
  pub raw_query : Text
  pub force_query : Bool
  pub fragment : Text
  pub raw_fragment : Text

pub record Platform : Type 0 where
  pub parse_url : Text → Option ParsedUrl
  pub is_ip : Text → Bool
  -- strconv.Atoi; a negative number counts as none
  pub atoi : Text → Option ℕ
  pub to_lower : Text → Text
  pub equal_fold : Text → Text → Bool
  pub is_space : ℕ → Bool
  pub is_letter_or_digit : ℕ → Bool

abbrev pub blank : Text → Bool
blank [] = true
blank (c ∷ s) = false

abbrev pub letter_or_digit : ℕ → Bool
letter_or_digit c = leb 97 c && leb c 122 || leb 65 c && leb c 90 || leb 48 c && leb c 57

unfoldable pub is_host_rune : ℕ → Bool
is_host_rune c = letter_or_digit c || c == b'.' || c == b'-' || c == b'_'

unfoldable pub validate_user : Text → Result (Unit {0})
unfolding is_host_rune
validate_user user = do
  refuse_if (has_prefix (codes "-") user) "user must not start with '-'"
  each (λ c. refuse_if (not (is_host_rune c)) "unsupported character in url user") user

abbrev pub port_number_bad : Option ℕ → Bool
port_number_bad none = true
port_number_bad (some p) = ltb p 1 || ltb 65535 p

-- strings.LastIndex at a code point: what is before the last one, and after it.
abbrev pub before_last : ℕ → Text → Option (Text × Text) → Option (Text × Text)
before_last c rest none = none
before_last c rest (some (head, tail)) = some (c ∷ head, tail)

abbrev pub cut_last : ℕ → Text → Option (Text × Text)
cut_last b [] = none
cut_last b (c ∷ s) =
    let later = cut_last b s in
    if holds b s then before_last c s later else if c == b then some ([], s) else none

module _ (platform : Platform) where
  unfoldable pub check_no_unsafe_runes : Text → Result (Unit {0})
  check_no_unsafe_runes raw =
      each
        (λ c. do
          refuse_if (ltb c 32 || c == 127) "control character in url"
          refuse_if (platform.is_space c) "whitespace in url"
          refuse_if (c == 92) "backslash in url")
        raw

  unfoldable pub validate_host : Text → Result (Unit {0})
  unfolding is_host_rune
  validate_host host = do
    refuse_if (has_prefix (codes "-") host) "host must not start with '-'"
    if holds b':' host
        then refuse_if (not (platform.is_ip host)) "invalid ipv6 host in url"
        else (do
          refuse_if (blank host) "empty host in url"
          each (λ c. refuse_if (not (is_host_rune c)) "unsupported character in url host") host)

  unfoldable pub path_rune : ℕ → Bool
  path_rune c =
      letter_or_digit c
      || c == b'/'
      || c == b'.'
      || c == b'_'
      || c == b'-'
      || c == b'~'
      || ltb 127 c && platform.is_letter_or_digit c

  abbrev pub dotted : Text → Bool
  dotted s = blank s || eqb s (codes ".") || eqb s (codes "..")

  unfoldable pub validate_repo_path : Text → Result (Unit {0})
  unfolding path_rune
  validate_repo_path path = do
    refuse_if (has_prefix (codes "-") path) "repository path must not start with '-'"
    each (λ s. refuse_if (dotted s) "repository path must not contain empty, '.', or '..' segments")
        (split b'/' path)
    each (λ c. refuse_if (not (path_rune c)) "unsupported character in repository path") path

  abbrev pub has_query : ParsedUrl → Bool
  has_query u =
      not (blank u.raw_query)
      || u.force_query
      || not (blank u.fragment)
      || not (blank u.raw_fragment)

  -- The checks of the host, the port and the path that the two schemes share.
  unfoldable pub locate : ParsedUrl → Text → Text → Result GitUrl
  unfolding validate_host validate_repo_path
  locate u scheme user =
      let repo_path = trim_prefix (codes "/") u.path in
      refuse_if (blank u.hostname) "empty host in url"
      >> validate_host u.hostname
      >> refuse_if (not (blank u.port) && port_number_bad (platform.atoi u.port))
          "invalid port in url"
      >> refuse_if (blank u.path) "empty path in url"
      >> refuse_if (blank repo_path) "empty repository path in url"
      >> validate_repo_path repo_path
      >> ok (record {
        scheme = scheme;
        user = user;
        host = u.hostname;
        port = u.port;
        path = repo_path;
      })

  unfoldable pub ssh_user : Option (Text × Bool) → Result Text
  unfolding validate_user
  ssh_user none = ok []
  ssh_user (some (name, has_password)) =
      refuse_if has_password "password in url"
      >> refuse_if (blank name) "empty user in url"
      >> validate_user name
      >> ok name

  unfoldable pub parse_ssh_scheme : Option ParsedUrl → Result GitUrl
  unfolding locate ssh_user
  parse_ssh_scheme none = err "unparseable ssh url"
  parse_ssh_scheme (some u) =
      refuse_if (not (platform.equal_fold u.scheme (codes "ssh"))) "non-ssh scheme"
      >> refuse_if (has_query u) "query or fragment in url"
      >> (ssh_user u.user >>= λ user. locate u (codes "ssh") user)

  abbrev pub has_user : Option (Text × Bool) → Bool
  has_user none = false
  has_user (some u) = true

  unfoldable pub parse_http_scheme : Option ParsedUrl → Result GitUrl
  unfolding locate
  parse_http_scheme none = err "unparseable https url"
  parse_http_scheme (some u) =
      refuse_if (not (platform.equal_fold u.scheme (codes "https"))) "unparseable https url"
      >> refuse_if (has_user u.user) "credentials in https url"
      >> refuse_if (not (blank u.opaque) || has_query u) "query or fragment in url"
      >> locate u (codes "https") []

  unfoldable pub scp_bracketed : Option (Text × Text) → Result (Text × Text)
  scp_bracketed none = err "unterminated ipv6 host in url"
  scp_bracketed (some (host, rest)) =
      refuse_if (not (platform.is_ip host)) "invalid ipv6 host in url"
      >> refuse_if (not (has_prefix (codes ":") rest)) "missing path separator after ipv6 host"
      >> ok (host, trim_prefix (codes ":") rest)

  unfoldable pub scp_plain : Option (Text × Text) → Result (Text × Text)
  scp_plain none = err "missing path separator in url"
  scp_plain (some (host, path)) =
      refuse_if (holds b':' path) "colon in scp-style path; use ssh:// form" >> ok (host, path)

  -- The host and the path of what follows the user.
  unfoldable pub scp_parts : Text → Result (Text × Text)
  unfolding scp_bracketed scp_plain
  scp_parts spec =
      if has_prefix (codes "[") spec
      then scp_bracketed (cut b']' (trim_prefix (codes "[") spec))
      else scp_plain (cut b':' spec)

  unfoldable pub scp_located : Text → Text × Text → Result GitUrl
  unfolding validate_host validate_repo_path
  scp_located user (host, path) =
      let repo_path = trim_prefix (codes "/") path in
      refuse_if (blank host) "empty host in url"
      >> validate_host host
      >> refuse_if (blank path) "empty repository path in url"
      >> refuse_if (blank repo_path) "empty repository path in url"
      >> validate_repo_path repo_path
      >> ok (record { scheme = codes "ssh"; user = user; host = host; port = []; path = repo_path })

  unfoldable pub scp_with_user : Text → Option (Text × Text) → Result GitUrl
  unfolding scp_parts scp_located validate_user
  scp_with_user raw none = scp_parts raw >>= scp_located []
  scp_with_user raw (some (user, spec)) =
      refuse_if (blank user) "empty user in url"
      >> refuse_if (holds b'@' user) "multiple @ in url user part"
      >> validate_user user
      >> (scp_parts spec >>= scp_located user)

  unfoldable pub parse_scp_style : Text → Result GitUrl
  unfolding scp_with_user
  parse_scp_style raw = scp_with_user raw (cut_last b'@' raw)

  -- What stands before the first "://".
  unfoldable pub scheme_of : Text → Option Text
  scheme_of [] = none
  scheme_of (c ∷ s) =
      let rest = scheme_of s in
      if has_prefix (codes "://") (c ∷ s)
      then some []
      else elim rest [ none ↦ none | some t ↦ some (c ∷ t) ]

  unfoldable pub parse_by_scheme : Text → Option Text → Result GitUrl
  unfolding parse_ssh_scheme parse_http_scheme parse_scp_style
  parse_by_scheme raw (some scheme) =
      if eqb (platform.to_lower scheme) (codes "ssh")
      then parse_ssh_scheme (platform.parse_url raw)
      else if eqb (platform.to_lower scheme) (codes "https")
      then parse_http_scheme (platform.parse_url raw)
      else err "unsupported url scheme"
  parse_by_scheme raw none = if holds b':' raw then parse_scp_style raw else err "not a git url"

  -- ParseGitURL
  unfoldable pub parse_git_url : Text → Result GitUrl
  unfolding check_no_unsafe_runes scheme_of parse_by_scheme
  parse_git_url raw =
      refuse_if (blank raw) "empty url"
      >> check_no_unsafe_runes raw
      >> parse_by_scheme raw (scheme_of raw)
