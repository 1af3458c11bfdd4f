-- ===== src/GitRepoBackup/Url/Safe.antt =====
-- What a URL is that ParseGitURL of internal/config/url.go accepts: none of its parts is taken for
-- an option by the command that gets it, and its path stays below the root of the repositories.
use k8s_at_home.Prelude.{
  ℕ, String, Bool, true, false, not, ◌&&◌, ◌||◌, Option, none, some, [], ◌∷◌, if◌then◌else◌, All,
  ◌≡◌, refl, subst, ◌⊎◌, inl, inr,
}
use k8s_at_home.Prelude.Bytes.{codes, eqb, has_prefix, trim_prefix, holds, split}
use k8s_at_home.Prelude.Checks.{
  Result, ok, err, refuse_if, each, ok-injective, >>=-ok, >>-ok, refuse_if-ok, refuse-then,
  each-refused,
}
use k8s_at_home.GitRepoBackup.Url.{
  Text, GitUrl, ParsedUrl, Platform, blank, is_host_rune, validate_user, port_number_bad, cut_last,
  check_no_unsafe_runes, validate_host, path_rune, dotted, validate_repo_path, has_query, has_user,
  locate, ssh_user, parse_ssh_scheme, parse_http_scheme, scp_parts, scp_located, scp_with_user,
  parse_scp_style, scheme_of, parse_by_scheme, parse_git_url,
}

-- A text that no command takes for an option.
abbrev pub NoOption : Text → Type 0
NoOption s = has_prefix (codes "-") s ≡ false

pub UserSafe : Text → Type 0
UserSafe user = NoOption user × All (λ c. is_host_rune c ≡ true) user

not-false : (b : Bool) → not b ≡ false → b ≡ true
not-false true h = refl
not-false false h = cc

All-not : (t : ℕ → Bool) (s : Text) → All (λ c. not (t c) ≡ false) s → All (λ c. t c ≡ true) s
All-not t [] h = tt
All-not t (c ∷ s) (p, h) = (not-false _ p, All-not t s h)

validate_user-UserSafe : (user : Text) → validate_user user ≡ ok tt → UserSafe user
unfolding validate_user UserSafe
validate_user-UserSafe user h =
    let (a, b) = refuse-then (has_prefix (codes "-") user) _ _ _ h in
    (a, All-not is_host_rune user (each-refused _ _ user b))

module _ (platform : Platform) where
  pub HostSafe : Text → Type 0
  HostSafe host =
      NoOption host
      × (blank host ≡ false)
      × ((platform.is_ip host ≡ true) ⊎ All (λ c. is_host_rune c ≡ true) host)

  pub PathSafe : Text → Type 0
  PathSafe path =
      NoOption path
      × (blank path ≡ false)
      × All (λ s. dotted platform s ≡ false) (split b'/' path)
      × All (λ c. path_rune platform c ≡ true) path

  pub PortSafe : Text → Type 0
  PortSafe port = (blank port ≡ true) ⊎ (port_number_bad (platform.atoi port) ≡ false)

  pub record Safe (u : GitUrl) : Type 0 where
    pub scheme : (u.scheme ≡ codes "ssh") ⊎ ((u.scheme ≡ codes "https") × (u.user ≡ []))
    pub user : UserSafe u.user
    pub host : HostSafe u.host
    pub port : PortSafe u.port
    pub path : PathSafe u.path

  host_branches :
      (t : Bool) (host : Text) (m n : Result (Unit {0}))
      → (if t then m else n) ≡ ok tt
      → (m ≡ ok tt) ⊎ (n ≡ ok tt)
  host_branches true host m n h = inl h
  host_branches false host m n h = inr h

  validate_host-HostSafe :
      (host : Text) → blank host ≡ false → validate_host platform host ≡ ok tt → HostSafe host
  unfolding validate_host HostSafe
  validate_host-HostSafe host ne h =
      let (a, b) = refuse-then (has_prefix (codes "-") host) _ _ _ h in
      (
        a,
        ne,
        elim (host_branches (holds b':' host) host _ _ b) [
          | inl i ↦ inl (not-false _ (refuse_if-ok _ _ _ i))
          | inr n ↦ inr (
              All-not is_host_rune host
                (each-refused _ _ host (refuse-then (blank host) _ _ _ n).1))
        ],
      )

  validate_repo_path-PathSafe :
      (path : Text) → blank path ≡ false → validate_repo_path platform path ≡ ok tt → PathSafe path
  unfolding validate_repo_path PathSafe
  validate_repo_path-PathSafe path ne h =
      let (a, b) = refuse-then (has_prefix (codes "-") path) _ _ _ h in
      let (c, d) = >>-ok (each (λ s. refuse_if (dotted platform s) _) (split b'/' path)) _ _ b in
      (
        a,
        ne,
        each-refused (dotted platform) _ _ c,
        All-not (path_rune platform) path (each-refused _ _ path d),
      )

  port_checked : (a b : Bool) → (not a && b) ≡ false → (a ≡ true) ⊎ (b ≡ false)
  port_checked true b h = inl refl
  port_checked false b h = inr h

  locate-Safe :
      (p : ParsedUrl) (scheme user : Text) (u : GitUrl)
      → (scheme ≡ codes "ssh") ⊎ ((scheme ≡ codes "https") × (user ≡ []))
      → UserSafe user
      → locate platform p scheme user ≡ ok u
      → Safe u
  unfolding locate PortSafe
  locate-Safe p scheme user u known safe h =
      let (a, h1) = refuse-then (blank p.hostname) _ _ _ h in
      let (b, h2) = >>-ok (validate_host platform p.hostname) _ _ h1 in
      let (c, h3) =
        refuse-then (not (blank p.port) && port_number_bad (platform.atoi p.port)) _ _ _ h2 in
      let (_, h4) = refuse-then (blank p.path) _ _ _ h3 in
      let (e, h5) = refuse-then (blank (trim_prefix (codes "/") p.path)) _ _ _ h4 in
      let (f, h6) = >>-ok (validate_repo_path platform (trim_prefix (codes "/") p.path)) _ _ h5 in
      subst Safe (ok-injective h6) (record {
        scheme = known;
        user = safe;
        host = validate_host-HostSafe p.hostname a b;
        port = port_checked _ _ c;
        path = validate_repo_path-PathSafe _ e f;
      })

  no_user : UserSafe []
  unfolding UserSafe
  no_user = (refl, tt)

  ssh_user-UserSafe :
      (o : Option (Text × Bool)) (user : Text) → ssh_user platform o ≡ ok user → UserSafe user
  unfolding ssh_user
  ssh_user-UserSafe none user h = subst UserSafe (ok-injective h) no_user
  ssh_user-UserSafe (some (name, password)) user h =
      let (_, h1) = refuse-then password _ _ _ h in
      let (_, h2) = refuse-then (blank name) _ _ _ h1 in
      let (v, h3) = >>-ok (validate_user name) _ _ h2 in
      subst UserSafe (ok-injective h3) (validate_user-UserSafe name v)

  parse_ssh_scheme-Safe :
      (o : Option ParsedUrl) (u : GitUrl) → parse_ssh_scheme platform o ≡ ok u → Safe u
  unfolding parse_ssh_scheme
  parse_ssh_scheme-Safe none u h = cc
  parse_ssh_scheme-Safe (some p) u h =
      let (_, h1) = refuse-then (not (platform.equal_fold p.scheme (codes "ssh"))) _ _ _ h in
      let (_, h2) = refuse-then (has_query platform p) _ _ _ h1 in
      let (user, v, h3) = >>=-ok (ssh_user platform p.user) _ _ h2 in
      locate-Safe p _ user u (inl refl) (ssh_user-UserSafe p.user user v) h3

  parse_http_scheme-Safe :
      (o : Option ParsedUrl) (u : GitUrl) → parse_http_scheme platform o ≡ ok u → Safe u
  unfolding parse_http_scheme
  parse_http_scheme-Safe none u h = cc
  parse_http_scheme-Safe (some p) u h =
      let (_, h1) = refuse-then (not (platform.equal_fold p.scheme (codes "https"))) _ _ _ h in
      let (_, h2) = refuse-then (has_user platform p.user) _ _ _ h1 in
      let (_, h3) = refuse-then (not (blank p.opaque) || has_query platform p) _ _ _ h2 in
      locate-Safe p _ [] u (inr (refl, refl)) no_user h3

  scp_located-Safe :
      (user : Text) (parts : Text × Text) (u : GitUrl)
      → UserSafe user
      → scp_located platform user parts ≡ ok u
      → Safe u
  unfolding scp_located PortSafe
  scp_located-Safe user (host, path) u safe h =
      let (a, h1) = refuse-then (blank host) _ _ _ h in
      let (b, h2) = >>-ok (validate_host platform host) _ _ h1 in
      let (_, h3) = refuse-then (blank path) _ _ _ h2 in
      let (e, h4) = refuse-then (blank (trim_prefix (codes "/") path)) _ _ _ h3 in
      let (f, h5) = >>-ok (validate_repo_path platform (trim_prefix (codes "/") path)) _ _ h4 in
      subst Safe (ok-injective h5) (record {
        scheme = inl refl;
        user = safe;
        host = validate_host-HostSafe host a b;
        port = inl refl;
        path = validate_repo_path-PathSafe _ e f;
      })

  scp_with_user-Safe :
      (raw : Text) (o : Option (Text × Text)) (u : GitUrl)
      → scp_with_user platform raw o ≡ ok u
      → Safe u
  unfolding scp_with_user
  scp_with_user-Safe raw none u h =
      let (parts, _, h1) = >>=-ok (scp_parts platform raw) _ _ h in
      scp_located-Safe [] parts u no_user h1
  scp_with_user-Safe raw (some (user, spec)) u h =
      let (_, h1) = refuse-then (blank user) _ _ _ h in
      let (_, h2) = refuse-then (holds b'@' user) _ _ _ h1 in
      let (v, h3) = >>-ok (validate_user user) _ _ h2 in
      let (parts, _, h4) = >>=-ok (scp_parts platform spec) _ _ h3 in
      scp_located-Safe user parts u (validate_user-UserSafe user v) h4

  by_test :
      (a b : Bool) (x y : Result GitUrl) (s : String) (u : GitUrl)
      → (if a then x else if b then y else err s) ≡ ok u
      → (x ≡ ok u) ⊎ (y ≡ ok u)
  by_test true b x y s u h = inl h
  by_test false true x y s u h = inr h
  by_test false false x y s u h = cc

  parse_by_scheme-Safe :
      (raw : Text) (o : Option Text) (u : GitUrl) → parse_by_scheme platform raw o ≡ ok u → Safe u
  unfolding parse_by_scheme parse_scp_style
  parse_by_scheme-Safe raw (some scheme) u h =
      elim (by_test (eqb (platform.to_lower scheme) (codes "ssh"))
        (eqb (platform.to_lower scheme) (codes "https")) _ _ _ u h) [
          | inl e ↦ parse_ssh_scheme-Safe _ u e
          | inr e ↦ parse_http_scheme-Safe _ u e
        ]
  parse_by_scheme-Safe raw none u h =
      scp_with_user-Safe raw (cut_last b'@' raw) u (colon (holds b':' raw) _ _ u h)
    where
      colon :
          (t : Bool) (x : Result GitUrl) (s : String) (u : GitUrl)
          → (if t then x else err s) ≡ ok u
          → x ≡ ok u
      colon true x s u h = h
      colon false x s u h = cc

  -- A URL that ParseGitURL accepts has the scheme ssh, or https and no user. No part that git hands
  -- to a command starts with a dash, the user and the host consist of their allowed characters
  -- unless the host is an IP address, a port is a number from 1 to 65535, and the path is not empty,
  -- consists of allowed characters, and has no segment that is empty, "." or "..".
  pub parse_git_url-Safe : (raw : Text) (u : GitUrl) → parse_git_url platform raw ≡ ok u → Safe u
  unfolding parse_git_url
  parse_git_url-Safe raw u h =
      let (_, h1) = refuse-then (blank raw) _ _ _ h in
      let (_, h2) = >>-ok (check_no_unsafe_runes platform raw) _ _ h1 in
      parse_by_scheme-Safe raw (scheme_of platform raw) u h2
