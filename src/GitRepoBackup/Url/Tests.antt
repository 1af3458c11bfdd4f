-- ===== src/GitRepoBackup/Url/Tests.antt =====
-- Runs of the parser of Git URLs on concrete texts, and an instance of its theorem.
use k8s_at_home.Prelude.{false, some, [], ◌≡◌, refl, ◌==◌}
use k8s_at_home.Prelude.Bytes.{codes, eqb}
use k8s_at_home.Prelude.Checks.{ok, err}
use k8s_at_home.GitRepoBackup.Url.{GitUrl, ParsedUrl, Platform, parse_git_url}
use k8s_at_home.GitRepoBackup.Url.Safe.{Safe, parse_git_url-Safe}

-- One URL, ssh://git@git.example:22/team/app.git, as it parses.
abbrev parsed : ParsedUrl
parsed = record {
  scheme = codes "ssh";
  opaque = [];
  user = some (codes "git", false);
  hostname = codes "git.example";
  port = codes "22";
  path = codes "/team/app.git";
  raw_query = [];
  force_query = false;
  fragment = [];
  raw_fragment = [];
}

abbrev platform : Platform
platform = record {
  parse_url = λ s. some parsed;
  is_ip = λ s. eqb s (codes "::1");
  atoi = λ s. some 22;
  to_lower = λ s. s;
  equal_fold = eqb;
  is_space = λ c. c == 32;
  is_letter_or_digit = λ c. false;
}

abbrev located : GitUrl
located = record {
  scheme = codes "ssh";
  user = codes "git";
  host = codes "git.example";
  port = codes "22";
  path = codes "team/app.git";
}

by_scheme : parse_git_url platform (codes "ssh://git@git.example:22/team/app.git") ≡ ok located
unfolding parse_git_url
by_scheme = refl

scp_style :
    parse_git_url platform (codes "git@git.example:team/app.git")
    ≡ ok (record located { port = [] })
unfolding parse_git_url
scp_style = refl

option_host :
    parse_git_url platform (codes "git@-oProxyCommand:x") ≡ err "host must not start with '-'"
unfolding parse_git_url
option_host = refl

climbing :
    parse_git_url platform (codes "git@git.example:a/../b")
    ≡ err "repository path must not contain empty, '.', or '..' segments"
unfolding parse_git_url
climbing = refl

parse_git_url-Safe_example : Safe platform (record located { port = [] })
parse_git_url-Safe_example =
    parse_git_url-Safe platform (codes "git@git.example:team/app.git") _ scp_style
