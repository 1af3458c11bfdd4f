-- ===== src/RegistryHub/Route/Names.antt =====
-- The checks of names: internal/route/route_validate_authority.go.
use k8s_at_home.Prelude.{
  ℕ, ◌%◌, Bool, true, false, not, ◌&&◌, ◌||◌, Option, none, some, List, [], ◌∷◌, ◌++◌, leb, ◌==◌,
  if◌then◌else◌, length,
}
use k8s_at_home.Prelude.Bytes.{
  Bytes, codes, has_prefix, holds, holds_any, last_is, every, split, cut,
}
use k8s_at_home.RegistryHub.Route.{Platform, lower, digit, lower_or_digit, letter_or_digit}

-- The states of a matcher for ^[a-z0-9]+(?:(?:[._]|__|[-]+)[a-z0-9]+)*$: what came last is
-- nothing or a separator that is complete, one underscore, dashes, or a letter or digit.
pub data Matcher : Type 0 where
  separated underscore dashes inside : Matcher

unfoldable pub matches_from : Matcher → Bytes → Bool
matches_from separated [] = false
matches_from separated (c ∷ s) = let rest = matches_from inside s in (lower_or_digit c && rest)
matches_from underscore [] = false
matches_from underscore (c ∷ s) =
    let rest = matches_from inside s in
    let second = matches_from separated s in if c == b'_' then second else lower_or_digit c && rest
matches_from dashes [] = false
matches_from dashes (c ∷ s) =
    let rest = matches_from inside s in
    let more = matches_from dashes s in if c == b'-' then more else lower_or_digit c && rest
matches_from inside [] = true
matches_from inside (c ∷ s) =
    let rest = matches_from inside s in
    let dot = matches_from separated s in
    let under = matches_from underscore s in
    let dash = matches_from dashes s in
    if lower_or_digit c
    then rest
    else if c == b'.'
    then dot
    else if c == b'_'
    then under
    else if c == b'-'
    then dash
    else false

unfoldable pub ordinary : Bytes → Bool
unfolding matches_from
ordinary s = matches_from separated s

abbrev pub label_char : ℕ → Bool
label_char c = letter_or_digit c || c == b'-'

abbrev pub label_ok : Bytes → Bool
label_ok [] = false
label_ok (c ∷ s) =
    leb (length (c ∷ s)) 63
    && not (c == b'-')
    && not (last_is b'-' (c ∷ s))
    && every label_char (c ∷ s)

abbrev pub every_part : (Bytes → Bool) → List Bytes → Bool
every_part p [] = true
every_part p (part ∷ parts) = let rest = every_part p parts in (p part && rest)

unfoldable pub host_ok : Platform → Bytes → Bool
host_ok platform host =
    platform.is_ip host
    || leb (length host) 253 && not (last_is b'.' host) && every_part label_ok (split b'.' host)

abbrev pub is_empty : Bytes → Bool
is_empty [] = true
is_empty (c ∷ s) = false

abbrev pub port_number_ok : Option ℕ → Bool
port_number_ok none = false
port_number_ok (some n) = leb 1 n && leb n 65535

unfoldable pub port_ok : Platform → Bytes → Bool
port_ok platform port = is_empty port || port_number_ok (platform.atoi port)

-- strings.Trim(authority, "[]")
abbrev pub bracket : ℕ → Bool
bracket c = c == b'[' || c == b']'

abbrev pub trim_left : Bytes → Bytes
trim_left [] = []
trim_left (c ∷ s) = let rest = trim_left s in if bracket c then rest else c ∷ s

abbrev pub trim_right : Bytes → Bytes
trim_right [] = []
trim_right (c ∷ s) = let rest = trim_right s in if is_empty rest && bracket c then [] else c ∷ rest

-- The host and the port of an authority.
unfoldable pub host_and_port : Bytes → Option (Bytes × Bytes) → Option (Bytes × Bytes)
host_and_port authority (some (host, port)) = if is_empty port then none else some (host, port)
host_and_port authority none =
    if has_prefix (codes "[") authority && last_is b']' authority
    then some (trim_right (trim_left authority), [])
    else if holds b':' authority
    then none
    else some (authority, [])

unfoldable pub authority_parts_ok : Platform → Option (Bytes × Bytes) → Bool
unfolding host_ok port_ok
authority_parts_ok platform none = false
authority_parts_ok platform (some (host, port)) =
    not (is_empty host)
    && not (holds_any (codes " %") host)
    && host_ok platform host
    && port_ok platform port

-- "/@?#\\\r\n\x00"
abbrev pub authority_stops : Bytes
authority_stops = codes "/@?#" ++ 92 ∷ 13 ∷ 10 ∷ 0 ∷ []

-- ValidateAuthority
unfoldable pub valid_authority : Platform → Bytes → Bool
unfolding authority_parts_ok host_and_port
valid_authority platform authority =
    not (is_empty authority)
    && not (holds_any authority_stops authority)
    && authority_parts_ok platform (host_and_port authority (platform.split_host_port authority))

abbrev pub algorithm_char : ℕ → Bool
algorithm_char c = lower c || digit c || holds c (codes "+._-")

unfoldable pub valid_digest_algorithm : Bytes → Bool
valid_digest_algorithm value =
    not (is_empty value) && leb (length value) 64 && every algorithm_char value

abbrev pub hex_digit : ℕ → Bool
hex_digit c = digit c || leb 97 c && leb c 102 || leb 65 c && leb c 70

unfoldable pub digest_parts_ok : Option (Bytes × Bytes) → Bool
unfolding valid_digest_algorithm
digest_parts_ok none = false
digest_parts_ok (some (algorithm, encoded)) =
    not (is_empty algorithm)
    && leb 32 (length encoded)
    && (length encoded % 2 == 0)
    && valid_digest_algorithm algorithm
    && every hex_digit encoded

unfoldable pub valid_digest : Bytes → Bool
unfolding digest_parts_ok
valid_digest value = digest_parts_ok (cut b':' value)

abbrev pub tag_char : ℕ → Bool
tag_char c = letter_or_digit c || holds c (codes "_.-")

abbrev pub tag_ok : Bytes → Bool
tag_ok [] = false
tag_ok (c ∷ s) = leb (length (c ∷ s)) 128 && (letter_or_digit c || c == b'_') && every tag_char s

unfoldable pub valid_reference : Bytes → Bool
unfolding valid_digest
valid_reference reference =
    if has_prefix (codes "sha256:") reference || holds b':' reference
    then valid_digest reference
    else tag_ok reference

unfoldable pub repository_parts_ok : Platform → List Bytes → Bool
unfolding valid_authority ordinary
repository_parts_ok platform [] = false
repository_parts_ok platform (part ∷ []) = ordinary part
repository_parts_ok platform (first ∷ part ∷ parts) =
    valid_authority platform first && every_part ordinary (part ∷ parts)

-- ValidateRepository
unfoldable pub valid_repository : Platform → Bytes → Bool
unfolding repository_parts_ok
valid_repository platform repository =
    not (is_empty repository)
    && leb (length repository) 1024
    && repository_parts_ok platform (split b'/' repository)
