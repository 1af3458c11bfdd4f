-- ===== src/RegistryHub/Route/Parse.antt =====
-- ParseURLPath and Parse of internal/route/route.go.
use k8s_at_home.Prelude.{
  ◌+◌, Bool, true, false, not, ◌&&◌, ◌||◌, Option, none, some, List, [], ◌∷◌, if◌then◌else◌,
}
use k8s_at_home.Prelude.Bytes.{
  Bytes, codes, eqb, has_prefix, trim_prefix, holds, holds_any, contains, last_is, split, join, cut,
}
use k8s_at_home.RegistryHub.Route.{Platform, upper}
use k8s_at_home.RegistryHub.Route.Names.{
  is_empty, valid_authority, valid_digest, valid_reference, valid_repository,
}
use k8s_at_home.RegistryHub.Route.Internal.{internal_name}

pub data Endpoint : Type 0 where
  v2 manifest blob upload tags catalog referrers : Endpoint

-- The names are empty texts where there are none.
pub record Route : Type 0 where
  pub repository : Bytes
  pub internal : Bytes
  pub reference : Bytes
  pub endpoint : Endpoint
  pub upload_id : Bytes
  pub raw_path : Bytes
  pub upstream : Bytes
  pub remote_repo : Bytes
  pub has_upstream : Bool

-- strings.ToLower, of ASCII
abbrev pub to_lower : Bytes → Bytes
to_lower [] = []
to_lower (c ∷ s) = let rest = to_lower s in if upper c then (c + 32) ∷ rest else c ∷ rest

-- An encoded slash or backslash.
abbrev pub hides_slash : Bytes → Bool
hides_slash s = contains (codes "%2f") (to_lower s) || contains (codes "%5c") (to_lower s)

-- "", ".", "..", or a NUL or line break inside
abbrev pub bad_segment : Bytes → Bool
bad_segment s =
    is_empty s || eqb s (codes ".") || eqb s (codes "..") || holds_any (0 ∷ 13 ∷ 10 ∷ []) s

-- An empty segment may come last, after a final slash; Split gives no empty list.
unfoldable pub segments_ok : Bool → List Bytes → Bool
segments_ok slash [] = true
segments_ok slash (s ∷ []) = is_empty s && slash || not (bad_segment s)
segments_ok slash (s ∷ t ∷ rest) =
    let others = segments_ok slash (t ∷ rest) in (not (bad_segment s) && others)

unfoldable pub decoded_path : Bytes → Option Bytes → Option Bytes
unfolding segments_ok
decoded_path raw none = none
decoded_path raw (some decoded) =
    if holds 92 decoded || hides_slash raw || hides_slash decoded
    then none
    else if segments_ok (last_is b'/' decoded) (split b'/' (trim_prefix (codes "/") decoded))
    then some decoded
    else none

unfoldable pub unescaped : Platform → Option Bytes → Option Bytes
unfolding decoded_path
unescaped platform none = none
unescaped platform (some raw) = decoded_path raw (platform.path_unescape raw)

unfoldable pub parse_url_path : Platform → Bytes → Option Bytes
unfolding unescaped
parse_url_path platform uri = unescaped platform (platform.escaped_path uri)

-- The endpoint of a path, the reference or upload id, and the segments of the repository, from the
-- segments in reverse order.
pub record Target : Type 0 where
  pub endpoint : Endpoint
  pub reference : Bytes
  pub upload_id : Bytes
  pub reversed : List Bytes

abbrev pub is : Bytes → Bytes → Bool
is s name = eqb s name

unfoldable pub target_of_two : Bytes → Bytes → List Bytes → Option Target
target_of_two last before rest =
    if is before (codes "blobs") && is last (codes "uploads")
    then some (record { endpoint = upload; reference = []; upload_id = []; reversed = rest })
    else if is before (codes "blobs")
    then some (record { endpoint = blob; reference = last; upload_id = []; reversed = rest })
    else if is before (codes "tags") && is last (codes "list")
    then some (record { endpoint = tags; reference = []; upload_id = []; reversed = rest })
    else if is before (codes "referrers")
    then some (record { endpoint = referrers; reference = last; upload_id = []; reversed = rest })
    else none

-- The case of an upload with an id comes before those of two segments, but for manifests.
unfoldable pub target : List Bytes → Option Target
unfolding target_of_two
target (last ∷ before ∷ []) =
    if is before (codes "manifests")
    then some (record { endpoint = manifest; reference = last; upload_id = []; reversed = [] })
    else target_of_two last before []
target (last ∷ before ∷ third ∷ rest) =
    if is before (codes "manifests")
    then some
        (record { endpoint = manifest; reference = last; upload_id = []; reversed = third ∷ rest })
    else if is third (codes "blobs") && is before (codes "uploads")
    then some (record { endpoint = upload; reference = []; upload_id = last; reversed = rest })
    else target_of_two last before (third ∷ rest)
target _ = none

abbrev pub reference_ok : Endpoint → Bytes → Bool
reference_ok manifest reference = valid_reference reference
reference_ok blob reference = valid_digest reference
reference_ok referrers reference = valid_digest reference
reference_ok _ reference = true

abbrev pub reverse_onto : List Bytes → List Bytes → List Bytes
reverse_onto [] out = out
reverse_onto (s ∷ rest) out = reverse_onto rest (s ∷ out)

-- A trailing slash leaves an empty last segment, which is dropped.
abbrev pub drop_empty : List Bytes → List Bytes
drop_empty ([] ∷ rest) = rest
drop_empty parts = parts

unfoldable pub with_upstream : Platform → Route → Option (Bytes × Bytes) → Option Route
with_upstream platform route none = some route
with_upstream platform route (some (upstream, remote)) =
    if valid_authority platform upstream
    then some (record route { upstream = upstream; remote_repo = remote; has_upstream = true })
    else none

unfoldable pub with_internal : Platform → Bytes → Target → Bytes → Option Bytes → Option Route
unfolding with_upstream
with_internal platform path t repository none = none
with_internal platform path t repository (some internal) =
    with_upstream platform
      (record {
        repository = repository;
        internal = internal;
        reference = t.reference;
        endpoint = t.endpoint;
        upload_id = t.upload_id;
        raw_path = path;
        upstream = [];
        remote_repo = [];
        has_upstream = false;
      })
      (cut b'/' repository)

unfoldable pub route_to : Platform → Bytes → Option Target → Option Route
unfolding with_internal
route_to platform path none = none
route_to platform path (some t) = elim t.reversed [
  | [] ↦ none
  | ◌∷◌ s rest ↦
      (let repository = join b'/' (reverse_onto (s ∷ rest) []) in
        if not (valid_repository platform repository) || not (reference_ok t.endpoint t.reference)
        then none
        else with_internal platform path t repository (internal_name repository))
]

-- A route with nothing but its endpoint.
abbrev pub bare : Endpoint → Bytes → Route
bare endpoint path = record {
  repository = [];
  internal = [];
  reference = [];
  endpoint = endpoint;
  upload_id = [];
  raw_path = path;
  upstream = [];
  remote_repo = [];
  has_upstream = false;
}

unfoldable pub path_target : Bytes → Option Target
unfolding target
path_target path =
    target (drop_empty (reverse_onto (split b'/' (trim_prefix (codes "/v2/") path)) []))

unfoldable pub parse_path : Platform → Option Bytes → Option Route
unfolding route_to path_target
parse_path platform none = none
parse_path platform (some path) =
    if eqb path (codes "/v2/") || eqb path (codes "/v2")
    then some (bare v2 path)
    else if eqb path (codes "/v2/_catalog")
    then some (bare catalog path)
    else if not (has_prefix (codes "/v2/") path)
    then none
    else route_to platform path (path_target path)

unfoldable pub parse : Platform → Bytes → Option Route
unfolding parse_url_path parse_path
parse platform uri = parse_path platform (parse_url_path platform uri)
