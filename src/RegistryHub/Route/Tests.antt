-- ===== src/RegistryHub/Route/Tests.antt =====
-- Runs of the parser of registry paths on concrete requests, and instances of its theorems.
use k8s_at_home.Prelude.{true, false, none, some, [], ◌≡◌, ◌↔◌, ◌⊎◌, refl, arith}
use k8s_at_home.Prelude.Bytes.{Bytes, codes, cut}
use k8s_at_home.RegistryHub.Route.{Platform}
use k8s_at_home.RegistryHub.Route.Names.{ordinary, valid_reference, valid_repository}
use k8s_at_home.RegistryHub.Route.Grammar.{Word, ordinary-Word}
use k8s_at_home.RegistryHub.Route.Internal.{internal_name, decode_internal_name}
use k8s_at_home.RegistryHub.Route.Escapes.{IsText}
use k8s_at_home.RegistryHub.Route.Injective.{
  decode_internal_name-internal_name, internal_name-injective,
}
use k8s_at_home.RegistryHub.Route.Parse.{Route, manifest, v2, catalog, bare, parse}
use k8s_at_home.RegistryHub.Route.Safe.{Sound, parse-Sound}

-- A colon separates host and port; no text is an IP address; every port is 443.
abbrev platform : Platform
platform = record {
  split_host_port = λ s. cut b':' s;
  is_ip = λ s. false;
  atoi = λ s. some 443;
  escaped_path = λ s. some s;
  path_unescape = λ s. some s;
}

abbrev repository : Bytes
repository = codes "ghcr.io/team/app"

abbrev encoded : Bytes
encoded = codes "eghcr_2eio/team/app"

encoded_name : internal_name repository ≡ some encoded
unfolding internal_name
encoded_name = refl

decoded_again : decode_internal_name encoded ≡ (repository, true)
unfolding decode_internal_name
decoded_again = refl

abbrev request : Bytes
request = codes "/v2/ghcr.io/team/app/manifests/v1.2"

abbrev route : Route
route = record {
  repository = repository;
  internal = encoded;
  reference = codes "v1.2";
  endpoint = manifest;
  upload_id = [];
  raw_path = request;
  upstream = codes "ghcr.io";
  remote_repo = codes "team/app";
  has_upstream = true;
}

routed : parse platform request ≡ some route
unfolding parse internal_name valid_reference valid_repository
routed = refl

climbing : parse platform (codes "/v2/ghcr.io/../app/manifests/v1") ≡ none
unfolding parse
climbing = refl

hidden : parse platform (codes "/v2/ghcr.io/a%2Fb/manifests/v1") ≡ none
unfolding parse
hidden = refl

ordinary-Word_example : (ordinary (codes "a__b-c.d") ≡ true) ↔ Word (codes "a__b-c.d")
ordinary-Word_example = ordinary-Word (codes "a__b-c.d")

repository-IsText : IsText repository
repository-IsText = ground arith

decode_internal_name-internal_name_example : (decode_internal_name encoded).0 ≡ repository
decode_internal_name-internal_name_example =
    decode_internal_name-internal_name repository encoded repository-IsText refl encoded_name

internal_name-injective_example : repository ≡ repository
internal_name-injective_example =
    internal_name-injective repository repository encoded repository-IsText repository-IsText refl
      refl encoded_name encoded_name

parse-Sound_example :
    ((path : Bytes) × ((bare v2 path ≡ route) ⊎ (bare catalog path ≡ route))) ⊎ Sound platform route
parse-Sound_example = parse-Sound platform request route routed
