-- ===== src/RegistryHub/Route/Safe.antt =====
-- What a route is that Parse of internal/route/route.go accepts.
use k8s_at_home.Prelude.{
  ◌≤◌, Bool, true, false, not, ◌&&◌, ◌||◌, Option, none, some, List, [], ◌∷◌, if◌then◌else◌, length,
  All, ◌≡◌, refl, subst, ◌⊎◌, inl, inr, leb→le,
}
use k8s_at_home.Prelude.Bytes.{Bytes, codes, eqb, has_prefix, split, join, cut}
use k8s_at_home.RegistryHub.Route.{Platform}
use k8s_at_home.RegistryHub.Route.Names.{
  ordinary, every_part, valid_authority, valid_repository, repository_parts_ok,
}
use k8s_at_home.RegistryHub.Route.Grammar.{Word, ordinary-Word}
use k8s_at_home.RegistryHub.Route.Internal.{internal_name}
use k8s_at_home.RegistryHub.Route.Parse.{
  Endpoint, v2, catalog, Route, Target, reference_ok, with_upstream, with_internal, route_to,
  path_target, bare, parse_url_path, parse_path, parse, reverse_onto,
}

-- The segments of a repository: an authority and words, or a single word.
pub Segments : Platform → List Bytes → Type 0
Segments platform [] = ⊥
Segments platform (only ∷ []) = Word only
Segments platform (first ∷ part ∷ parts) =
    (valid_authority platform first ≡ true) × All Word (part ∷ parts)

-- The upstream and the rest of a repository that has them.
pub Upstream : Platform → Route → Type 0
Upstream platform r =
    ((r.has_upstream ≡ false) × (cut b'/' r.repository ≡ none))
    ⊎ ((r.has_upstream ≡ true)
        × (cut b'/' r.repository ≡ some (r.upstream, r.remote_repo))
        × (valid_authority platform r.upstream ≡ true))

pub record Sound (platform : Platform) (r : Route) : Type 0 where
  pub segments : Segments platform (split b'/' r.repository)
  pub short : length r.repository ≤ 1024
  pub named : internal_name r.repository ≡ some r.internal
  pub referenced : reference_ok r.endpoint r.reference ≡ true
  pub upstreamed : Upstream platform r

and-true : (a b : Bool) → (a && b) ≡ true → (a ≡ true) × (b ≡ true)
and-true true b h = (refl, h)
and-true false b h = cc

every_part-Word : (parts : List Bytes) → every_part ordinary parts ≡ true → All Word parts
every_part-Word [] h = tt
every_part-Word (part ∷ parts) h =
    let (o, rest) = and-true _ _ h in ((ordinary-Word part).0 o, every_part-Word parts rest)

parts-Segments :
    (platform : Platform) (parts : List Bytes)
    → repository_parts_ok platform parts ≡ true
    → Segments platform parts
unfolding repository_parts_ok Segments
parts-Segments platform [] h = cc
parts-Segments platform (only ∷ []) h = (ordinary-Word only).0 h
parts-Segments platform (first ∷ part ∷ parts) h =
    let (a, rest) = and-true _ _ h in (a, every_part-Word (part ∷ parts) rest)

repository-Segments :
    (platform : Platform) (s : Bytes)
    → valid_repository platform s ≡ true
    → Segments platform (split b'/' s) × (length s ≤ 1024)
unfolding valid_repository
repository-Segments platform s h =
    let (a, p) = and-true _ _ h in
    let (e, l) = and-true _ _ a in (parts-Segments platform _ p, leb→le _ _ l)

some-injective : {A : Type 0} {a b : A} → some a ≡ some b → a ≡ b
some-injective e = cc

if_some : (t : Bool) (x r : Route) → (if t then some x else none) ≡ some r → (t ≡ true) × (x ≡ r)
if_some true x r h = (refl, cc)
if_some false x r h = cc

module _ (platform : Platform) where
  -- What is known of a route before its upstream is looked at.
  record Based (base : Route) : Type 0 where
    segments : Segments platform (split b'/' base.repository)
    short : length base.repository ≤ 1024
    named : internal_name base.repository ≡ some base.internal
    referenced : reference_ok base.endpoint base.reference ≡ true
    alone : base.has_upstream ≡ false

  with_upstream-Sound :
      (base r : Route) (o : Option (Bytes × Bytes))
      → Based base
      → cut b'/' base.repository ≡ o
      → with_upstream platform base o ≡ some r
      → Sound platform r
  unfolding with_upstream Upstream
  with_upstream-Sound base r none b e h = subst (Sound platform) (some-injective h) (record {
    segments = b.segments;
    short = b.short;
    named = b.named;
    referenced = b.referenced;
    upstreamed = inl (b.alone, e);
  })
  with_upstream-Sound base r (some (upstream, remote)) b e h =
      let (valid, same) = if_some _ _ r h in
      subst (Sound platform) same (record {
        segments = b.segments;
        short = b.short;
        named = b.named;
        referenced = b.referenced;
        upstreamed = inr (refl, e, valid);
      })

  with_internal-Sound :
      (path : Bytes) (t : Target) (repository : Bytes) (internal : Option Bytes) (r : Route)
      → valid_repository platform repository ≡ true
      → reference_ok t.endpoint t.reference ≡ true
      → internal_name repository ≡ internal
      → with_internal platform path t repository internal ≡ some r
      → Sound platform r
  unfolding with_internal
  with_internal-Sound path t repository none r v k n h = cc
  with_internal-Sound path t repository (some internal) r v k n h =
      let (segments, short) = repository-Segments platform repository v in
      with_upstream-Sound _ r _
        (record { segments = segments; short = short; named = n; referenced = k; alone = refl })
        refl h

  guarded :
      (a b : Bool) (o : Option Route) (r : Route)
      → (if not a || not b then none else o) ≡ some r
      → (a ≡ true) × (b ≡ true) × (o ≡ some r)
  guarded true true o r h = (refl, refl, h)
  guarded true false o r h = cc
  guarded false b o r h = cc

  segments_to-Sound :
      (path : Bytes) (e : Endpoint) (reference id : Bytes) (reversed : List Bytes) (r : Route)
      → route_to platform path (
          some
            (record { endpoint = e; reference = reference; upload_id = id; reversed = reversed }))
        ≡ some r
      → Sound platform r
  unfolding route_to
  segments_to-Sound path e reference id [] r h = cc
  segments_to-Sound path e reference id (s ∷ rest) r h =
      let (v, k, found) = guarded _ _ _ r h in
      let t : Target = record {
        endpoint = e;
        reference = reference;
        upload_id = id;
        reversed = s ∷ rest;
      } in
      with_internal-Sound path t (join b'/' (reverse_onto (s ∷ rest) [])) _ r v k refl found

  no_target : (path : Bytes) (r : Route) → route_to platform path none ≡ some r → Sound platform r
  unfolding route_to
  no_target path r h = cc

  route_to-Sound :
      (path : Bytes) (t : Option Target) (r : Route)
      → route_to platform path t ≡ some r
      → Sound platform r
  route_to-Sound path none r h = no_target path r h
  route_to-Sound path (some t) r h =
      segments_to-Sound path t.endpoint t.reference t.upload_id t.reversed r h

  parsed :
      (a b c : Bool) (x y r : Route) (o : Option Route)
      → (if a then some x else if b then some y else if not c then none else o) ≡ some r
      → ((x ≡ r) ⊎ (y ≡ r)) ⊎ (o ≡ some r)
  parsed true b c x y r o h = inl (inl (some-injective h))
  parsed false true c x y r o h = inl (inr (some-injective h))
  parsed false false false x y r o h = cc
  parsed false false true x y r o h = inr h

  parse_path-Sound :
      (o : Option Bytes) (r : Route)
      → parse_path platform o ≡ some r
      → ((path : Bytes) × ((bare v2 path ≡ r) ⊎ (bare catalog path ≡ r))) ⊎ Sound platform r
  unfolding parse_path
  parse_path-Sound none r h = cc
  parse_path-Sound (some path) r h =
      elim (parsed (eqb path (codes "/v2/") || eqb path (codes "/v2"))
        (eqb path (codes "/v2/_catalog")) (has_prefix (codes "/v2/") path) (bare v2 path)
        (bare catalog path) r (route_to platform path (path_target path)) h) [
          | inl e ↦ inl (path, e)
          | inr e ↦ inr (route_to-Sound path (path_target path) r e)
        ]

  -- A route that Parse accepts is that of the base or of the catalog and names nothing, or its
  -- repository is at most 1024 bytes, consists of an authority and words of the grammar of segments
  -- or of one such word, has the route's internal name, its reference is one that its endpoint
  -- takes, and it has an upstream, an authority, exactly if the repository has a slash.
  pub parse-Sound :
      (uri : Bytes) (r : Route)
      → parse platform uri ≡ some r
      → ((path : Bytes) × ((bare v2 path ≡ r) ⊎ (bare catalog path ≡ r))) ⊎ Sound platform r
  unfolding parse
  parse-Sound uri r h = parse_path-Sound (parse_url_path platform uri) r h
