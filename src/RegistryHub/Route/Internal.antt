-- ===== src/RegistryHub/Route/Internal.antt =====
-- The names of repositories on the internal registry: InternalName and DecodeInternalName of
-- internal/route/route.go.
use k8s_at_home.Prelude.{
  ℕ, ◌+◌, ◌-◌, ◌*◌, ◌/◌, ◌%◌, Bool, true, false, not, ◌&&◌, ◌||◌, Option, none, some, List, [], ◌∷◌,
  ◌++◌, ltb, leb, ◌==◌, if◌then◌else◌, length,
}
use k8s_at_home.Prelude.Bytes.{Bytes, codes, eqb, has_prefix, holds_any, split, join, cut}
use k8s_at_home.RegistryHub.Route.{digit, lower_or_digit}
use k8s_at_home.RegistryHub.Route.Names.{ordinary, every_part, is_empty}

-- encoding/hex of one byte
abbrev pub hex_of : ℕ → ℕ
hex_of n = if ltb n 10 then b'0' + n else 87 + n

abbrev pub encode_byte : ℕ → Bytes
encode_byte c = if lower_or_digit c then c ∷ [] else b'_' ∷ hex_of (c / 16) ∷ hex_of (c % 16) ∷ []

unfoldable pub encode : Bytes → Bytes
encode [] = []
encode (c ∷ s) = encode_byte c ++ encode s

-- The first segment stays as it is.
unfoldable pub stays : Bytes → Bool
unfolding ordinary
stays first =
    ordinary first
    && not (has_prefix (codes "e") first)
    && not (eqb first (codes "localhost"))
    && not (holds_any (codes ".:") first)

abbrev pub at_most_255 : Bytes → Option Bytes
at_most_255 name = if leb (length name) 255 then some name else none

abbrev pub segments_internal : Bytes → Bytes → List Bytes → Option Bytes
segments_internal repository first rest =
    if not (every_part ordinary rest)
    then none
    else if stays first
    then at_most_255 repository
    else at_most_255 (join b'/' ((b'e' ∷ encode first) ∷ rest))

-- A repository by its segments; Split returns at least one.
unfoldable pub internal_of : Bytes → List Bytes → Option Bytes
unfolding stays encode
internal_of repository [] = none
internal_of repository (only ∷ []) = if not (ordinary only) then none else at_most_255 repository
internal_of repository (first ∷ part ∷ parts) = segments_internal repository first (part ∷ parts)

unfoldable pub internal_name : Bytes → Option Bytes
unfolding internal_of
internal_name repository = internal_of repository (split b'/' repository)

unfoldable pub nibble : ℕ → Option ℕ
nibble c =
    if digit c
    then some (c - b'0')
    else if leb 97 c && leb c 102
    then some (c - 87)
    else if leb 65 c && leb c 70
    then some (c - 55)
    else none

abbrev pub prepend : ℕ → Option Bytes → Option Bytes
prepend c none = none
prepend c (some s) = some (c ∷ s)

abbrev pub byte_of : Option ℕ → Option ℕ → Option Bytes → Option Bytes
byte_of (some h) (some l) (some s) = some ((h * 16 + l) ∷ s)
byte_of _ _ _ = none

-- The loop of DecodeInternalName.
unfoldable pub decode : Bytes → Option Bytes
unfolding nibble
decode [] = some []
decode (c ∷ []) = if c == b'_' then none else some (c ∷ [])
decode (c ∷ d ∷ []) = let rest = decode (d ∷ []) in if c == b'_' then none else prepend c rest
decode (c ∷ h ∷ l ∷ s) =
    let rest = decode s in
    let next = decode (h ∷ l ∷ s) in
    if c == b'_' then byte_of (nibble h) (nibble l) rest else prepend c next

-- Whether the decoded name is a name that encodes to `internal`.
abbrev pub encodes_to : Bytes → Option Bytes → Bool
encodes_to internal none = false
encodes_to internal (some name) = eqb name internal

unfoldable pub decoded_name : Bytes → Bytes → Option Bytes → Bytes × Bool
unfolding internal_name
decoded_name internal remainder none = (internal, false)
decoded_name internal remainder (some first) =
    let logical = first ++ b'/' ∷ remainder in
    if encodes_to internal (internal_name logical) then (logical, true) else (internal, false)

unfoldable pub decode_parts : Bytes → Option (Bytes × Bytes) → Bytes × Bool
unfolding decode decoded_name
decode_parts internal none = (internal, false)
decode_parts internal (some ([], remainder)) = (internal, false)
decode_parts internal (some (c ∷ encoded, remainder)) =
    if not (c == b'e') || is_empty encoded
    then (internal, false)
    else decoded_name internal remainder (decode encoded)

unfoldable pub decode_internal_name : Bytes → Bytes × Bool
unfolding decode_parts
decode_internal_name internal = decode_parts internal (cut b'/' internal)
