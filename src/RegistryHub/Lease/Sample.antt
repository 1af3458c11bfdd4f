-- ===== src/RegistryHub/Lease/Sample.antt =====
-- A concrete store for the tests of leases: bodies are the records themselves, and the version
-- of a body is a text that spells it out.
use Prim.Native.String.{[]}
use k8s_at_home.Prelude.{String, true, false, Option, some, none, ◌≡◌, arith, str_eq, if◌then◌else◌}
use k8s_at_home.RegistryHub.Storage.{Tagging, Codec}
use k8s_at_home.RegistryHub.Spelling.{
  put_number, put_text, put_number-injective, put_text-injective, put_number_ne_empty,
}
use k8s_at_home.RegistryHub.Lease.{LeaseRecord, representable}

unfoldable pub spell : LeaseRecord → String
unfolding put_number put_text
spell r = put_number r.schema_version (
    put_text r.owner (
      put_number r.fencing_token
        (put_number r.acquired_at (put_number r.expires_at (put_text r.state [])))))

pub spell-injective : (a b : LeaseRecord) → spell a ≡ spell b → a ≡ b
unfolding spell
spell-injective a b e =
    let (p0, e0) = put_number-injective _ _ _ _ e in
    let (p1, e1) = put_text-injective _ _ _ _ e0 in
    let (p2, e2) = put_number-injective _ _ _ _ e1 in
    let (p3, e3) = put_number-injective _ _ _ _ e2 in
    let (p4, e4) = put_number-injective _ _ _ _ e3 in
    let (p5, _) = put_text-injective _ _ _ _ e4 in
    λ i. record {
      schema_version = p0 i;
      owner = p1 i;
      fencing_token = p2 i;
      acquired_at = p3 i;
      expires_at = p4 i;
      state = p5 i;
    }

pub spell_ne_empty : (r : LeaseRecord) → str_eq (spell r) "" ≡ false
unfolding spell
spell_ne_empty r = put_number_ne_empty r.schema_version _

abbrev pub tagging : Tagging LeaseRecord
tagging = record {
  version = spell;
  version_injective = spell-injective;
  version_ne_empty = spell_ne_empty;
}

unfoldable pub keep : LeaseRecord → Option LeaseRecord
keep r = if representable r then some r else none

pub keep-some : (r : LeaseRecord) → representable r ≡ true → keep r ≡ some r
unfolding keep
keep-some r h = rw h

pub keep-representable : (b r : LeaseRecord) → keep b ≡ some r → representable r ≡ true
unfolding keep
keep-representable b r h = ground arith

abbrev pub codec : Codec LeaseRecord LeaseRecord representable
codec = record {
  encode = λ r. r;
  decode = keep;
  size = λ r. 0;
  decode_encode = keep-some;
  decode_representable = keep-representable;
}
