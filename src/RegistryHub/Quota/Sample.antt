-- ===== src/RegistryHub/Quota/Sample.antt =====
-- A concrete store for the tests of the quota: bodies are the states themselves, and the version
-- of a body is a text that spells it out. The state is that of
-- application/registry-hub/src/internal/download/quota.go.
use Prim.Native.String.{[] as text_nil}
use k8s_at_home.Prelude.{
  String, true, false, Option, some, none, [], ◌∷◌, ◌≡◌, refl, sym, ap, arith, str_eq,
  if◌then◌else◌,
}
use k8s_at_home.RegistryHub.Spelling.{
  put_number, put_text, put_number-injective, put_text-injective, put_number_ne_empty, apart,
}
use k8s_at_home.RegistryHub.Storage.{Tagging, Codec}
use k8s_at_home.RegistryHub.Quota.{QuotaReservation, Reservations}
use k8s_at_home.RegistryHub.Quota.Calls.{QuotaState, fits}

put_entry : String → QuotaReservation → String → String
put_entry k r rest =
    put_text k
      (put_text r.identity (put_text r.digest (put_text r.session (put_number r.bytes rest))))

number_ends : (s t : String) → put_number 0 s ≡ put_number 1 t → ⊥
unfolding put_number
number_ends s t e = apart _ _ e

put_entries : Reservations → String
unfolding put_entry
put_entries [] = put_number 0 text_nil
put_entries ((k, r) ∷ rest) = put_number 1 (put_entry k r (put_entries rest))

put_entry-injective :
    (k j : String) (q r : QuotaReservation) (s t : String)
    → put_entry k q s ≡ put_entry j r t
    → (k ≡ j) × (q ≡ r) × (s ≡ t)
unfolding put_entry
put_entry-injective k j q r s t e =
    let (p0, e0) = put_text-injective _ _ _ _ e in
    let (p1, e1) = put_text-injective _ _ _ _ e0 in
    let (p2, e2) = put_text-injective _ _ _ _ e1 in
    let (p3, e3) = put_text-injective _ _ _ _ e2 in
    let (p4, e4) = put_number-injective _ _ _ _ e3 in
    (p0, λ i. record { identity = p1 i; digest = p2 i; session = p3 i; bytes = p4 i }, e4)

put_entries-injective : (a b : Reservations) → put_entries a ≡ put_entries b → a ≡ b
unfolding put_entries
put_entries-injective [] [] e = refl
put_entries-injective [] ((k, r) ∷ b) e = absurd (number_ends _ _ e)
put_entries-injective ((k, r) ∷ a) [] e = absurd (number_ends _ _ (sym e))
put_entries-injective ((k, q) ∷ a) ((j, r) ∷ b) e =
    let (_, e0) = put_number-injective 1 1 _ _ e in
    let (same_key, same, e1) = put_entry-injective _ _ _ _ _ _ e0 in
    let rest = put_entries-injective a b e1 in λ i. (same_key i, same i) ∷ rest i

put_map : Option Reservations → String
unfolding put_entries
put_map none = put_number 0 text_nil
put_map (some rs) = put_number 1 (put_entries rs)

put_map-injective : (a b : Option Reservations) → put_map a ≡ put_map b → a ≡ b
unfolding put_map
put_map-injective none none e = refl
put_map-injective none (some b) e = absurd (number_ends _ _ e)
put_map-injective (some a) none e = absurd (number_ends _ _ (sym e))
put_map-injective (some a) (some b) e =
    let (_, e0) = put_number-injective 1 1 _ _ e in ap (λ x. some x) (put_entries-injective a b e0)

unfoldable pub spell : QuotaState → String
unfolding put_map
spell s = put_map s.reservations

pub spell-injective : (a b : QuotaState) → spell a ≡ spell b → a ≡ b
unfolding spell
spell-injective a b e =
    let same = put_map-injective a.reservations b.reservations e in
    λ i. record { reservations = same i }

map_ne_empty : (o : Option Reservations) → str_eq (put_map o) "" ≡ false
unfolding put_map
map_ne_empty none = put_number_ne_empty 0 _
map_ne_empty (some rs) = put_number_ne_empty 1 _

pub spell_ne_empty : (s : QuotaState) → str_eq (spell s) "" ≡ false
unfolding spell
spell_ne_empty s = map_ne_empty s.reservations

abbrev pub tagging : Tagging QuotaState
tagging = record {
  version = spell;
  version_injective = spell-injective;
  version_ne_empty = spell_ne_empty;
}

unfoldable pub keep : QuotaState → Option QuotaState
keep s = if fits s then some s else none

pub keep-some : (s : QuotaState) → fits s ≡ true → keep s ≡ some s
unfolding keep
keep-some s h = rw h refl

pub keep-fits : (b s : QuotaState) → keep b ≡ some s → fits s ≡ true
unfolding keep
keep-fits b s h = ground arith

abbrev pub codec : Codec QuotaState QuotaState fits
codec = record {
  encode = λ s. s;
  decode = keep;
  size = λ s. 0;
  decode_encode = keep-some;
  decode_representable = keep-fits;
}
