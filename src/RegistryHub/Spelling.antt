-- ===== src/RegistryHub/Spelling.antt =====
-- Texts that spell out numbers and texts one after the other: the versions of bodies in the
-- concrete stores of the tests. The store is that of
-- application/registry-hub/src/internal/storage/storage.go.
use Prim.Native.String.{[], ◌∷◌}
use mathlib.Core.Bool.{false≢true}
use k8s_at_home.Prelude.{
  ℕ, zero, suc, String, Bool, true, false, ◌≡◌, refl, sym, ap, str_eq, str_eq-eq-false,
}

unfoldable pub put_number : ℕ → String → String
put_number zero rest = "0" ∷ rest
put_number (suc n) rest = "1" ∷ put_number n rest

unfoldable pub put_text : String → String → String
put_text [] rest = "0" ∷ rest
put_text (c ∷ s) rest = "1" ∷ c ∷ put_text s rest

starts_0 : String → Bool
starts_0 [] = false
starts_0 (c ∷ s) = str_eq (c ∷ []) "0"

pub apart : (s t : String) → ("0" ∷ s) ≡ ("1" ∷ t) → ⊥
unfolding starts_0
apart s t e = false≢true (sym (ap starts_0 e))

pub put_number-injective :
    (a b : ℕ) (s t : String) → put_number a s ≡ put_number b t → (a ≡ b) × (s ≡ t)
unfolding put_number
put_number-injective zero zero s t e = (refl, cc)
put_number-injective zero (suc b) s t e = absurd (apart _ _ e)
put_number-injective (suc a) zero s t e = absurd (apart _ _ (sym e))
put_number-injective (suc a) (suc b) s t e =
    let (p, q) = put_number-injective a b s t (cc) in (ap suc p, q)

pub put_text-injective :
    (a b : String) (s t : String) → put_text a s ≡ put_text b t → (a ≡ b) × (s ≡ t)
unfolding put_text
put_text-injective [] [] s t e = (refl, cc)
put_text-injective [] (d ∷ b) s t e = absurd (apart _ _ e)
put_text-injective (c ∷ a) [] s t e = absurd (apart _ _ (sym e))
put_text-injective (c ∷ a) (d ∷ b) s t e = let (p, q) = put_text-injective a b s t (cc) in (cc, q)

begins : String → Bool
begins [] = false
begins (c ∷ s) = true

pub put_number_ne_empty : (n : ℕ) (s : String) → str_eq (put_number n s) "" ≡ false
unfolding put_number begins
put_number_ne_empty zero s = str_eq-eq-false _ "" (λ e. false≢true (sym (ap begins e)))
put_number_ne_empty (suc n) s = str_eq-eq-false _ "" (λ e. false≢true (sym (ap begins e)))
