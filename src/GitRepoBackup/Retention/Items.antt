-- ===== src/GitRepoBackup/Retention/Items.antt =====
-- Predicates on the items of a list, and lists that are rearranged.
use mathlib.Core.List.{Permᴰ}
use k8s_at_home.Prelude.{
  Bool, true, List, [], ◌∷◌, filter, length, All, ◌≡◌, refl, ap, subst, ◌∙◌, inl, inr, arith,
  Bool-cases,
}
use k8s_at_home.GitRepoBackup.Retention.{Backup}

pub All-Perm : (P : Backup → Type 0) {xs ys : List Backup} → Permᴰ xs ys → All P xs → All P ys
All-Perm P Permᴰ.nil h = tt
All-Perm P (Permᴰ.cons e d) (p, h) = (subst P e p, All-Perm P d h)
All-Perm P (Permᴰ.swap e f) (p, (q, h)) = (subst P f q, (subst P e p, h))
All-Perm P (Permᴰ.trans d f) h = All-Perm P f (All-Perm P d h)

pub length-filter-Perm :
    (t : Backup → Bool) {xs ys : List Backup}
    → Permᴰ xs ys
    → length (filter t xs) ≡ length (filter t ys)
length-filter-Perm t Permᴰ.nil = refl
length-filter-Perm t (Permᴰ.cons e d) = ground (arith, length-filter-Perm t d, ap t e)
length-filter-Perm t (Permᴰ.swap e f) = ground (arith, ap t e, ap t f)
length-filter-Perm t (Permᴰ.trans d f) = length-filter-Perm t d ∙ length-filter-Perm t f

pub All-filter :
    (P : Backup → Type 0) (t : Backup → Bool) (xs : List Backup)
    → All P xs
    → All (λ b. P b × (t b ≡ true)) (filter t xs)
All-filter P t [] h = tt
All-filter P t (b ∷ bs) (p, h) = elim (Bool-cases (t b)) [
  | inl e ↦ rw e ((p, e), All-filter P t bs h)
  | inr e ↦ rw e (All-filter P t bs h)
]

pub All-map :
    {P Q : Backup → Type 0} (xs : List Backup) → ((b : Backup) → P b → Q b) → All P xs → All Q xs
All-map [] f h = tt
All-map (b ∷ bs) f (p, h) = (f b p, All-map bs f h)

pub All-both :
    (P Q : Backup → Type 0) (xs : List Backup) → All P xs → All Q xs → All (λ b. P b × Q b) xs
All-both P Q [] g h = tt
All-both P Q (b ∷ bs) (p, g) (q, h) = ((p, q), All-both P Q bs g h)
