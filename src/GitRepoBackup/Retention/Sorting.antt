-- ===== src/GitRepoBackup/Retention/Sorting.antt =====
-- An insertion sort that keeps the promise of sort.Slice, for the tests.
use mathlib.Core.List.{Permᴰ}
use mathlib.Core.List.Permᴰ
use k8s_at_home.Prelude.{
  Bool, false, List, [], ◌∷◌, if◌then◌else◌, All, ◌≡◌, refl, inl, inr, Bool-cases,
}
use k8s_at_home.GitRepoBackup.Retention.{Backup, IsStrictWeak, Ordered, SortSlice}

module _ (less : Backup → Backup → Bool) where
  abbrev pub insert : Backup → List Backup → List Backup
  insert x [] = x ∷ []
  insert x (y ∷ ys) = let rest = insert x ys in if less x y then x ∷ y ∷ ys else y ∷ rest

  abbrev pub insertion_sort : List Backup → List Backup
  insertion_sort [] = []
  insertion_sort (x ∷ xs) = insert x (insertion_sort xs)

  insert-Perm : (x : Backup) (xs : List Backup) → Permᴰ (x ∷ xs) (insert x xs)
  insert-Perm x [] = Permᴰ.refl (x ∷ [])
  insert-Perm x (y ∷ ys) = elim (Bool-cases (less x y)) [
    | inl e ↦ rw e (Permᴰ.refl (x ∷ y ∷ ys))
    | inr e ↦ rw e (Permᴰ.trans (Permᴰ.swap refl refl) (Permᴰ.cons refl (insert-Perm x ys)))
  ]

  pub insertion_sort-Perm : (xs : List Backup) → Permᴰ xs (insertion_sort xs)
  insertion_sort-Perm [] = Permᴰ.nil
  insertion_sort-Perm (x ∷ xs) =
      Permᴰ.trans (Permᴰ.cons refl (insertion_sort-Perm xs)) (insert-Perm x (insertion_sort xs))

  All-insert :
      (P : Backup → Type 0) (x : Backup) (xs : List Backup) → P x → All P xs → All P (insert x xs)
  All-insert P x [] p h = (p, tt)
  All-insert P x (y ∷ ys) p (q, h) = elim (Bool-cases (less x y)) [
    | inl e ↦ rw e (p, (q, h))
    | inr e ↦ rw e (q, All-insert P x ys p h)
  ]

  module _ (weak : IsStrictWeak less) where
    below :
        (x y : Backup) (ys : List Backup)
        → less y x ≡ false
        → All (λ c. less c y ≡ false) ys
        → All (λ c. less c x ≡ false) ys
    below x y [] e h = tt
    below x y (c ∷ cs) e (p, h) = (weak.negtrans c y x p e, below x y cs e h)

    insert-Ordered : (x : Backup) (xs : List Backup) → Ordered less xs → Ordered less (insert x xs)
    insert-Ordered x [] h = (tt, tt)
    insert-Ordered x (y ∷ ys) (b, h) = elim (Bool-cases (less x y)) [
      | inl e ↦ rw e ((weak.asymm x y e, below x y ys (weak.asymm x y e) b), (b, h))
      | inr e ↦ rw e (All-insert _ x ys e b, insert-Ordered x ys h)
    ]

    pub insertion_sort-Ordered : (xs : List Backup) → Ordered less (insertion_sort xs)
    insertion_sort-Ordered [] = tt
    insertion_sort-Ordered (x ∷ xs) =
        insert-Ordered x (insertion_sort xs) (insertion_sort-Ordered xs)

abbrev pub insertion : SortSlice
insertion = record {
  sort = insertion_sort;
  sort-Perm = insertion_sort-Perm;
  sort-Ordered = λ less bs weak. insertion_sort-Ordered less weak bs;
}
