-- ===== src/GitRepoBackup/Manifest/Sorted.antt =====
-- SortRepositories of application/git-repo-backup/src/internal/manifest/types.go sorts.
use mathlib.Core.List.{Permᴰ}
use mathlib.Core.List.Permᴰ
use k8s_at_home.Prelude.{
  false, List, [], ◌∷◌, ◌++◌, All, ◌≡◌, refl, inl, inr, Bool-cases, str_ltb, str_ltb_asymm,
  str_ltb_negtrans,
}
use k8s_at_home.GitRepoBackup.Manifest.{
  RepositoryEntry, sink, sorted_onto, reversed_onto, sort_repositories,
}

-- The name of no later entry is less.
abbrev pub Ascending : List RepositoryEntry → Type 0
Ascending [] = Unit
Ascending (d ∷ ds) = All (λ c. str_ltb c.name d.name ≡ false) ds × Ascending ds

-- The name of no later entry is greater.
abbrev Descending : List RepositoryEntry → Type 0
Descending [] = Unit
Descending (d ∷ ds) = All (λ c. str_ltb d.name c.name ≡ false) ds × Descending ds

All-sink :
    (P : RepositoryEntry → Type 0) (e : RepositoryEntry) (ds : List RepositoryEntry)
    → P e
    → All P ds
    → All P (sink e ds)
All-sink P e [] p h = (p, tt)
All-sink P e (d ∷ ds) p (q, h) = elim (Bool-cases (str_ltb e.name d.name)) [
  | inl t ↦ rw t (q, All-sink P e ds p h)
  | inr t ↦ rw t (p, (q, h))
]

not_greater :
    (e d : RepositoryEntry) (ds : List RepositoryEntry)
    → str_ltb e.name d.name ≡ false
    → All (λ c. str_ltb d.name c.name ≡ false) ds
    → All (λ c. str_ltb e.name c.name ≡ false) ds
not_greater e d [] t h = tt
not_greater e d (c ∷ cs) t (p, h) =
    (str_ltb_negtrans e.name d.name c.name t p, not_greater e d cs t h)

sink-Descending :
    (e : RepositoryEntry) (ds : List RepositoryEntry) → Descending ds → Descending (sink e ds)
sink-Descending e [] h = (tt, tt)
sink-Descending e (d ∷ ds) (b, h) = elim (Bool-cases (str_ltb e.name d.name)) [
  | inl t ↦ rw t (All-sink _ e ds (str_ltb_asymm e.name d.name t) b, sink-Descending e ds h)
  | inr t ↦ rw t ((t, not_greater e d ds t b), (b, h))
]

sorted_onto-Descending :
    (done es : List RepositoryEntry) → Descending done → Descending (sorted_onto done es)
sorted_onto-Descending done [] h = h
sorted_onto-Descending done (e ∷ es) h =
    sorted_onto-Descending (sink e done) es (sink-Descending e done h)

-- No entry of the first list is less than one of the second.
abbrev Above : List RepositoryEntry → List RepositoryEntry → Type 0
Above done es = All (λ x. All (λ c. str_ltb c.name x.name ≡ false) done) es

Above-more :
    (e : RepositoryEntry) (done es : List RepositoryEntry)
    → All (λ c. str_ltb e.name c.name ≡ false) es
    → Above done es
    → Above (e ∷ done) es
Above-more e done [] h a = tt
Above-more e done (x ∷ es) (p, h) (q, a) = ((p, q), Above-more e done es h a)

Above-none : (es : List RepositoryEntry) → Above [] es
Above-none [] = tt
Above-none (e ∷ es) = (tt, Above-none es)

reversed_onto-Ascending :
    (done es : List RepositoryEntry)
    → Ascending done
    → Descending es
    → Above done es
    → Ascending (reversed_onto done es)
reversed_onto-Ascending done [] h d a = h
reversed_onto-Ascending done (e ∷ es) h (b, d) (q, a) =
    reversed_onto-Ascending (e ∷ done) es (q, h) d (Above-more e done es b a)

sink-Perm : (e : RepositoryEntry) (ds : List RepositoryEntry) → Permᴰ (e ∷ ds) (sink e ds)
sink-Perm e [] = Permᴰ.refl (e ∷ [])
sink-Perm e (d ∷ ds) = elim (Bool-cases (str_ltb e.name d.name)) [
  | inl t ↦ rw t (Permᴰ.trans (Permᴰ.swap refl refl) (Permᴰ.cons refl (sink-Perm e ds)))
  | inr t ↦ rw t (Permᴰ.refl (e ∷ d ∷ ds))
]

-- An entry may stand behind others.
behind :
    (e : RepositoryEntry) (es done : List RepositoryEntry)
    → Permᴰ (e ∷ (es ++ done)) (es ++ (e ∷ done))
behind e [] done = Permᴰ.refl (e ∷ done)
behind e (x ∷ es) done = Permᴰ.trans (Permᴰ.swap refl refl) (Permᴰ.cons refl (behind e es done))

after_same :
    (es : List RepositoryEntry) {a b : List RepositoryEntry} → Permᴰ a b → Permᴰ (es ++ a) (es ++ b)
after_same [] h = h
after_same (e ∷ es) h = Permᴰ.cons refl (after_same es h)

sorted_onto-Perm : (done es : List RepositoryEntry) → Permᴰ (es ++ done) (sorted_onto done es)
sorted_onto-Perm done [] = Permᴰ.refl done
sorted_onto-Perm done (e ∷ es) =
    Permᴰ.trans (behind e es done)
      (Permᴰ.trans (after_same es (sink-Perm e done)) (sorted_onto-Perm (sink e done) es))

reversed_onto-Perm : (done es : List RepositoryEntry) → Permᴰ (es ++ done) (reversed_onto done es)
reversed_onto-Perm done [] = Permᴰ.refl done
reversed_onto-Perm done (e ∷ es) = Permᴰ.trans (behind e es done) (reversed_onto-Perm (e ∷ done) es)

nothing_after : (es : List RepositoryEntry) → Permᴰ es (es ++ [])
nothing_after [] = Permᴰ.nil
nothing_after (e ∷ es) = Permᴰ.cons refl (nothing_after es)

-- SortRepositories keeps the entries and leaves them in ascending order of their names.
pub sort_repositories-Ascending :
    (entries : List RepositoryEntry)
    → Ascending (sort_repositories entries) × Permᴰ entries (sort_repositories entries)
unfolding sort_repositories
sort_repositories-Ascending entries =
    let sorted = sorted_onto [] entries in
    (
      reversed_onto-Ascending [] sorted tt (sorted_onto-Descending [] entries tt)
          (Above-none sorted),
      Permᴰ.trans (Permᴰ.trans (nothing_after entries) (sorted_onto-Perm [] entries))
          (Permᴰ.trans (nothing_after sorted) (reversed_onto-Perm [] sorted)),
    )
