-- ===== src/GitRepoBackup/Retention/Selection.antt =====
-- What SelectDeletions of internal/retention/policy.go deletes and what it keeps.
use mathlib.Core.List.{Permᴰ}
use k8s_at_home.GitRepoBackup.Retention.Items.{
  All-Perm, length-filter-Perm, All-filter, All-map, All-both,
}
use k8s_at_home.Prelude.{
  ℕ, ◌+◌, ◌-◌, ◌≤◌, ◌<◌, String, Bool, true, false, not, ◌&&◌, ◌||◌, List, [], ◌∷◌, str_eq, str_ltb,
  str_ltb_irrefl, str_ltb_asymm, str_ltb_negtrans, filter, length, All, ◌≡◌, subst, ◌⊎◌, inl, inr,
  arith, Bool-cases,
}
use k8s_at_home.GitRepoBackup.Retention.{
  Options, Backup, IsStrictWeak, Ordered, SortSlice, sound, newer_id, protected, by_count, by_age,
  select, select_deletions,
}

newer_id-IsStrictWeak : IsStrictWeak newer_id
newer_id-IsStrictWeak = record {
  asymm = λ a b h. str_ltb_asymm b.id a.id h;
  negtrans = λ a b c h k. str_ltb_negtrans c.id b.id a.id k h;
}

module _ (current : String) (o : Options) where
  -- What a deletion is allowed to hit.
  pub record Deletable (b : Backup) : Type 0 where
    pub policy_on : o.enabled ≡ true
    pub is_complete : b.complete ≡ true
    pub not_anomalous : b.anomaly ≡ false
    pub not_current : str_eq b.id current ≡ false
    pub not_protected : protected current b ≡ false

  deletable :
      (b : Backup) (newer : ℕ)
      → sound b ≡ true
      → protected current b ≡ false
      → (not (str_eq b.id current) && (by_count o newer || by_age o b)) ≡ true
      → Deletable b
  deletable b newer s p t = record {
    policy_on = ground arith;
    is_complete = ground arith;
    not_anomalous = ground arith;
    not_current = ground arith;
    not_protected = p;
  }

  select-Deletable :
      (P : Backup → Type 0) (newer : ℕ) (bs : List Backup)
      → All (λ b. P b × (sound b ≡ true)) bs
      → All (λ b. P b × Deletable b) (select current o newer bs)
  select-Deletable P newer [] h = tt
  select-Deletable P newer (b ∷ bs) ((p, s), h) = elim (Bool-cases (protected current b)) [
    | inl e ↦ rw e (select-Deletable P newer bs h)
    | inr e ↦
        rw e (elim (Bool-cases (not (str_eq b.id current) && (by_count o newer || by_age o b))) [
          | inl t ↦ rw t ((p, deletable b newer s e t), select-Deletable P (newer + 1) bs h)
          | inr t ↦ rw t (select-Deletable P (newer + 1) bs h)
        ])
  ]

module _ (current : String) (o : Options) where
  select-All :
      (P : Backup → Type 0) (newer : ℕ) (bs : List Backup)
      → All P bs
      → All P (select current o newer bs)
  select-All P newer [] h = tt
  select-All P newer (b ∷ bs) (p, h) = elim (Bool-cases (protected current b)) [
    | inl e ↦ rw e (select-All P newer bs h)
    | inr e ↦
        rw e (elim (Bool-cases (not (str_eq b.id current) && (by_count o newer || by_age o b))) [
          | inl t ↦ rw t (p, select-All P (newer + 1) bs h)
          | inr t ↦ rw t (select-All P (newer + 1) bs h)
        ])
  ]

  -- A backup that takes one of the slots before `b`, or is `b`.
  abbrev pub holds_slot : Backup → Backup → Bool
  holds_slot b x = not (protected current x) && not (str_ltb x.id b.id)

  -- One of the two rules asks for the deletion of `b`, given how many slots are taken.
  abbrev pub Justified : ℕ → Backup → Type 0
  Justified slots b =
      ((0 < o.max_age) × (b.started_at + o.max_age < o.now))
      ⊎ ((0 < o.max_backups) × (o.max_backups < slots))

  by_age-old :
      (b : Backup) → by_age o b ≡ true → (0 < o.max_age) × (b.started_at + o.max_age < o.now)
  by_age-old b h = ground arith

  by_count-full :
      (newer n : ℕ)
      → by_count o newer ≡ true
      → newer < n
      → (0 < o.max_backups) × (o.max_backups < n)
  by_count-full newer n h k = ground arith

  justify :
      (b : Backup) (newer n : ℕ)
      → newer < n
      → (not (str_eq b.id current) && (by_count o newer || by_age o b)) ≡ true
      → Justified n b
  justify b newer n k h = elim (Bool-cases (by_age o b)) [
    | inl e ↦ inl (by_age-old b e)
    | inr e ↦ inr (by_count-full newer n (ground arith) k)
  ]

  slot-head : (b : Backup) → protected current b ≡ false → holds_slot b b ≡ true
  slot-head b e = ground (arith, str_ltb_irrefl b.id)

  slots : Backup → List Backup → ℕ
  slots b xs = length (filter (holds_slot b) xs)

  later :
      (newer : ℕ) (x : Backup) (bs : List Backup) (b : Backup)
      → protected current x ≡ false
      → Justified (newer + 1 + slots b bs) b × (newer_id b x ≡ false)
      → Justified (newer + slots b (x ∷ bs)) b
  unfolding slots
  later newer x bs b e (j, n) = ground arith

  skipped :
      (newer : ℕ) (x : Backup) (bs : List Backup) (b : Backup)
      → protected current x ≡ true
      → Justified (newer + slots b bs) b
      → Justified (newer + slots b (x ∷ bs)) b
  unfolding slots
  skipped newer x bs b e j = ground arith

  first :
      (newer : ℕ) (b : Backup) (bs : List Backup)
      → protected current b ≡ false
      → newer < newer + slots b (b ∷ bs)
  unfolding slots
  first newer b bs e = ground (arith, slot-head b e)

  select-Justified :
      (newer : ℕ) (bs : List Backup)
      → Ordered newer_id bs
      → All (λ b. Justified (newer + slots b bs) b) (select current o newer bs)
  select-Justified newer [] h = tt
  select-Justified newer (x ∷ bs) (below, h) = elim (Bool-cases (protected current x)) [
    | inl e ↦ rw e (All-map _ (λ b j. skipped newer x bs b e j) (select-Justified newer bs h))
    | inr e ↦
        (let rest =
            All-map _ (λ b j. later newer x bs b e j)
              (All-both _ _ _ (select-Justified (newer + 1) bs h)
                (select-All (λ b. newer_id b x ≡ false) (newer + 1) bs below)) in
          rw e (elim (Bool-cases (not (str_eq x.id current) && (by_count o newer || by_age o x))) [
            | inl t ↦ rw t (justify x newer _ (first newer x bs e) t, rest)
            | inr t ↦ rw t rest
          ]))
  ]

  -- A backup that the policy may delete by its ID.
  abbrev pub unpinned : Backup → Bool
  unpinned b = not (protected current b) && not (str_eq b.id current)

  select-enough :
      (newer : ℕ) (bs : List Backup)
      → o.enabled ≡ true
      → 0 < o.max_backups
      → length (filter unpinned bs) ≤ length (select current o newer bs) + (o.max_backups - newer)
  select-enough newer [] on k = omega arith
  select-enough newer (b ∷ bs) on k =
      ground (arith, select-enough newer bs on k, select-enough (newer + 1) bs on k)

module _ (slice : SortSlice) (backups : List Backup) (current : String) (o : Options) where
  abbrev pub sorted : List Backup
  sorted = slice.sort newer_id (filter sound backups)

  sorted-Perm : Permᴰ (filter sound backups) sorted
  sorted-Perm = slice.sort-Perm newer_id (filter sound backups)

  -- Every backup that SelectDeletions returns has each property that all listed backups have, and
  -- is complete, not anomalous, not the current one and not protected as newer than the current
  -- one; none is returned when the policy is off.
  pub select_deletions-Deletable :
      (P : Backup → Type 0)
      → All P backups
      → All (λ b. P b × Deletable current o b) (select_deletions slice backups current o)
  unfolding select_deletions
  select_deletions-Deletable P h =
      select-Deletable current o P 0 sorted (All-Perm _ sorted-Perm (All-filter P sound backups h))

  same_slots :
      (b : Backup)
      → 0 + slots current o b sorted
        ≡ length (filter (holds_slot current o b) (filter sound backups))
  unfolding slots
  same_slots b = omega (arith, length-filter-Perm (holds_slot current o b) sorted-Perm)

  -- Every backup that SelectDeletions returns is older than the maximal age, if one is set, or, if
  -- a maximal number is set, there are more backups than that, itself included, that are complete
  -- and not anomalous, not newer than the current one, and not older by their ID than itself.
  pub select_deletions-Justified :
      All
        (λ b.
          Justified current o (length (filter (holds_slot current o b) (filter sound backups))) b)
        (select_deletions slice backups current o)
  unfolding select_deletions
  select_deletions-Justified =
      All-map _ (λ b j. subst (λ n. Justified current o n b) (same_slots b) j)
        (select-Justified current o 0 sorted
          (slice.sort-Ordered newer_id (filter sound backups) newer_id-IsStrictWeak))

  -- When the policy is on with a maximal number, no more backups than that number stay of those
  -- that are complete, not anomalous, not the current one and not newer than it.
  pub select_deletions-enough :
      o.enabled ≡ true
      → 0 < o.max_backups
      → length (filter (unpinned current o) (filter sound backups))
        ≤ length (select_deletions slice backups current o) + o.max_backups
  unfolding select_deletions
  select_deletions-enough on k = omega (
    arith,
    select-enough current o 0 sorted on k,
    length-filter-Perm (unpinned current o) sorted-Perm,
  )
