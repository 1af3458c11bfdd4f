-- ===== src/GitRepoBackup/Action.antt =====
-- Functions of git-repo-backup that change a state and may return an error: the errors of
-- application/git-repo-backup/src/internal/observability/errors.go and of Commit in
-- internal/storage/storage.go, and a logic of what such functions leave behind.
use k8s_at_home.Prelude.{String, Bool, true, false, ◌≡◌, refl, ◌⊎◌, inl, inr, if◌then◌else◌}

pub data PublishState : Type 0 where
  not_published published durability_uncertain publication_unknown : PublishState

-- A SafeError by its code, a CommitError with the code of what it wraps, and any other error.
pub data Failure : Type 0 where
  safe : String → Failure
  commit_error : PublishState → String → Failure
  plain : String → Failure

abbrev pub Action : Type 0 → Type 0 → Type 0
Action S A = S → S × (Failure ⊎ A)

module _ {S : Type 0} where
  pub pure : {A : Type 0} → A → Action S A
  pure a s = (s, inr a)

  pub fail : {A : Type 0} → Failure → Action S A
  fail e s = (s, inl e)

  abbrev pub continue : {A B : Type 0} → S × (Failure ⊎ A) → (A → Action S B) → S × (Failure ⊎ B)
  continue (s, inl e) f = (s, inl e)
  continue (s, inr a) f = f a s

  infixl 10 ◌>>=◌
  -- opening this opens `pure` and `fail` too
  unfoldable pub ◌>>=◌ : {A B : Type 0} → Action S A → (A → Action S B) → Action S B
  unfolding pure fail
  ◌>>=◌ m f s = continue (m s) f

  -- The caller looks at the error itself.
  unfoldable pub attempt : {A : Type 0} → Action S A → Action S (Failure ⊎ A)
  attempt m s = let (next, r) = m s in (next, inr r)

  -- A call whose failure becomes the error `e`.
  unfoldable pub guarded : Failure → (S → S × Bool) → Action S (Unit {0})
  guarded e op s = let (next, done) = op s in (next, if done then inr tt else inl e)

  abbrev pub Outcome :
      {A : Type 0} → (A → S → Type 0) → (Failure → S → Type 0) → S × (Failure ⊎ A) → Type 0
  Outcome Q F (s, inl e) = F e s
  Outcome Q F (s, inr a) = Q a s

  Outcome-continue :
      {A B : Type 0} (Q : A → S → Type 0) (R : B → S → Type 0) (F : Failure → S → Type 0)
      (r : S × (Failure ⊎ A)) (f : A → Action S B)
      → Outcome Q F r
      → ((a : A) (s : S) → Q a s → Outcome R F (f a s))
      → Outcome R F (continue r f)
  Outcome-continue Q R F (s, inl e) f h k = h
  Outcome-continue Q R F (s, inr a) f h k = k a s h

  Outcome-weaken :
      {A : Type 0} (Q R : A → S → Type 0) (F G : Failure → S → Type 0) (r : S × (Failure ⊎ A))
      → Outcome Q F r
      → ((a : A) (s : S) → Q a s → R a s)
      → ((e : Failure) (s : S) → F e s → G e s)
      → Outcome R G r
  Outcome-weaken Q R F G (s, inl e) h q f = f e s h
  Outcome-weaken Q R F G (s, inr a) h q f = q a s h

  Outcome-guarded :
      (Q : Unit {0} → S → Type 0) (F : Failure → S → Type 0) (e : Failure) (next : S) (done : Bool)
      → (done ≡ true → Q tt next)
      → (done ≡ false → F e next)
      → Outcome Q F (next, (if done then inr tt else inl e))
  Outcome-guarded Q F e next true q f = q refl
  Outcome-guarded Q F e next false q f = f refl

-- From a state with `P`, the function ends with `Q` of its result, or with `F` of its error.
pub record After {S A : Type 0} (P : S → Type 0) (m : Action S A) (Q : A → S → Type 0)
    (F : Failure → S → Type 0) : Type 0 where
  pub ends : (s : S) → P s → Outcome Q F (m s)

module _ {S A : Type 0} {P : S → Type 0} {Q : A → S → Type 0} {F : Failure → S → Type 0} where
  pub After-bind :
      {B : Type 0} {R : B → S → Type 0} (m : Action S A) (f : A → Action S B)
      → After P m Q F
      → ((a : A) → After (Q a) (f a) R F)
      → After P (m >>= f) R F
  unfolding ◌>>=◌
  After-bind {B} {R} m f h k = record {
    ends = λ s p. Outcome-continue Q R F (m s) f (h.ends s p) (λ a. (k a).ends);
  }

  pub After-pure : (a : A) → ((s : S) → P s → Q a s) → After P (pure a) Q F
  unfolding pure
  After-pure a h = record { ends = h }

  pub After-fail : (e : Failure) → ((s : S) → P s → F e s) → After P (fail e) Q F
  unfolding fail
  After-fail e h = record { ends = h }

  pub After-weaken :
      {R : A → S → Type 0} {G : Failure → S → Type 0} (m : Action S A)
      → After P m Q F
      → ((a : A) (s : S) → Q a s → R a s)
      → ((e : Failure) (s : S) → F e s → G e s)
      → After P m R G
  After-weaken {R} {G} m h q f = record {
    ends = λ s p. Outcome-weaken Q R F G (m s) (h.ends s p) q f;
  }

  pub After-if :
      (b : Bool) (m n : Action S A)
      → (b ≡ true → After P m Q F)
      → (b ≡ false → After P n Q F)
      → After P (if b then m else n) Q F
  After-if true m n h k = h refl
  After-if false m n h k = k refl

module _ {S : Type 0} {P : S → Type 0} {Q : Unit {0} → S → Type 0} {F : Failure → S → Type 0} where
  pub After-guarded :
      (e : Failure) (op : S → S × Bool)
      → ((s : S) → P s → (op s).1 ≡ true → Q tt (op s).0)
      → ((s : S) → P s → (op s).1 ≡ false → F e (op s).0)
      → After P (guarded e op) Q F
  unfolding guarded
  After-guarded e op q f = record {
    ends = λ s p. Outcome-guarded Q F e (op s).0 (op s).1 (q s p) (f s p);
  }
