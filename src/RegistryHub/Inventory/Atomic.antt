-- ===== src/RegistryHub/Inventory/Atomic.antt =====
-- What a call of Update of application/registry-hub/src/internal/inventory/repository.go that
-- returned has done.
use k8s_at_home.Prelude.{
  ℕ, zero, suc, String, Bool, true, false, ◌&&◌, not, none, some, ltb, str_eq, ◌≡◌, refl, ◌⊎◌, inl,
  inr,
}
use k8s_at_home.RegistryHub.Errors.{
  Error, join, Result, ok, err, is, not_found, unknown_commit, condition_failed, already_exists,
}
use k8s_at_home.RegistryHub.Storage.{Tagging, Disk, World, M, fail, update, refusal}
use k8s_at_home.RegistryHub.Storage.Keeps.{Order, Fair, Keeps, Any, IfOk, Keeps-attempt}
use k8s_at_home.RegistryHub.Storage.Conditional.{refusal-matching, refusal-absent, Keeps-put}
use k8s_at_home.RegistryHub.Storage.Ensures.{
  Ensures, Tried, Written, Ensures-pure, Ensures-fail, Ensures-weaken, Ensures-if, Ensures-bind,
  Ensures-bind_known, Ensures-attempt, Ensures-any, Ensures-put, Ensures-Keeps,
}
use k8s_at_home.RegistryHub.Inventory.Reading.{Holds, Fresh, Keeps-read, Ensures-read}
use k8s_at_home.RegistryHub.Inventory.{
  Json, size_limit, confirmed, settled, write, rewritten, revise, update_attempts, update_value,
}

module _ {Body V : Type 0} (tagging : Tagging Body) (json : Json Body V) (key : String)
    (guard : M Body (Unit {0})) (no_value : V) (change : V → Result V)
    (R : Disk Body → Disk Body → Type 0) where
  open tagging use {version as tag}

  -- What Update may change: a value that the disk holds, or the zero value where it holds none.
  abbrev pub Current : Disk Body → V → Type 0
  Current d v = ((d key ≡ none) × (v ≡ no_value)) ⊎ Holds json key d v

  -- What a call that returned did, between disks `d` and `e`.
  pub data Outcome (d e : Disk Body) : Type 0 where
    -- In the end the value is one that the change leaves as it is.
    unchanged :
        (v next : V)
        → R d e
        → Holds json key e v
        → change v ≡ ok next
        → json.encode v ≡ json.encode next
        → Outcome d e
    -- The last thing that happened is that the changed value was written over the current one.
    written :
        (c : Disk Body) (v next : V)
        → R d c
        → Current c v
        → change v ≡ ok next
        → e ≡ update c key (some (json.encode next))
        → Outcome d e
    -- A write had an unknown fate, and in the end the key holds a value that is written like the
    -- changed one. The value that was changed was current at `b`, or a read found nothing.
    found :
        (b : Disk Body) (v next actual : V)
        → R d b
        → Holds json key b v ⊎ (v ≡ no_value)
        → change v ≡ ok next
        → R b e
        → Holds json key e actual
        → json.encode actual ≡ json.encode next
        → Outcome d e

  module _ (order : Order R) (Keeps-guard : Keeps R Any guard)
      (allowed : (d : Disk Body) (v next : V)
        → Current d v
        → change v ≡ ok next
        → R d (update d key (some (json.encode next)))) where
    Outcome-later : (c d e : Disk Body) → R c d → Outcome d e → Outcome c e
    Outcome-later c d e h (unchanged v n p q r s) = unchanged v n (order.chain _ _ _ h p) q r s
    Outcome-later c d e h (written x v n p q r s) = written x v n (order.chain _ _ _ h p) q r s
    Outcome-later c d e h (found b v n a p q r s t u) =
        found b v n a (order.chain _ _ _ h p) q r s t u

    abbrev Same : Disk Body → Unit {0} → Disk Body → Type 0
    Same d u e = Outcome d e

    -- The rest of a round that changes `v`, which came from a read on an earlier disk.
    module _ (v next : V) (changed : change v ≡ ok next) (retry : M Body (Unit {0}))
        (again : Ensures R Same retry) where
      abbrev Since : Disk Body → Unit {0} → Disk Body → Type 0
      Since d u e = (b : Disk Body) → Holds json key b v ⊎ (v ≡ no_value) → R b d → Outcome b e

      Since-later : (c d e : Disk Body) → R c d → Since d tt e → Since c tt e
      Since-later c d e h s b seen k = s b seen (order.chain _ _ _ k h)

      abbrev TriedRead : Disk Body → Result (V × String) → Disk Body → Type 0
      TriedRead = Tried R (Fresh tagging json) (λ d a e. Holds json key e a.0)

      Ensures-retry : Ensures R (λ d u e. (c : Disk Body) → R c d → Since c u e) retry
      Ensures-retry =
          Ensures-weaken _ retry again
            λ d u e o c h b seen k. Outcome-later b d e (order.chain _ _ _ k h) o

      Ensures-confirmed :
          (x : Error) (r : Result (V × String))
          → Ensures R
              (λ d u e. (c : Disk Body) → TriedRead c r d → Since c u e)
              (confirmed tagging json key guard retry (json.encode next) x r)
      unfolding confirmed
      Ensures-confirmed x (ok (a, version)) =
          Ensures-if (json.same (json.encode a) (json.encode next)) _ _
            (λ s. Ensures-pure tt λ d c t b seen h.
              found b v next a (order.stay b) seen changed (order.chain _ _ _ h t.0) t.2
                (json.same→eq _ _ s))
            λ _. Ensures-weaken _ retry Ensures-retry λ d u e f c t. f c t.0
      Ensures-confirmed x (err r) =
          Ensures-if (is r not_found) retry (fail (join x r)) (λ _. Ensures-retry)
            λ _. Ensures-fail _

      module _ (version : String)
          (base : (c : Disk Body)
            → refusal tag (record { if_absent = str_eq version ""; if_match = version }) (c key)
              ≡ none
            → Current c v) where
        abbrev TriedPut : Disk Body → Result String → Disk Body → Type 0
        TriedPut =
            Tried R (λ t. t ≡ tag (json.encode next))
              (Written R tag key (json.encode next)
                (record { if_absent = str_eq version ""; if_match = version }))

        Ensures-settled :
            (r : Result String)
            → Ensures R
                (λ d u e. (c : Disk Body) → TriedPut c r d → Since c u e)
                (settled tagging json key guard retry (json.encode next) r)
        unfolding settled
        Ensures-settled (ok t) = Ensures-pure tt λ d c tried b seen h.
            let (c', moved, passed, wrote) = tried.2 in
            written c' v next (order.chain _ _ _ h moved) (base c' passed) changed wrote
        Ensures-settled (err x) =
            Ensures-if
              (not (is x unknown_commit)
                && not (is x condition_failed)
                && not (is x already_exists))
              _ _ (λ _. Ensures-fail x)
              λ _.
                Ensures-if (is x unknown_commit) _ _
                  (λ _.
                    Ensures-bind _
                      (λ r.
                        Ensures-weaken _ _ (Ensures-confirmed x r)
                          λ d u e f c t y moved. Since-later y c e moved (f c t))
                      _
                      (Ensures-attempt _ (Keeps-read tagging json key order)
                        (Ensures-read tagging json key order)))
                  λ _. Ensures-retry

        Ensures-write :
            Ensures R Since (write tagging json key guard retry version (json.encode next))
        unfolding write
        Ensures-write =
            Ensures-bind _
              (λ g.
                Ensures-weaken _ _
                  (Ensures-bind _ Ensures-settled _ (
                    Ensures-attempt _
                      (Keeps-put tagging order key _ _ λ d p. allowed d v next (base d p) changed)
                      (Ensures-put tagging order key _ _)))
                  λ d u e s c moved. Since-later c d e moved.0 s)
              _ (Ensures-Keeps guard Keeps-guard (Ensures-any guard Keeps-guard))

    and-true : (a b : Bool) → not a && b ≡ true → (a ≡ false) × (b ≡ true)
    and-true true b h = cc
    and-true false b h = (refl, h)

    -- A round that changes what a read found: it holds still unless the version says otherwise.
    Ensures-rewritten :
        (retry : M Body (Unit {0})) (v : V) (version : String) (r : Result V)
        → Ensures R Same retry
        → change v ≡ r
        → ((c : Disk Body)
            → refusal tag (record { if_absent = str_eq version ""; if_match = version }) (c key)
              ≡ none
            → Current c v)
        → Ensures R
            (λ d u e.
              (c : Disk Body)
              → R c d
              → (str_eq version "" ≡ false → Holds json key d v)
              → Holds json key d v ⊎ (v ≡ no_value)
              → Outcome c e)
            (rewritten tagging json key guard retry version v r)
    unfolding rewritten
    Ensures-rewritten retry v version (err x) again changed base = Ensures-fail x
    Ensures-rewritten retry v version (ok next) again changed base =
        Ensures-if (ltb size_limit (json.size (json.encode next))) _ _ (λ _. Ensures-fail _)
          λ _.
            Ensures-if (not (str_eq version "") && json.same (json.encode v) (json.encode next)) _ _
              (λ s. Ensures-pure tt λ d c h held seen.
                let (present, alike) = and-true _ _ s in
                unchanged v next h (held present) changed (json.same→eq _ _ alike))
              λ _.
                Ensures-weaken _ _ (Ensures-write v next changed retry again version base)
                  λ d u e s c h held seen. Outcome-later c d e h (s d seen (order.stay d))

    Fresh-Current :
        (v : V) (version : String)
        → Fresh tagging json (v, version)
        → (c : Disk Body)
        → refusal tag (record { if_absent = str_eq version ""; if_match = version }) (c key) ≡ none
        → Current c v
    Fresh-Current v version (b, e, read_as) c passed = inr (
      b,
      refusal-matching tagging b (c key) (rw (e, tagging.version_ne_empty b) at passed),
      read_as,
    )

    first-Current :
        (c : Disk Body)
        → refusal tag (record { if_absent = str_eq "" ""; if_match = "" }) (c key) ≡ none
        → Current c no_value
    first-Current c passed = inl (refusal-absent tagging (c key) passed, refl)

    Ensures-revise :
        (retry : M Body (Unit {0})) (r : Result (V × String))
        → Ensures R Same retry
        → IfOk order (Fresh tagging json) r
        → Ensures R
            (λ d u e.
              (c : Disk Body)
              → Tried R (Fresh tagging json) (λ d a e. Holds json key e a.0) c r d
              → Outcome c e)
            (revise tagging json key guard no_value change retry r)
    unfolding revise
    Ensures-revise retry (ok (v, version)) again fresh =
        Ensures-weaken _ _
          (Ensures-rewritten retry v version (change v) again refl (Fresh-Current v version fresh))
          λ d u e o c t. o c t.0 (λ _. t.2) (inl t.2)
    Ensures-revise retry (err x) again fresh =
        Ensures-if (is x not_found) _ _
          (λ _.
            Ensures-weaken _ _
              (Ensures-rewritten retry no_value "" (change no_value) again refl first-Current)
              λ d u e o c t. o c t (λ h. cc) (inr refl))
          λ _. Ensures-fail x

    Ensures-update_attempts :
        (n : ℕ) → Ensures R Same (update_attempts tagging json key guard no_value change n)
    unfolding update_attempts
    Ensures-update_attempts zero = Ensures-fail _
    Ensures-update_attempts (suc n) =
        Ensures-bind_known _ (λ r fresh. Ensures-revise _ r (Ensures-update_attempts n) fresh) _
          (Keeps-attempt order _ (Keeps-read tagging json key order)).returns
          (Ensures-attempt _ (Keeps-read tagging json key order)
            (Ensures-read tagging json key order))

-- If Update returns without error, then it ended in one of three ways: the last thing that happened
-- to the store is its write of the changed value over the current value of the key; or the key holds
-- a value that the change leaves as it is; or the fate of a write was unknown and the key holds a
-- value written like the changed one. Up to that moment the disk moved along `R`: any order on disks
-- that the writes of the others, the guard and the writes of changed values over current ones
-- follow. Earlier rounds of the same call can have written too, where the fate of their write was
-- unknown: that the change is made only once is not stated. This holds under any failures of the
-- store.
pub update_value-Outcome :
    {Body V : Type 0} (tagging : Tagging Body) (json : Json Body V) (key : String)
    (guard : M Body (Unit {0})) (no_value : V) (change : V → Result V)
    (R : Disk Body → Disk Body → Type 0) (w : World Body)
    → Order R
    → Keeps R Any guard
    → ((d : Disk Body) (v next : V)
        → Current tagging json key guard no_value change R d v
        → change v ≡ ok next
        → R d (update d key (some (json.encode next))))
    → Fair R w.script
    → (update_value tagging json key guard no_value change w).0 ≡ ok tt
    → Outcome tagging json key guard no_value change R w.disk
        (update_value tagging json key guard no_value change w).1.disk
unfolding update_value
update_value-Outcome tagging json key guard no_value change R w order keeps allowed fair e =
    (Ensures-update_attempts tagging json key guard no_value change R order keeps allowed
        16).returns
      w tt fair e
