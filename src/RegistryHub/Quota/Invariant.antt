-- ===== src/RegistryHub/Quota/Invariant.antt =====
-- Sequences of quota operations: Manager.reserve, release and cleanupOrphanReservations of
-- application/registry-hub/src/internal/download/quota.go and quota_cleanup.go.
use k8s_at_home.Prelude.{ℕ, ◌≤◌, String, List, [], ◌∷◌}
use k8s_at_home.RegistryHub.Storage.{Tagging, Codec, Disk, World, M}
use k8s_at_home.RegistryHub.Storage.Keeps.{Fair, Keeps, Any}
use k8s_at_home.RegistryHub.Quota.{QuotaReservation, max_int64}
use k8s_at_home.RegistryHub.Quota.Calls.{QuotaState, fits}
use k8s_at_home.RegistryHub.Quota.Calls.Kept.{Within, Kept}
use k8s_at_home.RegistryHub.Quota.Reserve.{reserve}
use k8s_at_home.RegistryHub.Quota.Reserve.Kept.{Keeps-reserve}
use k8s_at_home.RegistryHub.Quota.Release.{release, cleanup_orphans}
use k8s_at_home.RegistryHub.Quota.Release.Kept.{Keeps-release, Keeps-cleanup_orphans}

-- What a manager is asked: to reserve a key for a request, to release the reservation of a
-- session, to drop the reservations without an object.
pub data Operation : Type 0 where
  reserves : String → QuotaReservation → Operation
  releases : String → String → Operation
  cleans_up : Operation

module _ {Body : Type 0} (tagging : Tagging Body) (codec : Codec Body QuotaState fits)
    (wait : ℕ → M Body (Unit {0})) (guard : M Body (Unit {0})) (most : ℕ) where
  -- The state after an operation, whatever it answers.
  unfoldable pub perform : Operation → World Body → World Body
  perform (reserves key request) w = (reserve tagging codec wait most key guard request w).1
  perform (releases key session) w = (release tagging codec wait key session w).1
  perform cleans_up w = (cleanup_orphans tagging codec wait w).1

  unfoldable pub run : List Operation → World Body → World Body
  run [] w = w
  run (o ∷ os) w = run os (perform o w)

module _ {Body : Type 0} (tagging : Tagging Body) (codec : Codec Body QuotaState fits)
    (wait : ℕ → M Body (Unit {0})) (guard : M Body (Unit {0})) (most : ℕ)
    (bounded : most ≤ max_int64)
    (Keeps-wait : (n : ℕ) → Keeps (Kept tagging codec most bounded) Any (wait n))
    (Keeps-guard : Keeps (Kept tagging codec most bounded) Any guard) where
  abbrev Step : Disk Body → Disk Body → Type 0
  Step = Kept tagging codec most bounded

  -- The quota is kept, and the rest of the script keeps it.
  abbrev Preserved : World Body → World Body → Type 0
  Preserved w w' = Step w.disk w'.disk × Fair Step w'.script

  perform-Preserved :
      (o : Operation) (w : World Body)
      → Fair Step w.script
      → Preserved w (perform tagging codec wait guard most o w)
  unfolding perform
  perform-Preserved (reserves key request) w f =
      let k =
        Keeps-reserve tagging codec most bounded wait Keeps-wait key guard request Keeps-guard in
      (k.steps w f, k.fair w f)
  perform-Preserved (releases key session) w f =
      let k = Keeps-release tagging codec most bounded wait Keeps-wait key session in
      (k.steps w f, k.fair w f)
  perform-Preserved cleans_up w f =
      let k = Keeps-cleanup_orphans tagging codec most bounded wait Keeps-wait in
      (k.steps w f, k.fair w f)

  -- If the reservations that can be read of the disk are within the quota (their bytes sum to at
  -- most `most`, which fits int64, and they are at most 128), then they are so after any sequence
  -- of reservations, releases and cleanups, whatever these answer, with any failures of the calls
  -- of the store and any writes of other processes, any waits and a guard that keep the quota.
  pub run-Within :
      (os : List Operation) (w : World Body)
      → Fair Step w.script
      → Within tagging codec most bounded w.disk
      → Within tagging codec most bounded (run tagging codec wait guard most os w).disk
  unfolding run
  run-Within [] w f h = h
  run-Within (o ∷ os) w f h =
      let (kept, fair) = perform-Preserved o w f in
      run-Within os (perform tagging codec wait guard most o w) fair (kept h)
