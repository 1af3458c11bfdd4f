-- ===== src/RegistryHub/Lease/Exclusion.antt =====
-- Sequences of operations of lease managers, and the exclusion that fencing gives
-- (application/registry-hub/src/internal/lease/lease.go).
use Prim.Native.String.{◌++◌}
use k8s_at_home.Prelude.{
  ℕ, String, true, false, some, List, [], ◌∷◌, ◌≡◌, ◌≢◌, subst, sym, inl, inr, arith, ◌==◌,
}
use k8s_at_home.RegistryHub.Errors.{ok}
use k8s_at_home.RegistryHub.Storage.{Tagging, Codec, World}
use k8s_at_home.RegistryHub.Storage.Keeps.{Fair}
use k8s_at_home.RegistryHub.Lease.{
  LeaseRecord, representable, Lease, matches, acquire, renew, validate, active, release,
}
use k8s_at_home.RegistryHub.Lease.Reading.{Step, step_order}
use k8s_at_home.RegistryHub.Lease.Guarantee.{
  Keeps-acquire, Keeps-renew, Keeps-validate, Keeps-active, Keeps-release,
}
use k8s_at_home.RegistryHub.Lease.Grants.{Grants, Exceeds, acquire-Grants}
use k8s_at_home.RegistryHub.Lease.Fencing.{Stale, Stale-lost, matches-token}
use k8s_at_home.RegistryHub.Lease.View.{live, Advances, Advances-trans, view, view-encode}

pub data Operation : Type 0 where
  acquires : String → String → ℕ → Operation
  renews : Lease → ℕ → Operation
  validates : Lease → Operation
  reads_active : String → Operation
  releases : Lease → Operation

module _ {Body : Type 0} (tagging : Tagging Body)
    (codec : Codec Body LeaseRecord representable) where
  -- The state after an operation, whatever it answers.
  unfoldable pub perform : Operation → World Body → World Body
  perform (acquires name owner ttl) w = (acquire tagging codec name owner ttl w).1
  perform (renews l ttl) w = (renew tagging codec l ttl w).1
  perform (validates l) w = (validate tagging codec l w).1
  perform (reads_active name) w = (active tagging codec name w).1
  perform (releases l) w = (release tagging codec l w).1

  unfoldable pub run : List Operation → World Body → World Body
  run [] w = w
  run (o ∷ os) w = run os (perform o w)

  module _ (key : String) where
    -- The disk has advanced, and the rest of the script keeps to the rules.
    abbrev pub Advanced : World Body → World Body → Type 0
    Advanced w w' =
        Advances (view codec (w.disk key)) (view codec (w'.disk key))
        × Fair (Step tagging codec key) w'.script

    perform-Advanced :
        (o : Operation) (w : World Body)
        → Fair (Step tagging codec key) w.script
        → Advanced w (perform o w)
    unfolding perform
    perform-Advanced (acquires name owner ttl) w f =
        let k = Keeps-acquire tagging codec key name owner ttl in (k.steps w f, k.fair w f)
    perform-Advanced (renews l ttl) w f =
        let k = Keeps-renew tagging codec key l ttl in (k.steps w f, k.fair w f)
    perform-Advanced (validates l) w f =
        let k = Keeps-validate tagging codec key l in (k.steps w f, k.fair w f)
    perform-Advanced (reads_active name) w f =
        let k = Keeps-active tagging codec key name in (k.steps w f, k.fair w f)
    perform-Advanced (releases l) w f =
        let k = Keeps-release tagging codec key l in (k.steps w f, k.fair w f)

    -- Across any sequence of operations on any leases, and any writes of the other processes
    -- within the rules between the calls of the store, and any failures of these calls: a key that
    -- holds a readable record is never emptied, its fencing token never falls, under one token
    -- the owner stays, and a record that is not held is never held again under its token.
    pub run-Advanced :
        (os : List Operation) (w : World Body)
        → Fair (Step tagging codec key) w.script
        → Advanced w (run os w)
    unfolding run
    run-Advanced [] w f = ((step_order tagging codec key).stay w.disk, f)
    run-Advanced (o ∷ os) w f =
        let (moved, fair) = perform-Advanced o w f in
        let (rest, fair') = run-Advanced os (perform o w) fair in
        (Advances-trans _ _ _ moved rest, fair')

  module _ (l : Lease) (s : LeaseRecord) (w : World Body) (os : List Operation) (ttl : ℕ) where
    -- Once the record at its key makes a lease stale (a higher token, or the lease's own token not
    -- held any more), no sequence of operations, failures and writes of the other processes within
    -- the rules makes Validate or Renew accept the lease again.
    pub run-Stale :
        Fair (Step tagging codec l.key) w.script
        → view codec (w.disk l.key) ≡ live s
        → Stale l s
        → ((validate tagging codec l (run os w)).0 ≢ ok tt)
          × ((l' : Lease) → (renew tagging codec l ttl (run os w)).0 ≢ ok l')
    run-Stale fair seen stale =
        let (moved, fair') = run-Advanced l.key os w fair in
        Stale-lost tagging codec l s (run os w) ttl fair' stale (rw seen at moved)

  -- The record of a granted lease makes a lease that stood at the key before it stale.
  superseded :
      (l l' : Lease) (s s' : LeaseRecord) (w' : World Body)
      → matches s l ≡ true
      → Exceeds (live s) l'
      → l'.fencing_token ≢ 0
      → w'.disk l.key ≡ some (codec.encode s')
      → representable s' ≡ true
      → matches s' l' ≡ true
      → (view codec (w'.disk l.key) ≡ live s') × Stale l s'
  superseded l l' s s' w' same (inr zero) counted holds fits same' = absurd (counted zero)
  superseded l l' s s' w' same (inl above) counted holds fits same' =
      let e = matches-token s' l' same' in
      let token : (s'.fencing_token == 0) ≡ false = ground arith in
      (rw (holds, view-encode codec s' fits, token), inl (omega (arith, matches-token s l same)))

  module _ (l : Lease) (s : LeaseRecord) (w : World Body) (os : List Operation) (ttl : ℕ) where
    -- Mutual exclusion by fencing: if a record of the lease `l` stands at its key, and Acquire
    -- then grants the key to anybody with a token that is not 0, then `l` is never accepted again
    -- by Validate or Renew, whatever operations, failures and writes within the rules follow.
    pub acquire-fences :
        (name owner : String) (ttl' : ℕ) (l' : Lease)
        → l.key ≡ "leases/" ++ name
        → Fair (Step tagging codec l.key) w.script
        → view codec (w.disk l.key) ≡ live s
        → matches s l ≡ true
        → (acquire tagging codec name owner ttl' w).0 ≡ ok l'
        → l'.fencing_token ≢ 0
        → ((validate tagging codec l (run os (acquire tagging codec name owner ttl' w).1)).0
            ≢ ok tt)
          × ((l'' : Lease)
              → (renew tagging codec l ttl (run os (acquire tagging codec name owner ttl' w).1)).0
                ≢ ok l'')
    acquire-fences name owner ttl' l' at fair seen same granted counted =
        let w' = (acquire tagging codec name owner ttl' w).1 in
        let (above, _, _, s', holds, fits, same', _) =
          subst
            (λ k.
              Fair (Step tagging codec k) w.script → Grants tagging codec k owner w.disk l' w'.disk)
            (sym at) (λ f. acquire-Grants tagging codec name owner ttl' w l' f granted) fair in
        let (seen', stale) =
          superseded l l' s s' w' same (rw seen at above) counted holds fits same' in
        run-Stale l s' w' os ttl ((Keeps-acquire tagging codec l.key name owner ttl').fair w fair)
          seen' stale
