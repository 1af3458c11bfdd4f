-- ===== src/RegistryHub/Lease/Tests.antt =====
-- Runs of the lease manager at concrete inputs, and instances of its theorems.
use k8s_at_home.Prelude.{
  none, some, List, [], ◌∷◌, ◌≡◌, ◌≢◌, refl, arith, inl, str_eq, if◌then◌else◌,
}
use k8s_at_home.RegistryHub.Errors.{sentinel, ok, is, condition_failed}
use k8s_at_home.RegistryHub.Storage.{Disk, World, before, ◌>>=◌, attempt, get, put}
use k8s_at_home.RegistryHub.Storage.Keeps.{Fair}
use k8s_at_home.RegistryHub.Lease.{
  LeaseRecord, Lease, matches, decoded, read, acquire, renew, validate, release, active,
}
use k8s_at_home.RegistryHub.Lease.Reading.{Step, step_order}
use k8s_at_home.RegistryHub.Lease.View.{live, view}
use k8s_at_home.RegistryHub.Lease.Grants.{Grants, acquire-Grants}
use k8s_at_home.RegistryHub.Lease.Exclusion.{
  Operation, validates, releases, acquires, run, perform, Advanced, run-Advanced, run-Stale,
  acquire-fences,
}
use k8s_at_home.RegistryHub.Lease.Sample.{tagging, codec, spell, keep}

program : Unit {0}
unfolding read acquire renew validate release active decoded ◌>>=◌ attempt get put is spell keep run
    perform
program = tt

-- A lease of "a" that has run out at the time 100, of the previous schema.
abbrev expired : LeaseRecord
expired = record {
  schema_version = 1;
  owner = "a";
  fencing_token = 7;
  acquired_at = 20;
  expires_at = 50;
  state = "held";
}

abbrev old_lease : Lease
old_lease = record {
  key = "leases/img";
  owner = "a";
  fencing_token = 7;
  version = spell expired;
  expires_at = 50;
}

abbrev disk : Disk LeaseRecord
disk k = if str_eq k "leases/img" then some expired else none

-- The first call meets no change, the second is slow, and the third fails with a conflict.
abbrev world : World LeaseRecord
world = record {
  disk = disk;
  clock = 100;
  script =
      record { others = λ d. d; elapsed = 0; fault = none }
      ∷ record { others = λ d. d; elapsed = 5; fault = none }
      ∷ record { others = λ d. d; elapsed = 0; fault = some (before (sentinel condition_failed)) }
      ∷ [];
}

abbrev granted : LeaseRecord
granted = record {
  schema_version = 2;
  owner = "b";
  fencing_token = 8;
  acquired_at = 105;
  expires_at = 135;
  state = "held";
}

abbrev new_lease : Lease
new_lease = record {
  key = "leases/img";
  owner = "b";
  fencing_token = 8;
  version = spell granted;
  expires_at = 135;
}

acquired : (acquire tagging codec "img" "b" 30 world).0 ≡ ok new_lease
unfolding program
acquired = refl

world-Fair : Fair (Step tagging codec "leases/img") world.script
world-Fair = let stay = (step_order tagging codec "leases/img").stay in (stay, (stay, (stay, tt)))

seen : view codec (world.disk "leases/img") ≡ live expired
unfolding view keep
seen = refl

-- Another process releases the new lease while the old one is validated.
abbrev operations : List Operation
operations = releases new_lease ∷ validates old_lease ∷ []

acquire-Grants_example :
    Grants tagging codec "leases/img" "b" world.disk new_lease
      (acquire tagging codec "img" "b" 30 world).1.disk
acquire-Grants_example =
    acquire-Grants tagging codec "img" "b" 30 world new_lease world-Fair acquired

run-Advanced_example :
    Advanced tagging codec "leases/img" world
      (run tagging codec (acquires "img" "b" 30 ∷ operations) world)
run-Advanced_example =
    run-Advanced tagging codec "leases/img" (acquires "img" "b" 30 ∷ operations) world world-Fair

-- The lease "c" of the token 3 is older than the record at its key.
abbrev lost_lease : Lease
lost_lease = record {
  key = "leases/img";
  owner = "c";
  fencing_token = 3;
  version = "";
  expires_at = 10;
}

run-Stale_example :
    ((validate tagging codec lost_lease (run tagging codec operations world)).0 ≢ ok tt)
    × ((l' : Lease)
        → (renew tagging codec lost_lease 5 (run tagging codec operations world)).0 ≢ ok l')
run-Stale_example =
    run-Stale tagging codec lost_lease expired world operations 5 world-Fair seen
      (inl (omega arith))

acquire-fences_example :
    ((validate tagging codec old_lease
        (run tagging codec operations (acquire tagging codec "img" "b" 30 world).1)).0
      ≢ ok tt)
    × ((l'' : Lease)
        → (renew tagging codec old_lease 5
            (run tagging codec operations (acquire tagging codec "img" "b" 30 world).1)).0
          ≢ ok l'')
unfolding matches
acquire-fences_example =
    acquire-fences tagging codec old_lease expired world operations 5 "img" "b" 30 new_lease refl
      world-Fair seen refl acquired (omega arith)
