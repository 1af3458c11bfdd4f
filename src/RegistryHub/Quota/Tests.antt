-- ===== src/RegistryHub/Quota/Tests.antt =====
-- Rounds of the quota at concrete reservations, and instances of its theorems.
use k8s_at_home.Prelude.{ℕ, ◌≤◌, some, none, [], ◌∷◌, ◌≡◌, refl, arith}
use k8s_at_home.RegistryHub.Errors.{ok, is, sentinel, condition_failed}
use k8s_at_home.RegistryHub.Spelling.{put_number, put_text}
use k8s_at_home.RegistryHub.Storage.{
  Disk, World, M, pure, before, get, put, head, attempt, ◌>>=◌, update,
}
use k8s_at_home.RegistryHub.Storage.Keeps.{Keeps-pure}
use k8s_at_home.RegistryHub.Quota.{
  QuotaReservation, Reservations, write, exceeded, present, decide, quota_backoff_limit, max_int64,
}
use k8s_at_home.RegistryHub.Quota.Bounds.{Reserved, decide-Reserved, total}
use k8s_at_home.RegistryHub.Quota.Calls.{QuotaState, quota_key, encoded}
use k8s_at_home.RegistryHub.Quota.Calls.Kept.{Within, kept_order, encoded-Kept}
use k8s_at_home.RegistryHub.Quota.Sample.{tagging, codec, spell, keep}
use k8s_at_home.RegistryHub.Quota.Reserve.{reserve, committed}
use k8s_at_home.RegistryHub.Quota.Reserve.Granted.{Reserves, spares_order, reserve-Secures}
use k8s_at_home.RegistryHub.Quota.Release.{cleanup_orphans}
use k8s_at_home.RegistryHub.Quota.Invariant.{reserves, releases, cleans_up, run, run-Within}

abbrev request : QuotaReservation
request = record { identity = "docker.io"; digest = "sha256:aa"; session = "s2"; bytes = 30 }

abbrev earlier : QuotaReservation
earlier = record { identity = "docker.io"; digest = "sha256:aa"; session = "s1"; bytes = 40 }

abbrev other : QuotaReservation
other = record { identity = "quay.io"; digest = "sha256:bb"; session = "s3"; bytes = 50 }

abbrev current : Reservations
current = ("a", earlier) ∷ ("b", other) ∷ []

abbrev next : Reservations
next = ("a", record request { bytes = 40 }) ∷ ("b", other) ∷ []

taken_over : decide 100 "a" request current ≡ write next
unfolding decide
taken_over = refl

repeated : decide 100 "a" request next ≡ present
unfolding decide
repeated = refl

too_much : decide 100 "c" (record request { bytes = 11 }) current ≡ exceeded
unfolding decide
too_much = refl

backoff : quota_backoff_limit 4 ≡ 160000000
unfolding quota_backoff_limit
backoff = refl

decide-Reserved_example : Reserved 100 "a" request current next
decide-Reserved_example = decide-Reserved 100 "a" request current (omega arith) next taken_over

-- The definitions that a run computes with.
program : Unit {0}
unfolding reserve cleanup_orphans get put head ◌>>=◌ attempt spell keep decide committed is
    put_number put_text
program = tt

abbrev disk : Disk QuotaState
disk = update (λ k. none) quota_key (some (encoded codec current))

-- The first write of a call meets a conflict.
abbrev world : World QuotaState
world = record {
  disk = disk;
  clock = 100;
  script =
      record { others = λ d. d; elapsed = 0; fault = none }
      ∷ record { others = λ d. d; elapsed = 5; fault = some (before (sentinel condition_failed)) }
      ∷ [];
}

abbrev no_wait : ℕ → M QuotaState (Unit {0})
no_wait n = pure tt

reserved : (reserve tagging codec no_wait 100 "a" (pure tt) request world).0 ≡ ok tt
unfolding program
reserved = refl

now_held :
    (reserve tagging codec no_wait 100 "a" (pure tt) request world).1.disk quota_key
    ≡ some (record { reservations = some next })
unfolding program
now_held = refl

cleaned_up :
    (cleanup_orphans tagging codec no_wait (record world { script = [] })).1.disk quota_key
    ≡ some (record { reservations = some [] })
unfolding program
cleaned_up = refl

most_fits : 100 ≤ max_int64
most_fits = omega arith

-- The disk holds the reservations of "a" and "b".
starts-Within : Within tagging codec 100 most_fits disk
unfolding total
starts-Within =
    encoded-Kept tagging codec 100 most_fits (λ k. none) current (λ w. (omega arith, omega arith))
      λ b rs at read_as. absurd (cc at)

run-Within_example :
    Within tagging codec 100 most_fits
      (run tagging codec no_wait
        (pure tt)
        100
        (reserves "a" request ∷ releases "b" "s3" ∷ cleans_up ∷ [])
        world).disk
run-Within_example =
    let order = kept_order tagging codec 100 most_fits in
    run-Within tagging codec no_wait (pure tt) 100 most_fits (λ n. Keeps-pure order tt tt)
      (Keeps-pure order tt tt) (reserves "a" request ∷ releases "b" "s3" ∷ cleans_up ∷ []) world
      (order.stay, (order.stay, tt)) starts-Within

reserve-Secures_example :
    Within tagging codec 100 most_fits
      (reserve tagging codec no_wait 100 "a" (pure tt) request world).1.disk
    × Reserves tagging codec 100 most_fits "a" "s2" 30
        (reserve tagging codec no_wait 100 "a" (pure tt) request world).1.disk
reserve-Secures_example =
    let order = spares_order tagging codec 100 most_fits "a" "s2" 30 in
    reserve-Secures tagging codec 100 most_fits "a" "s2" 30 no_wait (pure tt) request world
      (λ n. Keeps-pure order tt tt) (Keeps-pure order tt tt) refl refl (omega arith)
      (order.stay, (order.stay, tt)) reserved starts-Within
