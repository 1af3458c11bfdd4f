-- ===== src/RegistryHub/Errors.antt =====
-- The error values of application/registry-hub/src/internal (the sentinels of
-- storage/storage.go, lease/lease.go, workqueue/queue.go, inventory and download/quota.go, those of
-- package context), `errors.Is` and `errors.Join`.
use k8s_at_home.Prelude.{ℕ, Bool, ◌||◌, ◌==◌}

pub data Sentinel : Type 0 where
  not_found already_exists condition_failed unavailable timeout permission_denied : Sentinel
  corrupt_object unknown_commit lease_lost invalid_key : Sentinel
  held lost : Sentinel
  source_missing invalid quota_exceeded : Sentinel
  deadline_exceeded canceled : Sentinel
  -- an error that no caller tells apart, such as one made by errors.New in place
  other : Sentinel

rank : Sentinel → ℕ
rank not_found = 0
rank already_exists = 1
rank condition_failed = 2
rank unavailable = 3
rank timeout = 4
rank permission_denied = 5
rank corrupt_object = 6
rank unknown_commit = 7
rank lease_lost = 8
rank invalid_key = 9
rank held = 10
rank lost = 11
rank source_missing = 12
rank invalid = 13
rank deadline_exceeded = 14
rank canceled = 15
rank quota_exceeded = 16
rank other = 17

unfoldable pub same : Sentinel → Sentinel → Bool
unfolding rank
same a b = rank a == rank b

pub data Error : Type 0 where
  sentinel : Sentinel → Error
  -- errors.Join
  join : Error → Error → Error

-- errors.Is
unfoldable pub is : Error → Sentinel → Bool
unfolding same
is (sentinel a) s = same a s
is (join e f) s = is e s || is f s

pub data Result {ℓ} (A : Type ℓ) : Type ℓ where
  ok : A → Result A
  err : Error → Result A
