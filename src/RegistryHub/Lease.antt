-- ===== src/RegistryHub/Lease.antt =====
-- Fenced leases in the shared store: application/registry-hub/src/internal/lease/lease.go.
--
-- Times and durations are nanoseconds, with 0 for the zero time; a time to live is not
-- negative. Fencing tokens are uint64 and wrap around. The clock moves with the calls of the
-- store alone, so two readings with no call between them agree.
pub mod View
pub mod Reading
pub mod Guarantee
pub mod Grants
pub mod Fencing
pub mod Exclusion
pub mod Sample
mod Tests
use Prim.Native.String.{◌++◌}
use k8s_at_home.Prelude.{
  ℕ, zero, suc, ◌+◌, ◌%◌, ◌^◌, String, Bool, true, false, ◌&&◌, ◌||◌, not, Option, none, some, ltb,
  ◌==◌, str_eq, if◌then◌else◌,
}
use k8s_at_home.RegistryHub.Errors.{
  Error, sentinel, Result, ok, err, is, not_found, condition_failed, already_exists, unknown_commit,
  unavailable, held, lost, other,
}
use k8s_at_home.RegistryHub.Storage.{
  Tagging, Codec, Object, PutOptions, M, pure, fail, now, ◌>>=◌, attempt, get, put,
}

abbrev pub schema_previous : ℕ
schema_previous = 1

abbrev pub schema_current : ℕ
schema_current = 2

abbrev pub size_limit : ℕ
size_limit = 2 ^ 20

-- `record` of lease.go
pub record LeaseRecord : Type 0 where
  pub schema_version : ℕ
  pub owner : String
  pub fencing_token : ℕ
  pub acquired_at : ℕ
  pub expires_at : ℕ
  pub state : String

-- The fencing token is a uint64.
abbrev pub representable : LeaseRecord → Bool
representable r = ltb r.fencing_token (2 ^ 64)

-- `record{}`
abbrev pub no_record : LeaseRecord
no_record = record {
  schema_version = 0;
  owner = "";
  fencing_token = 0;
  acquired_at = 0;
  expires_at = 0;
  state = "";
}

pub record Lease : Type 0 where
  pub key : String
  pub owner : String
  pub fencing_token : ℕ
  pub version : String
  pub expires_at : ℕ

unfoldable pub matches : LeaseRecord → Lease → Bool
matches current lease =
    str_eq current.state "held"
    && str_eq current.owner lease.owner
    && (current.fencing_token == lease.fencing_token)

-- The record is held and has not expired at `t`.
unfoldable pub unexpired : LeaseRecord → ℕ → Bool
unexpired current t = str_eq current.state "held" && ltb t current.expires_at

-- What Acquire writes over `current`.
unfoldable pub successor : LeaseRecord → String → ℕ → ℕ → LeaseRecord
successor current owner ttl t = record {
  schema_version = schema_current;
  owner = owner;
  fencing_token = (current.fencing_token + 1) % 2 ^ 64;
  acquired_at = t;
  expires_at = t + ttl;
  state = "held";
}

module _ {Body : Type 0} (codec : Codec Body LeaseRecord representable) where
  -- The checks of `read` on a body that came from the store.
  unfoldable pub decoded : Body → Result LeaseRecord
  decoded body =
      if ltb size_limit (codec.size body) then err (sentinel other) else (elim (codec.decode body) [
        | none ↦ err (sentinel other)
        | some value ↦ if value.fencing_token == 0 then err (sentinel other) else ok value
      ])

module _ {Body : Type 0} (tagging : Tagging Body)
    (codec : Codec Body LeaseRecord representable) where
  abbrev Found : Type 0
  Found = Object Body × LeaseRecord

  -- A conflict while a record of the previous schema is rewritten: read again.
  migrated : M Body Found → Object Body → LeaseRecord → Result String → M Body Found
  migrated retry object value (ok version) = pure (record object { version = version }, value)
  migrated retry object value (err e) =
      if is e condition_failed || is e unknown_commit then retry else fail e

  migrate : M Body Found → String → Object Body → LeaseRecord → M Body Found
  migrate retry key object value = do
    let updated = record value { schema_version = schema_current }
    written ← attempt (
        put tagging key (codec.encode updated)
          (record { if_absent = false; if_match = object.version }))
    migrated retry object updated written

  -- The switch on the schema.
  upgrade : M Body Found → String → Object Body → Result LeaseRecord → M Body Found
  upgrade retry key object (err e) = fail e
  upgrade retry key object (ok value) =
      if value.schema_version == schema_current
      then pure (object, value)
      else if value.schema_version == schema_previous
      then migrate retry key object value
      else fail (sentinel other)

  read_attempts : ℕ → String → M Body Found
  read_attempts zero key = fail (sentinel unavailable)
  read_attempts (suc n) key =
      let retry = read_attempts n key in
      do object ← get tagging key; upgrade retry key object (decoded codec object.body)

  pub read : String → M Body Found
  unfolding read_attempts upgrade migrate migrated decoded
  read key = read_attempts 16 key

  -- The conditional write of Acquire, and its answer.
  granted : M Body Lease → String → LeaseRecord → Result String → M Body Lease
  granted retry key next (ok version) = pure (record {
    key = key;
    owner = next.owner;
    fencing_token = next.fencing_token;
    version = version;
    expires_at = next.expires_at;
  })
  granted retry key next (err e) =
      if is e condition_failed || is e already_exists then retry else fail e

  claim : M Body Lease → String → String → ℕ → LeaseRecord → PutOptions → M Body Lease
  claim retry key owner ttl current options = do
    t ← now
    let next = successor current owner ttl t
    written ← attempt (put tagging key (codec.encode next) options)
    granted retry key next written

  -- The guards of Acquire on what it read.
  contend : M Body Lease → String → String → ℕ → Result Found → M Body Lease
  contend retry key owner ttl (err e) =
      if is e not_found
      then claim retry key owner ttl no_record (record { if_absent = true; if_match = "" })
      else fail e
  contend retry key owner ttl (ok (previous, current)) = do
    t ← now
    if unexpired current t
        then fail (sentinel held)
        else claim retry key owner ttl current
            (record { if_absent = false; if_match = previous.version })

  acquire_attempts : ℕ → String → String → ℕ → M Body Lease
  acquire_attempts zero key owner ttl = fail (sentinel condition_failed)
  acquire_attempts (suc n) key owner ttl =
      let retry = acquire_attempts n key owner ttl in
      do found ← attempt (read key); contend retry key owner ttl found

  pub acquire : String → String → ℕ → M Body Lease
  unfolding acquire_attempts contend claim granted read successor unexpired
  acquire key owner ttl = acquire_attempts 3 ("leases/" ++ key) owner ttl

  -- A lost condition means a lost lease.
  lost_on_conflict : Error → Error
  lost_on_conflict e = if is e condition_failed then sentinel lost else e

  renewed : Lease → ℕ → Result String → M Body Lease
  renewed lease expires (ok version) =
      pure (record lease { version = version; expires_at = expires })
  renewed lease expires (err e) = fail (lost_on_conflict e)

  pub renew : Lease → ℕ → M Body Lease
  unfolding read matches renewed lost_on_conflict
  renew lease ttl = do
    (previous, current) ← read lease.key
    t ← now
    if not (matches current lease) || not (ltb t current.expires_at)
        then fail (sentinel lost)
        else do
          let next = record current { expires_at = t + ttl }
          written ← attempt (
              put tagging lease.key (codec.encode next)
                (record { if_absent = false; if_match = previous.version }))
          renewed lease next.expires_at written

  pub validate : Lease → M Body (Unit {0})
  unfolding read matches
  validate lease = do
    (_, current) ← read lease.key
    t ← now
    if not (matches current lease) || not (ltb t current.expires_at)
        then fail (sentinel lost)
        else pure tt

  activity : Result Found → M Body Bool
  activity (err e) = if is e not_found then pure false else fail e
  activity (ok (_, current)) = do t ← now; pure (unexpired current t)

  pub active : String → M Body Bool
  unfolding read activity unexpired
  active key = do found ← attempt (read ("leases/" ++ key)); activity found

  released : Result String → M Body (Unit {0})
  released (ok version) = pure tt
  released (err e) = fail (lost_on_conflict e)

  pub release : Lease → M Body (Unit {0})
  unfolding read matches released lost_on_conflict
  release lease = do
    (previous, current) ← read lease.key
    if not (matches current lease) then fail (sentinel lost) else do
      t ← now
      let next = record current { state = "released"; expires_at = t }
      written ← attempt (
          put tagging lease.key (codec.encode next)
            (record { if_absent = false; if_match = previous.version }))
      released written
