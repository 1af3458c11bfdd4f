-- ===== src/RegistryHub/Quota.antt =====
-- The quota of partial downloads: internal/download/quota.go of registry-hub, the decision that a
-- round of Manager.reserve takes on the reservations that it read, and the amounts. The map is a
-- list of its entries; amounts are natural numbers, as readQuota refuses negative ones.
pub mod Bounds
pub mod Calls
pub mod Sample
pub mod Reserve
pub mod Release
pub mod Invariant
mod Tests
use k8s_at_home.Prelude.{
  ℕ, ◌+◌, ◌-◌, ◌*◌, ◌/◌, ◌^◌, String, Bool, true, false, not, ◌&&◌, ◌||◌, Option, none, some, List,
  [], ◌∷◌, ltb, leb, str_eq, if◌then◌else◌, length,
}

abbrev pub max_active_sessions : ℕ
max_active_sessions = 128

abbrev pub max_int64 : ℕ
max_int64 = 2 ^ 63 - 1

pub record QuotaReservation : Type 0 where
  pub identity : String
  pub digest : String
  pub session : String
  pub bytes : ℕ

abbrev pub Reservations : Type 0
Reservations = List (String × QuotaReservation)

abbrev pub find : String → Reservations → Option QuotaReservation
find key [] = none
find key ((k, r) ∷ rest) = let found = find key rest in if str_eq k key then some r else found

abbrev pub delete : String → Reservations → Reservations
delete key [] = []
delete key ((k, r) ∷ rest) =
    let others = delete key rest in if str_eq k key then others else (k, r) ∷ others

-- The sum of the reservations of the other keys, unless one is broken or the sum overflows.
unfoldable pub used_by_others : String → ℕ → Reservations → Option ℕ
used_by_others key used [] = some used
used_by_others key used ((k, r) ∷ rest) =
    let skipped = used_by_others key used rest in
    let counted = used_by_others key (used + r.bytes) rest in
    if str_eq k key
    then skipped
    else if str_eq r.session "" || ltb (max_int64 - used) r.bytes
    then none
    else counted

-- What a round of reserve does: fail, return as it is, or write.
pub data Decision : Type 0 where
  exceeded : Decision
  corrupt : Decision
  present : Decision
  write : Reservations → Decision

abbrev pub raised : Option QuotaReservation → ℕ → ℕ
raised none required = required
raised (some old) required = if ltb required old.bytes then old.bytes else required

abbrev pub broken : Option QuotaReservation → Bool
broken none = false
broken (some old) = str_eq old.session ""

abbrev pub absent : Option QuotaReservation → Bool
absent none = true
absent (some old) = false

-- The reservation stands already.
abbrev pub standing : Option QuotaReservation → QuotaReservation → Bool
standing none wanted = false
standing (some old) wanted =
    str_eq old.session wanted.session
    && leb wanted.bytes old.bytes
    && str_eq old.identity wanted.identity
    && str_eq old.digest wanted.digest

unfoldable pub admit :
    ℕ → String → QuotaReservation → Reservations → Option QuotaReservation → Option ℕ → Decision
admit max_reserved key wanted current old none = corrupt
admit max_reserved key wanted current old (some used) =
    if absent old && leb max_active_sessions (length current)
      || ltb max_reserved used
      || ltb (max_reserved - used) wanted.bytes
    then exceeded
    else if standing old wanted
    then present
    else write ((key, wanted) ∷ delete key current)

unfoldable pub decide : ℕ → String → QuotaReservation → Reservations → Decision
unfolding admit used_by_others
decide max_reserved key request current =
    let old = find key current in
    if ltb max_reserved request.bytes
    then exceeded
    else if broken old
    then corrupt
    else admit max_reserved key (record request { bytes = raised old request.bytes }) current old
        (used_by_others key 0 current)

-- quotaBackoffLimit, in nanoseconds
unfoldable pub quota_backoff_limit : ℕ → ℕ
quota_backoff_limit conflict =
    let limit = 10000000 * 2 ^ conflict in
    if leb 5 conflict then 250000000 else if ltb 250000000 limit then 250000000 else limit

-- initialReservation; `none` is a size that is not known.
abbrev pub base : Option ℕ → ℕ → ℕ
base none chunk_size = chunk_size
base (some size) chunk_size = size

unfoldable pub initial_reservation : Option ℕ → ℕ → ℕ → Option ℕ
initial_reservation size chunk_size max_bytes =
    let b = base size chunk_size in
    if ltb (max_int64 / 2) b then none else if ltb max_bytes (2 * b) then none else some (2 * b)

unfoldable pub reservation_for : ℕ → ℕ → ℕ
reservation_for offset max_bytes =
    if ltb (max_int64 / 2) offset
    then max_bytes
    else if ltb max_bytes (offset * 2)
    then max_bytes
    else offset * 2
