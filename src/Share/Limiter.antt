-- ===== src/Share/Limiter.antt =====
-- The limiter of wrong passwords: crates/ket-share/src/limiter.rs. An `Instant` is a number of
-- nanoseconds; the `HashMap` is a list of its entries in the order in which it is walked.
pub mod Devices
pub mod Locks
pub mod Bounds
use ket.Common.{
  ℕ, ◌+◌, ◌-◌, ◌*◌, ◌^◌, Bool, true, false, not, ◌&&◌, ◌||◌, List, [], ◌∷◌, ◌++◌, Option, none,
  some, ltb, leb, holds, if◌then◌else◌, length, retain, drop,
}
use ket.Server.Validate.{is_some_and}
use ket.Net.{IpAddr, IpAddr-discrete}

abbrev pub max_failures : ℕ
max_failures = 5

abbrev pub max_total_failures : ℕ
max_total_failures = 30

-- 60 seconds.
abbrev pub window : ℕ
window = 60 * 10 ^ 9

abbrev pub max_tracked : ℕ
max_tracked = 1024

pub record Failures : Type 0 where
  pub count : ℕ
  pub last : ℕ

pub record SignInLimiter : Type 0 where
  pub devices : List (IpAddr × Failures)
  pub recent : List ℕ

abbrev pub new_limiter : SignInLimiter
new_limiter = record { devices = []; recent = [] }

abbrev pub same_device : IpAddr → IpAddr → Bool
same_device a b = holds (IpAddr-discrete a b)

-- `HashMap::get`
unfoldable pub failures_of : IpAddr → List (IpAddr × Failures) → Option Failures
failures_of device [] = none
failures_of device (e ∷ m) = if same_device device e.0 then some e.1 else failures_of device m

-- `HashMap::remove`
unfoldable pub remove_device : IpAddr → List (IpAddr × Failures) → List (IpAddr × Failures)
remove_device device [] = []
remove_device device (e ∷ m) =
    let rest = remove_device device m in if same_device device e.0 then m else e ∷ rest

-- `HashMap::entry(device).or_insert(..)` and the changes through it.
unfoldable pub count_failure : IpAddr → ℕ → List (IpAddr × Failures) → List (IpAddr × Failures)
count_failure device now [] = (device, record { count = 1; last = now }) ∷ []
count_failure device now (e ∷ m) =
    let rest = count_failure device now m in
    if same_device device e.0
    then (e.0, record { count = e.1.count + 1; last = now }) ∷ m
    else e ∷ rest

-- `saturating_duration_since(at) < WINDOW`
abbrev pub within : ℕ → ℕ → Bool
within now at = ltb (now - at) window

-- `SignInLimiter::forget_before`
unfoldable pub forget_before : SignInLimiter → ℕ → SignInLimiter
forget_before l now = record {
  devices = retain (λ e. within now e.1.last) l.devices;
  recent = retain (within now) l.recent;
}

-- `SignInLimiter::turns_away`
unfoldable pub turns_away : SignInLimiter → IpAddr → Bool → ℕ → SignInLimiter × Bool
unfolding forget_before failures_of
turns_away l device signed_in now =
    let l = forget_before l now in
    if is_some_and (λ f. leb max_failures f.count) (failures_of device l.devices)
    then (l, true)
    else (l, not signed_in && leb max_total_failures (length l.recent))

-- `min_by_key` of the last failure: the first of the least.
unfoldable pub least_recent : List (IpAddr × Failures) → Option (IpAddr × Failures)
least_recent [] = none
least_recent (e ∷ m) = elim (least_recent m) [
  | none ↦ some e
  | some b ↦ if leb e.1.last b.1.last then some e else some b
]

-- Past the limit of the devices, the one with the oldest failure is forgotten.
unfoldable pub drop_oldest : List (IpAddr × Failures) → List (IpAddr × Failures)
unfolding least_recent remove_device
drop_oldest m =
    if ltb max_tracked (length m)
    then elim (least_recent m) [ none ↦ m | some e ↦ remove_device e.0 m ]
    else m

-- `SignInLimiter::failed`
unfoldable pub failed : SignInLimiter → IpAddr → ℕ → SignInLimiter
unfolding forget_before count_failure drop_oldest
failed l device now =
    let l = forget_before l now in
    record {
      devices = drop_oldest (count_failure device now l.devices);
      recent =
          (if ltb (length l.recent) max_total_failures then l.recent else drop 1 l.recent)
          ++ now ∷ [];
    }

-- `SignInLimiter::succeeded`
unfoldable pub succeeded : SignInLimiter → IpAddr → SignInLimiter
unfolding remove_device
succeeded l device = record l { devices = remove_device device l.devices }
