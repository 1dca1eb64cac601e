-- ===== src/Share/Limiter/Locks.antt =====
-- Five wrong passwords lock a device out for a window.
use ket.Common.{ℕ, ◌-◌, ◌≤◌, ◌<◌, ◌≡◌, List, [], ◌∷◌, some, length}
use ket.Net.{IpAddr}
use ket.Share.Limiter.{Failures, SignInLimiter, max_tracked, window, failures_of, failed}

-- The device has that many wrong passwords at least, the last at that time, and the map is small.
Guessed : ℕ → ℕ → IpAddr → SignInLimiter → Type 0
Guessed n at device l =
    (f : Failures) × (failures_of device l.devices ≡ some f)
    × (f.last ≡ at)
    × (n ≤ f.count)
    × (length l.devices ≤ max_tracked)

-- Wrong passwords from a device, one after the other.
pub guesses : SignInLimiter → IpAddr → List ℕ → SignInLimiter
guesses l device [] = l
guesses l device (at ∷ times) = guesses (failed l device at) device times

-- Each time is within a window of the one before, the first of a given one.
abbrev pub Close : ℕ → List ℕ → Type 0
Close at [] = Unit
Close at (t ∷ ts) = (t - at < window) × Close t ts

abbrev pub last_of : ℕ → List ℕ → ℕ
last_of at [] = at
last_of at (t ∷ ts) = last_of t ts
