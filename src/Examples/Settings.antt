-- ===== src/Examples/Settings.antt =====
-- `Load` of internal/config/config.go in two environments.
use soa_hw.Base.{String, str_eq, ◌≡◌, refl, Option, none, some, if◌then◌else◌}
use soa_hw.Base.Int.{ℤ, pos}
use soa_hw.Config.{System, load}

abbrev numbers : String → Option ℤ
numbers text = if str_eq text "5" then some (pos 5) else none

-- Nothing is set.
abbrev unset : System
unset = record { getenv = λ _. ""; parse_duration = numbers; atoi = numbers }

-- Every variable is 5, which no duration is.
abbrev fives : System
fives = record { getenv = λ _. "5"; parse_duration = λ _. none; atoi = numbers }

load-unset : (load unset).jwt_access_ttl ≡ pos 900000000000
unfolding load
load-unset = refl

load-fives :
    ((load fives).order_rate_limit_minutes ≡ pos 5)
    × ((load fives).jwt_access_ttl ≡ pos 900000000000)
    × ((load fives).http_port ≡ "5")
unfolding load
load-fives = (refl, refl, refl)
