-- ===== src/Limiter.antt =====
-- pkg/tunnel/limiter.go: the limit on concurrent connections of one IP address. Each operation
-- runs under the limiter's mutex, so it is one step. An address is only compared, and is a number;
-- `max_per_ip` 0 stands for every limit that is not positive. A count that is missing from the
-- map reads as 0.
pub mod Counts
mod Tests
use quantum_go.Base.{
  ℕ, ◌+◌, ◌-◌, Bool, true, false, Option, none, some, List, [], ◌∷◌, ltb, leb, ◌==◌, if◌then◌else◌,
}
use quantum_go.Base.Maps.{Eq, ℕ_eq, lookup, insert, delete}

-- `IPRateLimiter`
pub record IpRateLimiter : Type 0 where
  pub connections : List (ℕ × ℕ)
  pub max_per_ip : ℕ

-- `NewIPRateLimiter`
abbrev pub new_ip_rate_limiter : ℕ → IpRateLimiter
new_ip_rate_limiter max_per_ip = record { connections = []; max_per_ip = max_per_ip }

-- `l.connections[ip]`
abbrev pub count_of : Option ℕ → ℕ
count_of none = 0
count_of (some n) = n

abbrev pub connections_of : IpRateLimiter → ℕ → ℕ
connections_of l ip = count_of (lookup ip l.connections)

-- `AllowConnection`
unfoldable pub allow_connection : IpRateLimiter → ℕ → IpRateLimiter × Bool
allow_connection l ip =
    if l.max_per_ip == 0
    then (l, true)
    else if leb l.max_per_ip (connections_of l ip)
    then (l, false)
    else (record l { connections = insert ip (connections_of l ip + 1) l.connections }, true)

-- `ReleaseConnection`: a count that gets to 0 leaves the map.
unfoldable pub release_connection : IpRateLimiter → ℕ → IpRateLimiter
release_connection l ip =
    if l.max_per_ip == 0
    then l
    else if ltb 0 (connections_of l ip)
    then (let n = connections_of l ip - 1 in
        if n == 0
        then record l { connections = delete ip l.connections }
        else record l { connections = insert ip n l.connections })
    else l
