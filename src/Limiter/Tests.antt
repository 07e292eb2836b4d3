-- ===== src/Limiter/Tests.antt =====
-- The limiter on a short history.
use quantum_go.Base.{◌≡◌, refl, false, [], ◌∷◌, arith}
use quantum_go.Limiter.{IpRateLimiter, new_ip_rate_limiter, connections_of, allow_connection}
use quantum_go.Limiter.Counts.{allow_connection_counts}

-- Two connections of one address, under a limit of 2.
abbrev full_limiter : IpRateLimiter
full_limiter = record { connections = (9, 2) ∷ []; max_per_ip = 2 }

filled : (allow_connection (allow_connection (new_ip_rate_limiter 2) 9).0 9).0 ≡ full_limiter
unfolding allow_connection
filled = refl

allow_connection_counts_example :
    ((allow_connection full_limiter 9).1 ≡ false)
    × (connections_of (allow_connection full_limiter 9).0 9 ≡ 2)
allow_connection_counts_example = allow_connection_counts full_limiter 9 9 (omega arith)
