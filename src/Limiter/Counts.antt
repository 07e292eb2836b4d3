-- ===== src/Limiter/Counts.antt =====
-- The counts that the limiter keeps, operation by operation and over any history.
use quantum_go.Base.{ℕ, ◌+◌, ◌-◌, ◌<◌, ◌≡◌, ◌&&◌, ltb, ◌==◌, ==_iff, if◌then◌else◌, arith}
use quantum_go.Base.Maps.{ℕ_eq, lookup-insert, lookup-delete}
use quantum_go.Limiter.{IpRateLimiter, connections_of, allow_connection, release_connection}

-- Under a limit, `AllowConnection` admits an address exactly if its count is below the limit, and
-- then adds 1 to that count and to no other.
pub allow_connection_counts :
    (l : IpRateLimiter) (ip j : ℕ)
    → 0 < l.max_per_ip
    → ((allow_connection l ip).1 ≡ ltb (connections_of l ip) l.max_per_ip)
      × (connections_of (allow_connection l ip).0 j ≡ (
          if ip == j && ltb (connections_of l ip) l.max_per_ip
          then connections_of l j + 1
          else connections_of l j))
unfolding allow_connection
allow_connection_counts l ip j h = (
  ground arith,
  ground (arith, ==_iff ip j, lookup-insert ip j (connections_of l ip + 1) l.connections),
)

-- `ReleaseConnection` takes 1 from the count of the address, which stops at 0, and from no other.
pub release_connection_counts :
    (l : IpRateLimiter) (ip j : ℕ)
    → 0 < l.max_per_ip
    → connections_of (release_connection l ip) j
      ≡ (if ip == j then connections_of l j - 1 else connections_of l j)
unfolding release_connection
release_connection_counts l ip j h = ground (
  arith,
  ==_iff ip j,
  lookup-insert ip j (connections_of l ip - 1) l.connections,
  lookup-delete ip j l.connections,
)
