-- ===== src/PoolConfig.antt =====
-- pkg/tunnel/pool_config.go: the checks and the defaults of the connection pool's configuration.
-- Durations are integers, in nanoseconds; the transport's configuration and the observer, which
-- neither operation reads, are left out.
pub mod Defaults
mod Tests
use quantum_go.Base.Ints.{ℤ, pos, negsuc, is_negative, is_zero, is_above}
use quantum_go.Base.{ℕ, ◌+◌, Bool, true, false, not, ◌&&◌, ltb, leb, ◌==◌, if◌then◌else◌}

-- `PoolConfig`
pub record PoolConfig : Type 0 where
  pub min_conns : ℤ
  pub max_conns : ℤ
  pub idle_timeout : ℤ
  pub max_lifetime : ℤ
  pub health_check_interval : ℤ
  pub wait_timeout : ℤ
  pub dial_timeout : ℤ

-- `DefaultPoolConfig`
abbrev pub default_pool_config : PoolConfig
default_pool_config = record {
  min_conns = pos 1;
  max_conns = pos 10;
  idle_timeout = pos 300_000_000_000;
  max_lifetime = pos 1_800_000_000_000;
  health_check_interval = pos 30_000_000_000;
  wait_timeout = pos 30_000_000_000;
  dial_timeout = pos 10_000_000_000;
}

-- `Validate`; false is its error
unfoldable pub validate : PoolConfig → Bool
validate c =
    if is_negative c.min_conns
    then false
    else if is_negative c.max_conns
    then false
    else if is_above c.max_conns (pos 0) && is_above c.min_conns c.max_conns
    then false
    else if is_negative c.idle_timeout
    then false
    else if is_negative c.max_lifetime
    then false
    else if is_negative c.health_check_interval
    then false
    else if is_negative c.wait_timeout
    then false
    else if is_negative c.dial_timeout
    then false
    else true

abbrev pub default_to : ℤ → ℤ → ℤ
default_to d v = if is_zero v then d else v

-- `applyDefaults`
unfoldable pub apply_defaults : PoolConfig → PoolConfig
apply_defaults c = record {
  min_conns = default_to default_pool_config.min_conns c.min_conns;
  max_conns = default_to default_pool_config.max_conns c.max_conns;
  idle_timeout = default_to default_pool_config.idle_timeout c.idle_timeout;
  max_lifetime = default_to default_pool_config.max_lifetime c.max_lifetime;
  health_check_interval =
      default_to default_pool_config.health_check_interval c.health_check_interval;
  wait_timeout = default_to default_pool_config.wait_timeout c.wait_timeout;
  dial_timeout = default_to default_pool_config.dial_timeout c.dial_timeout;
}
