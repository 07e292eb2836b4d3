-- ===== src/PoolConfig/Defaults.antt =====
-- Which configurations stay valid when the defaults are filled in.
use quantum_go.Base.{◌≡◌, true, not, ◌&&◌, arith}
use quantum_go.Base.Ints.{pos, is_zero, is_above}
use quantum_go.PoolConfig.{PoolConfig, validate, apply_defaults}

-- A valid configuration stays valid under the defaults exactly if it does not ask for more than 10
-- connections at least while it leaves the maximum at 0, which the defaults turn into 10.
pub validate-apply_defaults :
    (c : PoolConfig)
    → validate c ≡ true
    → validate (apply_defaults c) ≡ not (is_zero c.max_conns && is_above c.min_conns (pos 10))
unfolding validate apply_defaults
validate-apply_defaults c h = ground arith
