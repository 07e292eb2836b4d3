-- ===== src/PoolConfig/Tests.antt =====
-- The defaults at a concrete configuration.
use quantum_go.Base.{◌≡◌, refl, true, false}
use quantum_go.Base.Ints.{pos}
use quantum_go.PoolConfig.{PoolConfig, validate, apply_defaults}
use quantum_go.PoolConfig.Defaults.{validate-apply_defaults}

abbrev eager : PoolConfig
eager = record {
  min_conns = pos 20;
  max_conns = pos 0;
  idle_timeout = pos 0;
  max_lifetime = pos 0;
  health_check_interval = pos 0;
  wait_timeout = pos 5;
  dial_timeout = pos 0;
}

eager-validate : validate eager ≡ true
unfolding validate
eager-validate = refl

validate-apply_defaults_example : validate (apply_defaults eager) ≡ false
validate-apply_defaults_example = validate-apply_defaults eager eager-validate
