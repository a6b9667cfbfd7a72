-- ===== src/Examples/Refusals.antt =====
-- internal/controller at concrete inputs: the passes that are refused and those that fail.
use mosquitto_operator.Base.{
  ℕ, ◌≡◌, refl, inl, true, false, none, some, [], ◌∷◌, codes, bytes_discrete, if◌then◌else◌, ◌++◌,
}
use mosquitto_operator.Base.Results.{ok, Message}
use mosquitto_operator.Api.{Mosquitto, MosquittoStatus}
use mosquitto_operator.Controller.Cluster.{◌=key◌}
use mosquitto_operator.Controller.Conditions.{condition_ready, find}
use mosquitto_operator.Controller.Exec.{State}
use mosquitto_operator.Controller.Passes.{
  namespace_granted, reconcile, reason_config_directive_refused,
}
use mosquitto_operator.Controller.Refused.{refused_pass_writes_no_object}
use mosquitto_operator.Controller.Statuses.{phase_failed}
use mosquitto_operator.Controller.Reported.{refused_config_is_reported}
use mosquitto_operator.Config.{
  validate_spec_config, validate_lines, directive_of, allowed_config_directives,
}
use mosquitto_operator.Base.Strings.{split, has_prefix}
use mosquitto_operator.Base.Decimal.{itoa}
use mosquitto_operator.Base.Runes.{fields, trim_space}
use mosquitto_operator.Examples.Clusters.{
  quiet_outside, operator_of, home_key, start, broker-stored,
}
use mosquitto_operator.Examples.Samples.{sample_broker}

not_granted : namespace_granted (operator_of (codes "office")) (codes "home") ≡ false
unfolding namespace_granted bytes_discrete
not_granted = refl

refused_pass_writes_no_object_example :
    (reconcile quiet_outside (operator_of (codes "office")) home_key start).1.cluster.objects
    ≡ start.cluster.objects
refused_pass_writes_no_object_example =
    refused_pass_writes_no_object quiet_outside (operator_of (codes "office")) home_key
      sample_broker start broker-stored (inl not_granted)

-- Its configuration opens a listener of its own.
abbrev rejected_broker : Mosquitto
rejected_broker = record sample_broker {
  spec = record sample_broker.spec { config = codes "listener 1884" };
}

abbrev rejecting : State ℕ
rejecting = record start {
  cluster = record start.cluster {
    brokers = λ key. if home_key =key key then some rejected_broker else none;
  };
}

rejected_stored : rejecting.cluster.brokers home_key ≡ some rejected_broker
unfolding bytes_discrete
rejected_stored = refl

granted : namespace_granted (operator_of (codes "home")) (codes "home") ≡ true
unfolding namespace_granted bytes_discrete
granted = refl

abbrev rejection : Message
rejection = record {
  format =
      codes
        "spec.config line %d (%q): the directive %q is not on the allowlist of tuning directives";
  args = itoa 1 ∷ trim_space (codes "listener 1884") ∷ codes "listener" ∷ [];
}

rejected : validate_spec_config rejected_broker ≡ some rejection
unfolding validate_spec_config validate_lines split directive_of fields has_prefix
    allowed_config_directives bytes_discrete
rejected = refl

refused_config_is_reported_example :
    (status : MosquittoStatus) × ((reconcile quiet_outside
        (operator_of (codes "home"))
        home_key
        rejecting).0
      ≡ ok tt)
    × ((reconcile quiet_outside (operator_of (codes "home")) home_key rejecting).1.cluster.brokers
          home_key
        ≡ some (record rejected_broker { status = status }))
    × (status.phase ≡ phase_failed)
    × (find condition_ready status.conditions
        ≡ some (record {
          kind = condition_ready;
          status = false;
          observed_generation = 1;
          reason = reason_config_directive_refused;
          message =
              rejection.format
              ++ codes "; nothing was written, the broker keeps its running configuration";
        }))
refused_config_is_reported_example =
    refused_config_is_reported quiet_outside (operator_of (codes "home")) home_key rejected_broker
      rejection rejecting (λ calls call. refl) rejected_stored refl refl granted rejected
