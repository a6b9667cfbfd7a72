-- ===== src/Builder/Services.antt =====
-- internal/builder: the two Services, the rendered Secret and the ConfigMap of the configuration.
use mosquitto_operator.Base.{true, false, [], ◌∷◌, Bytes, codes}
use mosquitto_operator.Base.Dict.{Dict}
use mosquitto_operator.Api.{Mosquitto}
use mosquitto_operator.Labels.{
  base_labels, selector_labels, headless_service_name, client_service_name, auth_secret_name,
}
use mosquitto_operator.Config.{
  broker_port, broker_port_name, config_map_name, config_key, generate_mosquitto_conf,
}
use mosquitto_operator.Builder.Objects.{Service, ServicePort, Secret, ConfigMap}
use mosquitto_operator.Builder.Pods.{resolve_image, protocol_tcp}

unfoldable pub broker_service_port : Mosquitto → ServicePort
broker_service_port m = record {
  name = broker_port_name m;
  port = broker_port m;
  target_port = broker_port_name m;
  protocol = protocol_tcp;
}

unfoldable pub build_headless_service : Mosquitto → Service
build_headless_service m = record {
  name = headless_service_name m;
  namespace = m.meta.namespace;
  labels = base_labels m (resolve_image m);
  kind = codes "ClusterIP";
  cluster_ip = codes "None";
  selector = selector_labels m;
  publish_not_ready_addresses = true;
  ports = broker_service_port m ∷ [];
}

unfoldable pub build_client_service : Mosquitto → Service
build_client_service m = record {
  name = client_service_name m;
  namespace = m.meta.namespace;
  labels = base_labels m (resolve_image m);
  kind = codes "ClusterIP";
  cluster_ip = [];
  selector = selector_labels m;
  publish_not_ready_addresses = false;
  ports = broker_service_port m ∷ [];
}

unfoldable pub build_auth_secret : Mosquitto → Dict Bytes → Secret
build_auth_secret m files = record {
  name = auth_secret_name m;
  namespace = m.meta.namespace;
  labels = base_labels m (resolve_image m);
  kind = codes "Opaque";
  files = files;
}

unfoldable pub build_config_map : Mosquitto → ConfigMap
build_config_map m = record {
  name = config_map_name m;
  namespace = m.meta.namespace;
  labels = base_labels m (resolve_image m);
  texts = (config_key, generate_mosquitto_conf m) ∷ [];
}
