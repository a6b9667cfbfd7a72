-- ===== src/Exporter/Process.antt =====
-- internal/exporter/run.go: the configuration of the exporter, its session with the broker, the
-- certificate that it pins, and its program. The MQTT client and the HTTP server are not modelled:
-- the client's options are a record, and how the server ends is an input.
use mosquitto_operator.Base.{
  ℕ, Bool, true, Option, none, some, List, [], ◌∷◌, Bytes, codes, ◌=?◌, if◌then◌else◌,
}
use mosquitto_operator.Base.Dict.{Dict, get_or}
use mosquitto_operator.Base.Flags.{FlagKind, text, Syntax, parse_flags}
use mosquitto_operator.Base.Results.{Result, ok, err, Error, new}
use mosquitto_operator.Base.Runes.{trim_space}
use mosquitto_operator.Exporter.Mapping.{Floats}
use mosquitto_operator.Exporter.Collect.{Collector, connect}

pub record Config : Type 0 where
  pub broker : Bytes
  pub username : Bytes
  pub password_file : Bytes
  pub tls_cert : Bytes
  pub listen : Bytes

abbrev pub subscription : Bytes
subscription = codes "$SYS/broker/#"

-- The user name and the password that the client gives; a file that cannot be read is an empty one.
unfoldable pub credentials : Config → (Bytes → Result Bytes) → Bytes × Bytes
credentials cfg read_file = (cfg.username, trim_space (contents (read_file cfg.password_file)))
  where
    contents : Result Bytes → Bytes
    contents (ok s) = s
    contents (err e) = []

-- What `newClient` sets; intervals are seconds.
pub record ClientOptions : Type 0 where
  pub broker : Bytes
  pub client_id : Bytes
  pub clean_session : Bool
  pub keep_alive : ℕ
  pub connect_retry : Bool
  pub connect_retry_interval : ℕ
  pub auto_reconnect : Bool
  pub max_reconnect_interval : ℕ
  pub pinned : Option Bytes

unfoldable pub client_options : Config → ClientOptions
client_options cfg = record {
  broker = cfg.broker;
  client_id = cfg.username;
  clean_session = true;
  keep_alive = 30;
  connect_retry = true;
  connect_retry_interval = 5;
  auto_reconnect = true;
  max_reconnect_interval = 30;
  pinned = if cfg.tls_cert =? [] then none else some cfg.tls_cert;
}

-- The handler of a connection, with the outcome of its subscription.
unfoldable pub on_connect : {f : Floats} → Option Error → Collector f → Collector f
on_connect none c = connect _ c
on_connect (some e) c = c

-- What `encoding/pem` and `crypto/x509` make of a file.
pub record Certificates : Type 1 where
  pub Certificate : Type 0
  pub raw : Certificate → Bytes
  pub decode : Bytes → Option Bytes
  pub parse_certificate : Bytes → Result Certificate

module _ (certs : Certificates) where
  open certs use {Certificate, raw, decode, parse_certificate}

  parsed_block : Bytes → Option Bytes → Result Certificate
  parsed_block path none =
      err (new (record { format = codes "%s holds no PEM block"; args = path ∷ [] }))
  parsed_block path (some block) = parse_certificate block

  unfoldable pub first_certificate : Bytes → Result Bytes → Result Certificate
  unfolding parsed_block
  first_certificate path (err e) = err e
  first_certificate path (ok contents) = parsed_block path (decode contents)

  abbrev pub other_certificate : Error
  other_certificate = new (record {
    format = codes "the broker serves a certificate other than the mounted one";
    args = [];
  })

  -- The raw certificates of the peer, against the pinned one.
  same_certificate : List Bytes → Result Certificate → Option Error
  same_certificate peers (err e) = some e
  same_certificate [] (ok pinned) = some other_certificate
  same_certificate (peer ∷ peers) (ok pinned) =
      if peer =? raw pinned then none else some other_certificate

  unfoldable pub verify_connection : Bytes → Result Bytes → List Bytes → Option Error
  unfolding same_certificate
  verify_connection path file peers = same_certificate peers (first_certificate path file)

-- How serving ends: the context ended, with what the shutdown gave, or the server did.
pub data Ending : Type 0 where
  stopped : Option Error → Ending
  served : Error → Ending

unfoldable pub run_result : Ending → Option Error
run_result (stopped e) = e
run_result (served e) = some e

unfoldable pub exporter_flags : Dict FlagKind
exporter_flags =
    (codes "broker", text)
    ∷ (codes "username", text)
    ∷ (codes "password-file", text)
    ∷ (codes "tls-cert", text)
    ∷ (codes "listen", text)
    ∷ []

unfoldable pub exporter_defaults : Dict Bytes
exporter_defaults =
    (codes "broker", codes "tcp://127.0.0.1:1883")
    ∷ (codes "username", codes "mko-exporter")
    ∷ (codes "password-file", codes "/mosquitto/exporter/password")
    ∷ (codes "tls-cert", [])
    ∷ (codes "listen", codes ":9234")
    ∷ []

unfoldable pub config_of : Dict Bytes → Config
config_of values = record {
  broker = get_or (codes "broker") [] values;
  username = get_or (codes "username") [] values;
  password_file = get_or (codes "password-file") [] values;
  tls_cert = get_or (codes "tls-cert") [] values;
  listen = get_or (codes "listen") [] values;
}

unfoldable pub exporter_settings : Syntax → List Bytes → Result (Dict Bytes)
unfolding exporter_flags exporter_defaults
exporter_settings syn args = parse_flags syn exporter_flags exporter_defaults args

unfoldable pub exit_code : (Error → Bool) → Option Error → ℕ
exit_code is_closed none = 0
exit_code is_closed (some e) = if is_closed e then 0 else 1

-- The exit code, by the outcome of `net.Listen` and how serving ends. `is_closed` is
-- `errors.Is(err, http.ErrServerClosed)`.
unfoldable pub exporter_main :
    Syntax → (Error → Bool) → List Bytes → (Bytes → Option Error) → (Config → Ending) → ℕ
exporter_main syn is_closed args listen serve = elim (exporter_settings syn args) [
  | err e ↦ 2
  | ok values ↦ elim (listen (config_of values).listen) [
    | some e ↦ 1
    | none ↦ exit_code is_closed (run_result (serve (config_of values)))
  ]
]
