-- ===== src/Reloader/Program.antt =====
-- internal/reloader/run.go: Main, the program that the init container and the sidecar run.
use mosquitto_operator.Base.{ℕ, Bool, List, [], ◌∷◌, Bytes, codes, if◌then◌else◌}
use mosquitto_operator.Base.Dict.{Dict, get_or}
use mosquitto_operator.Base.Flags.{FlagKind, text, switch, duration, Syntax, parse_flags, is_set}
use mosquitto_operator.Base.Results.{Result, ok, err}
use mosquitto_operator.Base.Strings.{split}
use mosquitto_operator.Reloader.Defs.{World, Config, sync}
use mosquitto_operator.Reloader.Rounds.{Certificates, Round, started, run, exit_code, copies_of}

unfoldable pub reload_flags : Dict FlagKind
reload_flags =
    (codes "source", text)
    ∷ (codes "target", text)
    ∷ (codes "files", text)
    ∷ (codes "process", text)
    ∷ (codes "tls-dir", text)
    ∷ (codes "once", switch)
    ∷ (codes "interval", duration)
    ∷ []

unfoldable pub reload_defaults : Dict Bytes
reload_defaults =
    (codes "source", codes "/mosquitto/auth-secret")
    ∷ (codes "target", codes "/mosquitto/auth")
    ∷ (codes "files", codes "passwd,acl")
    ∷ (codes "process", codes "mosquitto")
    ∷ (codes "tls-dir", [])
    ∷ (codes "once", codes "false")
    ∷ (codes "interval", codes "2s")
    ∷ []

-- What the flags ask for: the configuration, the target directory, and how to run.
pub record Settings : Type 0 where
  pub config : Config
  pub target : Bytes
  pub once : Bool
  pub interval : Bytes

unfoldable pub settings_of : Dict Bytes → Settings
settings_of values = record {
  config = record {
    source = get_or (codes "source") [] values;
    files = split (get_or (codes "files") [] values) b',';
    process = get_or (codes "process") [] values;
    proc_root = codes "/proc";
    tls_dir = get_or (codes "tls-dir") [] values;
  };
  target = get_or (codes "target") [] values;
  once = is_set (codes "once") values;
  interval = get_or (codes "interval") [] values;
}

unfoldable pub reload_settings : Syntax → List Bytes → Result (Dict Bytes)
unfolding reload_flags reload_defaults
reload_settings syn args = parse_flags syn reload_flags reload_defaults args

-- The end of the program: its exit code, and the copies and the state that it leaves.
pub record Ended : Type 0 where
  pub code : ℕ
  pub left : Round

-- With --once one copy in the world of the start; else the polls until the program is told to end, of which
-- there is at least one. An interval that is not positive, on which `time.NewTicker` panics, is left out.
unfoldable pub reload : Certificates → Settings → World → List World → Dict Bytes → Ended
reload c settings w ws copies =
    if settings.once
    then record {
      code = exit_code (sync w settings.config copies);
      left = record (started copies) { copies = copies_of (sync w settings.config copies) };
    }
    else record { code = 0; left = run c settings.config (w ∷ ws) (started copies) }

unfoldable pub reload_main :
    Syntax → Certificates → List Bytes → World → List World → Dict Bytes → Ended
reload_main syn c args w ws copies = elim (reload_settings syn args) [
  | err e ↦ record { code = 2; left = started copies }
  | ok values ↦ reload c (settings_of values) w ws copies
]
