-- ===== src/Reloader/Rounds.antt =====
-- internal/reloader/run.go and tls.go: one poll after the other, and the check of the TLS pair.
-- `crypto/sha256` and `tls.X509KeyPair` are parameters.
use mosquitto_operator.Base.{
  ℕ, Bool, true, false, ◌&&◌, ◌||◌, Option, none, some, List, [], ◌∷◌, Bytes, codes, ◌=?◌,
  if◌then◌else◌,
}
use mosquitto_operator.Base.Dict.{Dict}
use mosquitto_operator.Base.Results.{Result, ok, err, Error, wrapped, wrap, ◌>>=◌}
use mosquitto_operator.Reloader.Defs.{
  World, Config, message, join_path, resolve_data, Synced, done, failed, sync, signal,
}

-- `sha256.Sum256`, and the error of `tls.X509KeyPair`.
pub record Certificates : Type 0 where
  pub sum256 : Bytes → Bytes
  pub x509_key_pair : Bytes → Bytes → Option Error

pub record TlsState : Type 0 where
  pub crt : Bytes
  pub key : Bytes
  pub seen : Bool
  pub valid : Bool

unfoldable pub read_tls : World → Bytes → Result (Bytes × Bytes)
read_tls w dir =
    wrap (message (codes "reading %s: %w") (codes "tls.crt" ∷ []))
      (w.read_file (join_path (resolve_data w dir) (codes "tls.crt")))
    >>= (λ crt.
        wrap (message (codes "reading %s: %w") (codes "tls.key" ∷ []))
          (w.read_file (join_path (resolve_data w dir) (codes "tls.key")))
        >>= (λ key. ok (crt, key)))

-- What was read: empty bytes after a failure.
unfoldable pub read_pair : Result (Bytes × Bytes) → Bytes × Bytes
read_pair (ok p) = p
read_pair (err e) = ([], [])

pair_error : Option Error → Option Error
pair_error (some e) =
    some (wrapped (message (codes "tls.crt and tls.key do not form a valid pair: %w") []) e)
pair_error none = none

unfoldable pub pair_fault : Certificates → Result (Bytes × Bytes) → Option Error
unfolding pair_error
pair_fault c (ok (crt, key)) = pair_error (c.x509_key_pair crt key)
pair_fault c (err e) = some e

unfoldable pub is_none : Option Error → Bool
is_none none = true
is_none (some _) = false

-- The new state, whether the pair changed, and the error.
unfoldable pub compare_pair :
    Certificates → TlsState → Result (Bytes × Bytes) → TlsState × (Bool × Option Error)
compare_pair c st r =
    if st.seen && (c.sum256 (read_pair r).0 =? st.crt && c.sum256 (read_pair r).1 =? st.key)
    then (st, (false, none))
    else (
      record {
        crt = c.sum256 (read_pair r).0;
        key = c.sum256 (read_pair r).1;
        seen = true;
        valid = is_none (pair_fault c r);
      },
      (st.seen, pair_fault c r),
    )

unfoldable pub check_tls :
    Certificates → World → Bytes → TlsState → TlsState × (Bool × Option Error)
check_tls c w dir st = compare_pair c st (read_tls w dir)

-- The state between two polls: the files of the target directory belong to it.
pub record Round : Type 0 where
  pub copies : Dict Bytes
  pub pending : Bool
  pub tls : TlsState

unfoldable pub copies_of : Synced → Dict Bytes
copies_of (done dir changed) = dir
copies_of (failed dir changed e) = dir

unfoldable pub pending_of : Bool → Synced → Bool
pending_of pending (done dir changed) = pending || changed
pending_of pending (failed dir changed e) = pending

unfoldable pub delivered : Dict Bytes → TlsState → Result ℕ → Round × Option ℕ
delivered dir tls (ok pid) = (record { copies = dir; pending = false; tls = tls }, some pid)
delivered dir tls (err e) = (record { copies = dir; pending = true; tls = tls }, none)

unfoldable pub deliver : World → Config → Dict Bytes → Bool → TlsState → Round × Option ℕ
deliver w cfg dir true tls = delivered dir tls (signal w cfg)
deliver w cfg dir false tls = (record { copies = dir; pending = false; tls = tls }, none)

unfoldable pub tls_checked :
    World → Config → Dict Bytes → Bool → TlsState × (Bool × Option Error) → Round × Option ℕ
tls_checked w cfg dir pending (tls, (changed, e)) =
    if tls.valid
    then deliver w cfg dir (pending || (is_none e && changed)) tls
    else (record { copies = dir; pending = pending || (is_none e && changed); tls = tls }, none)

-- `round.once`: the next state, and the process that received a SIGHUP.
unfoldable pub once_synced : Certificates → World → Config → Round → Synced → Round × Option ℕ
once_synced c w cfg st s =
    if cfg.tls_dir =? []
    then deliver w cfg (copies_of s) (pending_of st.pending s) st.tls
    else tls_checked w cfg (copies_of s) (pending_of st.pending s)
        (check_tls c w cfg.tls_dir st.tls)

unfoldable pub once : Certificates → World → Config → Round → Round × Option ℕ
once c w cfg st = once_synced c w cfg st (sync w cfg st.copies)

-- The state in which `Run` starts.
abbrev pub started : Dict Bytes → Round
started dir = record {
  copies = dir;
  pending = false;
  tls = record { crt = []; key = []; seen = false; valid = false };
}

-- `Run` over the worlds that its polls meet: the state before each of them.
unfoldable pub run : Certificates → Config → List World → Round → Round
run c cfg [] st = st
run c cfg (w ∷ ws) st = run c cfg ws (once c w cfg st).0

-- `Main` with --once: the exit code of the init container.
unfoldable pub exit_code : Synced → ℕ
exit_code (done dir changed) = 0
exit_code (failed dir changed e) = 1
