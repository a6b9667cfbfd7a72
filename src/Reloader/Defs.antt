-- ===== src/Reloader/Defs.antt =====
-- internal/reloader/reloader.go: the copies of the credentials, and the signal to the broker.
-- `World` is what the kernel answers while one round runs. A target directory is the dictionary
-- of its files; a path is joined with one slash, without the cleaning of `filepath.Join`.
use mosquitto_operator.Base.{
  ℕ, Bool, true, false, Option, none, some, List, [], ◌∷◌, ◌++◌, Bytes, codes, ◌=?◌, suc,
  if◌then◌else◌,
}
use mosquitto_operator.Base.Decimal.{ℤ, pos, atoi, itoa}
use mosquitto_operator.Base.Dict.{Dict, lookup, get_or, insert, erase}
use mosquitto_operator.Base.Results.{Result, ok, err, Error, new, wrapped, Message, wrap, ◌>>=◌}
use mosquitto_operator.Base.Runes.{trim_space}
use mosquitto_operator.Base.Strings.{has_prefix}

-- The answers of the calls of package os: for the target directory only the failures, since its
-- contents are the state. A process list is the names of /proc, each with its comm file.
pub record World : Type 0 where
  pub read_link : Bytes → Result Bytes
  pub read_file : Bytes → Result Bytes
  pub copy_fault : Bytes → Option Error
  pub create_temp : Bytes → Result Bytes
  pub write_temp : Bytes → Option Error
  pub chmod_temp : Bytes → Option Error
  pub close_temp : Bytes → Option Error
  pub rename_temp : Bytes → Option Error
  pub read_dir : Bytes → Result (List Bytes)
  pub send : ℕ → Option Error

pub record Config : Type 0 where
  pub source : Bytes
  pub files : List Bytes
  pub process : Bytes
  pub proc_root : Bytes
  pub tls_dir : Bytes

abbrev pub message : Bytes → List Bytes → Message
message format args = record { format = format; args = args }

abbrev pub data_link : Bytes
data_link = codes "..data"

abbrev pub join_path : Bytes → Bytes → Bytes
join_path dir name = dir ++ b'/' ∷ name

resolved : Bytes → Result Bytes → Bytes
resolved dir (err e) = dir
resolved dir (ok target) = if has_prefix target (codes "/") then target else join_path dir target

unfoldable pub resolve_data : World → Bytes → Bytes
unfolding resolved
resolve_data w dir = resolved dir (w.read_link (join_path dir data_link))

unfoldable pub read_all : World → Bytes → List Bytes → Dict Bytes → Result (Dict Bytes)
read_all w dir [] files = ok files
read_all w dir (name ∷ names) files =
    wrap (message (codes "reading %s from the Secret mount: %w") (name ∷ []))
      (w.read_file (join_path dir name))
    >>= (λ bytes. read_all w dir names (insert name bytes files))

unfoldable pub read_source : World → Config → Result (Dict Bytes)
read_source w cfg = read_all w (resolve_data w cfg.source) cfg.files []

-- The first failure of the calls between the creation of the temporary file and the rename.
wrap_option : Message → Option Error → Option Error → Option Error
wrap_option m (some e) rest = some (wrapped m e)
wrap_option m none rest = rest

unfoldable pub write_fault : World → Bytes → Bytes → Option Error
unfolding wrap_option
write_fault w name tmp =
    wrap_option (message (codes "writing the copy of %s: %w") (name ∷ [])) (w.write_temp tmp) (
      wrap_option (message (codes "setting the mode of the copy of %s: %w") (name ∷ []))
        (w.chmod_temp tmp)
        (wrap_option (message (codes "closing the copy of %s: %w") (name ∷ [])) (w.close_temp tmp) (
          wrap_option (message (codes "renaming the copy of %s into place: %w") (name ∷ []))
            (w.rename_temp tmp) none)))

-- `dir` holds the temporary file. The deferred `os.Remove` runs after a rename and after a failure.
unfoldable pub renamed :
    Bytes → Bytes → Bytes → Dict Bytes → Option Error → Dict Bytes × Option Error
renamed name bytes tmp dir none = (erase tmp (insert name bytes (erase tmp dir)), none)
renamed name bytes tmp dir (some e) = (erase tmp dir, some e)

unfoldable pub written :
    World → Bytes → Bytes → Dict Bytes → Result Bytes → Dict Bytes × Option Error
written w name bytes dir (err e) =
    (dir, some (wrapped (message (codes "creating a temporary copy of %s: %w") (name ∷ [])) e))
written w name bytes dir (ok tmp) =
    renamed name bytes tmp (insert tmp bytes dir) (write_fault w name tmp)

unfoldable pub write_atomic : World → Bytes → Bytes → Dict Bytes → Dict Bytes × Option Error
write_atomic w name bytes dir = written w name bytes dir (w.create_temp name)

-- What `Sync` leaves in the target directory, whether a copy changed, and its error.
pub data Synced : Type 0 where
  done : Dict Bytes → Bool → Synced
  failed : Dict Bytes → Bool → Error → Synced

unfoldable pub after_write : Bool → Dict Bytes × Option Error → Synced
after_write changed (dir, none) = done dir true
after_write changed (dir, some e) = failed dir changed e

-- The copy of a file before the round: its bytes, or `none` when it does not exist.
unfoldable pub compared : World → Bytes → Bytes → Dict Bytes → Bool → Option Bytes → Synced
compared w name bytes dir changed none = after_write changed (write_atomic w name bytes dir)
compared w name bytes dir changed (some current) =
    if current =? bytes
    then done dir changed
    else after_write changed (write_atomic w name bytes dir)

unfoldable pub copied : World → Bytes → Bytes → Dict Bytes → Bool → Option Error → Synced
copied w name bytes dir changed none = compared w name bytes dir changed (lookup name dir)
copied w name bytes dir changed (some e) =
    failed dir changed (wrapped (message (codes "reading the copy of %s: %w") (name ∷ [])) e)

unfoldable pub sync_one : World → Dict Bytes → Bytes → Dict Bytes → Bool → Synced
sync_one w files name dir changed =
    copied w name (get_or name [] files) dir changed (w.copy_fault name)

abbrev pub and_then : Synced → (Dict Bytes → Bool → Synced) → Synced
and_then (done dir changed) next = next dir changed
and_then (failed dir changed e) next = failed dir changed e

unfoldable pub sync_all : World → Dict Bytes → List Bytes → Dict Bytes → Bool → Synced
sync_all w files [] dir changed = done dir changed
sync_all w files (name ∷ names) dir changed =
    and_then (sync_one w files name dir changed)
      (λ dir' changed'. sync_all w files names dir' changed')

unfoldable pub synced : World → Config → Dict Bytes → Result (Dict Bytes) → Synced
synced w cfg dir (ok files) = sync_all w files cfg.files dir false
synced w cfg dir (err e) = failed dir false e

unfoldable pub sync : World → Config → Dict Bytes → Synced
sync w cfg dir = synced w cfg dir (read_source w cfg)

-- `entry.Name()` as a pid: a positive number.
positive : Option ℤ → Option ℕ
positive (some (pos (suc n))) = some (suc n)
positive _ = none

has_comm : Bytes → Result Bytes → Bool
has_comm name (ok comm) = trim_space comm =? name
has_comm name (err e) = false

unfoldable pub matching : World → Bytes → Bytes → Bytes → Option ℕ → Option ℕ
unfolding has_comm
matching w root name entry none = none
matching w root name entry (some pid) =
    if has_comm name (w.read_file (join_path (join_path root entry) (codes "comm")))
    then some pid
    else none

first_of : Option ℕ → Result ℕ → Result ℕ
first_of (some pid) rest = ok pid
first_of none rest = rest

unfoldable pub find_in : World → Bytes → Bytes → List Bytes → Result ℕ
unfolding positive first_of
find_in w root name [] =
    err
      (wrapped (message (codes "%w: %s") (name ∷ [])) (new (message (codes "no such process") [])))
find_in w root name (entry ∷ entries) =
    first_of (matching w root name entry (positive (atoi entry))) (find_in w root name entries)

unfoldable pub find_process : World → Bytes → Bytes → Result ℕ
find_process w root name =
    wrap (message (codes "listing %s: %w") (root ∷ [])) (w.read_dir root)
    >>= (λ entries. find_in w root name entries)

-- The process that was signalled, or the error.
sent : Bytes → ℕ → Option Error → Result ℕ
sent process pid none = ok pid
sent process pid (some e) =
    err (wrapped (message (codes "signalling %s (pid %d): %w") (process ∷ itoa pid ∷ [])) e)

unfoldable pub signal : World → Config → Result ℕ
unfolding sent
signal w cfg =
    find_process w cfg.proc_root cfg.process >>= (λ pid. sent cfg.process pid (w.send pid))
