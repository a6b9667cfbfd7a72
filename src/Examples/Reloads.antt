-- ===== src/Examples/Reloads.antt =====
-- internal/reloader at concrete inputs.
use mosquitto_operator.Base.{
  ◌≡◌, ◌⊎◌, refl, inl, inr, true, false, Option, none, some, [], ◌∷◌, Bytes, codes, ◌=?◌, =?_refl,
  In, if◌then◌else◌, bytes_discrete,
}
use mosquitto_operator.Base.Decimal.{atoi}
use mosquitto_operator.Base.Dict.{Dict, lookup, get_or, insert, erase}
use mosquitto_operator.Base.Results.{Result, ok, err, Error, external, wrapped}
use mosquitto_operator.Base.Runes.{trim_space}
use mosquitto_operator.Base.Strings.{has_prefix}
use mosquitto_operator.Reloader.Defs.{
  World, Config, message, done, failed, sync, synced, sync_all, sync_one, copied, compared,
  after_write, write_atomic, written, renamed, write_fault, read_source, read_all, resolve_data,
  signal, find_process, find_in, matching,
}
use mosquitto_operator.Reloader.Rounds.{
  Certificates, started, once, run, once_synced, check_tls, compare_pair, read_tls, read_pair,
  pair_fault, is_none, copies_of, pending_of, deliver, delivered, tls_checked,
}
use mosquitto_operator.Reloader.Copies.{
  NeverTemp, IsCopy, sync_copies, failed_sync_keeps_whole, sync_settles,
}
use mosquitto_operator.Reloader.Forgotten.{failed_sync_is_forgotten}
use mosquitto_operator.Reloader.Owed.{Owes, AreSilent, owed_until_signalled, owed_is_signalled}
use mosquitto_operator.Reloader.Signals.{MountedIsPair, signals_valid_pair}

-- A pod: the two files behind the link of the mount, a TLS pair, and the broker as process 7.
abbrev mounted : Dict Bytes
mounted =
    (codes "/src/v1/passwd", codes "sensor:h")
    ∷ (codes "/src/v1/acl", codes "user sensor")
    ∷ (codes "/tls/tls.crt", codes "cert")
    ∷ (codes "/tls/tls.key", codes "key")
    ∷ (codes "/proc/7/comm", codes "mosquitto")
    ∷ []

abbrev pub found : Option Bytes → Result Bytes
found (some b) = ok b
found none = err (external (codes "no such file"))

unfoldable pub reading : Bytes → Result Bytes
reading path = found (lookup path mounted)

-- The rename of the acl file may fail.
abbrev pub world : Option Error → Option Error → World
world rename_fault send_fault = record {
  read_link = λ path.
      if path =? codes "/src/..data"
      then ok (codes "v1")
      else err (external (codes "no such file"));
  read_file = reading;
  copy_fault = λ name. none;
  create_temp = λ name. ok (b'.' ∷ name);
  write_temp = λ tmp. none;
  chmod_temp = λ tmp. none;
  close_temp = λ tmp. none;
  rename_temp = λ tmp. if tmp =? codes ".acl" then rename_fault else none;
  read_dir = λ root. ok (codes "self" ∷ codes "7" ∷ []);
  send = λ pid. send_fault;
}

abbrev pod : Bytes → Config
pod tls_dir = record {
  source = codes "/src";
  files = codes "passwd" ∷ codes "acl" ∷ [];
  process = codes "mosquitto";
  proc_root = codes "/proc";
  tls_dir = tls_dir;
}

abbrev pub certificates : Certificates
certificates = record { sum256 = λ b. b; x509_key_pair = λ crt key. none }

abbrev full : Error
full = external (codes "no space left on device")

pub passwd-NeverTemp : (r s : Option Error) → NeverTemp (world r s) (codes "passwd")
passwd-NeverTemp r s name tmp h e = cc

pub acl-NeverTemp : (r s : Option Error) → NeverTemp (world r s) (codes "acl")
acl-NeverTemp r s name tmp h e = cc

abbrev copies : Dict Bytes
copies = (codes "passwd", codes "sensor:h") ∷ (codes "acl", codes "user sensor") ∷ []

copied_both : sync (world none none) (pod []) [] ≡ done copies true
unfolding sync synced read_source read_all reading lookup get_or insert erase bytes_discrete
    resolve_data has_prefix sync_all sync_one copied compared after_write write_atomic written
    renamed write_fault
copied_both = refl

sync_copies_example : IsCopy (world none none) (pod []) copies (codes "acl")
sync_copies_example =
    sync_copies (world none none) (pod []) [] copies true (codes "acl") (acl-NeverTemp none none)
      (inr (inl refl)) copied_both

-- The disk is full at the second file: the first one is new, and the pass fails.
abbrev half : Dict Bytes
half = (codes "passwd", codes "sensor:h") ∷ []

abbrev rename_failed : Error
rename_failed =
    wrapped (message (codes "renaming the copy of %s into place: %w") (codes "acl" ∷ [])) full

copied_half : sync (world (some full) none) (pod []) [] ≡ failed half true rename_failed
unfolding sync synced read_source read_all reading lookup get_or insert erase bytes_discrete
    resolve_data has_prefix sync_all sync_one copied compared after_write write_atomic written
    renamed write_fault
copied_half = refl

failed_sync_keeps_whole_example :
    (lookup (codes "acl") half ≡ lookup (codes "acl") [])
    ⊎ IsCopy (world (some full) none) (pod []) half (codes "acl")
failed_sync_keeps_whole_example =
    failed_sync_keeps_whole (world (some full) none) (pod []) [] half true rename_failed
      (codes "acl") (acl-NeverTemp (some full) none) (inr (inl refl)) copied_half

-- The acl file cannot be read from the mount, after the passwd file was copied.
abbrev unreadable : World
unreadable = record (world none none) {
  copy_fault = λ name. if name =? codes "acl" then some full else none;
}

abbrev acl_only : Dict Bytes
acl_only = (codes "acl", codes "user sensor") ∷ []

abbrev acl_first : Dict Bytes
acl_first = (codes "acl", codes "user sensor") ∷ (codes "passwd", codes "sensor:h") ∷ []

abbrev unread : Error
unread = wrapped (message (codes "reading the copy of %s: %w") (codes "acl" ∷ [])) full

copied_unreadable : sync unreadable (pod []) acl_only ≡ failed acl_first true unread
unfolding sync synced read_source read_all reading lookup get_or insert erase bytes_discrete
    resolve_data has_prefix sync_all sync_one copied compared after_write write_atomic written
    renamed write_fault
copied_unreadable = refl

copied_nothing : sync (world none none) (pod []) acl_first ≡ done acl_first false
unfolding sync synced read_source read_all reading lookup get_or insert erase bytes_discrete
    resolve_data has_prefix sync_all sync_one copied compared after_write write_atomic written
    renamed write_fault
copied_nothing = refl

failed_sync_is_forgotten_example :
    AreSilent certificates (pod []) (unreadable ∷ world none none ∷ []) (started acl_only)
    × ((run certificates (pod []) (unreadable ∷ world none none ∷ []) (started acl_only)).copies
        ≡ acl_first)
failed_sync_is_forgotten_example =
    failed_sync_is_forgotten certificates unreadable (world none none ∷ []) (pod [])
      (started acl_only) acl_first true unread (=?_refl []) refl copied_unreadable
      (copied_nothing, tt)

settled_inputs :
    (j : Bytes)
    → In j (pod []).files
    → ((world none none).copy_fault j ≡ none) × NeverTemp (world none none) j
settled_inputs j (inl e) = (refl, rw e (passwd-NeverTemp none none))
settled_inputs j (inr (inl e)) = (refl, rw e (acl-NeverTemp none none))
settled_inputs j (inr (inr m)) = absurd m

sync_settles_example : sync (world none none) (pod []) copies ≡ done copies false
sync_settles_example =
    sync_settles (world none none) (pod []) [] copies true settled_inputs copied_both

finds_broker : signal (world none none) (pod []) ≡ ok 7
unfolding signal find_process find_in matching reading lookup trim_space atoi bytes_discrete
finds_broker = refl

-- In the first round the broker cannot be signalled yet.
no_signal : (once certificates (world none (some full)) (pod []) (started [])).1 ≡ none
unfolding once once_synced pending_of deliver delivered signal find_process find_in matching reading
    lookup trim_space atoi bytes_discrete sync synced read_source read_all get_or insert erase
    resolve_data has_prefix sync_all sync_one copied compared after_write write_atomic written
    renamed write_fault
no_signal = refl

copied_late : sync (world none (some full)) (pod []) [] ≡ done copies true
unfolding sync synced read_source read_all reading lookup get_or insert erase bytes_discrete
    resolve_data has_prefix sync_all sync_one copied compared after_write write_atomic written
    renamed write_fault
copied_late = refl

Owes-late : Owes certificates (world none (some full)) (pod []) (started [])
Owes-late = inr (inl (copies, true, copied_late, λ e. cc))

owed_until_signalled_example :
    (run certificates (pod []) (world none (some full) ∷ []) (started [])).pending ≡ true
owed_until_signalled_example =
    owed_until_signalled certificates (world none (some full)) [] (pod []) (started []) Owes-late
      (no_signal, tt)

owed_is_signalled_example :
    let st = run certificates (pod []) (world none (some full) ∷ []) (started []) in
    ((once certificates (world none none) (pod []) st).1 ≡ some 7)
    × ((once certificates (world none none) (pod []) st).0.pending ≡ false)
owed_is_signalled_example =
    owed_is_signalled certificates (pod []) (world none (some full) ∷ []) (world none none)
      (started []) 7 (Owes-late, (no_signal, tt)) (inl (=?_refl [])) finds_broker

-- With a TLS mount, in the second round of `Run`, in which the pair is compared with the first.
signals_with_tls :
    (once certificates
      (world none none)
      (pod (codes "/tls"))
      (run certificates (pod (codes "/tls")) (world none (some full) ∷ []) (started []))).1
    ≡ some 7
unfolding run once once_synced check_tls compare_pair read_tls read_pair pair_fault is_none
    copies_of tls_checked pending_of deliver delivered signal find_process find_in matching reading
    lookup trim_space atoi bytes_discrete sync synced read_source read_all get_or insert erase
    resolve_data has_prefix sync_all sync_one copied compared after_write write_atomic written
    renamed write_fault
signals_with_tls = refl

with_tls : (codes "/tls" =? []) ≡ false
unfolding bytes_discrete
with_tls = refl

signals_valid_pair_example : MountedIsPair certificates (world none none) (pod (codes "/tls"))
signals_valid_pair_example =
    signals_valid_pair certificates (pod (codes "/tls")) (world none (some full) ∷ [])
      (world none none) [] 7 with_tls signals_with_tls
