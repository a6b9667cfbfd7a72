-- ===== src/Containers/Init.antt =====
-- The init container of a broker pod (internal/builder/statefulset.go, internal/reloader/run.go), and what it
-- makes of the files that internal/auth rendered.
use mosquitto_operator.Base.{
  ℕ, ◌≡◌, ◌⊎◌, refl, inl, inr, true, Option, none, some, List, [], Bytes, bytes_discrete,
}
use mosquitto_operator.Base.Dict.{Dict, lookup, get_or, insert}
use mosquitto_operator.Base.Flags.{
  Syntax, parse_flags, parse_one, named, is_set, true_texts, false_texts,
}
use mosquitto_operator.Base.Results.{ok}
use mosquitto_operator.Base.Strings.{split, cut}
use mosquitto_operator.Auth.Files.{passwd_key, acl_key}
use mosquitto_operator.Builder.Objects.{Container}
use mosquitto_operator.Builder.Pods.{PodOptions, build_reload_container}
use mosquitto_operator.Reloader.Copies.{IsCopy, NeverTemp, sync_copies, failed_sync_keeps_whole}
use mosquitto_operator.Reloader.Defs.{World, sync, Synced, done, failed}
use mosquitto_operator.Reloader.Program.{settings_of, reload_settings, reload_main, reload, Ended}
use mosquitto_operator.Reloader.Rounds.{Certificates, started, exit_code, copies_of}
use mosquitto_operator.Containers.{reloader_args, pod_settings, init_container}
use mosquitto_operator.Base.Dict.{keys}
use mosquitto_operator.Base.{All, sym, subst, ◌∙◌, ◌||◌, arith}
use mosquitto_operator.Auth.Authenticated.{LetsIn, input_names, principal_names, render-LetsIn}
use mosquitto_operator.Auth.Defs.{Input, Principal}
use mosquitto_operator.Auth.Distinct.{ArePrincipals}
use mosquitto_operator.Auth.Files.{hashes}
use mosquitto_operator.Auth.Hash.{Crypto}
use mosquitto_operator.Auth.Render.{RenderResult, file_payload, render}
use mosquitto_operator.Auth.Settles.{winners_of}
use mosquitto_operator.Reloader.Defs.{resolve_data, join_path}
use mosquitto_operator.Base.Dict.{get_or-lookup, member}

-- The run of a container that starts the reloader.
abbrev pub runs : Syntax → Certificates → Container → World → List World → Dict Bytes → Option Ended
runs syn certs c w ws copies = elim (reloader_args c.args) [
  | none ↦ none
  | some args ↦ some (reload_main syn certs args w ws copies)
]

-- A file is as it was before, or a copy of the Secret mount's.
abbrev pub IsWhole : World → Dict Bytes → Dict Bytes → Bytes → Type 0
IsWhole w before left j =
    (lookup j left ≡ lookup j before) ⊎ IsCopy w (pod_settings true []).config left j

-- The two ends of the init container: all files copied, or a failure.
abbrev pub IsEnd : World → Dict Bytes → Ended → Type 0
IsEnd w before e =
    (◌≡◌ {A = ℕ} e.code 0
      × IsCopy w (pod_settings true []).config e.left.copies passwd_key
      × IsCopy w (pod_settings true []).config e.left.copies acl_key)
    ⊎ (◌≡◌ {A = ℕ} e.code 1
        × IsWhole w before e.left.copies passwd_key
        × IsWhole w before e.left.copies acl_key)

unfoldable pub copied_once : World → Dict Bytes → Synced → Ended
copied_once w before s = record {
  code = exit_code s;
  left = record (started before) { copies = copies_of s };
}

pub init-run :
    (syn : Syntax) (certs : Certificates) (opts : PodOptions) (w : World) (ws : List World)
    (copies : Dict Bytes)
    → runs syn certs (init_container opts) w ws copies
      ≡ some (copied_once w copies (sync w (pod_settings true []).config copies))
unfolding copied_once build_reload_container reload_main reload reload_settings parse_flags
    parse_one named insert lookup settings_of get_or split cut is_set true_texts false_texts
    bytes_discrete
init-run syn certs opts w ws copies = refl

once-IsEnd :
    (w : World) (copies : Dict Bytes) (s : Synced)
    → NeverTemp w passwd_key
    → NeverTemp w acl_key
    → sync w (pod_settings true []).config copies ≡ s
    → IsEnd w copies (copied_once w copies s)
unfolding copied_once exit_code copies_of
once-IsEnd w copies (done dir changed) p a h =
    let cfg = (pod_settings true []).config in
    inl (
      refl,
      sync_copies w cfg copies dir changed passwd_key p (inl refl) h,
      sync_copies w cfg copies dir changed acl_key a (inr (inl refl)) h,
    )
once-IsEnd w copies (failed dir changed e) p a h =
    let cfg = (pod_settings true []).config in
    inr (
      refl,
      failed_sync_keeps_whole w cfg copies dir changed e passwd_key p (inl refl) h,
      failed_sync_keeps_whole w cfg copies dir changed e acl_key a (inr (inl refl)) h,
    )

-- The init container of a pod ends: with exit code 0 and both files of the Secret mount copied for the broker, or
-- with exit code 1 and each copy as it was or the file of the Secret mount, if no temporary file has the name of a
-- copy.
pub init_container_ends :
    (syn : Syntax) (certs : Certificates) (opts : PodOptions) (w : World) (ws : List World)
    (copies : Dict Bytes)
    → NeverTemp w passwd_key
    → NeverTemp w acl_key
    → (e : Ended) × (runs syn certs (init_container opts) w ws copies ≡ some e) × IsEnd w copies e
init_container_ends syn certs opts w ws copies p a =
    let s = sync w (pod_settings true []).config copies in
    (copied_once w copies s, init-run syn certs opts w ws copies, once-IsEnd w copies s p a refl)

-- The Secret mount of the pod holds these files.
abbrev pub IsMounted : World → Dict Bytes → Type 0
IsMounted w files =
    let cfg = (pod_settings true []).config in
    let base = resolve_data w cfg.source in
    (w.read_file (join_path base passwd_key) ≡ ok (get_or passwd_key [] files))
    × (w.read_file (join_path base acl_key) ≡ ok (get_or acl_key [] files))

copied-get_or :
    (w : World) (copies files : Dict Bytes) (j v : Bytes)
    → IsCopy w (pod_settings true []).config copies j
    → w.read_file (join_path (resolve_data w (pod_settings true []).config.source) j) ≡ ok v
    → get_or j [] copies ≡ v
copied-get_or w copies files j v (x, held, r) m =
    ground (arith, get_or-lookup j [] copies, held, r, m)

-- The two files of an init container that ended without a failure.
ended-copies :
    (w : World) (before files : Dict Bytes) (e : Ended)
    → IsMounted w files
    → IsEnd w before e
    → ◌≡◌ {A = ℕ} e.code 0
    → (get_or passwd_key [] e.left.copies ≡ get_or passwd_key [] files)
      × (get_or acl_key [] e.left.copies ≡ get_or acl_key [] files)
ended-copies w before files e m (inl (z, p, a)) h = (
  copied-get_or w e.left.copies files passwd_key _ p m.0,
  copied-get_or w e.left.copies files acl_key _ a m.1,
)
ended-copies w before files e m (inr (z, p, a)) h = absurd (ground (arith, z, h))

hashes_of_copy :
    (a b : Dict Bytes) → get_or passwd_key [] a ≡ get_or passwd_key [] b → hashes a ≡ hashes b
unfolding hashes
hashes_of_copy a b e = rw e

some_ended : (a b : Ended) → ◌≡◌ {A = Option Ended} (some a) (some b) → a ≡ b
some_ended a b h = cc

-- Where the Secret mount holds the files of a pass of `Render`, and the init container of the pod
-- ends with exit code 0, the copy that it leaves for the broker has for each winner of the pass and
-- each of the operator's principals a hash that its password verifies, has the user name `k` exactly
-- when one of them has it, and has the rendered acl file. No temporary file has the name of a copy,
-- and the principals are named apart, on one line and without a colon.
pub started_pod-LetsIn :
    (syn : Syntax) (certs : Certificates) (opts : PodOptions) (w : World) (ws : List World)
    (copies : Dict Bytes) (e : Ended) (c : Crypto) (inputs : List Input) (reserved : List Principal)
    (previous : Dict Bytes) (random : c.Reader) (res : RenderResult) (rest : c.Reader) (k : Bytes)
    → NeverTemp w passwd_key
    → NeverTemp w acl_key
    → ArePrincipals reserved
    → render c file_payload inputs reserved previous random ≡ ok (res, rest)
    → IsMounted w res.content
    → runs syn certs (init_container opts) w ws copies ≡ some e
    → ◌≡◌ {A = ℕ} e.code 0
    → All (λ i. LetsIn c e.left.copies i.username i.password) (winners_of c inputs).0
      × All (λ p. LetsIn c e.left.copies p.username p.password) reserved
      × (member k (keys (hashes e.left.copies))
          ≡ (member k (input_names (winners_of c inputs).0) || member k (principal_names reserved)))
      × (get_or acl_key [] e.left.copies ≡ get_or acl_key [] res.content)
started_pod-LetsIn syn certs opts w ws copies e c inputs reserved previous random res rest k p a own
      rendered m run z =
    let ended = init_container_ends syn certs opts w ws copies p a in
    let same : ended.0 ≡ e = some_ended ended.0 e (sym ended.1 ∙ run) in
    let files = ended-copies w copies res.content e m (subst (IsEnd w copies) same ended.2) z in
    let lets = render-LetsIn c inputs reserved previous random res rest k own rendered in
    rw (hashes_of_copy e.left.copies res.content files.0) (lets.0, lets.1, lets.2, files.1)
