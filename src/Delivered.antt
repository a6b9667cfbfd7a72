-- ===== src/Delivered.antt =====
-- The way of the credentials through the programs: from the users in the cluster and their Secrets
-- (internal/controller), through the rendered Secret (internal/auth) and the init container of a pod
-- (internal/reloader), to the file that the broker reads.
use mosquitto_operator.Base.{
  ℕ, ◌≡◌, refl, sym, ap, ◌∙◌, inl, inr, Bool, ◌&&◌, ◌||◌, Option, none, some, List, [], ◌∷◌, ◌++◌,
  Bytes, ◌=?◌, if◌then◌else◌, All, Bool-cases, arith, bytes_discrete,
}
use mosquitto_operator.Base.Dict.{Dict, get_or, get_or-lookup, insert, keys, member}
use mosquitto_operator.Base.Flags.{Syntax}
use mosquitto_operator.Base.Results.{ok}
use mosquitto_operator.Base.Sort.{sort}
use mosquitto_operator.Base.Strings.{contains, Lacks-contains}
use mosquitto_operator.Api.{Mosquitto, is_metrics_enabled}
use mosquitto_operator.Auth.Authenticated.{LetsIn, input_names, principal_names}
use mosquitto_operator.Auth.Defs.{Accepted, exporter_principal, exporter_username}
use mosquitto_operator.Auth.Distinct.{ArePrincipals}
use mosquitto_operator.Auth.Files.{passwd_key, acl_key, hashes, render_files}
use mosquitto_operator.Auth.Hash.{Crypto}
use mosquitto_operator.Auth.Render.{RenderResult, username_less}
use mosquitto_operator.Auth.Settles.{winners_of, render-Pass}
use mosquitto_operator.Builder.Pods.{PodOptions, exporter_password_key}
use mosquitto_operator.Builder.Services.{build_auth_secret}
use mosquitto_operator.Containers.{init_container}
use mosquitto_operator.Containers.Init.{runs, IsMounted, started_pod-LetsIn}
use mosquitto_operator.Controller.Cluster.{secret, Stored, Cluster}
use mosquitto_operator.Controller.Converged.{resources_converge}
use mosquitto_operator.Controller.Exec.{Outside, State}
use mosquitto_operator.Controller.Held.{HoldsFiles}
use mosquitto_operator.Controller.Objects.{Reconciler}
use mosquitto_operator.Controller.Passes.{reconcile_resources}
use mosquitto_operator.Controller.Rendered.{is_some, gathering, render_users-IsRendered}
use mosquitto_operator.Controller.Users.{Gathered, reserved_of, with_password}
use mosquitto_operator.Labels.{auth_secret_name}
use mosquitto_operator.Reloader.Copies.{NeverTemp}
use mosquitto_operator.Reloader.Defs.{World}
use mosquitto_operator.Reloader.Program.{Ended}
use mosquitto_operator.Reloader.Rounds.{Certificates}

abbrev pub held_files : Option (Stored secret) → Dict Bytes
held_files none = []
held_files (some x) = x.content.files

abbrev pub secret_files : Mosquitto → Cluster → Dict Bytes
secret_files m c =
    held_files
      (c.objects secret (record { namespace = m.meta.namespace; name = auth_secret_name m }))

HoldsFiles-get_or :
    (m : Mosquitto) (files : Dict Bytes) (c : Cluster) (k : Bytes)
    → HoldsFiles m files c
    → get_or k [] (secret_files m c) ≡ get_or k [] files
unfolding build_auth_secret
HoldsFiles-get_or m files c k h =
    rw (h.is_stored, get_or-lookup, h.has_files k) (sym (get_or-lookup k [] files))

IsMounted-same :
    (w : World) (a b : Dict Bytes)
    → get_or passwd_key [] a ≡ get_or passwd_key [] b
    → get_or acl_key [] a ≡ get_or acl_key [] b
    → IsMounted w a
    → IsMounted w b
IsMounted-same w a b p q m = (rw (← p) m.0, rw (← q) m.1)

-- The rendered files, with and without the password of the exporter.
with_password-passwd :
    (x : Option Bytes) (us : List Accepted)
    → get_or passwd_key [] (with_password x (render_files us))
      ≡ get_or passwd_key [] (render_files us)
unfolding with_password render_files get_or insert bytes_discrete
with_password-passwd none us = refl
with_password-passwd (some pw) us = elim (Bool-cases (pw =? [])) [
  | inl q ↦ rw q refl
  | inr q ↦ rw q refl
]

with_password-acl :
    (x : Option Bytes) (us : List Accepted)
    → get_or acl_key [] (with_password x (render_files us)) ≡ get_or acl_key [] (render_files us)
unfolding with_password render_files get_or insert bytes_discrete
with_password-acl none us = refl
with_password-acl (some pw) us = elim (Bool-cases (pw =? [])) [
  | inl q ↦ rw q refl
  | inr q ↦ rw q refl
]

with_password-exporter :
    (pw : Bytes) (us : List Accepted)
    → get_or exporter_password_key [] (with_password (some pw) (render_files us)) ≡ pw
unfolding with_password render_files get_or insert bytes_discrete
with_password-exporter pw us = elim (Bool-cases (pw =? [])) [
  | inl q ↦ rw q (ground arith)
  | inr q ↦ rw q refl
]

reserved_of-ArePrincipals : (x : Option Bytes) → ArePrincipals (reserved_of x)
unfolding reserved_of exporter_principal
reserved_of-ArePrincipals none = tt
reserved_of-ArePrincipals (some pw) = (
  (
    Lacks-contains b':' exporter_username (unfold contains in refl),
    Lacks-contains 10 exporter_username (unfold contains in refl),
  ),
  (tt, tt),
)

-- The login of the exporter, if it has a password.
own_logins :
    (c : Crypto) (copies files : Dict Bytes) (us : List Accepted) (k : Bytes) (x : Option Bytes)
    (b : Bool)
    → is_some x ≡ b
    → get_or exporter_password_key [] files
      ≡ get_or exporter_password_key [] (with_password x (render_files us))
    → All (λ p. LetsIn c copies p.username p.password) (reserved_of x)
    → All
        (λ pw. LetsIn c copies exporter_username pw)
        (if b then get_or exporter_password_key [] files ∷ [] else [])
      × (member k (principal_names (reserved_of x)) ≡ (b && exporter_username =? k))
unfolding reserved_of exporter_principal
own_logins c copies files us k none b e same h = rw (← e) (tt, refl)
own_logins c copies files us k (some pw) b e same h =
    rw (← e, same, with_password-exporter pw us) ((h.0, tt), ground arith)

-- Where `reconcileResources` returns without an error, and then a pod starts with the passwd and acl
-- files of the broker's Secret in its mount and its init container ends with exit code 0, the passwd
-- copy that the broker reads has for each winner among the users that the pass gathered a hash
-- against which `VerifyPassword` accepts its password, and with metrics enabled one for the exporter
-- and the password in the Secret, and it has the user name `k` exactly when it is a winner's or, with
-- metrics enabled, the exporter's. No temporary file has the name of a copy.
pub pass_reaches_pod :
    (o : Outside) (r : Reconciler) (m : Mosquitto) (s : State o.crypto.Reader) (n : ℕ)
    (syn : Syntax) (certs : Certificates) (opts : PodOptions) (w : World) (ws : List World)
    (copies : Dict Bytes) (e : Ended) (k : Bytes)
    → NeverTemp w passwd_key
    → NeverTemp w acl_key
    → (reconcile_resources o r m s).0 ≡ ok n
    → IsMounted w (secret_files m (reconcile_resources o r m s).1.cluster)
    → runs syn certs (init_container opts) w ws copies ≡ some e
    → ◌≡◌ {A = ℕ} e.code 0
    → (g : Gathered) × ((gathering o r m s).0 ≡ ok g)
      × All
          (λ i. LetsIn o.crypto e.left.copies i.username i.password)
          (winners_of o.crypto g.inputs).0
      × All
          (λ pw. LetsIn o.crypto e.left.copies exporter_username pw)
          (if is_metrics_enabled m
            then get_or exporter_password_key []
                (secret_files m (reconcile_resources o r m s).1.cluster)
              ∷ []
            else [])
      × (member k (keys (hashes e.left.copies)) ≡ (
          member k (input_names (winners_of o.crypto g.inputs).0)
          || (is_metrics_enabled m && exporter_username =? k)))
pass_reaches_pod o r m s n syn certs opts w ws copies e k p a done mount run z =
    let (pass, rendered, conv) = resources_converge o r m s n done in
    let i = render_users-IsRendered o r m s pass rendered in
    let c = o.crypto in
    let held = secret_files m (reconcile_resources o r m s).1.cluster in
    let q =
      render-Pass c i.gathered.inputs (reserved_of i.password) i.previous i.random i.res i.rest
        i.is_render in
    let us = sort username_less (q.users ++ q.own) in
    let content : i.res.content ≡ render_files us =
      ap (λ (x : RenderResult). x.content) q.written in
    let files : pass.files ≡ with_password i.password (render_files us) =
      i.has_files ∙ ap (λ f. with_password i.password f) content in
    let same : (j : Bytes)
        → get_or j [] held ≡ get_or j [] (with_password i.password (render_files us)) =
      λ j. HoldsFiles-get_or m pass.files _ j conv.has_files ∙ ap (λ f. get_or j [] f) files in
    let mounted =
      IsMounted-same w held i.res.content
        (same passwd_key
          ∙ with_password-passwd i.password us
          ∙ ap (λ f. get_or passwd_key [] f) (sym content))
        (same acl_key
          ∙ with_password-acl i.password us
          ∙ ap (λ f. get_or acl_key [] f) (sym content))
        mount in
    let lets =
      started_pod-LetsIn syn certs opts w ws copies e c i.gathered.inputs (reserved_of i.password)
        i.previous i.random i.res i.rest k p a (reserved_of-ArePrincipals i.password) i.is_render
        mounted run z in
    let own =
      own_logins c e.left.copies held us k i.password (is_metrics_enabled m) i.has_password
        (same exporter_password_key) lets.1 in
    (
      i.gathered,
      i.is_gathered,
      lets.0,
      own.0,
      lets.2 ∙ ap (λ b. member k (input_names (winners_of c i.gathered.inputs).0) || b) own.1,
    )
