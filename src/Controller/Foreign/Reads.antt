-- ===== src/Controller/Foreign/Reads.antt =====
-- The steps that only read, within any change.
use mosquitto_operator.Base.{
  codes, inl, inr, Bool-cases, not, ◌&&◌, ◌||◌, Option, none, some, List, [], ◌∷◌, Bytes, ◌=?◌,
}
use mosquitto_operator.Base.Dict.{Dict, get_or}
use mosquitto_operator.Base.Results.{Result-cases}
use mosquitto_operator.Api.{Mosquitto, MosquittoUser, is_metrics_enabled, is_tls_enabled}
use mosquitto_operator.Auth.Defs.{Input, Principal}
use mosquitto_operator.Auth.Render.{file_payload, render}
use mosquitto_operator.Builder.Pods.{exporter_password_key}
use mosquitto_operator.Controller.Cluster.{secret, Stored}
use mosquitto_operator.Controller.Exec.{Outside}
use mosquitto_operator.Controller.Objects.{Reconciler, message, fetch, read}
use mosquitto_operator.Controller.Passes.{tls_secret_of, refuse_tls_secret, judge_tls}
use mosquitto_operator.Controller.Users.{
  reading, list_users, Gathered, gathered, consumable, with_metadata, read_credentials, gather,
  current_auth_data, metrics_password, exporter_password, render_inputs, render_users, reserved_of,
}
use mosquitto_operator.Controller.Within.{
  Change, Within, Within-pure, Within-bind, Within-attempt, Within-reading, Within-if, Within-ask,
}

module _ (o : Outside) (w : Change) where
  open o use {crypto}
  open crypto use {Reader, read_full}

  pub list_users-Within : (namespace broker : Bytes) → Within w (list_users o namespace broker)
  unfolding list_users
  list_users-Within namespace broker = Within-reading w _ _ (Within-ask o w _ _)

  with_metadata-Within :
      (r : Reconciler) (u : MosquittoUser) (x : Option (Stored secret))
      → Within w (with_metadata o r u x)
  unfolding with_metadata read
  with_metadata-Within r u none = Within-pure w _
  with_metadata-Within r u (some metadata) =
      Within-if w (r.secret_security && not (consumable metadata.content.labels)) _ _
        (Within-pure w _)
        (Within-bind w _ _ (Within-reading w _ _ (Within-ask o w _ _)) (λ found. Within-pure w _))

  read_credentials-Within : (r : Reconciler) (u : MosquittoUser) → Within w (read_credentials o r u)
  unfolding read_credentials fetch
  read_credentials-Within r u =
      Within-bind w _ _ (Within-reading w _ _ (Within-ask o w _ _))
        (λ x. with_metadata-Within r u x)

  gather-Within :
      (r : Reconciler) (us : List MosquittoUser) (g : Gathered) → Within w (gather o r us g)
  unfolding gather
  gather-Within r [] g = Within-pure w g
  gather-Within r (u ∷ us) g =
      Within-bind w _ _ (read_credentials-Within r u) (λ c. gather-Within r us (gathered u c g))

  current_auth_data-Within : (m : Mosquitto) → Within w (current_auth_data o m)
  unfolding current_auth_data read
  current_auth_data-Within m =
      Within-bind w _ _ (Within-reading w _ _ (Within-ask o w _ _)) (λ x. Within-pure w _)

  exporter_password-Within : (previous : Dict Bytes) → Within w (exporter_password o previous)
  unfolding exporter_password
  exporter_password-Within previous = record {
    at = λ s. elim (Bool-cases (get_or exporter_password_key [] previous =? [])) [
      | inl q ↦ rw q (elim (Result-cases (read_full 32 s.random)) [
        | inl (x, e) ↦ rw e (w.stay s.cluster)
        | inr (x, e) ↦ rw e (w.stay s.cluster)
      ])
      | inr q ↦ rw q (w.stay s.cluster)
    ];
  }

  metrics_password-Within :
      (m : Mosquitto) (previous : Dict Bytes) → Within w (metrics_password o m previous)
  unfolding metrics_password
  metrics_password-Within m previous =
      Within-if w (is_metrics_enabled m) _ _
        (Within-bind w _ _ (exporter_password-Within previous) (λ p. Within-pure w _))
        (Within-pure w _)

  render_inputs-Within :
      (inputs : List Input) (reserved : List Principal) (previous : Dict Bytes)
      → Within w (render_inputs o inputs reserved previous)
  unfolding render_inputs
  render_inputs-Within inputs reserved previous = record {
    at = λ s. elim (Result-cases (render crypto file_payload inputs reserved previous s.random)) [
      | inl (x, e) ↦ rw e (w.stay s.cluster)
      | inr (x, e) ↦ rw e (w.stay s.cluster)
    ];
  }

  pub render_users-Within : (r : Reconciler) (m : Mosquitto) → Within w (render_users o r m)
  unfolding render_users
  render_users-Within r m =
      Within-bind w _ _ (list_users-Within m.meta.namespace m.meta.name) (λ users.
        Within-bind w _ _ (gather-Within r users _) (λ g.
          Within-bind w _ _ (current_auth_data-Within m) (λ previous.
            Within-bind w _ _ (metrics_password-Within m previous) (λ password.
              Within-bind w _ _ (render_inputs-Within g.inputs (reserved_of password) previous)
                (λ res. Within-pure w _)))))

  pub refuse_tls_secret-Within :
      (r : Reconciler) (m : Mosquitto) → Within w (refuse_tls_secret o r m)
  unfolding refuse_tls_secret read
  refuse_tls_secret-Within r m =
      Within-if w (not r.secret_security || not (is_tls_enabled m)) _ _ (Within-pure w _) (
        Within-bind w _ _
          (Within-attempt w {A = Option (Stored secret)}
            (reading
              (message (codes "reading the metadata of TLS Secret %s: %w")
                (tls_secret_of m.spec.tls ∷ []))
              (read o secret
                (record { namespace = m.meta.namespace; name = tls_secret_of m.spec.tls })))
            (Within-reading w _ _ (Within-ask o w _ _)))
          (λ found. Within-pure w (judge_tls o m (tls_secret_of m.spec.tls) found)))
