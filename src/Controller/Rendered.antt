-- ===== src/Controller/Rendered.antt =====
-- What renderUsers returns, by its steps (internal/controller/users.go).
use mosquitto_operator.Base.{
  ◌≡◌, refl, sym, ap, ◌∙◌, inl, inr, Bool, true, false, Option, none, some, [], Bytes, Bool-cases,
}
use mosquitto_operator.Base.Dict.{Dict}
use mosquitto_operator.Base.Results.{Result, ok, err}
use mosquitto_operator.Api.{Mosquitto, is_metrics_enabled}
use mosquitto_operator.Auth.Render.{RenderResult, file_payload, render}
use mosquitto_operator.Controller.Exec.{Outside, Exec, after, ◌>>=◌, pure, State, Pass}
use mosquitto_operator.Controller.Objects.{Reconciler}
use mosquitto_operator.Controller.Settled.{err_not_ok}
use mosquitto_operator.Controller.Users.{
  UserPass, Gathered, list_users, gather, current_auth_data, metrics_password, exporter_password,
  render_inputs, after_render, render_users, user_pass, reserved_of, with_password,
}

same_ok : {A : Type 0} (a b : A) → ◌≡◌ {A = Result A} (ok a) (ok b) → a ≡ b
same_ok a b h = cc

-- A sequence that succeeded has a first step that did, and the rest of it.
module _ {S A B : Type 0} where
  after-ok :
      (x : Result A × S) (f : A → Exec S B) (b : B)
      → (after x f).0 ≡ ok b
      → (a : A) × (x.0 ≡ ok a) × ((f a x.1).0 ≡ ok b)
  after-ok (ok a, s) f b h = (a, refl, h)
  after-ok (err e, s) f b h = absurd (err_not_ok h)

  after-first : (x : Result A × S) (f : A → Exec S B) (a : A) → x.0 ≡ ok a → after x f ≡ f a x.1
  after-first (ok a', s) f a h = ap (λ (v : A). f v s) (same_ok a' a h)
  after-first (err e, s) f a h = absurd (err_not_ok h)

abbrev pub is_some : Option Bytes → Bool
is_some none = false
is_some (some x) = true

abbrev pub none_gathered : Gathered
none_gathered = record { inputs = []; usernames = []; verdicts = [] }

module _ (o : Outside) (r : Reconciler) (m : Mosquitto) where
  open o use {crypto}
  open crypto use {Reader}

  -- The users of the broker, with their Secrets.
  abbrev pub gathering : Pass o Gathered
  gathering = list_users o m.meta.namespace m.meta.name >>= λ users. gather o r users none_gathered

  -- A pass over the users, by what it gathered and rendered.
  pub record IsRendered (s : State Reader) (pass : UserPass) : Type 0 where
    pub gathered : Gathered
    pub password : Option Bytes
    pub previous : Dict Bytes
    pub random : Reader
    pub res : RenderResult
    pub rest : Reader
    pub is_gathered : (gathering s).0 ≡ ok gathered
    pub is_render :
        render crypto file_payload gathered.inputs (reserved_of password) previous random
        ≡ ok (res, rest)
    pub has_files : pass.files ≡ with_password password res.content
    pub has_password : is_some password ≡ is_metrics_enabled m

  metrics_password-is_some :
      (previous : Dict Bytes) (s : State Reader) (password : Option Bytes)
      → (metrics_password o m previous s).0 ≡ ok password
      → is_some password ≡ is_metrics_enabled m
  unfolding metrics_password
  metrics_password-is_some previous s password = elim (Bool-cases (is_metrics_enabled m)) [
    | inl q ↦ rw q (λ h.
        let p = after-ok (exporter_password o previous s) (λ pw. pure (some pw)) password h in
        ap is_some (sym (same_ok (some p.0) password p.2)))
    | inr q ↦ rw q (λ h. ap is_some (sym (same_ok none password h)))
  ]

  rendered_inputs :
      (x : Result (RenderResult × Reader)) (s : State Reader) (res : RenderResult)
      → (after_render o s x).0 ≡ ok res
      → (rest : Reader) × (x ≡ ok (res, rest))
  unfolding after_render
  rendered_inputs (ok (res', rest)) s res h =
      (rest, ap (λ (v : RenderResult). ok (v, rest)) (same_ok res' res h))
  rendered_inputs (err e) s res h = absurd (err_not_ok h)

  pub render_users-IsRendered :
      (s : State Reader) (pass : UserPass) → (render_users o r m s).0 ≡ ok pass → IsRendered s pass
  unfolding render_users render_inputs user_pass
  render_users-IsRendered s pass h =
      let users = after-ok (list_users o m.meta.namespace m.meta.name s) _ pass h in
      let s1 = (list_users o m.meta.namespace m.meta.name s).1 in
      let g = after-ok (gather o r users.0 none_gathered s1) _ pass users.2 in
      let s2 = (gather o r users.0 none_gathered s1).1 in
      let previous = after-ok (current_auth_data o m s2) _ pass g.2 in
      let s3 = (current_auth_data o m s2).1 in
      let password = after-ok (metrics_password o m previous.0 s3) _ pass previous.2 in
      let s4 = (metrics_password o m previous.0 s3).1 in
      let res =
        after-ok (render_inputs o g.0.inputs (reserved_of password.0) previous.0 s4) _ pass
          password.2 in
      let made =
        rendered_inputs
          (render crypto file_payload g.0.inputs (reserved_of password.0) previous.0 s4.random) s4
          res.0 res.1 in
      record {
        gathered = g.0;
        password = password.0;
        previous = previous.0;
        random = s4.random;
        res = res.0;
        rest = made.0;
        is_gathered =
            ap (λ (x : Result Gathered × State Reader). x.0)
              (after-first (list_users o m.meta.namespace m.meta.name s)
                (λ users. gather o r users none_gathered) users.0 users.1)
            ∙ g.1;
        is_render = made.1;
        has_files = ap (λ (p : UserPass). p.files) (sym (same_ok _ pass res.2));
        has_password = metrics_password-is_some previous.0 s3 password.0 password.1;
      }
