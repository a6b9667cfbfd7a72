-- ===== src/Controller/Writes.antt =====
-- What reconciling one object keeps of the others.
use mosquitto_operator.Base.{◌≡◌, refl, ◌∙◌, inl, inr, false, Option, none, some, Option-cases}
use mosquitto_operator.Api.{Mosquitto}
use mosquitto_operator.Controller.Cluster.{
  Key, Kind, config_map, service, stateful_set, secret, Content, Stored, Objects, Cluster, Call,
  put, ◌=key◌,
}
use mosquitto_operator.Controller.Exec.{Outside, ask}
use mosquitto_operator.Controller.Objects.{
  agrees, ensure_owned, owned, set_controller, create, update, renew, write_over, ensure, key_of,
}
use mosquitto_operator.Controller.Within.{
  Change, Within, Within-pure, Within-raise, Within-lift, Within-bind, Within-if, Within-ask-bind,
  tell-rel,
}

-- The live object of this kind and key as it was.
abbrev pub same_at : Kind → Key → Change
same_at k key = record {
  rel = λ a b. b.objects k key ≡ a.objects k key;
  stay = λ c. refl;
  then_ = λ a b c h g. g ∙ h;
}

-- Two places for an object that are not the same.
abbrev pub Apart : Kind → Key → Kind → Key → Type 0
Apart config_map j config_map key = (j =key key) ≡ false
Apart service j service key = (j =key key) ≡ false
Apart stateful_set j stateful_set key = (j =key key) ≡ false
Apart secret j secret key = (j =key key) ≡ false
Apart config_map j service key = Unit
Apart config_map j stateful_set key = Unit
Apart config_map j secret key = Unit
Apart service j config_map key = Unit
Apart service j stateful_set key = Unit
Apart service j secret key = Unit
Apart stateful_set j config_map key = Unit
Apart stateful_set j service key = Unit
Apart stateful_set j secret key = Unit
Apart secret j config_map key = Unit
Apart secret j service key = Unit
Apart secret j stateful_set key = Unit

put-Apart :
    (k : Kind) (j : Key) (obj : Stored k) (f : Objects) (l : Kind) (key : Key)
    → Apart k j l key
    → put k j obj f l key ≡ f l key
unfolding put
put-Apart config_map j obj f config_map key h = rw h refl
put-Apart service j obj f service key h = rw h refl
put-Apart stateful_set j obj f stateful_set key h = rw h refl
put-Apart secret j obj f secret key h = rw h refl
put-Apart config_map j obj f service key h = refl
put-Apart config_map j obj f stateful_set key h = refl
put-Apart config_map j obj f secret key h = refl
put-Apart service j obj f config_map key h = refl
put-Apart service j obj f stateful_set key h = refl
put-Apart service j obj f secret key h = refl
put-Apart stateful_set j obj f config_map key h = refl
put-Apart stateful_set j obj f service key h = refl
put-Apart stateful_set j obj f secret key h = refl
put-Apart secret j obj f config_map key h = refl
put-Apart secret j obj f service key h = refl
put-Apart secret j obj f stateful_set key h = refl

module _ (o : Outside) where
  open o use {owner_fault, crypto}
  open crypto use {Reader}

  -- What every write of this object keeps, reconciling it keeps.
  module _ (w : Change) (k : Kind) (desired : Content k)
      (written : (obj : Stored k) (c : Cluster)
        → w.rel c (record c { objects = put k (key_of k desired) obj c.objects })) where
    abbrev mine : Mosquitto → Stored k
    mine m = record { controller = some m.meta.uid; content = desired }

    renew-Within : (m : Mosquitto) (current : Stored k) → Within w (renew o k (mine m) current)
    unfolding renew update
    renew-Within m current =
        Within-if w (agrees k current.content desired) _ _ (Within-pure w tt)
          (record { at = λ s. tell-rel o w _ _ s (written _ s.cluster) })

    write_over-Within :
        (m : Mosquitto) (x : Option (Stored k)) → Within w (write_over o k m (mine m) x)
    unfolding write_over create ensure_owned
    write_over-Within m none = record { at = λ s. tell-rel o w _ _ s (written _ s.cluster) }
    write_over-Within m (some current) =
        Within-bind w _ _ (Within-lift w _) (λ _. renew-Within m current)

    pub ensure-Within :
        (call : Key → Call) (m : Mosquitto)
        → Within w (ensure o k (λ key. ask o (call key) (λ c. c.objects k key)) m desired)
    unfolding ensure set_controller owned
    ensure-Within call m = elim (Option-cases (owner_fault k (key_of k desired))) [
      | inl q ↦ rw q (
          Within-ask-bind o w (call (key_of k desired)) (λ c. c.objects k (key_of k desired))
            (write_over o k m (mine m))
            (λ s. (write_over-Within m (s.cluster.objects k (key_of k desired))).at s))
      | inr (x, q) ↦ rw q (Within-raise w _)
    ]

  pub ensure-Apart :
      (k : Kind) (call : Key → Call) (m : Mosquitto) (desired : Content k) (l : Kind) (key : Key)
      → Apart k (key_of k desired) l key
      → Within (same_at l key) (ensure o k (λ j. ask o (call j) (λ c. c.objects k j)) m desired)
  ensure-Apart k call m desired l key h =
      ensure-Within (same_at l key) k desired
        (λ obj c. put-Apart k (key_of k desired) obj c.objects l key h) call m
