-- ===== src/Controller/Foreign.antt =====
-- Which parts of the cluster belong to a Mosquitto, and which to others.
pub mod Puts
pub mod Steps
pub mod Reads
pub mod Passes
use mosquitto_operator.Base.{
  ℕ, ◌≡◌, ◌≢◌, refl, sym, ap, ◌∙◌, ◌⊎◌, inl, inr, Bool, true, false, Option, none, some, List, [],
  ◌∷◌, map, Bytes, ◌=?◌, ◌&&◌, if◌then◌else◌, arith, Bool-cases, bytes_discrete,
}
use mosquitto_operator.Base.Results.{Result, ok, err, Error}
use mosquitto_operator.Api.{
  Mosquitto, MosquittoSpec, ObjectMeta, MosquittoUser, MosquittoUserSpec, MosquittoUserStatus,
}
use mosquitto_operator.Controller.Cluster.{
  Key, Kind, config_map, service, stateful_set, secret, Content, Stored, Objects, Cluster, Call,
  put, write, ◌=key◌,
}
use mosquitto_operator.Controller.Exec.{
  ⊤, Outside, Exec, pure, raise, lift, ◌>>=◌, State, Pass, ask, tell,
}
use mosquitto_operator.Controller.Within.{
  Change, Within, Within-pure, Within-raise, Within-lift, Within-bind, Within-attempt,
  Within-reading, Within-if, Within-for_each, Within-ask, Within-ask-bind, tell-rel,
}

-- Under the control of the owner with this uid.
abbrev pub IsControlled : Bytes → {k : Kind} → Stored k → Type 0
IsControlled uid obj = elim obj.controller [ none ↦ false | some u ↦ u =? uid ] ≡ true

-- The live object, before and after. None is deleted; a new one belongs to the owner; one that
-- belonged to the owner still does; any other is as it was.
abbrev pub Kept : Bytes → {k : Kind} → Option (Stored k) → Option (Stored k) → Type 0
Kept uid none none = Unit {0}
Kept uid none (some y) = IsControlled uid y
Kept uid (some x) none = ⊥
Kept uid (some x) (some y) = (IsControlled uid x × IsControlled uid y) ⊎ (y ≡ x)

pub Kept-refl : (uid : Bytes) (k : Kind) (x : Option (Stored k)) → Kept uid x x
Kept-refl uid k none = tt
Kept-refl uid k (some x) = inr refl

pub Kept-trans :
    (uid : Bytes) (k : Kind) (x y z : Option (Stored k))
    → Kept uid x y
    → Kept uid y z
    → Kept uid x z
Kept-trans uid k none none z h g = g
Kept-trans uid k none (some y) none h g = absurd g
Kept-trans uid k none (some y) (some z) h (inl g) = g.1
Kept-trans uid k none (some y) (some z) h (inr e) = rw e h
Kept-trans uid k (some x) none z h g = absurd h
Kept-trans uid k (some x) (some y) none h g = absurd g
Kept-trans uid k (some x) (some y) (some z) (inl h) (inl g) = inl (h.0, g.1)
Kept-trans uid k (some x) (some y) (some z) (inl h) (inr e) = inl (h.0, rw e h.1)
Kept-trans uid k (some x) (some y) (some z) (inr e) (inl g) = inl (rw (← e) g.0, g.1)
Kept-trans uid k (some x) (some y) (some z) (inr e) (inr f) = inr (f ∙ e)

abbrev pub KeptObjects : Bytes → Objects → Objects → Type 0
KeptObjects uid a b = (k : Kind) (key : Key) → Kept uid (a k key) (b k key)

-- A Mosquitto before and after: its metadata and its spec are the user's.
abbrev pub SameSpec : Option Mosquitto → Option Mosquitto → Type 0
SameSpec none none = Unit {0}
SameSpec none (some y) = ⊥
SameSpec (some x) none = ⊥
SameSpec (some x) (some y) = (y.meta ≡ x.meta) × (y.spec ≡ x.spec)

pub SameSpec-refl : (x : Option Mosquitto) → SameSpec x x
SameSpec-refl none = tt
SameSpec-refl (some x) = (refl, refl)

pub SameSpec-trans : (x y z : Option Mosquitto) → SameSpec x y → SameSpec y z → SameSpec x z
SameSpec-trans none none z h g = g
SameSpec-trans none (some y) z h g = absurd h
SameSpec-trans (some x) none z h g = absurd h
SameSpec-trans (some x) (some y) none h g = absurd g
SameSpec-trans (some x) (some y) (some z) h g = (g.0 ∙ h.0, g.1 ∙ h.1)

-- What the users ask for: their metadata and their specs.
abbrev pub asked_of : List MosquittoUser → List (ObjectMeta × MosquittoUserSpec)
asked_of [] = []
asked_of (u ∷ us) = (u.meta, u.spec) ∷ asked_of us

-- Every Mosquitto is stored under its own namespace and name.
abbrev pub AreNamed : Cluster → Type 0
AreNamed c =
    (key : Key) (m : Mosquitto)
    → c.brokers key ≡ some m
    → (m.meta.namespace ≡ key.namespace) × (m.meta.name ≡ key.name)

abbrev pub SameSpecs : Cluster → Cluster → Type 0
SameSpecs a b = (key : Key) → SameSpec (a.brokers key) (b.brokers key)

-- What a step for the owner with this uid may change.
pub record OnlyOwn (uid : Bytes) (a b : Cluster) : Type 0 where
  pub objects : KeptObjects uid a.objects b.objects
  pub users : asked_of b.users ≡ asked_of a.users
  pub brokers : AreNamed a → AreNamed b × SameSpecs a b

abbrev pub only_own : Bytes → Change
only_own uid = record {
  rel = OnlyOwn uid;
  stay = λ c. record {
    objects = λ k key. Kept-refl uid k (c.objects k key);
    users = refl;
    brokers = λ n. (n, λ key. SameSpec-refl (c.brokers key));
  };
  then_ = λ a b c h g. record {
    objects = λ k key.
        Kept-trans uid k (a.objects k key) (b.objects k key) (c.objects k key) (h.objects k key)
          (g.objects k key);
    users = g.users ∙ h.users;
    brokers = λ n.
        let x = h.brokers n in
        let y = g.brokers x.0 in
        (
          y.0,
          λ key. SameSpec-trans (a.brokers key) (b.brokers key) (c.brokers key) (x.1 key) (y.1 key),
        );
  };
}

-- What a pass for the owner with this uid changed: objects of the owner, and statuses.
pub record IsConfined (uid : Bytes) (a b : Cluster) : Type 0 where
  pub objects : KeptObjects uid a.objects b.objects
  pub users : asked_of b.users ≡ asked_of a.users
  pub brokers : SameSpecs a b

pub OnlyOwn-IsConfined :
    (uid : Bytes) (a b : Cluster) → AreNamed a → OnlyOwn uid a b → IsConfined uid a b
OnlyOwn-IsConfined uid a b n h = record {
  objects = h.objects;
  users = h.users;
  brokers = (h.brokers n).1;
}
