-- ===== src/Controller/Foreign/Puts.antt =====
-- One object written, within what a pass may change.
use mosquitto_operator.Base.{
  ◌≡◌, refl, inl, inr, Option, some, List, [], ◌∷◌, Bytes, arith, Bool-cases,
}
use mosquitto_operator.Api.{Mosquitto, MosquittoUser, MosquittoUserStatus}
use mosquitto_operator.Controller.Cluster.{
  Key, Kind, config_map, service, stateful_set, secret, Stored, Objects, Cluster, put, write,
  ◌=key◌, key_of_test,
}
use mosquitto_operator.Controller.Statuses.{key_of_broker}
use mosquitto_operator.Controller.Users.{put_status, key_of_user}
use mosquitto_operator.Controller.Foreign.{
  Kept, Kept-refl, KeptObjects, SameSpec, SameSpecs, SameSpec-refl, asked_of, AreNamed, OnlyOwn,
}

write-Kept :
    (uid : Bytes) (k : Kind) (key : Key) (obj : Stored k) (f : Key → Option (Stored k)) (j : Key)
    → Kept uid (f key) (some obj)
    → Kept uid (f j) (write key obj f j)
write-Kept uid k key obj f j h = elim (Bool-cases (key =key j)) [
  | inl e ↦ rw e (rw (← key_of_test key j e) h)
  | inr e ↦ rw e (Kept-refl uid k (f j))
]

put-Kept :
    (uid : Bytes) (k : Kind) (key : Key) (obj : Stored k) (f : Objects)
    → Kept uid (f k key) (some obj)
    → KeptObjects uid f (put k key obj f)
unfolding put
put-Kept uid config_map key obj f h config_map j =
    write-Kept uid config_map key obj (f config_map) j h
put-Kept uid service key obj f h service j = write-Kept uid service key obj (f service) j h
put-Kept uid stateful_set key obj f h stateful_set j =
    write-Kept uid stateful_set key obj (f stateful_set) j h
put-Kept uid secret key obj f h secret j = write-Kept uid secret key obj (f secret) j h
put-Kept uid config_map key obj f h service j = Kept-refl uid service (f service j)
put-Kept uid config_map key obj f h stateful_set j = Kept-refl uid stateful_set (f stateful_set j)
put-Kept uid config_map key obj f h secret j = Kept-refl uid secret (f secret j)
put-Kept uid service key obj f h config_map j = Kept-refl uid config_map (f config_map j)
put-Kept uid service key obj f h stateful_set j = Kept-refl uid stateful_set (f stateful_set j)
put-Kept uid service key obj f h secret j = Kept-refl uid secret (f secret j)
put-Kept uid stateful_set key obj f h config_map j = Kept-refl uid config_map (f config_map j)
put-Kept uid stateful_set key obj f h service j = Kept-refl uid service (f service j)
put-Kept uid stateful_set key obj f h secret j = Kept-refl uid secret (f secret j)
put-Kept uid secret key obj f h config_map j = Kept-refl uid config_map (f config_map j)
put-Kept uid secret key obj f h service j = Kept-refl uid service (f service j)
put-Kept uid secret key obj f h stateful_set j = Kept-refl uid stateful_set (f stateful_set j)

pub put-OnlyOwn :
    (uid : Bytes) (k : Kind) (key : Key) (obj : Stored k) (c : Cluster)
    → Kept uid (c.objects k key) (some obj)
    → OnlyOwn uid c (record c { objects = put k key obj c.objects })
put-OnlyOwn uid k key obj c h = record {
  objects = put-Kept uid k key obj c.objects h;
  users = refl;
  brokers = λ n. (n, λ key'. SameSpec-refl (c.brokers key'));
}

pub asked_of-put_status :
    (key : Key) (status : MosquittoUserStatus) (us : List MosquittoUser)
    → asked_of (put_status key status us) ≡ asked_of us
unfolding put_status
asked_of-put_status key status [] = refl
asked_of-put_status key status (u ∷ us) = elim (Bool-cases (key_of_user u =key key)) [
  | inl e ↦ rw (e, asked_of-put_status key status us) refl
  | inr e ↦ rw (e, asked_of-put_status key status us) refl
]

-- A Mosquitto written over the stored one, with its metadata and its spec.
write-SameSpec :
    (stored m : Mosquitto) (key : Key) (f : Key → Option Mosquitto) (j : Key)
    → f key ≡ some stored
    → m.meta ≡ stored.meta
    → m.spec ≡ stored.spec
    → SameSpec (f j) (write key m f j)
write-SameSpec stored m key f j e em es = elim (Bool-cases (key =key j)) [
  | inl q ↦ rw q (rw (← key_of_test key j q) (rw e (em, es)))
  | inr q ↦ rw q (SameSpec-refl (f j))
]

key_of_broker-eq :
    (stored : Mosquitto) (key : Key)
    → (stored.meta.namespace ≡ key.namespace) × (stored.meta.name ≡ key.name)
    → key_of_broker stored ≡ key
key_of_broker-eq stored key h = ground arith

write-AreNamed :
    (m : Mosquitto) (c : Cluster)
    → AreNamed c
    → AreNamed (record c { brokers = write (key_of_broker m) m c.brokers })
write-AreNamed m c n j x = ground (arith, n j x)

pub written-brokers :
    (m stored : Mosquitto) (c : Cluster)
    → c.brokers (key_of_broker m) ≡ some stored
    → AreNamed c
    → let new = record stored { status = m.status } in
      let c' = record c { brokers = write (key_of_broker new) new c.brokers } in
      AreNamed c' × SameSpecs c c'
written-brokers m stored c e n =
    let new : Mosquitto = record stored { status = m.status } in
    let same = key_of_broker-eq stored (key_of_broker m) (n (key_of_broker m) stored e) in
    (
      write-AreNamed new c n,
      λ j. write-SameSpec stored new (key_of_broker new) c.brokers j (rw same e) refl refl,
    )
