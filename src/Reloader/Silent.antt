-- ===== src/Reloader/Silent.antt =====
-- What a pass of Sync that reports no change leaves behind (internal/reloader/reloader.go).
use mathlib.Core.Bool.{false≢true}
use mosquitto_operator.Base.{
  ◌≡◌, ◌≢◌, refl, sym, inl, inr, Bool, true, false, Option, none, some, List, [], ◌∷◌, Bytes, ◌=?◌,
  Bool-cases,
}
use mosquitto_operator.Base.Dict.{Dict, get_or, lookup}
use mosquitto_operator.Base.Results.{Result, ok, err, Error}
use mosquitto_operator.Reloader.Defs.{
  World, Config, Synced, done, failed, sync, synced, sync_all, sync_one, and_then, copied, compared,
  after_write, read_source,
}

-- A pass that reports no change left the directory as it was.
abbrev pub Silent : Dict Bytes → Bool → Synced → Type 0
Silent dir changed (done dir' false) = (dir' ≡ dir) × (changed ≡ false)
Silent dir changed (done dir' true) = Unit
Silent dir changed (failed dir' changed' e) = Unit

kept-Silent : (dir : Dict Bytes) (changed : Bool) → Silent dir changed (done dir changed)
kept-Silent dir true = tt
kept-Silent dir false = (refl, refl)

after_write-Silent :
    (dir : Dict Bytes) (changed : Bool) (r : Dict Bytes × Option Error)
    → Silent dir changed (after_write changed r)
unfolding after_write
after_write-Silent dir changed (dir', none) = tt
after_write-Silent dir changed (dir', some e) = tt

compared-Silent :
    (w : World) (name bytes : Bytes) (dir : Dict Bytes) (changed : Bool) (o : Option Bytes)
    → Silent dir changed (compared w name bytes dir changed o)
unfolding compared
compared-Silent w name bytes dir changed none = after_write-Silent dir changed _
compared-Silent w name bytes dir changed (some current) = elim (Bool-cases (current =? bytes)) [
  | inl e ↦ rw e (kept-Silent dir changed)
  | inr e ↦ rw e (after_write-Silent dir changed _)
]

copied-Silent :
    (w : World) (name bytes : Bytes) (dir : Dict Bytes) (changed : Bool) (fault : Option Error)
    → Silent dir changed (copied w name bytes dir changed fault)
unfolding copied
copied-Silent w name bytes dir changed none =
    compared-Silent w name bytes dir changed (lookup name dir)
copied-Silent w name bytes dir changed (some e) = tt

then-Silent :
    (w : World) (files : Dict Bytes) (names : List Bytes) (dir : Dict Bytes) (changed : Bool)
    (s : Synced)
    → Silent dir changed s
    → ((dir' : Dict Bytes) (changed' : Bool)
        → Silent dir' changed' (sync_all w files names dir' changed'))
    → Silent dir changed (and_then s (λ dir' changed'. sync_all w files names dir' changed'))
then-Silent w files names dir changed (failed dir' changed' e) h rest = tt
then-Silent w files names dir changed (done dir' false) h rest = rw (← h.0, h.1) (rest dir' false)
then-Silent w files names dir changed (done dir' true) h rest =
    late (sync_all w files names dir' true) (rest dir' true)
  where
    late : (s : Synced) → Silent dir' true s → Silent dir changed s
    late (done d true) k = tt
    late (done d false) k = absurd (false≢true (sym k.1))
    late (failed d c e) k = tt

sync_all-Silent :
    (w : World) (files : Dict Bytes) (names : List Bytes) (dir : Dict Bytes) (changed : Bool)
    → Silent dir changed (sync_all w files names dir changed)
unfolding sync_all sync_one
sync_all-Silent w files [] dir changed = kept-Silent dir changed
sync_all-Silent w files (name ∷ names) dir changed =
    then-Silent w files names dir changed _
      (copied-Silent w name (get_or name [] files) dir changed (w.copy_fault name))
      (λ dir' changed'. sync_all-Silent w files names dir' changed')

pub sync-Silent : (w : World) (cfg : Config) (dir : Dict Bytes) → Silent dir false (sync w cfg dir)
unfolding sync
sync-Silent w cfg dir = of_source (read_source w cfg)
  where
    of_source : (r : Result (Dict Bytes)) → Silent dir false (synced w cfg dir r)
    of_source (ok files) = unfold synced in sync_all-Silent w files cfg.files dir false
    of_source (err e) = unfold synced in tt

pub copied-changed :
    (dir dir' : Dict Bytes) (changed : Bool)
    → Silent dir false (done dir' changed)
    → dir' ≢ dir
    → changed ≡ true
copied-changed dir dir' true h n = refl
copied-changed dir dir' false h n = absurd (n h.0)
