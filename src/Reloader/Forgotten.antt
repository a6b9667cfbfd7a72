-- ===== src/Reloader/Forgotten.antt =====
-- A copy that is replaced by a pass of Sync that then fails (internal/reloader/run.go).
use mosquitto_operator.Base.{
  ℕ, ◌≡◌, refl, ap, ◌∙◌, Bool, true, false, Option, none, List, [], ◌∷◌, Bytes, ◌=?◌, All,
}
use mosquitto_operator.Base.Dict.{Dict}
use mosquitto_operator.Base.Results.{Error}
use mosquitto_operator.Reloader.Defs.{World, Config, Synced, done, failed, sync}
use mosquitto_operator.Reloader.Owed.{AreSilent}
use mosquitto_operator.Reloader.Rounds.{
  Certificates, Round, pending_of, copies_of, deliver, once_synced, once, run,
}

quiet : Certificates → Round → Dict Bytes → Round
quiet c st dir = record { copies = dir; pending = false; tls = st.tls }

-- Without a TLS mount and with nothing to signal, a round only takes over what `Sync` left.
quiet_round :
    (c : Certificates) (w : World) (cfg : Config) (st : Round) (s : Synced)
    → (cfg.tls_dir =? []) ≡ true
    → pending_of st.pending s ≡ false
    → once_synced c w cfg st s ≡ (quiet c st (copies_of s), none)
unfolding quiet once_synced deliver
quiet_round c w cfg st s t p = rw (t, p) refl

failed_round :
    (c : Certificates) (w : World) (cfg : Config) (st : Round) (dir : Dict Bytes) (changed : Bool)
    (e : Error)
    → (cfg.tls_dir =? []) ≡ true
    → st.pending ≡ false
    → sync w cfg st.copies ≡ failed dir changed e
    → once c w cfg st ≡ (quiet c st dir, none)
unfolding once copies_of pending_of
failed_round c w cfg st dir changed e t p h =
    rw h (quiet_round c w cfg st (failed dir changed e) t p)

settled_round :
    (c : Certificates) (w : World) (cfg : Config) (st : Round) (dir : Dict Bytes)
    → (cfg.tls_dir =? []) ≡ true
    → st.pending ≡ false
    → sync w cfg st.copies ≡ done dir false
    → once c w cfg st ≡ (quiet c st dir, none)
unfolding once copies_of pending_of
settled_round c w cfg st dir t p h = rw h (quiet_round c w cfg st (done dir false) t (rw p refl))

-- Without a change to signal and without a TLS mount, rounds in which nothing is to copy are silent.
settled-AreSilent :
    (c : Certificates) (cfg : Config) (dir : Dict Bytes) (ws : List World) (st : Round)
    → (cfg.tls_dir =? []) ≡ true
    → st.pending ≡ false
    → st.copies ≡ dir
    → All (λ w. sync w cfg dir ≡ done dir false) ws
    → AreSilent c cfg ws st × ((run c cfg ws st).copies ≡ dir)
unfolding run
settled-AreSilent c cfg dir [] st t p e h = (tt, e)
settled-AreSilent c cfg dir (w ∷ ws) st t p e h =
    let rest =
      settled-AreSilent c cfg dir ws (quiet c st dir) t (unfold quiet in refl)
        (unfold quiet in refl) h.1 in
    let same = settled_round c w cfg st dir t p (rw e h.0) in
    (rw same (refl, rest.0), ap (λ (r : Round × Option ℕ). (run c cfg ws r.0).copies) same ∙ rest.1)

-- Without a TLS mount and with nothing pending, a round whose pass of `Sync` fails, whatever it had
-- copied before it failed, and any number of rounds after it that find every copy equal to its
-- source signal no process; the copies stay as the pass that failed left them.
pub failed_sync_is_forgotten :
    (c : Certificates) (w : World) (ws : List World) (cfg : Config) (st : Round) (dir : Dict Bytes)
    (changed : Bool) (e : Error)
    → (cfg.tls_dir =? []) ≡ true
    → st.pending ≡ false
    → sync w cfg st.copies ≡ failed dir changed e
    → All (λ v. sync v cfg dir ≡ done dir false) ws
    → AreSilent c cfg (w ∷ ws) st × ((run c cfg (w ∷ ws) st).copies ≡ dir)
unfolding run
failed_sync_is_forgotten c w ws cfg st dir changed e t p h later =
    let rest =
      settled-AreSilent c cfg dir ws (quiet c st dir) t (unfold quiet in refl)
        (unfold quiet in refl) later in
    let same = failed_round c w cfg st dir changed e t p h in
    (rw same (refl, rest.0), ap (λ (r : Round × Option ℕ). (run c cfg ws r.0).copies) same ∙ rest.1)
