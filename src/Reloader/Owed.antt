-- ===== src/Reloader/Owed.antt =====
-- What a round still owes the broker: a signal for what changed (internal/reloader/run.go, tls.go).
use mathlib.Core.Bool.{false≢true}
use mosquitto_operator.Base.{
  ℕ, ◌≡◌, ◌≢◌, refl, sym, subst, ◌∙◌, ◌⊎◌, inl, inr, Bool, true, false, Option, none, some, List,
  [], ◌∷◌, Bytes, ◌=?◌, ◌&&◌, ◌||◌, if◌then◌else◌, arith, Bool-cases,
}
use mosquitto_operator.Base.Dict.{Dict}
use mosquitto_operator.Base.Results.{Result, ok, err, Error}
use mosquitto_operator.Reloader.Defs.{World, Config, Synced, done, failed, sync, signal}
use mosquitto_operator.Reloader.Silent.{Silent, sync-Silent, copied-changed}
use mosquitto_operator.Reloader.Rounds.{
  Certificates, TlsState, Round, read_tls, read_pair, pair_fault, is_none, compare_pair, check_tls,
  pending_of, delivered, deliver, tls_checked, once_synced, once, run,
}

-- The pass of `Sync` of this round succeeds and leaves another directory.
abbrev pub Copies : World → Config → Round → Type 0
Copies w cfg st =
    (dir : Dict Bytes) × (changed : Bool) × (sync w cfg st.copies ≡ done dir changed)
    × (dir ≢ st.copies)

-- The digests of the pair are not those that the state remembers.
abbrev pub DifferentPair : Certificates → TlsState → Bytes → Bytes → Type 0
DifferentPair c st crt key = (c.sum256 crt ≢ st.crt) ⊎ (c.sum256 key ≢ st.key)

-- A valid pair is mounted, and it is another one than the round before found.
abbrev pub Renews : Certificates → World → Config → Round → Type 0
Renews c w cfg st =
    ((cfg.tls_dir =? []) ≡ false)
    × (st.tls.seen ≡ true)
    × (crt : Bytes) × (key : Bytes) × (read_tls w cfg.tls_dir ≡ ok (crt, key))
    × (c.x509_key_pair crt key ≡ none)
    × DifferentPair c st.tls crt key

-- The round has a change to signal: from before, of the copies, or of the TLS pair.
abbrev pub Owes : Certificates → World → Config → Round → Type 0
Owes c w cfg st = (st.pending ≡ true) ⊎ Copies w cfg st ⊎ Renews c w cfg st

-- Nothing keeps the round from sending a signal: there is no TLS mount, or a valid pair is mounted
-- that is not the one of which the state remembers that it was refused.
abbrev pub MaySignal : Certificates → World → Config → Round → Type 0
MaySignal c w cfg st =
    ((cfg.tls_dir =? []) ≡ true)
    ⊎ ((crt : Bytes) × (key : Bytes) × (read_tls w cfg.tls_dir ≡ ok (crt, key))
        × (c.x509_key_pair crt key ≡ none)
        × ((st.tls.seen ≡ false) ⊎ (st.tls.valid ≡ true) ⊎ DifferentPair c st.tls crt key))

pending_of-true : (s : Synced) → pending_of true s ≡ true
unfolding pending_of
pending_of-true (done dir changed) = refl
pending_of-true (failed dir changed e) = refl

or_true : (b : Bool) → (b || true) ≡ true
or_true true = refl
or_true false = refl

Copies-pending :
    (w : World) (cfg : Config) (st : Round)
    → Copies w cfg st
    → pending_of st.pending (sync w cfg st.copies) ≡ true
unfolding pending_of
Copies-pending w cfg st (dir, changed, h, n) =
    let yes : changed ≡ true =
      copied-changed st.copies dir changed
        (subst (Silent st.copies false) h (sync-Silent w cfg st.copies)) n in
    rw (h, yes) (or_true st.pending)

different_test :
    (c : Certificates) (st : TlsState) (crt key : Bytes)
    → DifferentPair c st crt key
    → (c.sum256 crt =? st.crt && c.sum256 key =? st.key) ≡ false
different_test c st crt key h = ground (arith, h)

-- The check of another pair that is valid reports it, and finds it valid.
checked_renewal :
    (c : Certificates) (st : TlsState) (crt key : Bytes)
    → c.x509_key_pair crt key ≡ none
    → DifferentPair c st crt key
    → st.seen ≡ true
    → let r = compare_pair c st (ok (crt, key)) in (is_none r.1.1 && r.1.0) ≡ true
unfolding compare_pair read_pair pair_fault is_none
checked_renewal c st crt key valid d seen = rw (seen, different_test c st crt key d, valid) refl

checked_valid :
    (c : Certificates) (st : TlsState) (crt key : Bytes)
    → c.x509_key_pair crt key ≡ none
    → (st.seen ≡ false) ⊎ (st.valid ≡ true) ⊎ DifferentPair c st crt key
    → (compare_pair c st (ok (crt, key))).0.valid ≡ true
unfolding compare_pair read_pair pair_fault is_none
checked_valid c st crt key valid h =
    elim (Bool-cases (st.seen && (c.sum256 crt =? st.crt && c.sum256 key =? st.key))) [
      | inl e ↦ rw e (remembered e h)
      | inr e ↦ rw (e, valid) refl
    ]
  where
    remembered :
        (st.seen && (c.sum256 crt =? st.crt && c.sum256 key =? st.key)) ≡ true
        → (st.seen ≡ false) ⊎ (st.valid ≡ true) ⊎ DifferentPair c st crt key
        → st.valid ≡ true
    remembered e (inl n) = ground arith
    remembered e (inr (inl v)) = v
    remembered e (inr (inr d)) = ground (arith, different_test c st crt key d)

-- What the round has to signal once it has copied and checked.
abbrev owed_now : Certificates → World → Config → Round → Bool
owed_now c w cfg st =
    let r = check_tls c w cfg.tls_dir st.tls in
    pending_of st.pending (sync w cfg st.copies) || (is_none r.1.1 && r.1.0)

Owes-pending :
    (c : Certificates) (w : World) (cfg : Config) (st : Round)
    → (cfg.tls_dir =? []) ≡ true
    → Owes c w cfg st
    → pending_of st.pending (sync w cfg st.copies) ≡ true
Owes-pending c w cfg st t (inl p) = rw p (pending_of-true (sync w cfg st.copies))
Owes-pending c w cfg st t (inr (inl h)) = Copies-pending w cfg st h
Owes-pending c w cfg st t (inr (inr (n, seen, crt, key, r, valid, d))) =
    absurd (false≢true (sym n ∙ t))

Owes-owed :
    (c : Certificates) (w : World) (cfg : Config) (st : Round)
    → Owes c w cfg st
    → owed_now c w cfg st ≡ true
unfolding check_tls
Owes-owed c w cfg st (inl p) = rw (p, pending_of-true (sync w cfg st.copies)) refl
Owes-owed c w cfg st (inr (inl h)) = rw (Copies-pending w cfg st h) refl
Owes-owed c w cfg st (inr (inr (n, seen, crt, key, r, valid, d))) =
    rw (r, checked_renewal c st.tls crt key valid d seen) (or_true _)

-- The round signals the process, or it still has to.
abbrev Delivers : ℕ → Round × Option ℕ → Type 0
Delivers pid r = (r.1 ≡ some pid) × (r.0.pending ≡ false)

abbrev StillOwes : Round × Option ℕ → Type 0
StillOwes r = r.1 ≡ none → r.0.pending ≡ true

delivered-StillOwes :
    (dir : Dict Bytes) (tls : TlsState) (r : Result ℕ) → StillOwes (delivered dir tls r)
unfolding delivered
delivered-StillOwes dir tls (ok pid) h = cc
delivered-StillOwes dir tls (err e) h = refl

deliver-StillOwes :
    (w : World) (cfg : Config) (dir : Dict Bytes) (owed : Bool) (tls : TlsState)
    → owed ≡ true
    → StillOwes (deliver w cfg dir owed tls)
unfolding deliver
deliver-StillOwes w cfg dir true tls o = delivered-StillOwes dir tls (signal w cfg)
deliver-StillOwes w cfg dir false tls o = absurd (false≢true o)

deliver-Delivers :
    (w : World) (cfg : Config) (dir : Dict Bytes) (owed : Bool) (tls : TlsState) (pid : ℕ)
    → owed ≡ true
    → signal w cfg ≡ ok pid
    → Delivers pid (deliver w cfg dir owed tls)
unfolding deliver delivered
deliver-Delivers w cfg dir true tls pid o h = rw h (refl, refl)
deliver-Delivers w cfg dir false tls pid o h = absurd (false≢true o)

tls_checked-StillOwes :
    (w : World) (cfg : Config) (dir : Dict Bytes) (pending : Bool)
    (r : TlsState × (Bool × Option Error))
    → (pending || (is_none r.1.1 && r.1.0)) ≡ true
    → StillOwes (tls_checked w cfg dir pending r)
unfolding tls_checked
tls_checked-StillOwes w cfg dir pending (tls, (changed, e)) o = go tls.valid
  where
    owed : Bool
    owed = pending || (is_none e && changed)

    go :
        (valid : Bool)
        → StillOwes (
            if valid
            then deliver w cfg dir owed tls
            else (record { copies = dir; pending = owed; tls = tls }, none))
    go true = deliver-StillOwes w cfg dir owed tls o
    go false = λ _. o

tls_checked-Delivers :
    (w : World) (cfg : Config) (dir : Dict Bytes) (pending : Bool)
    (r : TlsState × (Bool × Option Error)) (pid : ℕ)
    → (pending || (is_none r.1.1 && r.1.0)) ≡ true
    → r.0.valid ≡ true
    → signal w cfg ≡ ok pid
    → Delivers pid (tls_checked w cfg dir pending r)
unfolding tls_checked
tls_checked-Delivers w cfg dir pending (tls, (changed, e)) pid o v h = go tls.valid v
  where
    owed : Bool
    owed = pending || (is_none e && changed)

    go :
        (valid : Bool)
        → valid ≡ true
        → Delivers pid (
            if valid
            then deliver w cfg dir owed tls
            else (record { copies = dir; pending = owed; tls = tls }, none))
    go true v = deliver-Delivers w cfg dir owed tls pid o h
    go false v = absurd (false≢true v)

-- A round with a change to signal still has it afterwards, or signals.
round-StillOwes :
    (c : Certificates) (w : World) (cfg : Config) (st : Round)
    → Owes c w cfg st
    → StillOwes (once c w cfg st)
unfolding once once_synced
round-StillOwes c w cfg st o = elim (Bool-cases (cfg.tls_dir =? [])) [
  | inl e ↦ rw e (deliver-StillOwes w cfg _ _ st.tls (Owes-pending c w cfg st e o))
  | inr e ↦
      rw e (
        tls_checked-StillOwes w cfg _ _ (check_tls c w cfg.tls_dir st.tls) (Owes-owed c w cfg st o))
]

MaySignal-valid :
    (c : Certificates) (w : World) (cfg : Config) (st : Round)
    → (cfg.tls_dir =? []) ≡ false
    → MaySignal c w cfg st
    → (check_tls c w cfg.tls_dir st.tls).0.valid ≡ true
unfolding check_tls
MaySignal-valid c w cfg st t (inl n) = absurd (false≢true (sym t ∙ n))
MaySignal-valid c w cfg st t (inr (crt, key, r, valid, h)) =
    rw r (checked_valid c st.tls crt key valid h)

round-Delivers :
    (c : Certificates) (w : World) (cfg : Config) (st : Round) (pid : ℕ)
    → Owes c w cfg st
    → MaySignal c w cfg st
    → signal w cfg ≡ ok pid
    → Delivers pid (once c w cfg st)
unfolding once once_synced
round-Delivers c w cfg st pid o m h = elim (Bool-cases (cfg.tls_dir =? [])) [
  | inl e ↦ rw e (deliver-Delivers w cfg _ _ st.tls pid (Owes-pending c w cfg st e o) h)
  | inr e ↦ rw e (
      tls_checked-Delivers w cfg _ _ (check_tls c w cfg.tls_dir st.tls) pid (Owes-owed c w cfg st o)
        (MaySignal-valid c w cfg st e m) h)
]

-- No round of `Run` over these worlds signals a process.
abbrev pub AreSilent : Certificates → Config → List World → Round → Type 0
AreSilent c cfg [] st = Unit
AreSilent c cfg (w ∷ ws) st = ((once c w cfg st).1 ≡ none) × AreSilent c cfg ws (once c w cfg st).0

pending_run :
    (c : Certificates) (cfg : Config) (ws : List World) (st : Round)
    → st.pending ≡ true
    → AreSilent c cfg ws st
    → (run c cfg ws st).pending ≡ true
unfolding run
pending_run c cfg [] st p h = p
pending_run c cfg (w ∷ ws) st p h =
    pending_run c cfg ws (once c w cfg st).0 (round-StillOwes c w cfg st (inl p) h.0) h.1

-- A change that a round has to signal - one that was pending, a directory that a pass of `Sync`
-- without an error changed, or another valid TLS pair - is pending after that round and any number
-- of further ones, as long as none of them signals a process.
pub owed_until_signalled :
    (c : Certificates) (w : World) (ws : List World) (cfg : Config) (st : Round)
    → Owes c w cfg st
    → AreSilent c cfg (w ∷ ws) st
    → (run c cfg (w ∷ ws) st).pending ≡ true
unfolding run
owed_until_signalled c w ws cfg st o h =
    pending_run c cfg ws (once c w cfg st).0 (round-StillOwes c w cfg st o h.0) h.1

-- The rounds before the world `w` found a change and signalled nothing; without such rounds the one
-- in `w` finds it.
abbrev pub Waits : Certificates → Config → List World → World → Round → Type 0
Waits c cfg [] w st = Owes c w cfg st
Waits c cfg (v ∷ vs) w st = Owes c v cfg st × AreSilent c cfg (v ∷ vs) st

waiting-Owes :
    (c : Certificates) (cfg : Config) (ws : List World) (w : World) (st : Round)
    → Waits c cfg ws w st
    → Owes c w cfg (run c cfg ws st)
waiting-Owes c cfg [] w st h = unfold run in h
waiting-Owes c cfg (v ∷ vs) w st h = inl (owed_until_signalled c v vs cfg st h.0 h.1)

-- A change - one that was pending, a directory that a pass of `Sync` without an error changed, or
-- another valid TLS pair - is signalled by the round that finds it or, if that one and others after
-- it signal nothing, by the first later round which may signal (there is no TLS mount, or a valid
-- pair is mounted that is not remembered as refused) and finds a process that takes the signal.
-- Nothing is pending after that.
pub owed_is_signalled :
    (c : Certificates) (cfg : Config) (ws : List World) (w : World) (st : Round) (pid : ℕ)
    → Waits c cfg ws w st
    → MaySignal c w cfg (run c cfg ws st)
    → signal w cfg ≡ ok pid
    → ((once c w cfg (run c cfg ws st)).1 ≡ some pid)
      × ((once c w cfg (run c cfg ws st)).0.pending ≡ false)
owed_is_signalled c cfg ws w st pid h m sent =
    round-Delivers c w cfg (run c cfg ws st) pid (waiting-Owes c cfg ws w st h) m sent
