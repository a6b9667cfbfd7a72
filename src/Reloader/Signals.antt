-- ===== src/Reloader/Signals.antt =====
-- When a round signals the broker (internal/reloader/run.go, tls.go).
use mosquitto_operator.Base.{
  ℕ, ◌≡◌, refl, inl, inr, Bool, true, false, Option, none, some, List, [], ◌∷◌, Bytes, ◌=?◌, ◌&&◌,
  ◌||◌, if◌then◌else◌, arith, Option-cases, Bool-cases,
}
use mosquitto_operator.Base.Dict.{Dict}
use mosquitto_operator.Base.Results.{Result, ok, err, Error, Result-cases}
use mosquitto_operator.Reloader.Defs.{World, Config, sync, signal}
use mosquitto_operator.Reloader.Rounds.{
  Certificates, TlsState, Round, read_tls, read_pair, pair_fault, is_none, compare_pair, check_tls,
  copies_of, pending_of, delivered, deliver, tls_checked, once_synced, once, started, run,
}

-- The digests are those of a certificate and a key that belong together.
pub record IsPair (c : Certificates) (crt_sum key_sum : Bytes) : Type 0 where
  pub crt : Bytes
  pub key : Bytes
  pub matches : c.x509_key_pair crt key ≡ none
  pub of_crt : c.sum256 crt ≡ crt_sum
  pub of_key : c.sum256 key ≡ key_sum

-- What the state remembers as valid was checked.
abbrev pub IsChecked : Certificates → TlsState → Type 0
IsChecked c st = st.valid ≡ true → IsPair c st.crt st.key

checked_read :
    (c : Certificates) (r : Result (Bytes × Bytes))
    → is_none (pair_fault c r) ≡ true
    → IsPair c (c.sum256 (read_pair r).0) (c.sum256 (read_pair r).1)
unfolding read_pair is_none pair_fault
checked_read c (ok (crt, key)) h = record {
  crt = crt;
  key = key;
  matches = elim (Option-cases (c.x509_key_pair crt key)) [ inl e ↦ e | inr e ↦ ground arith ];
  of_crt = refl;
  of_key = refl;
}
checked_read c (err e) h = cc

-- The state after a check was checked, and its digests are those of the mounted pair.
record AfterCheck (c : Certificates) (r : Result (Bytes × Bytes)) (st : TlsState) : Type 0 where
  checked : IsChecked c st
  crt_sum : st.crt ≡ c.sum256 (read_pair r).0
  key_sum : st.key ≡ c.sum256 (read_pair r).1

compare_pair-AfterCheck :
    (c : Certificates) (st : TlsState) (r : Result (Bytes × Bytes))
    → IsChecked c st
    → AfterCheck c r (compare_pair c st r).0
unfolding compare_pair
compare_pair-AfterCheck c st r h =
    elim (Bool-cases
      (st.seen && (c.sum256 (read_pair r).0 =? st.crt && c.sum256 (read_pair r).1 =? st.key))) [
        | inl e ↦ rw e record { checked = h; crt_sum = ground arith; key_sum = ground arith }
        | inr e ↦ rw e record { checked = checked_read c r; crt_sum = refl; key_sum = refl }
      ]

deliver-tls :
    (w : World) (cfg : Config) (dir : Dict Bytes) (pending : Bool) (tls : TlsState)
    → (deliver w cfg dir pending tls).0.tls ≡ tls
unfolding deliver delivered
deliver-tls w cfg dir false tls = refl
deliver-tls w cfg dir true tls = elim (Result-cases (signal w cfg)) [
  | inl p ↦ rw p.1 refl
  | inr p ↦ rw p.1 refl
]

tls_checked-tls :
    (w : World) (cfg : Config) (dir : Dict Bytes) (pending : Bool)
    (r : TlsState × (Bool × Option Error))
    → (tls_checked w cfg dir pending r).0.tls ≡ r.0
unfolding tls_checked
tls_checked-tls w cfg dir pending (tls, (changed, e)) = go tls.valid
  where
    owed : Bool
    owed = pending || (is_none e && changed)

    go :
        (valid : Bool)
        → (if valid
            then deliver w cfg dir owed tls
            else (record { copies = dir; pending = owed; tls = tls }, none)).0.tls
          ≡ tls
    go true = deliver-tls w cfg dir owed tls
    go false = refl

tls_checked-valid :
    (w : World) (cfg : Config) (dir : Dict Bytes) (pending : Bool)
    (r : TlsState × (Bool × Option Error)) (pid : ℕ)
    → (tls_checked w cfg dir pending r).1 ≡ some pid
    → r.0.valid ≡ true
unfolding tls_checked
tls_checked-valid w cfg dir pending (tls, (changed, e)) pid h = elim (Bool-cases tls.valid) [
  | inl q ↦ q
  | inr q ↦ absurd (nothing (rw q at h))
]
  where
    nothing : ¬ (none ≡ some pid)
    nothing e = cc

once-IsChecked :
    (c : Certificates) (w : World) (cfg : Config) (st : Round)
    → IsChecked c st.tls
    → IsChecked c (once c w cfg st).0.tls
unfolding once once_synced check_tls
once-IsChecked c w cfg st h = elim (Bool-cases (cfg.tls_dir =? [])) [
  | inl e ↦
      rw
        (
          e,
          deliver-tls w cfg (copies_of (sync w cfg st.copies))
              (pending_of st.pending (sync w cfg st.copies)) st.tls,
        )
        h
  | inr e ↦
      rw
        (
          e,
          tls_checked-tls w cfg (copies_of (sync w cfg st.copies))
              (pending_of st.pending (sync w cfg st.copies))
              (compare_pair c st.tls (read_tls w cfg.tls_dir)),
        )
        (compare_pair-AfterCheck c st.tls (read_tls w cfg.tls_dir) h).checked
]

run-IsChecked :
    (c : Certificates) (cfg : Config) (ws : List World) (st : Round)
    → IsChecked c st.tls
    → IsChecked c (run c cfg ws st).tls
unfolding run
run-IsChecked c cfg [] st h = h
run-IsChecked c cfg (w ∷ ws) st h =
    run-IsChecked c cfg ws (once c w cfg st).0 (once-IsChecked c w cfg st h)

-- The digests of the pair that is mounted now.
abbrev pub MountedIsPair : Certificates → World → Config → Type 0
MountedIsPair c w cfg =
    IsPair c (c.sum256 (read_pair (read_tls w cfg.tls_dir)).0)
      (c.sum256 (read_pair (read_tls w cfg.tls_dir)).1)

-- With a TLS mount, whatever rounds `Run` has made since its start, a round that signals the
-- broker does so only while the mounted certificate and key have the digests of a pair that
-- `tls.X509KeyPair` accepts.
pub signals_valid_pair :
    (c : Certificates) (cfg : Config) (ws : List World) (w : World) (dir : Dict Bytes) (pid : ℕ)
    → (cfg.tls_dir =? []) ≡ false
    → (once c w cfg (run c cfg ws (started dir))).1 ≡ some pid
    → MountedIsPair c w cfg
unfolding once once_synced check_tls
signals_valid_pair c cfg ws w dir pid t h =
    let st = run c cfg ws (started dir) in
    let a =
      compare_pair-AfterCheck c st.tls (read_tls w cfg.tls_dir)
        (run-IsChecked c cfg ws (started dir) (λ e. cc)) in
    let v =
      tls_checked-valid w cfg (copies_of (sync w cfg st.copies))
        (pending_of st.pending (sync w cfg st.copies))
        (compare_pair c st.tls (read_tls w cfg.tls_dir)) pid (rw t at h) in
    rw (← a.crt_sum, ← a.key_sum) (a.checked v)
