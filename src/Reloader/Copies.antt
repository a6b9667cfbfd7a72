-- ===== src/Reloader/Copies.antt =====
-- What `Sync` does to the target directory.
use mosquitto_operator.Base.{
  ◌≡◌, refl, sym, ◌⊎◌, inl, inr, Bool, true, false, Option, none, some, List, [], ◌∷◌, Bytes, ◌=?◌,
  =?_refl, if◌then◌else◌, In, codes, ◌≢◌, bytes_discrete, subst, arith, Bool-cases,
}
use mosquitto_operator.Base.Dict.{
  Dict, member, lookup, get_or, insert, erase, lookup-insert, lookup-erase, get_or-lookup,
  In-member,
}
use mosquitto_operator.Base.Results.{
  Result, Message, ok, err, Error, wrap, >>=-eq-ok, wrap-eq-ok, Result-cases,
}
use mosquitto_operator.Reloader.Defs.{
  World, Config, message, join_path, resolve_data, read_all, read_source, write_fault, renamed,
  written, write_atomic, Synced, done, failed, after_write, compared, copied, sync_one, and_then,
  sync_all, synced, sync,
}

abbrev reading : Bytes → Message
reading name = message (codes "reading %s from the Secret mount: %w") (name ∷ [])

-- The name has bytes in `files`, and they are the ones a read in `dir` gives.
abbrev IsRead : World → Bytes → Dict Bytes → Bytes → Type 0
IsRead w dir files name =
    (bytes : Bytes) × (lookup name files ≡ some bytes)
    × (w.read_file (join_path dir name) ≡ ok bytes)

IsRead-insert :
    (w : World) (dir j k v : Bytes) (files : Dict Bytes)
    → w.read_file (join_path dir k) ≡ ok v
    → (k ≡ j) ⊎ IsRead w dir files j
    → IsRead w dir (insert k v files) j
IsRead-insert w dir j k v files r h = elim (bytes_discrete k j) [
  | yes e ↦ (v, ground (arith, lookup-insert j k v files), rw (← e) r)
  | no n ↦ other n h
]
  where
    other : k ≢ j → (k ≡ j) ⊎ IsRead w dir files j → IsRead w dir (insert k v files) j
    other n (inl e) = absurd (n e)
    other n (inr (x, l, q)) = (x, ground (arith, lookup-insert j k v files), q)

read_all-IsRead :
    (w : World) (dir : Bytes) (names : List Bytes) (files out : Dict Bytes) (j : Bytes)
    → read_all w dir names files ≡ ok out
    → In j names ⊎ IsRead w dir files j
    → IsRead w dir out j
unfolding read_all
read_all-IsRead w dir [] files out j h (inl m) = absurd m
read_all-IsRead w dir [] files out j h (inr (x, l, q)) = (x, ground arith, q)
read_all-IsRead w dir (k ∷ ks) files out j h m =
    let step = >>=-eq-ok (wrap (reading k) (w.read_file (join_path dir k))) _ h in
    let r = wrap-eq-ok (reading k) (w.read_file (join_path dir k)) step.1 in
    read_all-IsRead w dir ks (insert k step.0 files) out j step.2 (next step.0 r m)
  where
    next :
        (v : Bytes)
        → w.read_file (join_path dir k) ≡ ok v
        → In j (k ∷ ks) ⊎ IsRead w dir files j
        → In j ks ⊎ IsRead w dir (insert k v files) j
    next v r (inl (inl e)) = inr (IsRead-insert w dir j k v files r (inl (sym e)))
    next v r (inl (inr i)) = inl i
    next v r (inr p) = inr (IsRead-insert w dir j k v files r (inr p))

-- No temporary file has the name `j`.
abbrev pub NeverTemp : World → Bytes → Type 0
NeverTemp w j = (name tmp : Bytes) → w.create_temp name ≡ ok tmp → tmp ≢ j

-- The bytes of `j` after a step that replaces `name`.
abbrev Replaced : Bytes → Bytes → Bytes → Dict Bytes → Option Error → Dict Bytes → Type 0
Replaced j name bytes dir none dir' =
    lookup j dir' ≡ (if name =? j then some bytes else lookup j dir)
Replaced j name bytes dir (some e) dir' = lookup j dir' ≡ lookup j dir

renamed-Replaced :
    (j name bytes tmp : Bytes) (dir : Dict Bytes) (e : Option Error)
    → tmp ≢ j
    → let r = renamed name bytes tmp (insert tmp bytes dir) e in Replaced j name bytes dir r.1 r.0
unfolding renamed
renamed-Replaced j name bytes tmp dir none n = ground (
  arith,
  lookup-erase j tmp (insert name bytes (erase tmp (insert tmp bytes dir))),
  lookup-insert j name bytes (erase tmp (insert tmp bytes dir)),
  lookup-erase j tmp (insert tmp bytes dir),
  lookup-insert j tmp bytes dir,
)
renamed-Replaced j name bytes tmp dir (some e) n =
    ground (arith, lookup-erase j tmp (insert tmp bytes dir), lookup-insert j tmp bytes dir)

written-Replaced :
    (w : World) (j name bytes : Bytes) (dir : Dict Bytes) (t : Result Bytes)
    → ((tmp : Bytes) → t ≡ ok tmp → tmp ≢ j)
    → let r = written w name bytes dir t in Replaced j name bytes dir r.1 r.0
unfolding written
written-Replaced w j name bytes dir (err e) n = refl
written-Replaced w j name bytes dir (ok tmp) n =
    renamed-Replaced j name bytes tmp dir (write_fault w name tmp) (n tmp refl)

abbrev Step : Bytes → Bytes → Bytes → Dict Bytes → Synced → Type 0
Step j name bytes dir (done dir' changed) = Replaced j name bytes dir none dir'
Step j name bytes dir (failed dir' changed e) = lookup j dir' ≡ lookup j dir

after_write-Step :
    (j name bytes : Bytes) (dir : Dict Bytes) (changed : Bool) (r : Dict Bytes × Option Error)
    → Replaced j name bytes dir r.1 r.0
    → Step j name bytes dir (after_write changed r)
unfolding after_write
after_write-Step j name bytes dir changed (dir', none) h = h
after_write-Step j name bytes dir changed (dir', some e) h = h

compared-Step :
    (w : World) (j name bytes : Bytes) (dir : Dict Bytes) (changed : Bool) (o : Option Bytes)
    → lookup name dir ≡ o
    → NeverTemp w j
    → Step j name bytes dir (compared w name bytes dir changed o)
unfolding compared write_atomic
compared-Step w j name bytes dir changed none q n =
    after_write-Step j name bytes dir changed _
      (written-Replaced w j name bytes dir (w.create_temp name) (n name))
compared-Step w j name bytes dir changed (some current) q n = elim (Bool-cases (current =? bytes)) [
  | inl e ↦ rw e (kept e)
  | inr e ↦ rw e (
      after_write-Step j name bytes dir changed _
        (written-Replaced w j name bytes dir (w.create_temp name) (n name)))
]
  where
    kept :
        (current =? bytes) ≡ true → lookup j dir ≡ (if name =? j then some bytes else lookup j dir)
    kept e = ground arith

sync_one-Step :
    (w : World) (j name : Bytes) (files dir : Dict Bytes) (changed : Bool)
    → NeverTemp w j
    → Step j name (get_or name [] files) dir (sync_one w files name dir changed)
unfolding sync_one copied
sync_one-Step w j name files dir changed n = go (w.copy_fault name)
  where
    go :
        (o : Option Error)
        → Step j name
            (get_or name [] files)
            dir
            (copied w name (get_or name [] files) dir changed o)
    go none = compared-Step w j name (get_or name [] files) dir changed (lookup name dir) refl n
    go (some e) = refl

-- Whatever `sync_all` ends with, every file is whole.
abbrev Whole : Bytes → Dict Bytes → List Bytes → Dict Bytes → Synced → Type 0
Whole j files names dir (done dir' changed) =
    lookup j dir' ≡ (if member j names then some (get_or j [] files) else lookup j dir)
Whole j files names dir (failed dir' changed e) =
    (lookup j dir' ≡ lookup j dir) ⊎ (lookup j dir' ≡ some (get_or j [] files))

sync_all-Whole :
    (w : World) (j : Bytes) (files : Dict Bytes) (names : List Bytes) (dir : Dict Bytes)
    (changed : Bool)
    → NeverTemp w j
    → Whole j files names dir (sync_all w files names dir changed)
unfolding sync_all
sync_all-Whole w j files [] dir changed n = refl
sync_all-Whole w j files (name ∷ names) dir changed n =
    go (sync_one w files name dir changed) (sync_one-Step w j name files dir changed n)
      (λ dir' changed'. sync_all-Whole w j files names dir' changed' n)
  where
    join :
        (dir' : Dict Bytes) (s : Synced)
        → Step j name (get_or name [] files) dir (done dir' true)
        → Whole j files names dir' s
        → Whole j files (name ∷ names) dir s
    join dir' (done dir2 c) r h = ground arith
    join dir' (failed dir2 c e) r h = ground arith

    go :
        (s : Synced)
        → Step j name (get_or name [] files) dir s
        → ((dir' : Dict Bytes) (changed' : Bool)
            → Whole j files names dir' (sync_all w files names dir' changed'))
        → Whole j files
            (name ∷ names)
            dir
            (and_then s (λ dir' changed'. sync_all w files names dir' changed'))
    go (done dir' changed') r rest =
        join dir' (sync_all w files names dir' changed') r (rest dir' changed')
    go (failed dir' changed' e) r rest = inl r

-- The file holds the bytes that the Secret mount has for it.
abbrev pub IsCopy : World → Config → Dict Bytes → Bytes → Type 0
IsCopy w cfg dir j = IsRead w (resolve_data w cfg.source) dir j

IsRead-get_or :
    (w : World) (base j : Bytes) (files dir : Dict Bytes)
    → IsRead w base files j
    → lookup j dir ≡ some (get_or j [] files)
    → IsRead w base dir j
IsRead-get_or w base j files dir (x, l, r) h = (x, ground (arith, get_or-lookup j [] files), r)

-- The two outcomes of a pass, for a file that is to be copied.
abbrev Outcome : World → Config → Dict Bytes → Bytes → Synced → Type 0
Outcome w cfg dir j (done dir' changed) = IsCopy w cfg dir' j
Outcome w cfg dir j (failed dir' changed e) = (lookup j dir' ≡ lookup j dir) ⊎ IsCopy w cfg dir' j

sync-Outcome :
    (w : World) (cfg : Config) (dir : Dict Bytes) (j : Bytes)
    → In j cfg.files
    → NeverTemp w j
    → Outcome w cfg dir j (sync w cfg dir)
unfolding sync synced
sync-Outcome w cfg dir j m n = elim (Result-cases (read_source w cfg)) [
  | inl p ↦ rw p.1 (
      whole p.0 (sync_all w p.0 cfg.files dir false) (is_read p.0 p.1)
        (sync_all-Whole w j p.0 cfg.files dir false n))
  | inr p ↦ rw p.1 (inl refl)
]
  where
    is_read :
        (files : Dict Bytes)
        → read_source w cfg ≡ ok files
        → IsRead w (resolve_data w cfg.source) files j
    is_read files q =
        read_all-IsRead w (resolve_data w cfg.source) cfg.files [] files j (unfold read_source in q)
          (inl m)

    whole :
        (files : Dict Bytes) (s : Synced)
        → IsRead w (resolve_data w cfg.source) files j
        → Whole j files cfg.files dir s
        → Outcome w cfg dir j s
    whole files (done dir' changed) r h =
        IsRead-get_or w (resolve_data w cfg.source) j files dir' r
          (ground (arith, In-member j cfg.files m))
    whole files (failed dir' changed e) r (inl h) = inl h
    whole files (failed dir' changed e) r (inr h) =
        inr (IsRead-get_or w (resolve_data w cfg.source) j files dir' r h)

-- After a pass of `Sync` that succeeds, every file of the configuration has in the target
-- directory the bytes that a read through the one resolved directory of the Secret mount gives,
-- whatever was there before, if no temporary file has its name.
pub sync_copies :
    (w : World) (cfg : Config) (dir dir' : Dict Bytes) (changed : Bool) (j : Bytes)
    → NeverTemp w j
    → In j cfg.files
    → sync w cfg dir ≡ done dir' changed
    → IsCopy w cfg dir' j
sync_copies w cfg dir dir' changed j n m h =
    subst (Outcome w cfg dir j) h (sync-Outcome w cfg dir j m n)

-- After a pass of `Sync` that fails, wherever it fails, every file of the configuration is whole:
-- the copy is the one from before the pass, or it has the bytes of the Secret mount, if no
-- temporary file has its name.
pub failed_sync_keeps_whole :
    (w : World) (cfg : Config) (dir dir' : Dict Bytes) (changed : Bool) (e : Error) (j : Bytes)
    → NeverTemp w j
    → In j cfg.files
    → sync w cfg dir ≡ failed dir' changed e
    → (lookup j dir' ≡ lookup j dir) ⊎ IsCopy w cfg dir' j
failed_sync_keeps_whole w cfg dir dir' changed e j n m h =
    subst (Outcome w cfg dir j) h (sync-Outcome w cfg dir j m n)

sync_all_settled :
    (w : World) (files dir : Dict Bytes) (names : List Bytes) (changed : Bool)
    → ((j : Bytes)
        → In j names
        → (w.copy_fault j ≡ none) × (lookup j dir ≡ some (get_or j [] files)))
    → sync_all w files names dir changed ≡ done dir changed
unfolding sync_all sync_one copied compared
sync_all_settled w files dir [] changed h = refl
sync_all_settled w files dir (name ∷ names) changed h =
    let p = h name (inl refl) in
    rw (p.0, p.1, =?_refl (get_or name [] files))
      (sync_all_settled w files dir names changed (λ j m. h j (inr m)))

-- A second pass of `Sync` over the same Secret mount, after one that succeeded, changes no file
-- and reports no change, if the copies can be read and no temporary file has a copy's name.
pub sync_settles :
    (w : World) (cfg : Config) (dir dir' : Dict Bytes) (changed : Bool)
    → ((j : Bytes) → In j cfg.files → (w.copy_fault j ≡ none) × NeverTemp w j)
    → sync w cfg dir ≡ done dir' changed
    → sync w cfg dir' ≡ done dir' false
unfolding sync synced
sync_settles w cfg dir dir' changed h q = elim (Result-cases (read_source w cfg)) [
  | inl p ↦ rw p.1 (
      sync_all_settled w p.0 dir' cfg.files false (λ j m. ((h j m).0, whole p.0 j m (rw p.1 at q))))
  | inr p ↦ absurd (failed_done (rw p.1 at q))
]
  where
    failed_done : {d d' : Dict Bytes} {b b' : Bool} {e : Error} → ¬ (failed d b e ≡ done d' b')
    failed_done r = cc

    whole :
        (files : Dict Bytes) (j : Bytes)
        → In j cfg.files
        → sync_all w files cfg.files dir false ≡ done dir' changed
        → lookup j dir' ≡ some (get_or j [] files)
    whole files j m r =
        let s =
          subst (Whole j files cfg.files dir) r
            (sync_all-Whole w j files cfg.files dir false (h j m).1) in
        ground (arith, In-member j cfg.files m)
