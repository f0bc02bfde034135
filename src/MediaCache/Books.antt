-- ===== src/MediaCache/Books.antt =====
-- What the calls of internal/bridge/mediacache.go do to the list, the map and the total does not
-- depend on the files.
use tg_bridge.Prelude.{
  ℕ, zero, suc, ◌≡◌, refl, sym, ap, ◌∙◌, Bool, true, ◌&&◌, some, List, [], ◌∷◌, ◌++◌, Str, length,
  ltb, arith, Bool-cases, Option-cases, List-cases, inl, inr,
}
use tg_bridge.Prelude.Int.{ltb_ℤ}
use tg_bridge.Prelude.Map
use tg_bridge.MediaCache.{
  Cache, Entry, PutIo, cache_key, remove_file, get, put, write_file, forget, push_entry,
  evict_locked, evict_but_one, install,
}
use tg_bridge.MediaCache.History.{Call, gets, puts, step, run}
use tg_bridge.MediaCache.Put.{file_name, new_entry, put_ok, put_failed}
use tg_bridge.MediaCache.Overlap.{Job, renamed, lock_and_install}

-- The caches agree but for their files.
abbrev pub SameBooks : Cache → Cache → Type 0
SameBooks c d = (files : List (Str × ℕ)) × (d ≡ record c { files = files })

module _ (sha256 : Str → Str) (removable : Str → Bool) where
  evict-SameBooks :
      (c : Cache) (files : List (Str × ℕ))
      → SameBooks
          (evict_locked sha256 removable c).0
          (evict_locked sha256 removable (record c { files = files })).0
  unfolding evict_locked
  evict-SameBooks c files = elim (List-cases c.lru) [
    | inl e ↦ (files, ground (arith, e))
    | inr (el, rest, e) ↦ (remove_file sha256 removable el.value.filename files, ground (arith, e))
  ]

  -- A round of the loop, while the test holds.
  loop_round :
      (fuel : ℕ) (c : Cache)
      → (ltb_ℤ c.max_bytes c.total && ltb 1 (length c.lru)) ≡ true
      → evict_but_one sha256 removable (suc fuel) c
        ≡ evict_but_one sha256 removable fuel (evict_locked sha256 removable c).0
  unfolding evict_but_one
  loop_round fuel c over = rw (over, evict_but_one) refl

  loop-SameBooks :
      (fuel : ℕ) (c : Cache) (files : List (Str × ℕ))
      → SameBooks
          (evict_but_one sha256 removable fuel c)
          (evict_but_one sha256 removable fuel (record c { files = files }))
  unfolding evict_but_one
  loop-SameBooks zero c files = (files, refl)
  loop-SameBooks (suc fuel) c files =
      elim (Bool-cases (ltb_ℤ c.max_bytes c.total && ltb 1 (length c.lru))) [
        | inr done ↦ (files, rw (done, evict_but_one) refl)
        | inl over ↦
            let c' = (evict_locked sha256 removable c).0 in
            let (files', evicted) = evict-SameBooks c files in
            let (files'', same) = loop-SameBooks fuel c' files' in
            (
              files'',
              loop_round fuel (record c { files = files }) over
                  ∙ ap (evict_but_one sha256 removable fuel) evicted
                  ∙ same
                  ∙ ap (λ (d : Cache). record d { files = files'' }) (sym (loop_round fuel c over)),
            )
      ]

  forget-SameBooks :
      (k : Str) (c : Cache) (files : List (Str × ℕ))
      → forget sha256 removable k (record c { files = files })
        ≡ record (forget sha256 removable k c) { files = files }
  unfolding forget
  forget-SameBooks k c files = elim (Option-cases (Map.get k c.entries)) [
    | inl e ↦ rw (e, forget) refl
    | inr (el, e) ↦ rw (e, forget) refl
  ]

  install-SameBooks :
      (e : Entry) (c : Cache) (files : List (Str × ℕ))
      → SameBooks
          (install sha256 removable e c)
          (install sha256 removable e (record c { files = files }))
  unfolding install push_entry
  install-SameBooks e c files =
      let pushed = push_entry sha256 removable e (forget sha256 removable e.key c) in
      let (files', same) = loop-SameBooks (length pushed.lru) pushed files in
      let forgot = forget-SameBooks e.key c files in
      (
        files',
        ap
              (λ d.
                let p = push_entry sha256 removable e d in
                evict_but_one sha256 removable (length p.lru) p)
              forgot
            ∙ same,
      )

  get-SameBooks :
      (media_id : Str) (c : Cache) (files : List (Str × ℕ))
      → SameBooks
          (get sha256 removable c media_id).0
          (get sha256 removable (record c { files = files }) media_id).0
  unfolding get
  get-SameBooks media_id c files =
      elim (Option-cases (Map.get (cache_key sha256 removable media_id) c.entries)) [
        | inl e ↦ (files, rw (e, get) refl)
        | inr (el, e) ↦ (files, rw (e, get) refl)
      ]

  -- A write of `n` bytes that succeeds.
  abbrev pub succeeds : ℕ → PutIo
  succeeds n = record {
    opens = true;
    written = some n;
    closes = true;
    stats = true;
    renames = true;
  }

  run-append :
      (c : Cache) (ks : List Call) (k : Call)
      → run sha256 removable c (ks ++ (k ∷ []))
        ≡ step sha256 removable (run sha256 removable c ks) k
  unfolding run
  run-append c [] k = refl
  run-append c (j ∷ ks) k = run-append (step sha256 removable c j) ks k

  put-SameBooks :
      (j : Job) (n : ℕ) (c : Cache) (files : List (Str × ℕ))
      → SameBooks
          (lock_and_install sha256 removable j n c)
          (put sha256 removable (record c { files = files }) j.media_id j.mime (succeeds n)).0
  unfolding put write_file lock_and_install
  put-SameBooks j n c files = install-SameBooks _ c _

  -- Some calls, one after the other, leave the books of the cache.
  abbrev pub IsSerial : Cache → Cache → Type 0
  IsSerial c k = (ks : List Call) × SameBooks k (run sha256 removable c ks)

  pub IsSerial-start : (c : Cache) → IsSerial c c
  unfolding run
  IsSerial-start c = ([], (c.files, refl))

  pub IsSerial-get :
      (c k : Cache) (media_id : Str) → IsSerial c k → IsSerial c (get sha256 removable k media_id).0
  unfolding step
  IsSerial-get c k media_id (ks, (files, same)) =
      let (files', got) = get-SameBooks media_id k files in
      (
        ks ++ (gets media_id ∷ []),
        (
          files',
          run-append c ks (gets media_id)
              ∙ ap (λ d. (get sha256 removable d media_id).0) same
              ∙ got,
        ),
      )

  pub IsSerial-lock_and_install :
      (c k : Cache) (j : Job) (n : ℕ)
      → IsSerial c k
      → IsSerial c (lock_and_install sha256 removable j n k)
  unfolding step
  IsSerial-lock_and_install c k j n (ks, (files, same)) =
      let (files', put_same) = put-SameBooks j n k files in
      (
        ks ++ (puts j.media_id j.mime (succeeds n) ∷ []),
        (
          files',
          run-append c ks (puts j.media_id j.mime (succeeds n))
              ∙ ap (λ d. (put sha256 removable d j.media_id j.mime (succeeds n)).0) same
              ∙ put_same,
        ),
      )

  -- What is done to the files leaves the books.
  pub IsSerial-files :
      (c k : Cache) (files : List (Str × ℕ))
      → IsSerial c k
      → IsSerial c (record k { files = files })
  IsSerial-files c k files s = s

  IsSerial-installed :
      (c k : Cache) (media_id mime : Str) (n : ℕ) (files : List (Str × ℕ))
      → IsSerial c k
      → IsSerial c (
          install sha256 removable
            (new_entry sha256 removable media_id mime n)
            (record k { files = files }))
  unfolding lock_and_install
  IsSerial-installed c k media_id mime n files s =
      IsSerial-lock_and_install c (record k { files = files })
        (record { media_id = media_id; mime = mime; phase = renamed n }) n
        (IsSerial-files c k files s)

  -- A `Put` that fails leaves the books; one that succeeds installs its entry.
  pub IsSerial-put :
      (c k : Cache) (media_id mime : Str) (io : PutIo)
      → IsSerial c k
      → IsSerial c (put sha256 removable k media_id mime io).0
  IsSerial-put c k media_id mime io s =
      elim (Option-cases
        (write_file sha256 removable (file_name sha256 removable media_id mime) io k.files).1) [
          | inl e ↦ rw (put_failed sha256 removable k media_id mime io e) (
              IsSerial-files c k
                (write_file sha256 removable (file_name sha256 removable media_id mime) io
                  k.files).0
                s)
          | inr (n, e) ↦
              rw (put_ok sha256 removable k media_id mime io n e)
                (IsSerial-installed c k media_id mime n _ s)
        ]
