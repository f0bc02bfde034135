-- ===== src/MediaCache/Files.antt =====
-- What `Put` of internal/bridge/mediacache.go does to the directory before it takes the lock.
use tg_bridge.Prelude.{
  ℕ, ◌≡◌, ◌≢◌, refl, sym, ◌∙◌, Bool, true, Option, none, some, List, ◌++◌, Str, str_eq_iff, arith,
  ◌&&◌, Bool-cases, inl, inr, Option-cases,
}
use tg_bridge.Prelude.Map
use tg_bridge.Prelude.Map.{get-set, get-delete}
use tg_bridge.MediaCache.{PutIo, remove_file, write_file}
use tg_bridge.MediaCache.Names.{tmp_suffix}
use tg_bridge.MediaCache.Valid.{get-remove_file}

module _ (sha256 : Str → Str) (removable : Str → Bool) (fname : Str) (io : PutIo)
    (files : List (Str × ℕ)) where
  -- What the unlocked part of `Put` can leave behind, with its result.
  data Leaves : List (Str × ℕ) × Option ℕ → Type 0 where
    untouched : Leaves (files, none)
    removed :
        (n : ℕ)
        → Leaves (
          remove_file sha256 removable
              (fname ++ tmp_suffix)
              (Map.set (fname ++ tmp_suffix) n files),
          none,
        )
    renamed :
        (n : ℕ)
        → io.written ≡ some n
        → Leaves (
          Map.set fname n
              (Map.delete (fname ++ tmp_suffix) (Map.set (fname ++ tmp_suffix) n files)),
          some n,
        )

  write_file-Leaves : Leaves (write_file sha256 removable fname io files)
  unfolding write_file
  write_file-Leaves = elim (Bool-cases io.opens) [
    | inr shut ↦ rw (shut, write_file) untouched
    | inl open_ok ↦ elim (Option-cases io.written) [
      | inl failed ↦ rw (open_ok, failed, write_file) (removed 0)
      | inr (n, e) ↦ elim (Bool-cases (io.closes && io.stats && io.renames)) [
        | inr failed ↦ rw (open_ok, e, failed, write_file) (removed n)
        | inl ok ↦ rw (open_ok, e, ok, write_file) (renamed n refl)
      ]
    ]
  ]

  Leaves-keep :
      (other : Str)
      → fname ≢ other
      → fname ++ tmp_suffix ≢ other
      → {r : List (Str × ℕ) × Option ℕ} → Leaves r
      → Map.get other r.0 ≡ Map.get other files
  Leaves-keep other ne ne_tmp untouched = refl
  Leaves-keep other ne ne_tmp (removed n) =
      get-remove_file sha256 removable (fname ++ tmp_suffix) other _ ne_tmp
      ∙ ground (
        arith,
        get-set (fname ++ tmp_suffix) other n files,
        str_eq_iff (fname ++ tmp_suffix) other,
      )
  Leaves-keep other ne ne_tmp (renamed n e) = ground (
    arith,
    get-set fname other n
        (Map.delete (fname ++ tmp_suffix) (Map.set (fname ++ tmp_suffix) n files)),
    get-delete (fname ++ tmp_suffix) other (Map.set (fname ++ tmp_suffix) n files),
    get-set (fname ++ tmp_suffix) other n files,
    str_eq_iff fname other,
    str_eq_iff (fname ++ tmp_suffix) other,
  )

  Leaves-stored :
      (n : ℕ) {r : List (Str × ℕ) × Option ℕ}
      → Leaves r
      → r.1 ≡ some n
      → (io.written ≡ some n) × (Map.get fname r.0 ≡ some n)
  Leaves-stored n untouched e = cc
  Leaves-stored n (removed m) e = cc
  Leaves-stored n (renamed m w) e =
      let same : m ≡ n = ground arith in
      (
        ground arith,
        ground (
          arith,
          get-set fname fname m
              (Map.delete (fname ++ tmp_suffix) (Map.set (fname ++ tmp_suffix) m files)),
          str_eq_iff fname fname,
        ),
      )

  Leaves-tmp :
      fname ≢ fname ++ tmp_suffix
      → removable (fname ++ tmp_suffix) ≡ true
      → Map.get (fname ++ tmp_suffix) files ≡ none
      → {r : List (Str × ℕ) × Option ℕ} → Leaves r
      → Map.get (fname ++ tmp_suffix) r.0 ≡ none
  unfolding remove_file
  Leaves-tmp ne can missing untouched = missing
  Leaves-tmp ne can missing (removed n) = ground (
    arith,
    get-delete (fname ++ tmp_suffix) (fname ++ tmp_suffix) (Map.set (fname ++ tmp_suffix) n files),
    str_eq_iff (fname ++ tmp_suffix) (fname ++ tmp_suffix),
  )
  Leaves-tmp ne can missing (renamed n w) = ground (
    arith,
    get-set fname (fname ++ tmp_suffix) n
        (Map.delete (fname ++ tmp_suffix) (Map.set (fname ++ tmp_suffix) n files)),
    get-delete (fname ++ tmp_suffix) (fname ++ tmp_suffix) (Map.set (fname ++ tmp_suffix) n files),
    str_eq_iff fname (fname ++ tmp_suffix),
    str_eq_iff (fname ++ tmp_suffix) (fname ++ tmp_suffix),
  )

  -- Whether it succeeds or fails, every file but the one written and its temporary file stays.
  pub write_file-keep :
      (other : Str)
      → fname ≢ other
      → fname ++ tmp_suffix ≢ other
      → Map.get other (write_file sha256 removable fname io files).0 ≡ Map.get other files
  write_file-keep other ne ne_tmp = Leaves-keep other ne ne_tmp write_file-Leaves

  -- A success reports the bytes that were written, and the file holds them.
  pub write_file-stored :
      (n : ℕ)
      → (write_file sha256 removable fname io files).1 ≡ some n
      → (io.written ≡ some n)
        × (Map.get fname (write_file sha256 removable fname io files).0 ≡ some n)
  write_file-stored n = Leaves-stored n write_file-Leaves

  -- No temporary file is left, on any path, if it can be removed and was not there before.
  pub write_file-tmp :
      fname ≢ fname ++ tmp_suffix
      → removable (fname ++ tmp_suffix) ≡ true
      → Map.get (fname ++ tmp_suffix) files ≡ none
      → Map.get (fname ++ tmp_suffix) (write_file sha256 removable fname io files).0 ≡ none
  write_file-tmp ne can missing = Leaves-tmp ne can missing write_file-Leaves

  -- A failure leaves the file that was there before.
  pub write_file-failed :
      fname ≢ fname ++ tmp_suffix
      → (write_file sha256 removable fname io files).1 ≡ none
      → Map.get fname (write_file sha256 removable fname io files).0 ≡ Map.get fname files
  write_file-failed ne = failed write_file-Leaves
    where
      failed :
          {r : List (Str × ℕ) × Option ℕ}
          → Leaves r
          → r.1 ≡ none
          → Map.get fname r.0 ≡ Map.get fname files
      failed untouched e = refl
      failed (removed n) e =
          get-remove_file sha256 removable (fname ++ tmp_suffix) fname _ (λ p. ne (sym p))
          ∙ ground (
            arith,
            get-set (fname ++ tmp_suffix) fname n files,
            str_eq_iff (fname ++ tmp_suffix) fname,
          )
      failed (renamed n w) e = cc
