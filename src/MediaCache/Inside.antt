-- ===== src/MediaCache/Inside.antt =====
-- The cache of internal/bridge/mediacache.go keeps to its directory from start-up on.
use tg_bridge.Prelude.{
  ℕ, ◌≡◌, inl, inr, refl, sym, ap, ◌∙◌, subst, Bool, true, false, Option, none, some, List, [], ◌∷◌,
  ◌++◌, Str, arith, All, Bool-cases, Option-cases,
}
use tg_bridge.Prelude.Int.{ℤ}
use tg_bridge.MediaCache.Names.{ext_from_mime, has_suffix, tmp_suffix}
use tg_bridge.MediaCache.{
  FilePath, Cache, PutIo, DirEntry, cache_key, write_file, put, load_entry, load_entries,
  new_media_cache,
}
use tg_bridge.MediaCache.History.{Call, gets, puts, step, run}
use tg_bridge.MediaCache.Plain.{
  IsPlain, key-IsPlain, IsPlainIn, get-IsPlainIn, evict_all-IsPlainIn, push_entry-IsPlainIn,
  install-IsPlainIn,
}

module _ (sha256 : Str → Str) (removable : Str → Bool) (dir : Str) where
  pub put-IsPlainIn :
      (c : Cache) (media_id mime : Str) (io : PutIo)
      → IsPlainIn dir c
      → IsPlainIn dir (put sha256 removable c media_id mime io).0
  unfolding put
  put-IsPlainIn c media_id mime io p =
      let name = cache_key sha256 removable media_id ++ ext_from_mime mime in
      elim (Option-cases (write_file sha256 removable name io c.files).1) [
        | inl e ↦ rw (put, e) (record { at = p.at; names = p.names })
        | inr (n, e) ↦
            rw (put, e)
              (install-IsPlainIn sha256 removable dir _ _
                (key-IsPlain media_id mime sha256 removable)
                (record { at = p.at; names = p.names }))
      ]

  -- The file that `Put` answers is one of the directory itself.
  pub put_plain :
      (c : Cache) (media_id mime : Str) (io : PutIo) (path : FilePath)
      → IsPlainIn dir c
      → (put sha256 removable c media_id mime io).1 ≡ some path
      → (path.dir ≡ dir) × IsPlain path.name
  unfolding put
  put_plain c media_id mime io path p h =
      let name = cache_key sha256 removable media_id ++ ext_from_mime mime in
      elim (Option-cases (write_file sha256 removable name io c.files).1) [
        | inl e ↦ absurd (ground (arith, e, h))
        | inr (n, e) ↦
            let same : record { dir = c.dir; name = name } ≡ path = ground (arith, e, h) in
            (
              ap (λ (q : FilePath). q.dir) (sym same) ∙ p.at,
              subst (λ (q : FilePath). IsPlain q.name) same
                  (key-IsPlain media_id mime sha256 removable),
            )
      ]

  load_entry-IsPlainIn :
      (d : DirEntry) (c : Cache)
      → IsPlain d.name
      → IsPlainIn dir c
      → IsPlainIn dir (load_entry sha256 removable d c)
  unfolding load_entry
  load_entry-IsPlainIn d c plain p = elim (Bool-cases d.is_dir) [
    | inl e ↦ rw (load_entry, e) p
    | inr e ↦ elim (Bool-cases (has_suffix d.name tmp_suffix)) [
      | inl t ↦ rw (load_entry, e, t) (record { at = p.at; names = p.names })
      | inr t ↦ elim (Option-cases d.info) [
        | inl g ↦ rw (load_entry, e, t, g) p
        | inr (n, g) ↦
            rw (load_entry, e, t, g) (push_entry-IsPlainIn sha256 removable dir _ c plain p)
      ]
    ]
  ]

  load_entries-IsPlainIn :
      (ds : List DirEntry) (c : Cache)
      → All (λ d. IsPlain d.name) ds
      → IsPlainIn dir c
      → IsPlainIn dir (load_entries sha256 removable ds c)
  unfolding load_entries
  load_entries-IsPlainIn [] c all p = p
  load_entries-IsPlainIn (d ∷ ds) c (plain, all) p =
      load_entries-IsPlainIn ds _ all (load_entry-IsPlainIn d c plain p)

  pub new_media_cache-IsPlainIn :
      (max_bytes : ℤ) (made : Bool) (listing : Option (List DirEntry)) (files : List (Str × ℕ))
      (c : Cache)
      → ((ds : List DirEntry) → listing ≡ some ds → All (λ d. IsPlain d.name) ds)
      → new_media_cache sha256 removable dir max_bytes made listing files ≡ some c
      → IsPlainIn dir c
  unfolding new_media_cache
  new_media_cache-IsPlainIn max_bytes false listing files c plain h = absurd (cc)
  new_media_cache-IsPlainIn max_bytes true none files c plain h = absurd (cc)
  new_media_cache-IsPlainIn max_bytes true (some ds) files c plain h =
      let loaded = load_entries-IsPlainIn ds _ (plain ds refl) (record { at = refl; names = tt }) in
      subst
        (λ (o : Option Cache). elim o as (λ x. Type 0) [ none ↦ Unit | some k ↦ IsPlainIn dir k ]) h
        (evict_all-IsPlainIn sha256 removable dir _ _ loaded)

  step-IsPlainIn :
      (c : Cache) (k : Call) → IsPlainIn dir c → IsPlainIn dir (step sha256 removable c k)
  unfolding step
  step-IsPlainIn c (gets media_id) p = get-IsPlainIn sha256 removable dir c media_id p
  step-IsPlainIn c (puts media_id mime io) p = put-IsPlainIn c media_id mime io p

  pub run-IsPlainIn :
      (c : Cache) (ks : List Call) → IsPlainIn dir c → IsPlainIn dir (run sha256 removable c ks)
  unfolding run
  run-IsPlainIn c [] p = p
  run-IsPlainIn c (k ∷ ks) p = run-IsPlainIn (step sha256 removable c k) ks (step-IsPlainIn c k p)
