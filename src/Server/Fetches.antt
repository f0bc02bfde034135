-- ===== src/Server/Fetches.antt =====
-- The parts of requests for media, of internal/httpapi/chats.go and internal/bridge/mediacache.go,
-- that others come in between keep the state in order.
use tg_bridge.Prelude.{
  ℕ, ◌⊎◌, [], ◌∷◌, ◌++◌, ◌≡◌, ◌≢◌, inl, inr, refl, Bool, true, false, Option, none, some, Str, List,
  Option-cases, Bool-cases, ◌==◌, is_empty,
}
use tg_bridge.Config.{Config}
use tg_bridge.Http.{Request}
use tg_bridge.MediaId.{
  MediaRef, MediaCrypto, Outcome, ok, err, panic, media_kind_photo, decode_media_id,
}
use tg_bridge.MediaId.Signed.{decode-ne-panic}
use tg_bridge.MediaCache.{Cache, get}
use tg_bridge.MediaCache.Books.{IsSerial-get, IsSerial-files, IsSerial-lock_and_install}
use tg_bridge.MediaCache.Overlap.{Phase, Job, at_file, renamed, lock_and_install}
use tg_bridge.Fetch.{jpeg}
use tg_bridge.Server.{
  Server, FetchStep, looks_up, files_change, file_renamed, download_fails, download_installs,
  job_at, without_job, client_of, with_cache, start_download, look_up, install_phase, install_job,
  fail_job, fetch_step,
}
use tg_bridge.Server.Safe.{IsSafe, StaysSafe, with_cache-IsSafe}

Phase-cases : (p : Phase) → (p ≡ at_file) ⊎ ((n : ℕ) × (p ≡ renamed n))
Phase-cases at_file = inl refl
Phase-cases (renamed n) = inr (n, refl)

module _ (sha256 : Str → Str) (removable : Str → Bool) (k₀ : Cache) (cfg : Config) (c : MediaCrypto)
    (s : Server) (v : IsSafe sha256 removable k₀ cfg s) where
  abbrev Stays : Option Server → Type 0
  Stays o = StaysSafe sha256 removable k₀ cfg c s v o

  with_jobs : (jobs : List Job) → IsSafe sha256 removable k₀ cfg (record s { jobs = jobs })
  with_jobs jobs = with_cache-IsSafe sha256 removable k₀ cfg c s v s.bridge.cache jobs v.cache

  start_download-Stays :
      (k : Cache) (media_id : Str) (ready : Bool) (o : Outcome MediaRef)
      → ((jobs : List Job)
          → IsSafe sha256 removable k₀ cfg
              (record (with_cache sha256 removable c cfg s k) { jobs = jobs }))
      → o ≢ panic
      → Stays (
          start_download sha256 removable c cfg
            (with_cache sha256 removable c cfg s k)
            media_id
            ready
            o)
  unfolding start_download
  start_download-Stays k media_id ready panic safe ne = absurd (ne refl)
  start_download-Stays k media_id ready (err e) safe ne = (_, refl, safe s.jobs, refl)
  start_download-Stays k media_id false (ok ref) safe ne = (_, refl, safe s.jobs, refl)
  start_download-Stays k media_id true (ok ref) safe ne =
      elim (Bool-cases (ref.kind == media_kind_photo)) [
        | inl e ↦
            let more =
              s.jobs ++ (record { media_id = media_id; mime = jpeg; phase = at_file } ∷ []) in
            (
              record (with_cache sha256 removable c cfg s k) { jobs = more },
              rw e refl,
              safe more,
              refl,
            )
        | inr e ↦ (with_cache sha256 removable c cfg s k, rw e refl, safe s.jobs, refl)
      ]

  look_up-Stays :
      (r : Request) (becomes_ready : Bool)
      → Stays (look_up sha256 removable c cfg s r becomes_ready)
  unfolding look_up
  look_up-Stays r becomes_ready = elim (Option-cases (client_of cfg r)) [
    | inl e ↦ (s, rw (look_up, e) refl, v, refl)
    | inr (cl, e) ↦ elim (Bool-cases (is_empty r.path_id)) [
      | inl i ↦ (s, rw (look_up, e, i) refl, v, refl)
      | inr i ↦
          let k = (get sha256 removable s.bridge.cache r.path_id).0 in
          let got = IsSerial-get sha256 removable k₀ s.bridge.cache r.path_id v.cache in
          let safe : (jobs : List Job)
              → IsSafe sha256 removable k₀ cfg
                  (record (with_cache sha256 removable c cfg s k) { jobs = jobs }) =
            λ jobs. with_cache-IsSafe sha256 removable k₀ cfg c s v k jobs got in
          elim (Option-cases (get sha256 removable s.bridge.cache r.path_id).1) [
            | inr (found, h) ↦ (_, rw (look_up, e, i, h) refl, safe s.jobs, refl)
            | inl h ↦
                rw (look_up, e, i, h)
                  (start_download-Stays k r.path_id _
                    (decode_media_id c s.bridge.media_key_bytes r.path_id) safe
                    (decode-ne-panic c s.bridge.media_key_bytes r.path_id))
          ]
    ]
  ]

  install_phase-Stays :
      (i : ℕ) (j : Job) (p : Phase) → Stays (some (install_phase sha256 removable c cfg s i j p))
  unfolding install_phase
  install_phase-Stays i j at_file = (s, refl, v, refl)
  install_phase-Stays i j (renamed n) =
      let k = lock_and_install sha256 removable j n s.bridge.cache in
      (
        record (with_cache sha256 removable c cfg s k) { jobs = without_job i s.jobs },
        refl,
        with_cache-IsSafe sha256 removable k₀ cfg c s v k (without_job i s.jobs)
            (IsSerial-lock_and_install sha256 removable k₀ s.bridge.cache j n v.cache),
        refl,
      )

  install_job-Stays :
      (i : ℕ) (o : Option Job) → Stays (some (install_job sha256 removable c cfg s i o))
  unfolding install_job
  install_job-Stays i none = (s, refl, v, refl)
  install_job-Stays i (some j) = install_phase-Stays i j j.phase

  fail_job-Stays : (i : ℕ) (o : Option Job) → Stays (some (fail_job sha256 removable c cfg s i o))
  unfolding fail_job
  fail_job-Stays i none = (s, refl, v, refl)
  fail_job-Stays i (some j) = elim (Phase-cases j.phase) [
    | inl e ↦ (
      record s { jobs = without_job i s.jobs },
      rw e refl,
      with_jobs (without_job i s.jobs),
      refl,
    )
    | inr (n, e) ↦ (s, rw e refl, v, refl)
  ]

  -- A step goes on, without a panic, and keeps the state in order.
  pub fetch_step-Stays : (x : FetchStep) → Stays (fetch_step sha256 removable c cfg s x)
  unfolding fetch_step
  fetch_step-Stays (looks_up r becomes_ready) = look_up-Stays r becomes_ready
  fetch_step-Stays (files_change files) = (
    _,
    refl,
    with_cache-IsSafe sha256 removable k₀ cfg c s v (record s.bridge.cache { files = files }) s.jobs
        (IsSerial-files sha256 removable k₀ s.bridge.cache files v.cache),
    refl,
  )
  fetch_step-Stays (file_renamed i n) = (_, refl, with_jobs _, refl)
  fetch_step-Stays (download_fails i) = fail_job-Stays i (job_at i s.jobs)
  fetch_step-Stays (download_installs i) = install_job-Stays i (job_at i s.jobs)
