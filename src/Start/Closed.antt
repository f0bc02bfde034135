-- ===== src/Start/Closed.antt =====
-- The database of the updates is closed again, in internal/bridge/bridge.go and
-- cmd/tg-bridge/main.go.
use tg_bridge.Prelude.{
  ◌≡◌, ◌⊎◌, inl, inr, refl, sym, ap, Bool, true, false, Option, none, some, List, [], Str, subst,
  arith, Bool-cases, Option-cases,
}
use tg_bridge.Config.{Config, LoadErr, load}
use tg_bridge.Auth.{start}
use tg_bridge.MediaKey.{load_or_create_media_key}
use tg_bridge.MediaCache.{new_media_cache}
use tg_bridge.Tls.{TlsLib, Loaded, Disk, ensure_self_signed}
use tg_bridge.Start.{NewIo, NewErr, Place, Bridge, connecting, new_opened, new_bridge, close_bridge}
use tg_bridge.Start.Main.{
  MainIo, Outcome, serving, exited, Signal, await, serve_until, main_bridge, main_tls, main_loaded,
  main,
}

-- A new bridge is not connected and has no account, and holds the database; an error holds nothing.
abbrev pub IsNew : Place × (NewErr ⊎ Bridge) → Type 0
IsNew (at, inl e) = at.db_open ≡ false
IsNew (at, inr b) =
    (at.db_open ≡ true)
    × (b.phase ≡ connecting)
    × (b.client_ready ≡ false)
    × (b.self ≡ none)
    × (b.login ≡ start)
    × (b.peer_cache ≡ [])

module _ (sha256 : Str → Str) (removable : Str → Bool) where
  new_opened-IsNew :
      (cfg : Config) (io : NewIo) (at : Place) → IsNew (new_opened sha256 removable cfg io at)
  unfolding new_opened
  new_opened-IsNew cfg io at =
      elim (Option-cases (load_or_create_media_key io.key_io at.key_file).1) [
        | inl k ↦ rw (new_opened, k) refl
        | inr (key, k) ↦
            elim (Option-cases (
              new_media_cache sha256 removable cfg.media.cache_dir cfg.media.max_bytes
                io.makes_cache_dir io.listing at.files)) [
                  | inl m ↦ rw (new_opened, k, m) refl
                  | inr (c, m) ↦ rw (new_opened, k, m) (refl, refl, refl, refl, refl, refl)
                ]
      ]

  pub new_bridge_opens :
      (cfg : Config) (io : NewIo) (at : Place)
      → io.makes_session_dir ≡ true
      → io.opens_db ≡ true
      → new_bridge sha256 removable cfg io at
        ≡ new_opened sha256 removable cfg io (record at { db_open = true })
  unfolding new_bridge
  new_bridge_opens cfg io at m o = ground (arith, m, o)

  pub new_bridge-IsNew :
      (cfg : Config) (io : NewIo) (at : Place)
      → at.db_open ≡ false
      → IsNew (new_bridge sha256 removable cfg io at)
  unfolding new_bridge
  new_bridge-IsNew cfg io at shut = elim (Bool-cases io.makes_session_dir) [
    | inr m ↦ ground (arith, m, shut)
    | inl m ↦ elim (Bool-cases io.opens_db) [
      | inr o ↦ ground (arith, m, o, shut)
      | inl o ↦ subst IsNew (sym (new_bridge_opens cfg io at m o)) (new_opened-IsNew cfg io _)
    ]
  ]

abbrev pub is_failed : {A B : Type 0} → A ⊎ B → Bool
is_failed (inl e) = true
is_failed (inr x) = false

-- The program never comes to serve: it has no configuration, no certificate or no bridge.
abbrev pub HasNoBridge :
    (Str → Str) → (Str → Bool) → TlsLib → (LoadErr ⊎ Config) → MainIo → Disk → Place → Type 0
HasNoBridge sha256 removable lib (inl e) io d at = Unit
HasNoBridge sha256 removable lib (inr cfg) io d at =
    (is_failed
        (ensure_self_signed lib io.tls_io d cfg.tls.cert_path cfg.tls.key_path cfg.tls.hosts).1
      ≡ true)
    ⊎ (is_failed (new_bridge sha256 removable cfg io.new_io at).1 ≡ true)

-- While the program serves it holds the database, and nothing has told it to stop; when it has
-- exited, nothing holds the database, and the status is 1 and it never came to serve, or it is 0
-- behind a signal or the end of a goroutine.
abbrev pub IsLeft : Type 0 → List Signal → Place × Outcome → Type 0
IsLeft NoBridge signals (at, serving b) = (at.db_open ≡ true) × (await signals ≡ none)
IsLeft NoBridge signals (at, exited code) =
    (at.db_open ≡ false)
    × (((code ≡ 1) × NoBridge) ⊎ ((code ≡ 0) × ((fatal : Bool) × (await signals ≡ some fatal))))

module _ (sha256 : Str → Str) (removable : Str → Bool) (lib : TlsLib) where
  serve_until-IsLeft :
      (NoBridge : Type 0) (signals : List Signal) (at : Place) (b : Bridge)
      → at.db_open ≡ true
      → IsLeft NoBridge signals (serve_until sha256 removable lib signals at b)
  unfolding serve_until close_bridge
  serve_until-IsLeft NoBridge signals at b opened = elim (Option-cases (await signals)) [
    | inl a ↦ rw (serve_until, a) (opened, a)
    | inr (fatal, a) ↦ rw (serve_until, a) (refl, inr (refl, (fatal, a)))
  ]

  made-IsLeft :
      (NoBridge : Type 0) (cfg : Config) (io : MainIo) (at : Place) (r : Place × (NewErr ⊎ Bridge))
      → new_bridge sha256 removable cfg io.new_io at ≡ r
      → IsNew r
      → (is_failed r.1 ≡ true → NoBridge)
      → IsLeft NoBridge io.signals (main_bridge sha256 removable lib cfg io at)
  unfolding main_bridge
  made-IsLeft NoBridge cfg io at (at', inl e) same h none_made =
      rw
        (
          main_bridge,
          ap (λ (r : Place × (NewErr ⊎ Bridge)). r.1) same,
          ap (λ (r : Place × (NewErr ⊎ Bridge)). r.0) same,
        )
        (h, inl (refl, none_made refl))
  made-IsLeft NoBridge cfg io at (at', inr b) same h none_made =
      rw
        (
          main_bridge,
          ap (λ (r : Place × (NewErr ⊎ Bridge)). r.1) same,
          ap (λ (r : Place × (NewErr ⊎ Bridge)). r.0) same,
        )
        (serve_until-IsLeft NoBridge io.signals at' b h.0)

  secured_go :
      (cfg : Config) (io : MainIo) (d : Disk) (at : Place) (pair : List Str × Str)
      → (ensure_self_signed lib io.tls_io d cfg.tls.cert_path cfg.tls.key_path cfg.tls.hosts).1
        ≡ inr pair
      → main_tls sha256 removable lib cfg io d at ≡ (
        (ensure_self_signed lib io.tls_io d cfg.tls.cert_path cfg.tls.key_path cfg.tls.hosts).0,
        (main_bridge sha256 removable lib cfg io at).0,
        (main_bridge sha256 removable lib cfg io at).1,
      )
  unfolding main_tls
  secured_go cfg io d at pair same = rw (main_tls, same) refl

  secured-IsLeft :
      (cfg : Config) (io : MainIo) (d : Disk) (at : Place) (loaded : Loaded)
      → (ensure_self_signed lib io.tls_io d cfg.tls.cert_path cfg.tls.key_path cfg.tls.hosts).1
        ≡ loaded
      → at.db_open ≡ false
      → let (d', at', out) = main_tls sha256 removable lib cfg io d at in
        IsLeft (HasNoBridge sha256 removable lib (inr cfg) io d at) io.signals (at', out)
  unfolding main_tls
  secured-IsLeft cfg io d at (inl e) same shut = rw (main_tls, same) (shut, inl (refl, inl (refl)))
  secured-IsLeft cfg io d at (inr pair) same shut =
      subst
        (λ (x : Disk × Place × Outcome).
          IsLeft (HasNoBridge sha256 removable lib (inr cfg) io d at) io.signals (x.1, x.2))
        (sym (secured_go cfg io d at pair same))
        (made-IsLeft (HasNoBridge sha256 removable lib (inr cfg) io d at) cfg io at
          (new_bridge sha256 removable cfg io.new_io at) refl
          (new_bridge-IsNew sha256 removable cfg io.new_io at shut) (λ e. inr e))

  checked-IsLeft :
      (checked : LoadErr ⊎ Config) (io : MainIo) (d : Disk) (at : Place)
      → at.db_open ≡ false
      → let (d', at', out) = main_loaded sha256 removable lib checked io d at in
        IsLeft (HasNoBridge sha256 removable lib checked io d at) io.signals (at', out)
  unfolding main_loaded
  checked-IsLeft (inl e) io d at shut = (shut, inl (refl, tt))
  checked-IsLeft (inr cfg) io d at shut = secured-IsLeft cfg io d at _ refl shut

  -- Whatever fails, the database is held open just while the program serves, and the program
  -- leaves with the status 1 only when it has no configuration, no certificate or no bridge, so
  -- before it serves: behind a signal or the end of a goroutine, its error included, it leaves
  -- with 0.
  pub main-IsLeft :
      (unmarshal : Str → Option Config) (file : Option Str) (io : MainIo) (d : Disk) (at : Place)
      → at.db_open ≡ false
      → let (d', at', out) = main sha256 removable lib unmarshal file io d at in
        IsLeft
          (HasNoBridge sha256 removable lib (load unmarshal file) io d at)
          io.signals
          (at', out)
  unfolding main
  main-IsLeft unmarshal file io d at shut = checked-IsLeft (load unmarshal file) io d at shut
