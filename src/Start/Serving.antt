-- ===== src/Start/Serving.antt =====
-- The bridge behind which `main` of cmd/tg-bridge/main.go serves.
use tg_bridge.Prelude.{
  ◌≡◌, ◌⊎◌, inl, inr, refl, ap, ◌∙◌, Bool, Option, List, Str, arith, Option-cases,
}
use tg_bridge.Config.{Config, LoadErr, load}
use tg_bridge.Tls.{TlsLib, Loaded, Disk, ensure_self_signed}
use tg_bridge.Start.{NewErr, Place, Bridge, new_bridge}
use tg_bridge.Start.Main.{
  MainIo, serving, Signal, await, serve_until, main_bridge, main_tls, main_loaded, main,
}

bridge_of : (b b' : Bridge) → serving b ≡ serving b' → b ≡ b'
bridge_of b b' e = ground arith

module _ (sha256 : Str → Str) (removable : Str → Bool) (lib : TlsLib) where
  serve_until-serving :
      (signals : List Signal) (at : Place) (b b' : Bridge)
      → (serve_until sha256 removable lib signals at b).1 ≡ serving b'
      → b ≡ b'
  unfolding serve_until
  serve_until-serving signals at b b' h = elim (Option-cases (await signals)) [
    | inl e ↦ bridge_of b b' (rw (serve_until, e) at h)
    | inr (fatal, e) ↦ absurd (ground (arith, e, h))
  ]

  main_bridge-serving :
      (cfg : Config) (io : MainIo) (at : Place) (b : Bridge) (made : NewErr ⊎ Bridge)
      → (new_bridge sha256 removable cfg io.new_io at).1 ≡ made
      → (main_bridge sha256 removable lib cfg io at).1 ≡ serving b
      → (new_bridge sha256 removable cfg io.new_io at).1 ≡ inr b
  unfolding main_bridge
  main_bridge-serving cfg io at b (inl e) same h = absurd (cc (rw (main_bridge, same) at h))
  main_bridge-serving cfg io at b (inr b') same h =
      same ∙ ap inr (serve_until-serving io.signals _ b' b (rw (main_bridge, same) at h))

  main_tls-serving :
      (cfg : Config) (io : MainIo) (d : Disk) (at : Place) (b : Bridge) (loaded : Loaded)
      → (ensure_self_signed lib io.tls_io d cfg.tls.cert_path cfg.tls.key_path cfg.tls.hosts).1
        ≡ loaded
      → (main_tls sha256 removable lib cfg io d at).2 ≡ serving b
      → (new_bridge sha256 removable cfg io.new_io at).1 ≡ inr b
  unfolding main_tls
  main_tls-serving cfg io d at b (inl e) same h = absurd (cc (rw (main_tls, same) at h))
  main_tls-serving cfg io d at b (inr pair) same h =
      main_bridge-serving cfg io at b _ refl (rw (main_tls, same) at h)

  main_loaded-serving :
      (checked : LoadErr ⊎ Config) (io : MainIo) (d : Disk) (at : Place) (b : Bridge)
      → (main_loaded sha256 removable lib checked io d at).2 ≡ serving b
      → (cfg : Config) × (checked ≡ inr cfg)
        × ((new_bridge sha256 removable cfg io.new_io at).1 ≡ inr b)
  unfolding main_loaded
  main_loaded-serving (inl e) io d at b h = absurd (cc)
  main_loaded-serving (inr cfg) io d at b h = (cfg, refl, main_tls-serving cfg io d at b _ refl h)

  -- The configuration is loaded and the bridge is new.
  pub main-serving :
      (unmarshal : Str → Option Config) (file : Option Str) (io : MainIo) (d : Disk) (at : Place)
      (b : Bridge)
      → (main sha256 removable lib unmarshal file io d at).2 ≡ serving b
      → (cfg : Config) × (load unmarshal file ≡ inr cfg)
        × ((new_bridge sha256 removable cfg io.new_io at).1 ≡ inr b)
  unfolding main
  main-serving unmarshal file io d at b h = main_loaded-serving (load unmarshal file) io d at b h
