-- ===== src/Start/Main.antt =====
-- `main` of cmd/tg-bridge/main.go.
use tg_bridge.Prelude.{
  ℕ, not, Bool, true, false, Option, none, some, List, [], ◌∷◌, ◌⊎◌, inl, inr, Str, if◌then◌else◌,
}
use tg_bridge.Auth.{
  AuthErr, rpc, password_auth_needed, password_invalid, context_done, unexpected_sent_code, other,
  wrapped,
}
use tg_bridge.Config.{Config, LoadErr, load}
use tg_bridge.Tls.{TlsLib, TlsIo, Disk, ensure_self_signed}
use tg_bridge.Start.{
  NewIo, Place, Bridge, RunErr, auth_failed, self_failed, client_failed, canceled, new_bridge,
  close_bridge,
}

-- How `ListenAndServe` ends: with `http.ErrServerClosed`, or with another error.
pub data ServeEnd : Type 0 where
  server_closed serve_failed : ServeEnd

-- What the `select` of `main` waits for: a signal of the system, and the ends of the two goroutines.
pub data Signal : Type 0 where
  interrupted : Signal
  run_ends : Option RunErr → Signal
  serve_ends : ServeEnd → Signal

-- `errors.Is(err, context.Canceled)` of an error of the login: the context of `main` has no
-- deadline, so it ends by being cancelled.
unfoldable pub is_canceled : AuthErr → Bool
is_canceled context_done = true
is_canceled (wrapped stage e) = is_canceled e
is_canceled (rpc t) = false
is_canceled password_auth_needed = false
is_canceled password_invalid = false
is_canceled unexpected_sent_code = false
is_canceled (other t) = false

-- A goroutine's end that is sent to `errCh`.
unfoldable pub is_sent : Signal → Bool
is_sent interrupted = false
is_sent (run_ends none) = false
is_sent (run_ends (some canceled)) = false
is_sent (run_ends (some (auth_failed e))) = not (is_canceled e)
is_sent (run_ends (some (self_failed ended_by))) = not ended_by
is_sent (run_ends (some client_failed)) = true
is_sent (serve_ends server_closed) = false
is_sent (serve_ends serve_failed) = true

-- The `select`: `none` while it waits, else whether the end is fatal.
unfoldable pub await : List Signal → Option Bool
await [] = none
await (interrupted ∷ later) = some false
await (signal ∷ later) = let rest = await later in if is_sent signal then some true else rest

-- How the system answers to `main`.
pub record MainIo : Type 0 where
  pub tls_io : TlsIo
  pub new_io : NewIo
  pub signals : List Signal

-- The program as the system sees it: still serving, or left with an exit status.
pub data Outcome : Type 0 where
  serving : Bridge → Outcome
  exited : ℕ → Outcome

module _ (sha256 : Str → Str) (removable : Str → Bool) (lib : TlsLib) where
  -- `main` with the bridge: on the way out `Close` is deferred.
  unfoldable pub serve_until : List Signal → Place → Bridge → Place × Outcome
  serve_until signals at b = elim (await signals) [
    | none ↦ (at, serving b)
    | some fatal ↦ (close_bridge at, exited 0)
  ]

  unfoldable pub main_bridge : Config → MainIo → Place → Place × Outcome
  main_bridge cfg io at =
      let (at', made) = new_bridge sha256 removable cfg io.new_io at in
      elim made [ inl e ↦ (at', exited 1) | inr b ↦ serve_until io.signals at' b ]

  unfoldable pub main_tls : Config → MainIo → Disk → Place → Disk × Place × Outcome
  main_tls cfg io d at =
      let (d', cert) =
        ensure_self_signed lib io.tls_io d cfg.tls.cert_path cfg.tls.key_path cfg.tls.hosts in
      elim cert [
        | inl e ↦ (d', at, exited 1)
        | inr loaded ↦ let (at', out) = main_bridge cfg io at in (d', at', out)
      ]

  unfoldable pub main_loaded : (LoadErr ⊎ Config) → MainIo → Disk → Place → Disk × Place × Outcome
  main_loaded (inl e) io d at = (d, at, exited 1)
  main_loaded (inr cfg) io d at = main_tls cfg io d at

  -- `file` is what the file of the configuration is read as.
  unfoldable pub main :
      (Str → Option Config) → Option Str → MainIo → Disk → Place → Disk × Place × Outcome
  main unmarshal file io d at = main_loaded (load unmarshal file) io d at
