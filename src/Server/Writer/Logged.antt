-- ===== src/Server/Writer/Logged.antt =====
-- The status that `requestLog` of internal/httpapi/middleware.go logs.
use tg_bridge.Prelude.{
  ℕ, ◌≡◌, inl, inr, refl, sym, ◌∙◌, subst, Bool, true, false, Option, none, some, List, ◌==◌, Str,
  codes, Bool-cases, Option-cases,
}
use tg_bridge.AuthApi.{status_is, accepted}
use tg_bridge.AuthApi
use tg_bridge.Http.{failed}
use tg_bridge.MediaCache.{FilePath}
use tg_bridge.AuthApi.{AuthRequest}
use tg_bridge.Config.{Config}
use tg_bridge.MediaId.{MediaCrypto}
use tg_bridge.Server.Writer.Final.{RepliesFinally, ask-RepliesFinally}
use tg_bridge.Server.{
  Server, Answers, Sent, Endpoint, ask, Reply, auth_reply, chat_reply, media_reply, stream_opened,
  upgrade_failed, unauthorized,
}
use tg_bridge.Server.Writer.{
  IsFinal, HttpLib, sets, StatusWriter, write_header, apply, apply_all, request_log, write_json,
  write_error, auth_error, reply_code, Encoders, write_media, write_reply,
}
use tg_bridge.Server.Writer.Once.{IsOnce, on_wire, on_wire_sent, apply_all_once}

-- The replies that are written as JSON.
abbrev pub IsJson : Reply → Type 0
IsJson (media_reply (inr file)) = ⊥
IsJson stream_opened = ⊥
IsJson upgrade_failed = ⊥
IsJson reply = Unit

module _ {Writer : Type 0} (lib : HttpLib Writer) where
  -- The response is JSON, with a status that is also logged.
  abbrev IsJsonWith : ℕ → StatusWriter lib → Type 0
  IsJsonWith code s =
      (s.code ≡ code)
      × (on_wire lib s.inner ≡ code)
      × (lib.sent_header s.inner (codes "Content-Type") ≡ some (codes "application/json"))

  write_json-IsJsonWith :
      (s : StatusWriter lib) (code : ℕ) (body : Option Str)
      → lib.status s.inner ≡ none
      → IsFinal code
      → IsJsonWith code (apply_all lib s (write_json code body))
  unfolding apply_all apply write_header write_json
  write_json-IsJsonWith s code body fresh final =
      let w = lib.set_header s.inner (codes "Content-Type") (codes "application/json") in
      let unset = lib.status-set_header s.inner _ _ ∙ fresh in
      let there =
        lib.sent_first w code (codes "Content-Type") unset final
        ∙ lib.header-set_header s.inner (codes "Content-Type") (codes "application/json") in
      let sent = lib.status_first w code unset final in
      elim (Option-cases body) [
        | inl e ↦ rw (write_json, e) (refl, on_wire_sent lib _ _ sent, there)
        | inr (b, e) ↦
            let w' = lib.write_header w code in
            rw (write_json, e)
              (
                refl,
                on_wire_sent lib _ _ (lib.status_kept w' code b sent),
                lib.sent_kept w' code b (codes "Content-Type") sent ∙ there,
              )
      ]

  auth_error-IsJsonWith :
      (error_json : Str → Option Str) (s : StatusWriter lib) (code : ℕ) (msg : Str)
      → lib.status s.inner ≡ none
      → IsFinal code
      → IsJsonWith code (apply_all lib s (auth_error error_json code msg))
  unfolding auth_error write_error apply_all apply
  auth_error-IsJsonWith error_json s code msg fresh final = elim (Bool-cases (code == 429)) [
    | inr e ↦ rw (auth_error, e) (write_json-IsJsonWith s code _ fresh final)
    | inl e ↦
        rw (auth_error, e)
          (write_json-IsJsonWith (apply lib s (sets (codes "Retry-After") (codes "60"))) code _
            (lib.status-set_header s.inner _ _ ∙ fresh) final)
  ]

  write_reply-IsJsonWith :
      (e : Encoders) (reply : Reply) (s : StatusWriter lib)
      → IsJson reply
      → lib.status s.inner ≡ none
      → IsFinal (reply_code reply)
      → IsJsonWith (reply_code reply) (apply_all lib s (write_reply e reply))
  unfolding write_reply write_error
  write_reply-IsJsonWith e (auth_reply (AuthApi.failed code)) s j fresh final =
      auth_error-IsJsonWith e.error_json s code _ fresh final
  write_reply-IsJsonWith e (auth_reply (status_is state err)) s j fresh final =
      write_json-IsJsonWith s 200 _ fresh final
  write_reply-IsJsonWith e (auth_reply accepted) s j fresh final =
      write_json-IsJsonWith s 200 _ fresh final
  write_reply-IsJsonWith e (chat_reply (failed code)) s j fresh final =
      write_json-IsJsonWith s code _ fresh final
  write_reply-IsJsonWith e (chat_reply other) s j fresh final =
      write_json-IsJsonWith s 200 _ fresh final
  write_reply-IsJsonWith e (media_reply (inl code)) s j fresh final =
      write_json-IsJsonWith s code _ fresh final
  write_reply-IsJsonWith e (media_reply (inr file)) s j fresh final = absurd j
  write_reply-IsJsonWith e stream_opened s j fresh final = absurd j
  write_reply-IsJsonWith e upgrade_failed s j fresh final = absurd j
  write_reply-IsJsonWith e unauthorized s j fresh final = write_json-IsJsonWith s 401 _ fresh final

  Once-serve_file :
      (e : Encoders) (path : FilePath) (mime : Str)
      → IsOnce (e.serve_file path)
      → IsOnce (write_media e path mime)
  unfolding write_media
  Once-serve_file e path mime o = o

  -- The logged status of a reply is that on the wire.
  agrees :
      (e : Encoders) (reply : Reply) (s : StatusWriter lib)
      → ((path : FilePath) → IsOnce (e.serve_file path))
      → ((ok : Bool) → IsOnce (e.accept ok))
      → lib.status s.inner ≡ none
      → s.code ≡ 200
      → IsFinal (reply_code reply)
      → let s' = apply_all lib s (write_reply e reply) in on_wire lib s'.inner ≡ s'.code
  unfolding write_reply
  agrees e (media_reply (inr (path, mime))) s serves accepts fresh start final =
      apply_all_once lib s (write_media e path mime) (Once-serve_file e path mime (serves path))
        fresh start
  agrees e stream_opened s serves accepts fresh start final =
      apply_all_once lib s (e.accept true) (accepts true) fresh start
  agrees e upgrade_failed s serves accepts fresh start final =
      apply_all_once lib s (e.accept false) (accepts false) fresh start
  agrees e reply s serves accepts fresh start final =
      let (logged, sent, _) = write_reply-IsJsonWith e reply s tt fresh final in sent ∙ sym logged

  write_reply_logged :
      (e : Encoders) (reply : Reply) (w : Writer)
      → ((path : FilePath) → IsOnce (e.serve_file path))
      → ((ok : Bool) → IsOnce (e.accept ok))
      → lib.status w ≡ none
      → IsFinal (reply_code reply)
      → let (w', logged) = request_log lib w (write_reply e reply) in
        (on_wire lib w' ≡ logged)
        × (IsJson reply
            → (logged ≡ reply_code reply)
              × (lib.sent_header w' (codes "Content-Type") ≡ some (codes "application/json")))
  unfolding request_log
  write_reply_logged e reply w serves accepts fresh final =
      let s : StatusWriter lib = record { inner = w; code = 200 } in
      (
        agrees e reply s serves accepts fresh refl final,
        λ j.
            let (logged, _, type) = write_reply-IsJsonWith e reply s j fresh final in
            (logged, type),
      )

-- Whatever a request is answered, `requestLog` logs the status that the client gets, if
-- `http.ServeFile` and `websocket.Accept` set at most one, a final one, before the body. A reply of
-- JSON has the handler's status, and its type is application/json, whether or not its value can be
-- encoded.
pub request_log-ask :
    {Writer : Type 0} (lib : HttpLib Writer) (sha256 : Str → Str) (removable : Str → Bool)
    (c : MediaCrypto) (cfg : Config) (e : Encoders) (w : Writer) (s s' : Server)
    (endpoint : Endpoint) (r : AuthRequest) (a : Answers) (reply : Reply) (sent : List Sent)
    → ((path : FilePath) → IsOnce (e.serve_file path))
    → ((ok : Bool) → IsOnce (e.accept ok))
    → lib.status w ≡ none
    → ask sha256 removable c cfg s endpoint r a ≡ some (s', reply, sent)
    → let (w', logged) = request_log lib w (write_reply e reply) in
      (on_wire lib w' ≡ logged)
      × (IsJson reply
          → (logged ≡ reply_code reply)
            × (lib.sent_header w' (codes "Content-Type") ≡ some (codes "application/json")))
request_log-ask lib sha256 removable c cfg e w s s' endpoint r a reply sent serves accepts fresh
      answered =
    write_reply_logged lib e reply w serves accepts fresh (
      subst (RepliesFinally sha256 removable c cfg) answered
        (ask-RepliesFinally sha256 removable c cfg s endpoint r a))
