-- ===== src/Server/Writer.antt =====
-- How a reply is written: `requestLog`, `statusWriter`, `writeJSON` and `writeError` of
-- internal/httpapi/middleware.go, and what the handlers write with them. The response writer of
-- net/http is a parameter, as are the JSON encoder, `http.ServeFile` and `websocket.Accept`.
pub mod Once
pub mod Logged
pub mod Final
mod Tests
use tg_bridge.Prelude.{
  ℕ, ◌≡◌, ◌≤◌, ◌⊎◌, inl, inr, Bool, true, false, Option, none, some, List, [], ◌∷◌, ◌++◌, ◌==◌, Str,
  codes, if◌then◌else◌,
}
use tg_bridge.AuthApi.{AuthResponse, status_is, accepted}
use tg_bridge.AuthApi
use tg_bridge.Chats.{User}
use tg_bridge.Http.{Response, failed, me, chats, messages, sent, marked}
use tg_bridge.Messages.{ChatMessage}
use tg_bridge.MediaCache.{FilePath}
use tg_bridge.Server.{
  Reply, auth_reply, chat_reply, media_reply, stream_opened, upgrade_failed, unauthorized,
}

-- A status code that is not informational: a header with it ends the headers.
abbrev pub IsFinal : ℕ → Type 0
IsFinal code = (code ≡ 101) ⊎ (200 ≤ code)

-- What is relied on of net/http: the first final status is sent, with the headers that are set by
-- then; a body without one sends 200; later ones change neither.
pub record HttpLib (Writer : Type 0) : Type 0 where
  pub set_header : Writer → Str → Str → Writer
  pub write_header : Writer → ℕ → Writer
  pub write : Writer → Str → Writer
  pub status : Writer → Option ℕ
  pub header : Writer → Str → Option Str
  pub sent_header : Writer → Str → Option Str
  pub status-set_header : (w : Writer) (k v : Str) → status (set_header w k v) ≡ status w
  pub header-set_header : (w : Writer) (k v : Str) → header (set_header w k v) k ≡ some v
  pub status_first :
      (w : Writer) (code : ℕ)
      → status w ≡ none
      → IsFinal code
      → status (write_header w code) ≡ some code
  pub sent_first :
      (w : Writer) (code : ℕ) (k : Str)
      → status w ≡ none
      → IsFinal code
      → sent_header (write_header w code) k ≡ header w k
  pub status_implied : (w : Writer) (b : Str) → status w ≡ none → status (write w b) ≡ some 200
  pub status_kept :
      (w : Writer) (code : ℕ) (b : Str) → status w ≡ some code → status (write w b) ≡ some code
  pub sent_kept :
      (w : Writer) (code : ℕ) (b k : Str)
      → status w ≡ some code
      → sent_header (write w b) k ≡ sent_header w k

-- What a handler does with its writer.
pub data WriterCall : Type 0 where
  sets : Str → Str → WriterCall
  heads : ℕ → WriterCall
  writes : Str → WriterCall

module _ {Writer : Type 0} (lib : HttpLib Writer) where
  pub record StatusWriter : Type 0 where
    pub inner : Writer
    pub code : ℕ

  -- The method of `statusWriter`.
  unfoldable pub write_header : StatusWriter → ℕ → StatusWriter
  write_header s code = record { inner = lib.write_header s.inner code; code = code }

  -- The other methods are those of the embedded writer.
  unfoldable pub apply : StatusWriter → WriterCall → StatusWriter
  apply s (sets k v) = record s { inner = lib.set_header s.inner k v }
  apply s (heads code) = write_header s code
  apply s (writes b) = record s { inner = lib.write s.inner b }

  unfoldable pub apply_all : StatusWriter → List WriterCall → StatusWriter
  apply_all s [] = s
  apply_all s (o ∷ os) = apply_all (apply s o) os

  -- The writer when the handler has returned, and the status that is logged.
  unfoldable pub request_log : Writer → List WriterCall → Writer × ℕ
  request_log w os = let s = apply_all (record { inner = w; code = 200 }) os in (s.inner, s.code)

-- The value as the encoder writes it, if it can.
unfoldable pub write_json : ℕ → Option Str → List WriterCall
write_json code body =
    sets (codes "Content-Type") (codes "application/json")
    ∷ heads code
    ∷ elim body [ none ↦ [] | some b ↦ writes b ∷ [] ]

module _ (error_json : Str → Option Str) where
  unfoldable pub write_error : ℕ → Str → List WriterCall
  write_error code msg = write_json code (error_json msg)

  -- The refusal of `withRateLimit` says when to try again.
  unfoldable pub auth_error : ℕ → Str → List WriterCall
  auth_error code msg =
      if code == 429
      then sets (codes "Retry-After") (codes "60") ∷ write_error code msg
      else write_error code msg

-- The status of a reply that is written with `writeJSON` or `writeError`.
abbrev pub reply_code : Reply → ℕ
reply_code (auth_reply (status_is state err)) = 200
reply_code (auth_reply accepted) = 200
reply_code (auth_reply (AuthApi.failed code)) = code
reply_code (chat_reply (failed code)) = code
reply_code (chat_reply other) = 200
reply_code (media_reply (inl code)) = code
reply_code (media_reply (inr file)) = 200
reply_code stream_opened = 101
reply_code upgrade_failed = 400
reply_code unauthorized = 401

-- How the values and the error texts of a reply are encoded, and what `http.ServeFile` and
-- `websocket.Accept` do with the writer.
pub record Encoders : Type 0 where
  pub value_json : Reply → Option Str
  pub error_json : Str → Option Str
  pub message : Reply → Str
  pub serve_file : FilePath → List WriterCall
  pub accept : Bool → List WriterCall

module _ (e : Encoders) where
  unfoldable pub write_media : FilePath → Str → List WriterCall
  write_media path mime =
      sets (codes "Content-Type") mime
      ∷ sets (codes "Cache-Control") (codes "public, max-age=86400")
      ∷ e.serve_file path

  unfoldable pub write_reply : Reply → List WriterCall
  write_reply (auth_reply (AuthApi.failed code)) =
      auth_error e.error_json code (e.message (auth_reply (AuthApi.failed code)))
  write_reply (auth_reply (status_is state err)) =
      write_json 200 (e.value_json (auth_reply (status_is state err)))
  write_reply (auth_reply accepted) = write_json 200 (e.value_json (auth_reply accepted))
  write_reply (chat_reply (failed code)) =
      write_error e.error_json code (e.message (chat_reply (failed code)))
  write_reply (chat_reply other) = write_json 200 (e.value_json (chat_reply other))
  write_reply (media_reply (inl code)) =
      write_error e.error_json code (e.message (media_reply (inl code)))
  write_reply (media_reply (inr (path, mime))) = write_media path mime
  write_reply stream_opened = e.accept true
  write_reply upgrade_failed = e.accept false
  write_reply unauthorized = write_error e.error_json 401 (e.message unauthorized)
