-- ===== src/Server/Writer/Tests.antt =====
-- A refused request and its entry in the log, with a writer that keeps what is documented.
use tg_bridge.Prelude.{
  ℕ, ◌≡◌, refl, true, false, Option, none, some, [], ◌∷◌, Str, codes, str_eq, str_eq_refl,
  if◌then◌else◌, arith, inl, inr,
}
use tg_bridge.MediaId.Tests.{toy}
use tg_bridge.Config.{find_token, token_to_client}
use tg_bridge.Http.{bearer_token, failed, with_auth, get_me}
use tg_bridge.Http.Strings.{cut_prefix, space_width, trim, reverse_onto, trim_space}
use tg_bridge.Start.Tests.{sha, all_removable, made, cfg}
use tg_bridge.Server.{chat_route, chat_reply, new_server, client_of, perform_all, ask_chats, ask}
use tg_bridge.Server.Tests.{request, answers}
use tg_bridge.Server.Writer.{
  HttpLib, Encoders, heads, writes, write_header, apply, apply_all, request_log, write_json,
  write_error, write_reply,
}
use tg_bridge.Server.Writer.Once.{IsOnce, on_wire}
use tg_bridge.Server.Writer.Logged.{IsJson, request_log-ask}

record Sink : Type 0 where
  status : Option ℕ
  header : Str → Option Str
  sent : Str → Option Str

abbrev set : Sink → Str → Str → Sink
set w k v = record w { header = λ j. if str_eq k j then some v else w.header j }

-- The first of a status and a body.
abbrev head : ℕ → Sink → Sink
head code w = elim w.status [
  | none ↦ record w { status = some code; sent = w.header }
  | some before ↦ w
]

abbrev sink_lib : HttpLib Sink
sink_lib = record {
  set_header = set;
  write_header = λ w code. head code w;
  write = λ w b. head 200 w;
  status = λ w. w.status;
  header = λ w. w.header;
  sent_header = λ w. w.sent;
  status-set_header = λ w k v. refl;
  header-set_header = λ w k v. rw (str_eq_refl k) refl;
  status_first = λ w code e final. rw e refl;
  sent_first = λ w code k e final. rw e refl;
  status_implied = λ w b e. rw e refl;
  status_kept = λ w code b e. rw e refl;
  sent_kept = λ w code b k e. rw e refl;
}

abbrev fresh : Sink
fresh = record { status = none; header = λ k. none; sent = λ k. none }

abbrev encoders : Encoders
encoders = record {
  value_json = λ reply. none;
  error_json = λ msg. some (codes "{}");
  message = λ reply. codes "invalid token";
  serve_file = λ path. writes (codes "jpeg") ∷ [];
  accept = λ ok. if ok then heads 101 ∷ [] else heads 400 ∷ [];
}

program : Unit {0}
unfolding find_token token_to_client str_eq bearer_token with_auth cut_prefix space_width trim
    reverse_onto trim_space client_of perform_all ask_chats ask write_header apply apply_all
    request_log write_json write_error write_reply
program = tt

refused_logged :
    (request_log sink_lib fresh (write_reply encoders (chat_reply (failed 401)))).1 ≡ 401
unfolding program
refused_logged = refl

request_log-ask_example :
    let (w', logged) =
      request_log sink_lib fresh (write_reply encoders (chat_reply (failed 401))) in
    (on_wire sink_lib w' ≡ logged)
    × (IsJson (chat_reply (failed 401))
        → (logged ≡ 401) × (w'.sent (codes "Content-Type") ≡ some (codes "application/json")))
request_log-ask_example =
    request_log-ask sink_lib sha all_removable toy cfg encoders fresh (new_server made)
      (new_server made) (chat_route get_me) (request (codes "t3") []) answers
      (chat_reply (failed 401)) [] (λ path. tt)
      (λ ok. elim ok as (λ k. IsOnce (encoders.accept k)) [
        | true ↦ (inl refl, tt)
        | false ↦ (inr (omega arith), tt)
      ])
      refl (unfold program in refl)
