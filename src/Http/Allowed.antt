-- ===== src/Http/Allowed.antt =====
-- What the handlers of internal/httpapi/chats.go do for a client behind `withAuth` of middleware.go.
use tg_bridge.Prelude.{
  ◌≡◌, ◌≢◌, ◌⊎◌, inl, inr, refl, some, List, [], All, is_empty, Bool-cases, Option-cases,
}
use tg_bridge.Prelude.Int.{ℤ}
use tg_bridge.Config.{ClientConfig, Config, token_to_client}
use tg_bridge.Http.{
  Request, bearer_token, client_can_access, BridgeCall, lists_chats, gets_messages, sends_text,
  marks_read, BridgeApi, Response, failed, me, chats, messages, sent, marked, Route, get_me,
  get_chats, get_chat_messages, post_message, post_read, Outcome, handle_me, handle_list_chats,
  with_chat, handle_get_messages, handle_send_message, handle_mark_read, handle, with_auth,
}
use tg_bridge.Config.Checked.{is_empty_iff}
use tg_bridge.Http.Strings.{trim_space, Parsed, syntax, range, value, parse_int, atoi}
use tg_bridge.Http.Access.{Permits, client_can_access_iff, filter_chats-Permits}

Parsed-cases :
    {A : Type 0} (p : Parsed A)
    → (p ≡ syntax) ⊎ (((a : A) × (p ≡ range a)) ⊎ ((a : A) × (p ≡ value a)))
Parsed-cases syntax = inl refl
Parsed-cases (range a) = inr (inl (a, refl))
Parsed-cases (value a) = inr (inr (a, refl))

-- The list permits the chat of a call; the list of all chats is filtered afterwards.
abbrev pub CallIsPermitted : List ℤ → BridgeCall → Type 0
CallIsPermitted allow (lists_chats limit) = Unit
CallIsPermitted allow (gets_messages id limit before) = Permits allow id
CallIsPermitted allow (sends_text id text) = Permits allow id
CallIsPermitted allow (marks_read id up_to) = Permits allow id

module _ {User Message : Type 0} (br : BridgeApi User Message) where
  abbrev pub ResponseIsPermitted : List ℤ → Response User Message → Type 0
  ResponseIsPermitted allow (failed code) = Unit
  ResponseIsPermitted allow (me user) = Unit
  ResponseIsPermitted allow (chats cs) = All (λ x. Permits allow x.id) cs
  ResponseIsPermitted allow (messages ms) = Unit
  ResponseIsPermitted allow (sent id) = Unit
  ResponseIsPermitted allow marked = Unit

  abbrev pub IsPermitted : List ℤ → Outcome br → Type 0
  IsPermitted allow (calls, response) =
      All (CallIsPermitted allow) calls × ResponseIsPermitted allow response

  with_chat-IsPermitted :
      (cl : ClientConfig) (r : Request) (go : ℤ → Outcome br)
      → ((id : ℤ) → Permits cl.allowed_chats id → IsPermitted cl.allowed_chats (go id))
      → IsPermitted cl.allowed_chats (with_chat br (some cl) r go)
  unfolding with_chat
  with_chat-IsPermitted cl r go ok = elim (Option-cases br.self) [
    | inl e ↦ rw e (tt, tt)
    | inr (user, e) ↦ elim (Parsed-cases (parse_int r.path_id)) [
      | inl s ↦ rw (e, with_chat, s) (tt, tt)
      | inr (inl (z, s)) ↦ rw (e, with_chat, s) (tt, tt)
      | inr (inr (id, s)) ↦ elim (Bool-cases (client_can_access (some cl) id)) [
        | inl a ↦ rw (e, with_chat, s, a) (ok id ((client_can_access_iff cl id).0 a))
        | inr a ↦ rw (e, with_chat, s, a) (tt, tt)
      ]
    ]
  ]

  handle_list_chats-IsPermitted :
      (cl : ClientConfig) (r : Request)
      → IsPermitted cl.allowed_chats (handle_list_chats br (some cl) r)
  unfolding handle_list_chats
  handle_list_chats-IsPermitted cl r = elim (Option-cases br.self) [
    | inl e ↦ rw e (tt, tt)
    | inr (user, e) ↦ elim (Option-cases (br.list_chats (atoi r.query_limit))) [
      | inl l ↦ rw (e, l) ((tt, tt), tt)
      | inr (cs, l) ↦ rw (e, l) ((tt, tt), filter_chats-Permits cl cs)
    ]
  ]

  handle_get_messages-IsPermitted :
      (cl : ClientConfig) (r : Request)
      → IsPermitted cl.allowed_chats (handle_get_messages br (some cl) r)
  unfolding handle_get_messages
  handle_get_messages-IsPermitted cl r = with_chat-IsPermitted cl r _ (λ id ok.
      elim (Option-cases (br.get_messages id (atoi r.query_limit) (atoi r.query_before))) [
        | inl e ↦ rw e ((ok, tt), tt)
        | inr (ms, e) ↦ rw e ((ok, tt), tt)
      ])

  handle_send_message-IsPermitted :
      (cl : ClientConfig) (r : Request)
      → IsPermitted cl.allowed_chats (handle_send_message br (some cl) r)
  unfolding handle_send_message
  handle_send_message-IsPermitted cl r = with_chat-IsPermitted cl r _ (λ id ok.
      elim (Option-cases r.body_text) [
        | inl b ↦ rw b (tt, tt)
        | inr (text, b) ↦ elim (Bool-cases (is_empty (trim_space text))) [
          | inl t ↦ rw (b, t) (tt, tt)
          | inr t ↦ elim (Option-cases (br.send_text id text)) [
            | inl e ↦ rw (b, t, e) ((ok, tt), tt)
            | inr (n, e) ↦ rw (b, t, e) ((ok, tt), tt)
          ]
        ]
      ])

  handle_mark_read-IsPermitted :
      (cl : ClientConfig) (r : Request)
      → IsPermitted cl.allowed_chats (handle_mark_read br (some cl) r)
  unfolding handle_mark_read
  handle_mark_read-IsPermitted cl r = with_chat-IsPermitted cl r _ (λ id ok.
      elim (Option-cases r.body_up_to) [
        | inl b ↦ rw b (tt, tt)
        | inr (n, b) ↦ elim (Bool-cases (br.mark_read id n)) [
          | inl e ↦ rw (b, e) ((ok, tt), tt)
          | inr e ↦ rw (b, e) ((ok, tt), tt)
        ]
      ])

  handle-IsPermitted :
      (cl : ClientConfig) (route : Route) (r : Request)
      → IsPermitted cl.allowed_chats (handle br route (some cl) r)
  unfolding handle handle_me
  handle-IsPermitted cl get_me r = elim (Option-cases br.self) [
    | inl e ↦ rw e (tt, tt)
    | inr (user, e) ↦ rw e (tt, tt)
  ]
  handle-IsPermitted cl get_chats r = handle_list_chats-IsPermitted cl r
  handle-IsPermitted cl get_chat_messages r = handle_get_messages-IsPermitted cl r
  handle-IsPermitted cl post_message r = handle_send_message-IsPermitted cl r
  handle-IsPermitted cl post_read r = handle_mark_read-IsPermitted cl r

  -- Behind `withAuth` a request either gets the status 401 without a call of the bridge, or its
  -- token is not empty and is that of a configured client: then every call for a chat is for a chat
  -- that the client's list permits, and so is every chat of a list that it gets.
  pub with_auth-IsPermitted :
      (c : Config) (route : Route) (r : Request)
      → (with_auth br c route r ≡ ([], failed 401))
        ⊎ ((cl : ClientConfig) × (bearer_token r ≢ [])
            × (token_to_client c (bearer_token r) ≡ some cl)
            × IsPermitted cl.allowed_chats (with_auth br c route r))
  unfolding with_auth
  with_auth-IsPermitted c route r = elim (Bool-cases (is_empty (bearer_token r))) [
    | inl e ↦ inl (rw e refl)
    | inr e ↦ elim (Option-cases (token_to_client c (bearer_token r))) [
      | inl t ↦ inl (rw (e, t) refl)
      | inr (cl, t) ↦ inr (cl, (is_empty_iff _).0 e, t, rw (e, t) (handle-IsPermitted cl route r))
    ]
  ]
