-- ===== src/Server/Calls.antt =====
-- The calls of Telegram that the requests of internal/httpapi lead to.
use tg_bridge.Prelude.{
  ◌≡◌, ◌⊎◌, inl, inr, refl, sym, ap, subst, Option, none, some, List, [], ◌∷◌, All, All-append,
  is_empty, Bool-cases, Option-cases,
}
use tg_bridge.Prelude.Int.{ℤ}
use tg_bridge.Config.{ClientConfig, Config, token_to_client}
use tg_bridge.Config.Checked.{is_empty_iff}
use tg_bridge.Http.{
  Request, bearer_token, BridgeCall, lists_chats, gets_messages, sends_text, marks_read, BridgeApi,
  Route, get_me, get_chats, get_chat_messages, post_message, post_read, Outcome, handle_me,
  handle_list_chats, with_chat, handle_get_messages, handle_send_message, handle_mark_read, handle,
  with_auth,
}
use tg_bridge.Http.Access.{Permits}
use tg_bridge.Http.Allowed.{CallIsPermitted, with_auth-IsPermitted}
use tg_bridge.Auth.{AuthState, authorized}
use tg_bridge.Chats.{User, InputPeer, Api, ApiCall}
use tg_bridge.Chats.Peers.{
  IsKeyed, IsFor, Stays, send_text-Stays, mark_read-Stays, get_messages-Stays, list_chats-IsKeyed,
}
use tg_bridge.Messages.{ChatMessage}
use tg_bridge.Server.{Sent, client_of, tag, perform, perform_all}

-- The call is made while the account is logged in, for a request with the token of a client, for a
-- chat that the client's list permits, and it goes to the peer of that chat.
abbrev pub IsAllowed : Config → Sent → Type 0
IsAllowed cfg x =
    (x.status ≡ authorized)
    × ((cl : ClientConfig) × (client_of cfg x.request ≡ some cl)
        × Permits cl.allowed_chats x.chat_id
        × IsFor (x.chat_id, x.call))

-- Without the account, no handler calls the bridge.
module _ {U M : Type 0} (br : BridgeApi U M) (unknown : br.self ≡ none) where
  handle_unknown :
      (route : Route) (client : Option ClientConfig) (r : Request)
      → (handle br route client r).0 ≡ []
  unfolding handle handle_me handle_list_chats with_chat handle_get_messages handle_send_message
      handle_mark_read
  handle_unknown get_me client r = rw unknown refl
  handle_unknown get_chats client r = rw unknown refl
  handle_unknown get_chat_messages client r = rw unknown refl
  handle_unknown post_message client r = rw unknown refl
  handle_unknown post_read client r = rw unknown refl

  with_auth_unknown :
      (cfg : Config) (route : Route) (r : Request) → (with_auth br cfg route r).0 ≡ []
  unfolding with_auth
  with_auth_unknown cfg route r = elim (Bool-cases (is_empty (bearer_token r))) [
    | inl e ↦ rw e refl
    | inr e ↦ elim (Option-cases (token_to_client cfg (bearer_token r))) [
      | inl t ↦ rw (e, t) refl
      | inr (cl, t) ↦ rw (e, t) (handle_unknown route (some cl) r)
    ]
  ]

module _ (cfg : Config) (r : Request) (status : AuthState) (api : Api) where
  -- What the calls leave: a peer cache in order, and only calls that are allowed.
  abbrev Left : List (ℤ × InputPeer) × List Sent → Type 0
  Left (peers, sent) = IsKeyed peers × All (IsAllowed cfg) sent

  none_called :
      (peers : List (ℤ × InputPeer)) → IsKeyed peers → Left (perform_all r status api peers [])
  unfolding perform_all
  none_called peers kept = (kept, tt)

  module _ (cl : ClientConfig) (known : client_of cfg r ≡ some cl) (on : status ≡ authorized) where
    tag-Left :
        (id : ℤ) (left : List (ℤ × InputPeer) × Option ApiCall)
        → Stays id left
        → Permits cl.allowed_chats id
        → Left (left.0, tag r status api id left.1)
    tag-Left id (peers, none) kept ok = (kept, tt)
    tag-Left id (peers, some call) (kept, for) ok = (kept, ((on, (cl, known, ok, for)), tt))

    perform-Left :
        (peers : List (ℤ × InputPeer)) (k : BridgeCall)
        → IsKeyed peers
        → CallIsPermitted cl.allowed_chats k
        → Left (perform r status api peers k)
    unfolding perform
    perform-Left peers (lists_chats limit) kept ok = (list_chats-IsKeyed api peers limit kept, tt)
    perform-Left peers (gets_messages id limit before) kept ok =
        tag-Left id _ (get_messages-Stays api peers id limit before kept) ok
    perform-Left peers (sends_text id text) kept ok =
        tag-Left id _ (send_text-Stays api peers id text kept) ok
    perform-Left peers (marks_read id up_to) kept ok =
        tag-Left id _ (mark_read-Stays api peers id up_to kept) ok

    perform_all-Left :
        (peers : List (ℤ × InputPeer)) (ks : List BridgeCall)
        → IsKeyed peers
        → All (CallIsPermitted cl.allowed_chats) ks
        → Left (perform_all r status api peers ks)
    unfolding perform_all
    perform_all-Left peers [] kept all = (kept, tt)
    perform_all-Left peers (k ∷ ks) kept (ok, all) =
        let (kept', sent) = perform-Left peers k kept ok in
        let (kept'', more) = perform_all-Left (perform r status api peers k).0 ks kept' all in
        (kept'', All-append (IsAllowed cfg) (perform r status api peers k).1 _ sent more)

  -- The calls of a request behind `withAuth`, when the account is known only while the status is
  -- `authorized`.
  pub with_auth-Left :
      (br : BridgeApi User ChatMessage) (route : Route) (peers : List (ℤ × InputPeer))
      → ((br.self ≡ none) ⊎ (status ≡ authorized))
      → IsKeyed peers
      → Left (perform_all r status api peers (with_auth br cfg route r).0)
  unfolding client_of
  with_auth-Left br route peers (inl unknown) kept =
      subst (λ ks. Left (perform_all r status api peers ks))
        (sym (with_auth_unknown br unknown cfg route r)) (none_called peers kept)
  with_auth-Left br route peers (inr on) kept = elim (with_auth-IsPermitted br cfg route r) [
    | inl e ↦
        subst (λ ks. Left (perform_all r status api peers ks))
          (sym (ap (λ (o : Outcome br). o.0) e)) (none_called peers kept)
    | inr (cl, there, known, permitted) ↦
        let full = (is_empty_iff (bearer_token r)).1 there in
        let client : client_of cfg r ≡ some cl = rw (client_of, full) known in
        perform_all-Left cl client on peers _ kept permitted.0
  ]
