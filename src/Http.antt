-- ===== src/Http.antt =====
-- The HTTP layer of internal/httpapi: the bearer token and the client of a request (middleware.go),
-- the handlers of the chats (chats.go), and the allow-lists, with those of the event stream
-- (ws.go) and of the bridge (bridge/bridge.go). The bridge's answers are a record.
pub mod Strings
pub mod Access
pub mod Allowed
mod Tests
use tg_bridge.Prelude.{
  ℕ, ◌≡◌, Bool, true, false, not, ◌&&◌, ◌||◌, Option, none, some, List, [], ◌∷◌, ◌++◌, ◌⊎◌, inl,
  inr, Str, codes, is_empty, if◌then◌else◌,
}
use tg_bridge.Prelude.Int.{ℤ, eqb_ℤ}
use tg_bridge.Config.{ClientConfig, Config, token_to_client}
use tg_bridge.Http.Strings.{cut_prefix, trim_space, Parsed, syntax, range, value, parse_int, atoi}

pub record Chat : Type 0 where
  pub id : ℤ
  pub kind : Str
  pub title : Str
  pub unread : ℤ
  pub last_msg : Str
  pub last_ts : ℤ
  pub username : Str

-- What a handler reads of a request. The two fields of the body are what the JSON decoder gives,
-- `none` where it fails.
pub record Request : Type 0 where
  pub authorization : Str
  pub query_token : Str
  pub query_limit : Str
  pub query_before : Str
  pub path_id : Str
  pub body_text : Option Str
  pub body_up_to : Option ℤ

unfoldable pub bearer_token : Request → Str
bearer_token r = elim (cut_prefix (codes "Bearer ") r.authorization) [
  | some rest ↦ trim_space rest
  | none ↦ r.query_token
]

-- The loop of `clientCanAccess`, `eventAllowed` and `chatAllowed` over an allow-list.
unfoldable pub holds : ℤ → List ℤ → Bool
holds id [] = false
holds id (a ∷ allow) = let rest = holds id allow in if eqb_ℤ a id then true else rest

abbrev no_list : List ℤ → Bool
no_list [] = true
no_list (a ∷ allow) = false

unfoldable pub client_can_access : Option ClientConfig → ℤ → Bool
client_can_access none id = true
client_can_access (some cl) id =
    if no_list cl.allowed_chats then true else holds id cl.allowed_chats

unfoldable pub event_allowed : Option ClientConfig → ℤ → Bool
event_allowed none id = true
event_allowed (some cl) id = if no_list cl.allowed_chats then true else holds id cl.allowed_chats

-- The list of the first client, which the bridge applies to every update.
unfoldable pub chat_allowed : Config → ℤ → Bool
chat_allowed c id = elim c.clients [
  | [] ↦ true
  | cl ∷ cs ↦ if no_list cl.allowed_chats then true else holds id cl.allowed_chats
]

-- The calls of the bridge that the handlers make.
pub data BridgeCall : Type 0 where
  lists_chats : ℤ → BridgeCall
  gets_messages : ℤ → ℤ → ℤ → BridgeCall
  sends_text : ℤ → Str → BridgeCall
  marks_read : ℤ → ℤ → BridgeCall

-- The map of allowed ids, which is used for its keys, and the loop that keeps the chats in it.
unfoldable pub keep_allowed : List ℤ → List Chat → List Chat
keep_allowed allow [] = []
keep_allowed allow (c ∷ cs) =
    let rest = keep_allowed allow cs in if holds c.id allow then c ∷ rest else rest

unfoldable pub filter_chats : Option ClientConfig → List Chat → List Chat
filter_chats none cs = cs
filter_chats (some cl) cs =
    if no_list cl.allowed_chats then cs else keep_allowed cl.allowed_chats cs

-- The answers of the bridge, `none` (`false` for `mark_read`) where it fails.
pub record BridgeApi (User Message : Type 0) : Type 0 where
  pub self : Option User
  pub list_chats : ℤ → Option (List Chat)
  pub get_messages : ℤ → ℤ → ℤ → Option (List Message)
  pub send_text : ℤ → Str → Option ℤ
  pub mark_read : ℤ → ℤ → Bool

-- What a handler writes; an error response is its status code.
pub data Response (User Message : Type 0) : Type 0 where
  failed : ℕ → Response User Message
  me : User → Response User Message
  chats : List Chat → Response User Message
  messages : List Message → Response User Message
  sent : ℤ → Response User Message
  marked : Response User Message

pub data Route : Type 0 where
  get_me : Route
  get_chats : Route
  get_chat_messages : Route
  post_message : Route
  post_read : Route

module _ {User Message : Type 0} (br : BridgeApi User Message) where
  -- The calls of the bridge, and the response.
  abbrev pub Outcome : Type 0
  Outcome = List BridgeCall × Response User Message

  unfoldable pub handle_me : Outcome
  handle_me = elim br.self [ none ↦ ([], failed 503) | some user ↦ ([], me user) ]

  unfoldable pub handle_list_chats : Option ClientConfig → Request → Outcome
  handle_list_chats client r = elim br.self [
    | none ↦ ([], failed 503)
    | some user ↦
        let limit = atoi r.query_limit in
        (
          lists_chats limit ∷ [],
          elim (br.list_chats limit) [
            | none ↦ failed 500
            | some cs ↦ chats (filter_chats client cs)
          ],
        )
  ]

  -- What the three handlers of one chat begin with: the account, the id and the access.
  unfoldable pub with_chat : Option ClientConfig → Request → (ℤ → Outcome) → Outcome
  with_chat client r go = elim br.self [
    | none ↦ ([], failed 503)
    | some user ↦ elim (parse_int r.path_id) [
      | syntax ↦ ([], failed 400)
      | range z ↦ ([], failed 400)
      | value id ↦ elim (client_can_access client id) [ false ↦ ([], failed 403) | true ↦ go id ]
    ]
  ]

  unfoldable pub handle_get_messages : Option ClientConfig → Request → Outcome
  handle_get_messages client r = with_chat client r (λ id.
      let limit = atoi r.query_limit in
      let before = atoi r.query_before in
      (
        gets_messages id limit before ∷ [],
        elim (br.get_messages id limit before) [ none ↦ failed 500 | some ms ↦ messages ms ],
      ))

  unfoldable pub handle_send_message : Option ClientConfig → Request → Outcome
  handle_send_message client r = with_chat client r (λ id. elim r.body_text [
    | none ↦ ([], failed 400)
    | some text ↦ elim (is_empty (trim_space text)) [
      | true ↦ ([], failed 400)
      | false ↦ (
        sends_text id text ∷ [],
        elim (br.send_text id text) [ none ↦ failed 502 | some msg_id ↦ sent msg_id ],
      )
    ]
  ])

  unfoldable pub handle_mark_read : Option ClientConfig → Request → Outcome
  handle_mark_read client r = with_chat client r (λ id. elim r.body_up_to [
    | none ↦ ([], failed 400)
    | some up_to ↦ (marks_read id up_to ∷ [], if br.mark_read id up_to then marked else failed 502)
  ])

  -- The handler of a route.
  unfoldable pub handle : Route → Option ClientConfig → Request → Outcome
  handle get_me client r = handle_me
  handle get_chats client r = handle_list_chats client r
  handle get_chat_messages client r = handle_get_messages client r
  handle post_message client r = handle_send_message client r
  handle post_read client r = handle_mark_read client r

  -- `withAuth` around the handler of a route.
  unfoldable pub with_auth : Config → Route → Request → Outcome
  with_auth cfg route r =
      if is_empty (bearer_token r)
      then ([], failed 401)
      else elim (token_to_client cfg (bearer_token r)) [
        | none ↦ ([], failed 401)
        | some cl ↦ handle route (some cl) r
      ]
