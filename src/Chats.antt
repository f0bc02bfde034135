-- ===== src/Chats.antt =====
-- The chats of internal/bridge/chats.go: chat ids, the list of the dialogs with its indexes, the
-- peer cache and the calls that address a chat, with `SendText` of internal/bridge/send.go. The
-- types of the Telegram library keep the fields that the code reads.
pub mod Ids
pub mod Truncate
pub mod Sent
pub mod Peers
pub mod Tests
use tg_bridge.Prelude.{
  ℕ, ◌+◌, ◌-◌, ◌*◌, ◌^◌, ◌≡◌, Bool, true, false, not, ◌&&◌, ◌||◌, Option, none, some, List, [], ◌∷◌,
  ◌++◌, Str, codes, length, take, leb, ◌==◌, if◌then◌else◌,
}
use tg_bridge.Prelude.Int.{ℤ, pos, negsuc, ◌-ℤ◌, ltb_ℤ, eqb_ℤ, to_u64, of_u64}
use tg_bridge.Media.{MessageMedia}
use tg_bridge.Http.{Chat}
use tg_bridge.Http.Strings.{trim_space}

pub data Peer : Type 0 where
  peer_user : ℤ → Peer
  peer_chat : ℤ → Peer
  peer_channel : ℤ → Peer
  other_peer : Peer

pub data InputPeer : Type 0 where
  input_user : ℤ → ℤ → InputPeer
  input_chat : ℤ → InputPeer
  input_channel : ℤ → ℤ → InputPeer

pub record User : Type 0 where
  pub id : ℤ
  pub access_hash : ℤ
  pub first_name : Str
  pub last_name : Str
  pub username : Str

pub data UserClass : Type 0 where
  a_user : User → UserClass
  other_user : UserClass

pub record Channel : Type 0 where
  pub id : ℤ
  pub access_hash : ℤ
  pub title : Str
  pub username : Str

-- A group has an id and a title.
pub data ChatClass : Type 0 where
  a_chat : ℤ → Str → ChatClass
  a_channel : Channel → ChatClass
  other_chat : ChatClass

pub data ReplyTo : Type 0 where
  reply_header : ℤ → ReplyTo
  other_reply : ReplyTo

pub record Message : Type 0 where
  pub id : ℤ
  pub peer_id : Peer
  pub message : Str
  pub date : ℤ
  pub out : Bool
  pub from_id : Option Peer
  pub reply_to : Option ReplyTo
  pub media : Option MessageMedia

pub data MessageClass : Type 0 where
  a_message : Message → MessageClass
  other_message : MessageClass

pub record Dialog : Type 0 where
  pub peer : Peer
  pub top_message : ℤ
  pub unread_count : ℤ

pub data DialogClass : Type 0 where
  a_dialog : Dialog → DialogClass
  other_dialog : DialogClass

pub record Dialogs : Type 0 where
  pub dialogs : List DialogClass
  pub messages : List MessageClass
  pub users : List UserClass
  pub chats : List ChatClass

pub data DialogsClass : Type 0 where
  all_dialogs : Dialogs → DialogsClass
  dialogs_slice : Dialogs → DialogsClass
  other_dialogs : DialogsClass

-- The value that a number has as an int64.
unfoldable pub wrap : ℤ → ℤ
wrap z = of_u64 (to_u64 z)

unfoldable pub peer_to_chat_id : Peer → ℤ
peer_to_chat_id (peer_user id) = id
peer_to_chat_id (peer_chat id) = wrap (pos 0 -ℤ id)
peer_to_chat_id (peer_channel id) = wrap (negsuc 999999999999 -ℤ id)
peer_to_chat_id other_peer = pos 0

-- `m[k]` of a map with int64 keys, to which `m[k] = v` adds a pair in front.
unfoldable pub find {ℓ} : {V : Type ℓ} → ℤ → List (ℤ × V) → Option V
find k [] = none
find k ((j, v) ∷ m) = let rest = find k m in if eqb_ℤ j k then some v else rest

-- The keys of `msgKey` are two numbers with a colon between, so a pair stands for the string.
unfoldable pub find_message : ℤ → ℤ → List (ℤ × ℤ × Message) → Option Message
find_message c id [] = none
find_message c id ((d, i, m) ∷ ms) =
    let rest = find_message c id ms in if eqb_ℤ d c && eqb_ℤ i id then some m else rest

-- The three indexes, from the map that the elements before have made.
unfoldable pub index_messages : List (ℤ × ℤ × Message) → List MessageClass → List (ℤ × ℤ × Message)
index_messages out [] = out
index_messages out (a_message m ∷ ms) =
    index_messages ((peer_to_chat_id m.peer_id, m.id, m) ∷ out) ms
index_messages out (other_message ∷ ms) = index_messages out ms

unfoldable pub index_users : List (ℤ × User) → List UserClass → List (ℤ × User)
index_users out [] = out
index_users out (a_user u ∷ us) = index_users ((u.id, u) ∷ out) us
index_users out (other_user ∷ us) = index_users out us

unfoldable pub index_chats : List (ℤ × ChatClass) → List ChatClass → List (ℤ × ChatClass)
index_chats out [] = out
index_chats out (a_chat id title ∷ cs) = index_chats ((id, a_chat id title) ∷ out) cs
index_chats out (a_channel c ∷ cs) = index_chats ((c.id, a_channel c) ∷ out) cs
index_chats out (other_chat ∷ cs) = index_chats out cs

unfoldable pub unlined : Str → Str
unlined [] = []
unlined (b ∷ s) = (if b == 10 then 32 else b) ∷ unlined s

-- The last three bytes are those of the character "…".
unfoldable pub truncate : Str → ℕ → Str
truncate s n =
    let t = unlined s in if leb (length t) n then t else take (n - 1) t ++ (226 ∷ 128 ∷ 166 ∷ [])

pub record Indexes : Type 0 where
  pub msg_by_key : List (ℤ × ℤ × Message)
  pub user_by_id : List (ℤ × User)
  pub chat_by_id : List (ℤ × ChatClass)

-- The body of the loop up to the last message: the chat, and the peer that it puts in the cache.
unfoldable pub chat_of_peer : Indexes → Chat → Peer → Option (Chat × Option InputPeer)
chat_of_peer ix c (peer_user id) =
    let c = record c { id = id; kind = codes "user" } in
    elim (find id ix.user_by_id) [
      | none ↦ some (c, none)
      | some u ↦ some (
        record c { title = trim_space (u.first_name ++ (32 ∷ u.last_name)); username = u.username },
        some (input_user u.id u.access_hash),
      )
    ]
chat_of_peer ix c (peer_chat id) =
    let c = record c { id = wrap (pos 0 -ℤ id); kind = codes "group" } in
    elim (find id ix.chat_by_id) [
      | none ↦ some (c, none)
      | some (a_chat i title) ↦ some (record c { title = title }, some (input_chat i))
      | some (a_channel ch) ↦ some (c, none)
      | some other_chat ↦ some (c, none)
    ]
chat_of_peer ix c (peer_channel id) =
    let c = record c { id = wrap (negsuc 999999999999 -ℤ id); kind = codes "channel" } in
    elim (find id ix.chat_by_id) [
      | none ↦ some (c, none)
      | some (a_chat i title) ↦ some (c, none)
      | some (a_channel ch) ↦ some (
        record c { title = ch.title; username = ch.username },
        some (input_channel ch.id ch.access_hash),
      )
      | some other_chat ↦ some (c, none)
    ]
chat_of_peer ix c other_peer = none

-- The last message of a dialog, if the answer holds it.
unfoldable pub with_last : Indexes → Dialog → Chat → Chat
with_last ix d c = elim (find_message (peer_to_chat_id d.peer) d.top_message ix.msg_by_key) [
  | none ↦ c
  | some m ↦ record c { last_msg = truncate m.message 80; last_ts = m.date }
]

abbrev pub empty_chat : ℤ → Chat
empty_chat unread = record {
  id = pos 0;
  kind = [];
  title = [];
  unread = unread;
  last_msg = [];
  last_ts = pos 0;
  username = [];
}

-- `cachePeer`, where the loop calls it.
unfoldable pub cache_peer : ℤ → Option InputPeer → List (ℤ × InputPeer) → List (ℤ × InputPeer)
cache_peer id none cache = cache
cache_peer id (some p) cache = (id, p) ∷ cache

-- The loop of `ListChats`: the peer cache and the chats.
unfoldable pub list_dialogs :
    Indexes → List DialogClass → List (ℤ × InputPeer) → List (ℤ × InputPeer) × List Chat
list_dialogs ix [] cache = (cache, [])
list_dialogs ix (other_dialog ∷ ds) cache = list_dialogs ix ds cache
list_dialogs ix (a_dialog d ∷ ds) cache =
    elim (chat_of_peer ix (empty_chat d.unread_count) d.peer) [
      | none ↦ list_dialogs ix ds cache
      | some (c, p) ↦
          let (cache', out) = list_dialogs ix ds (cache_peer c.id p cache) in
          (cache', with_last ix d c ∷ out)
    ]

-- The Telegram side: whether `waitReady` returns without an error, and the answers.
pub record Api : Type 0 where
  pub ready : Bool
  pub get_dialogs : ℤ → Option DialogsClass

unfoldable pub list_answer :
    List (ℤ × InputPeer) → Dialogs → List (ℤ × InputPeer) × Option (List Chat)
list_answer cache v =
    let ix : Indexes = record {
      msg_by_key = index_messages [] v.messages;
      user_by_id = index_users [] v.users;
      chat_by_id = index_chats [] v.chats;
    } in
    let (cache', out) = list_dialogs ix v.dialogs cache in (cache', some out)

unfoldable pub list_chats :
    Api → List (ℤ × InputPeer) → ℤ → List (ℤ × InputPeer) × Option (List Chat)
list_chats api cache limit = elim api.ready [
  | false ↦ (cache, none)
  | true ↦
      let limit = if ltb_ℤ limit (pos 1) || ltb_ℤ (pos 200) limit then pos 50 else limit in
      elim (api.get_dialogs limit) [
        | none ↦ (cache, none)
        | some (all_dialogs v) ↦ list_answer cache v
        | some (dialogs_slice v) ↦ list_answer cache v
        | some other_dialogs ↦ (cache, none)
      ]
]

unfoldable pub resolve_peer :
    Api → List (ℤ × InputPeer) → ℤ → List (ℤ × InputPeer) × Option InputPeer
resolve_peer api cache id = elim (find id cache) [
  | some p ↦ (cache, some p)
  | none ↦
      let (cache', listed) = list_chats api cache (pos 200) in
      (cache', elim listed [ none ↦ none | some out ↦ find id cache' ])
]

-- The calls of Telegram that address a chat.
pub data ApiCall : Type 0 where
  sends_text : InputPeer → Str → ApiCall
  reads_channel : ℤ → ℤ → ℤ → ApiCall
  reads_history : InputPeer → ℤ → ApiCall
  gets_history : InputPeer → ℤ → ℤ → ApiCall

unfoldable pub read_call : InputPeer → ℤ → ApiCall
read_call (input_channel id hash) up_to = reads_channel id hash up_to
read_call (input_user id hash) up_to = reads_history (input_user id hash) up_to
read_call (input_chat id) up_to = reads_history (input_chat id) up_to

-- `SendText`, `MarkRead` and `GetMessages` up to their call of Telegram, which `none` says is not reached.
unfoldable pub send_text :
    Api → List (ℤ × InputPeer) → ℤ → Str → List (ℤ × InputPeer) × Option ApiCall
send_text api cache id text = elim api.ready [
  | false ↦ (cache, none)
  | true ↦
      let (cache', peer) = resolve_peer api cache id in
      (cache', elim peer [ none ↦ none | some p ↦ some (sends_text p text) ])
]

unfoldable pub mark_read :
    Api → List (ℤ × InputPeer) → ℤ → ℤ → List (ℤ × InputPeer) × Option ApiCall
mark_read api cache id up_to = elim api.ready [
  | false ↦ (cache, none)
  | true ↦
      let (cache', peer) = resolve_peer api cache id in
      (cache', elim peer [ none ↦ none | some p ↦ some (read_call p up_to) ])
]

unfoldable pub get_messages :
    Api → List (ℤ × InputPeer) → ℤ → ℤ → ℤ → List (ℤ × InputPeer) × Option ApiCall
get_messages api cache id limit before = elim api.ready [
  | false ↦ (cache, none)
  | true ↦
      let (cache', peer) = resolve_peer api cache id in
      let limit = if ltb_ℤ limit (pos 1) || ltb_ℤ (pos 100) limit then pos 30 else limit in
      (cache', elim peer [ none ↦ none | some p ↦ some (gets_history p limit before) ])
]

-- The operations that use the peer cache, each with the chat it is for.
pub data Op : Type 0 where
  lists : ℤ → Op
  sends : ℤ → Str → Op
  marks : ℤ → ℤ → Op
  gets : ℤ → ℤ → ℤ → Op

unfoldable pub log_call : ℤ → Option ApiCall → List (ℤ × ApiCall) → List (ℤ × ApiCall)
log_call id none out = out
log_call id (some k) out = (id, k) ∷ out

-- The calls that operations make one after the other, each with the chat that was asked for. What
-- Telegram answers may differ from one operation to the next.
unfoldable pub trace : List (ℤ × InputPeer) → List (Api × Op) → List (ℤ × ApiCall)
trace cache [] = []
trace cache ((api, lists limit) ∷ ops) = trace (list_chats api cache limit).0 ops
trace cache ((api, sends id text) ∷ ops) =
    let (cache', k) = send_text api cache id text in log_call id k (trace cache' ops)
trace cache ((api, marks id up_to) ∷ ops) =
    let (cache', k) = mark_read api cache id up_to in log_call id k (trace cache' ops)
trace cache ((api, gets id limit before) ∷ ops) =
    let (cache', k) = get_messages api cache id limit before in log_call id k (trace cache' ops)
