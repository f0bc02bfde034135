-- ===== src/Chats/Peers.antt =====
-- A chat id is resolved to the peer of that very chat: the peer cache of internal/bridge/chats.go
-- never mixes chats up, and so no message and no read mark goes to another chat.
use tg_bridge.Prelude.{
  ◌≡◌, inl, inr, refl, ap, ◌∙◌, ◌||◌, Option, none, some, List, [], ◌∷◌, Str, All, Bool-cases,
  Option-cases, subst, if◌then◌else◌,
}
use tg_bridge.Prelude.Int.{ℤ, pos, negsuc, ◌-ℤ◌, ltb_ℤ, eqb_ℤ, eqb_ℤ_iff}
use tg_bridge.Http.{Chat}
use tg_bridge.Chats.{
  Peer, peer_user, peer_chat, peer_channel, other_peer, InputPeer, input_user, input_chat,
  input_channel, User, UserClass, a_user, other_user, ChatClass, a_chat, a_channel, other_chat,
  DialogClass, a_dialog, other_dialog, Dialogs, all_dialogs, dialogs_slice, other_dialogs, wrap,
  find, index_users, index_chats, Indexes, chat_of_peer, cache_peer, list_dialogs, Api, list_answer,
  list_chats, resolve_peer, ApiCall, sends_text, reads_channel, reads_history, read_call, send_text,
  mark_read, gets_history, get_messages, Op, lists, sends, marks, gets, log_call, trace,
  peer_to_chat_id, empty_chat,
}

-- The peer that an input peer addresses.
abbrev pub peer_of : InputPeer → Peer
peer_of (input_user id hash) = peer_user id
peer_of (input_chat id) = peer_chat id
peer_of (input_channel id hash) = peer_channel id

-- Every cached peer stands under its own chat id.
abbrev pub IsKeyed : List (ℤ × InputPeer) → Type 0
IsKeyed cache = All (λ t. peer_to_chat_id (peer_of t.1) ≡ t.0) cache

find-All {ℓ κ} :
    {V : Type ℓ} (P : ℤ × V → Type κ) (k : ℤ) (v : V) (m : List (ℤ × V))
    → All P m
    → find k m ≡ some v
    → P (k, v)
unfolding find
find-All P k v [] all e = cc
find-All P k v ((j, w) ∷ m) (p, all) e = elim (Bool-cases (eqb_ℤ j k)) [
  | inl same ↦
      let key : j ≡ k = (eqb_ℤ_iff j k).0 same in
      let found : some w ≡ some v = rw same at e in
      let value : w ≡ v = cc in subst (λ x. P (x, v)) key (subst (λ x. P (j, x)) value p)
  | inr other ↦ find-All P k v m all (rw other at e)
]

index_users-All :
    (us : List UserClass) (out : List (ℤ × User))
    → All (λ t. t.1.id ≡ t.0) out
    → All (λ t. t.1.id ≡ t.0) (index_users out us)
unfolding index_users
index_users-All [] out all = all
index_users-All (a_user u ∷ us) out all = index_users-All us ((u.id, u) ∷ out) (refl, all)
index_users-All (other_user ∷ us) out all = index_users-All us out all

abbrev HasId : ℤ × ChatClass → Type 0
HasId (k, a_chat id title) = id ≡ k
HasId (k, a_channel c) = c.id ≡ k
HasId (k, other_chat) = Unit

index_chats-All :
    (cs : List ChatClass) (out : List (ℤ × ChatClass))
    → All HasId out
    → All HasId (index_chats out cs)
unfolding index_chats
index_chats-All [] out all = all
index_chats-All (a_chat id title ∷ cs) out all =
    index_chats-All cs ((id, a_chat id title) ∷ out) (refl, all)
index_chats-All (a_channel c ∷ cs) out all =
    index_chats-All cs ((c.id, a_channel c) ∷ out) (refl, all)
index_chats-All (other_chat ∷ cs) out all = index_chats-All cs out all

record IsIndexed (ix : Indexes) : Type 0 where
  users : All (λ t. t.1.id ≡ t.0) ix.user_by_id
  chats : All HasId ix.chat_by_id

-- The peer that is cached for a chat of the list has the id of that chat.
abbrev Fits : Option (Chat × Option InputPeer) → Type 0
Fits none = Unit
Fits (some (c, none)) = Unit
Fits (some (c, some q)) = peer_to_chat_id (peer_of q) ≡ c.id

chat_of_peer-Fits : (ix : Indexes) (c : Chat) (p : Peer) → IsIndexed ix → Fits (chat_of_peer ix c p)
unfolding chat_of_peer peer_to_chat_id
chat_of_peer-Fits ix c (peer_user id) v = elim (Option-cases (find id ix.user_by_id)) [
  | inl e ↦ rw (Fits, e) tt
  | inr (u, e) ↦ rw (Fits, e) (find-All (λ t. t.1.id ≡ t.0) id u ix.user_by_id v.users e)
]
chat_of_peer-Fits ix c (peer_chat id) v = elim (Option-cases (find id ix.chat_by_id)) [
  | inl e ↦ rw (Fits, e) tt
  | inr (a_chat i title, e) ↦
      rw (Fits, e) (ap (λ x. wrap (pos 0 -ℤ x)) (find-All HasId id _ ix.chat_by_id v.chats e))
  | inr (a_channel ch, e) ↦ rw (Fits, e) tt
  | inr (other_chat, e) ↦ rw (Fits, e) tt
]
chat_of_peer-Fits ix c (peer_channel id) v = elim (Option-cases (find id ix.chat_by_id)) [
  | inl e ↦ rw (Fits, e) tt
  | inr (a_chat i title, e) ↦ rw (Fits, e) tt
  | inr (a_channel ch, e) ↦
      rw (Fits, e)
        (ap (λ x. wrap (negsuc 999999999999 -ℤ x)) (find-All HasId id _ ix.chat_by_id v.chats e))
  | inr (other_chat, e) ↦ rw (Fits, e) tt
]
chat_of_peer-Fits ix c other_peer v = tt

list_dialogs-IsKeyed :
    (ix : Indexes) (ds : List DialogClass) (cache : List (ℤ × InputPeer))
    → IsIndexed ix
    → IsKeyed cache
    → IsKeyed (list_dialogs ix ds cache).0
unfolding list_dialogs cache_peer
list_dialogs-IsKeyed ix [] cache v k = k
list_dialogs-IsKeyed ix (other_dialog ∷ ds) cache v k = list_dialogs-IsKeyed ix ds cache v k
list_dialogs-IsKeyed ix (a_dialog d ∷ ds) cache v k =
    let fits = chat_of_peer-Fits ix (empty_chat d.unread_count) d.peer v in
    elim (Option-cases (chat_of_peer ix (empty_chat d.unread_count) d.peer)) [
      | inl e ↦ rw (list_dialogs, e) (list_dialogs-IsKeyed ix ds cache v k)
      | inr ((c, none), e) ↦ rw (list_dialogs, e) (list_dialogs-IsKeyed ix ds cache v k)
      | inr ((c, some p), e) ↦
          rw (list_dialogs, e)
            (list_dialogs-IsKeyed ix ds ((c.id, p) ∷ cache) v (subst Fits e fits, k))
    ]

list_answer-IsKeyed :
    (cache : List (ℤ × InputPeer)) (v : Dialogs) → IsKeyed cache → IsKeyed (list_answer cache v).0
unfolding list_answer
list_answer-IsKeyed cache v k =
    list_dialogs-IsKeyed _ v.dialogs cache
      (record { users = index_users-All v.users [] tt; chats = index_chats-All v.chats [] tt }) k

pub list_chats-IsKeyed :
    (api : Api) (cache : List (ℤ × InputPeer)) (limit : ℤ)
    → IsKeyed cache
    → IsKeyed (list_chats api cache limit).0
unfolding list_chats
list_chats-IsKeyed api cache limit k = elim (Bool-cases api.ready) [
  | inr e ↦ rw e k
  | inl e ↦
      elim (Option-cases (
        api.get_dialogs (if ltb_ℤ limit (pos 1) || ltb_ℤ (pos 200) limit then pos 50 else limit))) [
          | inl a ↦ rw (e, list_chats, a) k
          | inr (all_dialogs v, a) ↦ rw (e, list_chats, a) (list_answer-IsKeyed cache v k)
          | inr (dialogs_slice v, a) ↦ rw (e, list_chats, a) (list_answer-IsKeyed cache v k)
          | inr (other_dialogs, a) ↦ rw (e, list_chats, a) k
        ]
]

-- The peer that a look-up gives has the id that was asked for.
abbrev pub Addresses : ℤ → Option InputPeer → Type 0
Addresses id none = Unit
Addresses id (some p) = peer_to_chat_id (peer_of p) ≡ id

find-Addresses :
    (id : ℤ) (cache : List (ℤ × InputPeer)) → IsKeyed cache → Addresses id (find id cache)
find-Addresses id cache k = elim (Option-cases (find id cache)) [
  | inl e ↦ rw e tt
  | inr (p, e) ↦ rw e (find-All (λ t. peer_to_chat_id (peer_of t.1) ≡ t.0) id p cache k e)
]

resolve_peer-Addresses :
    (api : Api) (cache : List (ℤ × InputPeer)) (id : ℤ)
    → IsKeyed cache
    → IsKeyed (resolve_peer api cache id).0 × Addresses id (resolve_peer api cache id).1
unfolding resolve_peer
resolve_peer-Addresses api cache id k =
    let cached = find-Addresses id cache k in
    let refreshed = list_chats-IsKeyed api cache (pos 200) k in
    elim (Option-cases (find id cache)) [
      | inr (p, e) ↦ rw (resolve_peer, e) (k, subst (Addresses id) e cached)
      | inl e ↦ elim (Option-cases (list_chats api cache (pos 200)).1) [
        | inl l ↦ rw (resolve_peer, e, l) (refreshed, tt)
        | inr (out, l) ↦ rw (resolve_peer, e, l) (refreshed, find-Addresses id _ refreshed)
      ]
    ]

-- The peer that a call of Telegram is for.
abbrev pub target : ApiCall → Peer
target (sends_text p text) = peer_of p
target (reads_channel id hash up_to) = peer_channel id
target (reads_history p up_to) = peer_of p
target (gets_history p limit before) = peer_of p

abbrev pub IsFor : ℤ × ApiCall → Type 0
IsFor (id, k) = peer_to_chat_id (target k) ≡ id

-- What an operation for a chat leaves.
abbrev pub Stays : ℤ → List (ℤ × InputPeer) × Option ApiCall → Type 0
Stays id (cache, none) = IsKeyed cache
Stays id (cache, some k) = IsKeyed cache × IsFor (id, k)

pub send_text-Stays :
    (api : Api) (cache : List (ℤ × InputPeer)) (id : ℤ) (text : Str)
    → IsKeyed cache
    → Stays id (send_text api cache id text)
unfolding send_text
send_text-Stays api cache id text k =
    let (kept, found) = resolve_peer-Addresses api cache id k in
    elim (Bool-cases api.ready) [
      | inr e ↦ rw (send_text, e) k
      | inl e ↦ elim (Option-cases (resolve_peer api cache id).1) [
        | inl p ↦ rw (send_text, e, p) kept
        | inr (q, p) ↦ rw (send_text, e, p) (kept, subst (Addresses id) p found)
      ]
    ]

read_call-target : (p : InputPeer) (up_to : ℤ) → target (read_call p up_to) ≡ peer_of p
unfolding read_call
read_call-target (input_channel id hash) up_to = refl
read_call-target (input_user id hash) up_to = refl
read_call-target (input_chat id) up_to = refl

pub mark_read-Stays :
    (api : Api) (cache : List (ℤ × InputPeer)) (id up_to : ℤ)
    → IsKeyed cache
    → Stays id (mark_read api cache id up_to)
unfolding mark_read
mark_read-Stays api cache id up_to k =
    let (kept, found) = resolve_peer-Addresses api cache id k in
    elim (Bool-cases api.ready) [
      | inr e ↦ rw (mark_read, e) k
      | inl e ↦ elim (Option-cases (resolve_peer api cache id).1) [
        | inl p ↦ rw (mark_read, e, p) kept
        | inr (q, p) ↦
            rw (mark_read, e, p)
              (kept, ap peer_to_chat_id (read_call-target q up_to) ∙ subst (Addresses id) p found)
      ]
    ]

pub get_messages-Stays :
    (api : Api) (cache : List (ℤ × InputPeer)) (id limit before : ℤ)
    → IsKeyed cache
    → Stays id (get_messages api cache id limit before)
unfolding get_messages
get_messages-Stays api cache id limit before k =
    let (kept, found) = resolve_peer-Addresses api cache id k in
    elim (Bool-cases api.ready) [
      | inr e ↦ rw (get_messages, e) k
      | inl e ↦ elim (Option-cases (resolve_peer api cache id).1) [
        | inl p ↦ rw (get_messages, e, p) kept
        | inr (q, p) ↦ rw (get_messages, e, p) (kept, subst (Addresses id) p found)
      ]
    ]

log_call-All :
    (id : ℤ) (r : List (ℤ × InputPeer) × Option ApiCall)
    (go : List (ℤ × InputPeer) → List (ℤ × ApiCall))
    → Stays id r
    → ((cache : List (ℤ × InputPeer)) → IsKeyed cache → All IsFor (go cache))
    → All IsFor (log_call id r.1 (go r.0))
unfolding log_call
log_call-All id (cache, none) go k rest = rest cache k
log_call-All id (cache, some c) go (k, f) rest = (f, rest cache k)

trace-IsFor :
    (ops : List (Api × Op)) (cache : List (ℤ × InputPeer))
    → IsKeyed cache
    → All IsFor (trace cache ops)
unfolding trace
trace-IsFor [] cache k = tt
trace-IsFor ((api, lists limit) ∷ ops) cache k =
    trace-IsFor ops _ (list_chats-IsKeyed api cache limit k)
trace-IsFor ((api, sends id text) ∷ ops) cache k =
    log_call-All id _ (λ c. trace c ops) (send_text-Stays api cache id text k) (trace-IsFor ops)
trace-IsFor ((api, marks id up_to) ∷ ops) cache k =
    log_call-All id _ (λ c. trace c ops) (mark_read-Stays api cache id up_to k) (trace-IsFor ops)
trace-IsFor ((api, gets id limit before) ∷ ops) cache k =
    log_call-All id _ (λ c. trace c ops) (get_messages-Stays api cache id limit before k)
      (trace-IsFor ops)

-- From an empty peer cache, whatever the operations and whatever Telegram answers to each of them,
-- every text, read mark and query of a history goes to a peer whose chat id is the one that the
-- operation was asked for.
pub trace-empty : (ops : List (Api × Op)) → All IsFor (trace [] ops)
trace-empty ops = trace-IsFor ops [] tt
