-- ===== src/Chats/Sent.antt =====
-- The id of a sent message: `extractMessageID` of internal/bridge/media.go, and the end of
-- `SendText` in internal/bridge/send.go.
use tg_bridge.Prelude.{◌≡◌, refl, ◌∙◌, arith, Option, none, some, List, [], ◌∷◌, ◌++◌, Str, All}
use tg_bridge.Prelude.Int.{ℤ, pos}
use tg_bridge.Chats.{InputPeer, MessageClass, a_message, other_message, Api, ApiCall, send_text}

-- An update in the answer to a sent message, and the answer.
pub data SentUpdate : Type 0 where
  new_message new_channel_message : MessageClass → SentUpdate
  message_id : ℤ → SentUpdate
  other_update : SentUpdate

pub data SentAnswer : Type 0 where
  short_sent_message : ℤ → SentAnswer
  updates : List SentUpdate → SentAnswer
  other_answer : SentAnswer

-- The loop over the updates.
unfoldable pub first_id : List SentUpdate → ℤ
first_id [] = pos 0
first_id (new_message (a_message m) ∷ us) = m.id
first_id (new_message other_message ∷ us) = first_id us
first_id (new_channel_message (a_message m) ∷ us) = m.id
first_id (new_channel_message other_message ∷ us) = first_id us
first_id (message_id id ∷ us) = id
first_id (other_update ∷ us) = first_id us

unfoldable pub extract_message_id : SentAnswer → ℤ
extract_message_id (short_sent_message id) = id
extract_message_id (updates us) = first_id us
extract_message_id other_answer = pos 0

-- `SendText`: the peer cache, the call of Telegram, and the id or (`none`) an error. `answer` is
-- what Telegram answers to the call.
unfoldable pub send_message :
    Api
    → List (ℤ × InputPeer)
    → ℤ
    → Str
    → Option SentAnswer
    → List (ℤ × InputPeer) × Option ApiCall × Option ℤ
send_message api cache id text answer =
    let (cache', call) = send_text api cache id text in
    (
      cache',
      call,
      elim call [
        | none ↦ none
        | some k ↦ elim answer [ none ↦ none | some u ↦ some (extract_message_id u) ]
      ],
    )

-- The id that an update carries.
abbrev pub carried : SentUpdate → Option ℤ
carried (new_message (a_message m)) = some m.id
carried (new_message other_message) = none
carried (new_channel_message (a_message m)) = some m.id
carried (new_channel_message other_message) = none
carried (message_id id) = some id
carried other_update = none

skips : (b : SentUpdate) (us : List SentUpdate) → carried b ≡ none → first_id (b ∷ us) ≡ first_id us
unfolding first_id
skips (new_message (a_message m)) us e = absurd (cc)
skips (new_message other_message) us e = refl
skips (new_channel_message (a_message m)) us e = absurd (cc)
skips (new_channel_message other_message) us e = refl
skips (message_id id) us e = absurd (cc)
skips other_update us e = refl

-- Updates that carry no id are passed over.
extract_message_id-append :
    (before after : List SentUpdate) (u : SentUpdate) (id : ℤ)
    → All (λ b. carried b ≡ none) before
    → carried u ≡ some id
    → (extract_message_id (updates (before ++ u ∷ after)) ≡ id)
      × (extract_message_id (updates before) ≡ pos 0)
unfolding extract_message_id first_id
extract_message_id-append [] after (new_message (a_message m)) id all e = (ground arith, refl)
extract_message_id-append [] after (new_message other_message) id all e = absurd (cc)
extract_message_id-append [] after (new_channel_message (a_message m)) id all e =
    (ground arith, refl)
extract_message_id-append [] after (new_channel_message other_message) id all e = absurd (cc)
extract_message_id-append [] after (message_id i) id all e = (ground arith, refl)
extract_message_id-append [] after other_update id all e = absurd (cc)
extract_message_id-append (b ∷ before) after u id (none_here, all) e =
    let (found, nothing) = extract_message_id-append before after u id all e in
    (skips b (before ++ u ∷ after) none_here ∙ found, skips b before none_here ∙ nothing)

-- When the text is sent and Telegram answers with updates, `SendText` returns the id of the first
-- update that carries one, and 0 when none does; when Telegram answers with an error, it returns an
-- error.
send_message-first :
    (api : Api) (cache : List (ℤ × InputPeer)) (chat : ℤ) (text : Str) (call : ApiCall)
    (before after : List SentUpdate) (u : SentUpdate) (id : ℤ)
    → (send_text api cache chat text).1 ≡ some call
    → All (λ b. carried b ≡ none) before
    → carried u ≡ some id
    → ((send_message api cache chat text (some (updates (before ++ u ∷ after)))).2 ≡ some id)
      × ((send_message api cache chat text (some (updates before))).2 ≡ some (pos 0))
      × ((send_message api cache chat text none).2 ≡ none)
unfolding send_message
send_message-first api cache chat text call before after u id sent all e =
    let (found, nothing) = extract_message_id-append before after u id all e in
    (
      rw (send_message, sent, found) refl,
      rw (send_message, sent, nothing) refl,
      rw (send_message, sent) refl,
    )
