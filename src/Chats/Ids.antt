-- ===== src/Chats/Ids.antt =====
-- The chat ids of `peerToChatID` in internal/bridge/chats.go tell peers apart.
use tg_bridge.Prelude.{ℕ, ◌+◌, ◌-◌, ◌^◌, ◌≡◌, ◌≤◌, ◌<◌, ap, sym, ◌∙◌, arith}
use tg_bridge.Prelude.Int.{pos, negsuc, ◌-ℤ◌, to_u64, of_u64}
use tg_bridge.Chats.{Peer, peer_user, peer_chat, peer_channel, wrap, peer_to_chat_id}

-- The ids that Telegram documents for the Bot API's numbering: users and channels have positive
-- ids, those of channels below 2^62, and groups have positive ids up to 999999999999.
pub data IsRegular : Peer → Type 0 where
  user : (n : ℕ) → 0 < n → IsRegular (peer_user (pos n))
  group : (n : ℕ) → 0 < n → n ≤ 999999999999 → IsRegular (peer_chat (pos n))
  channel : (n : ℕ) → 0 < n → n < 2 ^ 62 → IsRegular (peer_channel (pos n))

group_id : (n : ℕ) → 0 < n → n ≤ 999999999999 → peer_to_chat_id (peer_chat (pos n)) ≡ negsuc (n - 1)
unfolding peer_to_chat_id wrap ◌-ℤ◌ to_u64 of_u64
group_id n lo hi = ground arith

channel_id :
    (n : ℕ) → n < 2 ^ 62 → peer_to_chat_id (peer_channel (pos n)) ≡ negsuc (n + 999999999999)
unfolding peer_to_chat_id wrap ◌-ℤ◌ to_u64 of_u64
channel_id n hi = ground arith

-- Two peers with ids of Telegram's ranges that have the same chat id are the same peer.
pub peer_to_chat_id_injective :
    (p q : Peer) → IsRegular p → IsRegular q → peer_to_chat_id p ≡ peer_to_chat_id q → p ≡ q
unfolding peer_to_chat_id
peer_to_chat_id_injective _ _ (user n l) (user m k) e = ap peer_user e
peer_to_chat_id_injective _ _ (user n l) (group m k h) e = let f = e ∙ group_id m k h in cc
peer_to_chat_id_injective _ _ (user n l) (channel m k h) e = let f = e ∙ channel_id m h in cc
peer_to_chat_id_injective _ _ (group n l g) (user m k) e = let f = sym (group_id n l g) ∙ e in cc
peer_to_chat_id_injective _ _ (group n l g) (group m k h) e =
    let f = sym (group_id n l g) ∙ e ∙ group_id m k h in
    let same : n ≡ m = ground arith in ap (λ x. peer_chat (pos x)) same
peer_to_chat_id_injective _ _ (group n l g) (channel m k h) e =
    let f = sym (group_id n l g) ∙ e ∙ channel_id m h in ground arith
peer_to_chat_id_injective _ _ (channel n l g) (user m k) e = let f = sym (channel_id n g) ∙ e in cc
peer_to_chat_id_injective _ _ (channel n l g) (group m k h) e =
    let f = sym (channel_id n g) ∙ e ∙ group_id m k h in ground arith
peer_to_chat_id_injective _ _ (channel n l g) (channel m k h) e =
    let f = sym (channel_id n g) ∙ e ∙ channel_id m h in
    let same : n ≡ m = ground arith in ap (λ x. peer_channel (pos x)) same
