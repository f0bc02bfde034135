-- ===== src/Http/Access.antt =====
-- The allow-lists of internal/httpapi (chats.go, ws.go) and of internal/bridge/bridge.go agree.
use tg_bridge.Prelude.{
  ◌≡◌, ◌↔◌, ◌⊎◌, inl, inr, refl, sym, Bool, true, ◌&&◌, some, List, [], ◌∷◌, All, Bool-cases,
  if◌then◌else◌, subst,
}
use tg_bridge.Prelude.Int.{ℤ, eqb_ℤ, eqb_ℤ_iff}
use tg_bridge.Config.{ClientConfig, Config}
use tg_bridge.Http.{
  Chat, holds, no_list, client_can_access, event_allowed, chat_allowed, keep_allowed, filter_chats,
}

-- The id stands in the list.
abbrev pub Has : ℤ → List ℤ → Type 0
Has id [] = ⊥
Has id (a ∷ allow) = (a ≡ id) ⊎ Has id allow

-- An allow-list permits an id when it is empty or has the id.
abbrev pub Permits : List ℤ → ℤ → Type 0
Permits allow id = (allow ≡ []) ⊎ Has id allow

holds_iff : (id : ℤ) (allow : List ℤ) → (holds id allow ≡ true) ↔ Has id allow
unfolding holds
holds_iff id [] = (λ e. cc, λ h. absurd h)
holds_iff id (a ∷ allow) = elim (Bool-cases (eqb_ℤ a id)) [
  | inl same ↦ rw same (λ e. inl ((eqb_ℤ_iff a id).0 same), λ h. refl)
  | inr other ↦ rw other (
    λ e. inr ((holds_iff id allow).0 e),
    λ h. elim h [ inl q ↦ let t = (eqb_ℤ_iff a id).1 q in cc | inr q ↦ (holds_iff id allow).1 q ],
  )
]

-- The test that the loops of the source make of a list.
passes_iff :
    (allow : List ℤ) (id : ℤ)
    → ((if no_list allow then true else holds id allow) ≡ true) ↔ Permits allow id
passes_iff [] id = (λ e. inl refl, λ p. refl)
passes_iff (a ∷ allow) id = (
  λ e. inr ((holds_iff id (a ∷ allow)).0 e),
  λ p. elim p [ inl q ↦ cc | inr h ↦ (holds_iff id (a ∷ allow)).1 h ],
)

pub client_can_access_iff :
    (cl : ClientConfig) (id : ℤ)
    → (client_can_access (some cl) id ≡ true) ↔ Permits cl.allowed_chats id
unfolding client_can_access
client_can_access_iff cl id = passes_iff cl.allowed_chats id

both : {a b : Bool} {P Q : Type 0} → (a ≡ true) ↔ P → (b ≡ true) ↔ Q → (a && b ≡ true) ↔ (P × Q)
both {a} {b} p q = elim (Bool-cases a) [
  | inl e ↦ rw e (λ t. (p.0 e, q.0 t), λ r. q.1 r.1)
  | inr e ↦ rw e (λ t. cc, λ r. let t = p.1 r.0 in cc)
]

-- A message of a chat reaches the event stream of a client exactly when two allow-lists permit the
-- chat: that of the first client of the configuration and the client's own.
pub event_allowed_iff :
    (c : Config) (first cl : ClientConfig) (others : List ClientConfig) (id : ℤ)
    → c.clients ≡ first ∷ others
    → (chat_allowed c id && event_allowed (some cl) id ≡ true)
      ↔ (Permits first.allowed_chats id × Permits cl.allowed_chats id)
unfolding chat_allowed event_allowed
event_allowed_iff c first cl others id e =
    rw e (both (passes_iff first.allowed_chats id) (passes_iff cl.allowed_chats id))

abbrev pub filter : (Chat → Bool) → List Chat → List Chat
filter p [] = []
filter p (x ∷ xs) = let rest = filter p xs in if p x then x ∷ rest else rest

filter_all : (p : Chat → Bool) (cs : List Chat) → ((x : Chat) → p x ≡ true) → filter p cs ≡ cs
filter_all p [] all = refl
filter_all p (x ∷ xs) all = rw (all x, filter_all p xs all) refl

keep-filter :
    (allow : List ℤ) (cs : List Chat) → keep_allowed allow cs ≡ filter (λ x. holds x.id allow) cs
unfolding keep_allowed
keep-filter allow [] = refl
keep-filter allow (c ∷ cs) = rw (keep-filter allow cs) refl

-- The chats that a client gets of a list are those that it can open by their id, in the order of
-- the list.
filter_chats-filter :
    (cl : ClientConfig) (cs : List Chat)
    → filter_chats (some cl) cs ≡ filter (λ x. client_can_access (some cl) x.id) cs
unfolding filter_chats client_can_access
filter_chats-filter cl cs = elim (Bool-cases (no_list cl.allowed_chats)) [
  | inl e ↦ rw e (sym (filter_all (λ x. true) cs (λ x. refl)))
  | inr e ↦ rw e (keep-filter cl.allowed_chats cs)
]

filter-All {κ} :
    (P : Chat → Type κ) (p : Chat → Bool) (cs : List Chat)
    → ((x : Chat) → p x ≡ true → P x)
    → All P (filter p cs)
filter-All P p [] imp = tt
filter-All P p (x ∷ xs) imp = elim (Bool-cases (p x)) [
  | inl e ↦ rw e (imp x e, filter-All P p xs imp)
  | inr e ↦ rw e (filter-All P p xs imp)
]

pub filter_chats-Permits :
    (cl : ClientConfig) (cs : List Chat)
    → All (λ x. Permits cl.allowed_chats x.id) (filter_chats (some cl) cs)
filter_chats-Permits cl cs =
    subst (All (λ x. Permits cl.allowed_chats x.id)) (sym (filter_chats-filter cl cs))
      (filter-All _ _ cs (λ x. (client_can_access_iff cl x.id).0))
