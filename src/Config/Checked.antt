-- ===== src/Config/Checked.antt =====
-- What a configuration that passed `validate` of internal/config/config.go guarantees.
use tg_bridge.Prelude.{
  ℕ, ◌+◌, ◌≡◌, ◌≢◌, ◌↔◌, inl, inr, refl, sym, ap, ◌∙◌, true, false, none, some, List, [], ◌∷◌, ◌++◌,
  Option, Option-cases, Str, str_eq, str_eq_iff, is_empty, All, arith, Bool-cases,
}
use tg_bridge.Prelude.Int.{ℤ, pos, eqb_ℤ, eqb_ℤ_iff}
use tg_bridge.Config.{
  ClientConfig, Config, token_missing, set_defaults, has_none, validate, load, find_token,
}

-- What `validate` asks of a configuration.
pub record IsComplete (c : Config) : Type 0 where
  pub listen : c.listen ≢ []
  pub api_id : c.telegram.api_id ≢ pos 0
  pub api_hash : c.telegram.api_hash ≢ []
  pub session_dir : c.telegram.session_dir ≢ []
  pub clients : c.clients ≢ []
  pub tokens : All (λ cl. cl.token ≢ []) c.clients

pub is_empty_iff : (s : Str) → (is_empty s ≡ false) ↔ (s ≢ [])
is_empty_iff [] = (λ e. cc, λ ne. absurd (ne refl))
is_empty_iff (x ∷ s) = (λ e. λ q. cc, λ ne. refl)

eqb_ℤ-false_iff : (a b : ℤ) → (eqb_ℤ a b ≡ false) ↔ (a ≢ b)
eqb_ℤ-false_iff a b = elim (Bool-cases (eqb_ℤ a b)) [
  | inl e ↦ (λ q. cc, λ ne. absurd (ne ((eqb_ℤ_iff a b).0 e)))
  | inr e ↦ (λ q. λ same. let t = (eqb_ℤ_iff a b).1 same in cc, λ ne. e)
]

is_empty_ne : (s : Str) → is_empty s ≡ true → s ≢ [] → ⊥
is_empty_ne [] e ne = ne refl
is_empty_ne (x ∷ s) e ne = cc

has_none_iff : (cs : List ClientConfig) → (has_none cs ≡ false) ↔ (cs ≢ [])
has_none_iff [] = (λ e. cc, λ ne. absurd (ne refl))
has_none_iff (cl ∷ cs) = (λ e. λ q. cc, λ ne. refl)

token_missing_iff :
    (i : ℕ) (cs : List ClientConfig) → (token_missing i cs ≡ none) ↔ All (λ cl. cl.token ≢ []) cs
unfolding token_missing
token_missing_iff i [] = (λ e. tt, λ e. refl)
token_missing_iff i (cl ∷ cs) = elim (Bool-cases (is_empty cl.token)) [
  | inl e ↦ rw e (λ q. cc, λ q. absurd (is_empty_ne cl.token e q.0))
  | inr e ↦ rw e (
    λ q. ((is_empty_iff cl.token).0 e, (token_missing_iff (i + 1) cs).0 q),
    λ q. (token_missing_iff (i + 1) cs).1 q.1,
  )
]

-- A configuration passes `validate` exactly when it is complete, and the result is then the
-- configuration with its defaults set.
validate_iff : (c c' : Config) → (validate c ≡ inr c') ↔ (IsComplete c × (c' ≡ set_defaults c))
unfolding validate
validate_iff c c' = (
  λ h.
      let l : is_empty c.listen ≡ false = ground arith in
      let i : eqb_ℤ c.telegram.api_id (pos 0) ≡ false = ground arith in
      let a : is_empty c.telegram.api_hash ≡ false = ground arith in
      let d : is_empty c.telegram.session_dir ≡ false = ground arith in
      let n : has_none c.clients ≡ false = ground arith in
      let t : token_missing 0 c.clients ≡ none = ground arith in
      (
        record {
          listen = (is_empty_iff _).0 l;
          api_id = (eqb_ℤ-false_iff _ _).0 i;
          api_hash = (is_empty_iff _).0 a;
          session_dir = (is_empty_iff _).0 d;
          clients = (has_none_iff _).0 n;
          tokens = (token_missing_iff 0 _).0 t;
        },
        ground arith,
      ),
  λ (p, e).
      let l = (is_empty_iff _).1 p.listen in
      let i : eqb_ℤ c.telegram.api_id (pos 0) ≡ false = (eqb_ℤ-false_iff _ _).1 p.api_id in
      let a = (is_empty_iff _).1 p.api_hash in
      let d = (is_empty_iff _).1 p.session_dir in
      let n = (has_none_iff _).1 p.clients in
      let t = (token_missing_iff 0 _).1 p.tokens in rw (l, i, a, d, n, t, e) refl,
)

-- `Load` succeeds just where the file is read and parsed as a complete configuration; its result is
-- then that configuration with its defaults set.
pub load_iff :
    (unmarshal : Str → Option Config) (file : Option Str) (c' : Config)
    → (load unmarshal file ≡ inr c') ↔ (
        (text : Str) × (c : Config) × (file ≡ some text)
        × (unmarshal text ≡ some c)
        × IsComplete c
        × (c' ≡ set_defaults c))
unfolding load
load_iff unmarshal none c' = (λ e. absurd (cc), λ (text, c, e, _, _, _). absurd (cc))
load_iff unmarshal (some text) c' = (
  λ h. elim (Option-cases (unmarshal text)) [
    | inl u ↦ absurd (ground (arith, u, h))
    | inr (c, u) ↦
        let checked : validate c ≡ inr c' = ground (arith, u, h) in
        let (complete, defaults) = (validate_iff c c').0 checked in
        (text, c, refl, u, complete, defaults)
  ],
  λ (text', c, e, u, complete, defaults).
      let parsed : unmarshal text ≡ some c = cc in
      rw (load, parsed, (validate_iff c c').1 (complete, defaults)) refl,
)

-- The client that a token finds is the first in the list that has it.
find_token_first :
    (token : Str) (cl : ClientConfig) (cs : List ClientConfig)
    → find_token token cs ≡ some cl
    → (before after : List ClientConfig) × (cs ≡ before ++ (cl ∷ after))
      × (cl.token ≡ token)
      × All (λ o. o.token ≢ token) before
unfolding find_token
find_token_first token cl [] e = cc
find_token_first token cl (c ∷ cs) e = elim (Bool-cases (str_eq c.token token)) [
  | inl same ↦
      let all : find_token token (c ∷ cs) ≡ some c = rw same refl in
      let here : c ≡ cl = cc in
      (
        [],
        cs,
        rw here refl,
        ap (λ (o : ClientConfig). o.token) (sym here) ∙ (str_eq_iff c.token token).0 same,
        tt,
      )
  | inr other ↦
      let found : find_token token cs ≡ some cl = rw other at e in
      let (before, after, split, eq, none_before) = find_token_first token cl cs found in
      (
        c ∷ before,
        after,
        ap (λ l. c ∷ l) split,
        eq,
        ((λ q. ground (arith, (str_eq_iff c.token token).1 q)), none_before),
      )
]
