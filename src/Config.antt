-- ===== src/Config.antt =====
-- The configuration of internal/config/config.go: `Load` around the YAML parser, the checks and the
-- defaults of `validate`, and the look-up of a client by its bearer token.
pub mod Checked
pub mod Tests
use tg_bridge.Prelude.{
  ℕ, ◌+◌, ◌*◌, ◌^◌, ◌≡◌, Bool, true, false, ◌||◌, Option, none, some, List, [], ◌∷◌, ◌⊎◌, inl, inr,
  Str, codes, str_eq, is_empty, if◌then◌else◌,
}
use tg_bridge.Prelude.Int.{ℤ, pos, eqb_ℤ}

pub record TlsConfig : Type 0 where
  pub auto : Bool
  pub cert_path : Str
  pub key_path : Str
  pub hosts : List Str

pub record TelegramConfig : Type 0 where
  pub api_id : ℤ
  pub api_hash : Str
  pub session_dir : Str

pub record ClientConfig : Type 0 where
  pub name : Str
  pub token : Str
  pub allowed_chats : List ℤ

pub record MediaConfig : Type 0 where
  pub cache_dir : Str
  pub max_bytes : ℤ

pub record Config : Type 0 where
  pub listen : Str
  pub tls : TlsConfig
  pub telegram : TelegramConfig
  pub clients : List ClientConfig
  pub media : MediaConfig
  pub log_level : Str

-- The error results of `validate`, in the order of its checks.
pub data Invalid : Type 0 where
  no_listen : Invalid
  no_api : Invalid
  no_session_dir : Invalid
  no_clients : Invalid
  no_token : ℕ → Invalid

-- The loop over the clients from index `i`: the first index without a token.
unfoldable pub token_missing : ℕ → List ClientConfig → Option ℕ
token_missing i [] = none
token_missing i (cl ∷ cs) =
    let rest = token_missing (i + 1) cs in if is_empty cl.token then some i else rest

unfoldable pub set_defaults : Config → Config
set_defaults c = record c {
  media = record {
    cache_dir = if is_empty c.media.cache_dir then codes "./data/media" else c.media.cache_dir;
    max_bytes = if eqb_ℤ c.media.max_bytes (pos 0) then pos (100 * 2 ^ 20) else c.media.max_bytes;
  };
  log_level = if is_empty c.log_level then codes "info" else c.log_level;
}

abbrev has_none : List ClientConfig → Bool
has_none [] = true
has_none (cl ∷ cs) = false

unfoldable pub validate : Config → Invalid ⊎ Config
validate c =
    if is_empty c.listen
    then inl no_listen
    else if eqb_ℤ c.telegram.api_id (pos 0) || is_empty c.telegram.api_hash
    then inl no_api
    else if is_empty c.telegram.session_dir
    then inl no_session_dir
    else if has_none c.clients
    then inl no_clients
    else elim (token_missing 0 c.clients) [
      | some i ↦ inl (no_token i)
      | none ↦ inr (set_defaults c)
    ]

-- The errors of `Load`: the file is not read, it is not YAML of this form, or `validate` refuses it.
pub data LoadErr : Type 0 where
  unread unparsed : LoadErr
  refused : Invalid → LoadErr

-- `Load` over what `os.ReadFile` answers, with `yaml.Unmarshal` as a parameter.
unfoldable pub load : (Str → Option Config) → Option Str → LoadErr ⊎ Config
load unmarshal none = inl unread
load unmarshal (some text) = elim (unmarshal text) [
  | none ↦ inl unparsed
  | some c ↦ elim (validate c) [ inl e ↦ inl (refused e) | inr c' ↦ inr c' ]
]

unfoldable pub find_token : Str → List ClientConfig → Option ClientConfig
find_token token [] = none
find_token token (cl ∷ cs) =
    let rest = find_token token cs in if str_eq cl.token token then some cl else rest

unfoldable pub token_to_client : Config → Str → Option ClientConfig
token_to_client c token = find_token token c.clients
