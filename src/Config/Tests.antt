-- ===== src/Config/Tests.antt =====
-- The configuration of internal/config/config.go at a concrete file.
use tg_bridge.Prelude.{◌≡◌, ◌↔◌, refl, [], ◌∷◌, inl, inr, some, Str, true, codes}
use tg_bridge.Prelude.Int.{pos}
use tg_bridge.Config.{ClientConfig, Config, no_token, token_missing, set_defaults, validate, load}
use tg_bridge.Config.Checked.{IsComplete, load_iff}

abbrev pub phone : ClientConfig
phone = record { name = codes "phone"; token = codes "t1"; allowed_chats = pos 7 ∷ [] }

abbrev pub watch : ClientConfig
watch = record { name = codes "watch"; token = codes "t2"; allowed_chats = [] }

abbrev pub two_clients : Config
two_clients = record {
  listen = codes ":8443";
  tls = record { auto = true; cert_path = []; key_path = []; hosts = [] };
  telegram = record { api_id = pos 12; api_hash = codes "ab"; session_dir = codes "s" };
  clients = phone ∷ watch ∷ [];
  media = record { cache_dir = []; max_bytes = pos 0 };
  log_level = [];
}

-- A client without a token is refused by its index.
untold :
    validate (record two_clients { clients = phone ∷ record watch { token = [] } ∷ [] })
    ≡ inl (no_token 1)
unfolding validate token_missing
untold = refl

load_iff_example : (load (λ text. some two_clients) (some []) ≡ inr (set_defaults two_clients)) ↔ (
    (text : Str) × (c : Config) × (some [] ≡ some text)
    × (some two_clients ≡ some c)
    × IsComplete c
    × (set_defaults two_clients ≡ set_defaults c))
load_iff_example = load_iff (λ text. some two_clients) (some []) (set_defaults two_clients)
