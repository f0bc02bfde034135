-- ===== src/Server/Whole.antt =====
-- The whole server of cmd/tg-bridge/main.go, from `New` of internal/bridge/bridge.go on.
use tg_bridge.Prelude.{
  ℕ, ◌+◌, ◌^◌, ◌≡◌, ◌<◌, ◌⊎◌, inl, inr, refl, sym, subst, Bool, true, false, Option, none, some,
  List, [], ◌∷◌, ◌++◌, Str, All, All-append, length, arith, Bool-cases, Option-cases,
}
use tg_bridge.Config.{Config}
use tg_bridge.Auth.{run}
use tg_bridge.Auth.Prompt.{IsShown, run-IsShown}
use tg_bridge.MediaId.{MediaCrypto}
use tg_bridge.MediaKey.{load_or_create_media_key}
use tg_bridge.MediaCache.{Cache, DirEntry, new_media_cache}
use tg_bridge.MediaCache.Books.{IsSerial, IsSerial-start}
use tg_bridge.MediaCache.Serial.{IsBooked, IsSerial-IsBooked}
use tg_bridge.MediaCache.Load.{NoTwins, IsListing}
use tg_bridge.Broker.{new_broker}
use tg_bridge.Prelude.Int.{ℤ}
use tg_bridge.Events.{no_streams}
use tg_bridge.Events.Proper.{IsProper}
use tg_bridge.Events.Private.{no_streams-IsPrivate}
use tg_bridge.Start.{NewIo, NewErr, Place, Bridge, new_opened, new_bridge}
use tg_bridge.Start.Closed.{IsNew, new_bridge_opens, new_bridge-IsNew}
use tg_bridge.Start.Known.{Fits}
use tg_bridge.Server.{Server, Sent, ServerTurn, new_server, run_server}
use tg_bridge.Server.Calls.{IsAllowed}
use tg_bridge.Server.Safe.{IsOpened, IsSafe}
use tg_bridge.Server.Turns.{server_turn-IsSafe}

module _ (sha256 : Str → Str) (removable : Str → Bool) where
  -- The cache that `New` makes: the books that calls of the cache leave are in order.
  abbrev IsCached : NewErr ⊎ Bridge → Type 0
  IsCached (inl e) = Unit
  IsCached (inr b) = (k : Cache) → IsSerial sha256 removable b.cache k → IsBooked k

  new_media_cache-IsCached :
      (dir : Str) (max_bytes : ℤ) (made_dir : Bool) (listing : Option (List DirEntry))
      (files : List (Str × ℕ)) (k₀ k : Cache)
      → ((ds : List DirEntry) → listing ≡ some ds → NoTwins ds × IsListing files ds)
      → new_media_cache sha256 removable dir max_bytes made_dir listing files ≡ some k₀
      → IsSerial sha256 removable k₀ k
      → IsBooked k
  unfolding new_media_cache
  new_media_cache-IsCached dir max_bytes false listing files k₀ k told made serial = absurd (cc)
  new_media_cache-IsCached dir max_bytes true none files k₀ k told made serial = absurd (cc)
  new_media_cache-IsCached dir max_bytes true (some ds) files k₀ k told made serial =
      let (no_twins, is_listing) = told ds refl in
      IsSerial-IsBooked sha256 removable dir max_bytes ds files k₀ k no_twins is_listing made serial

  new_opened-IsCached :
      (cfg : Config) (io : NewIo) (at : Place)
      → ((ds : List DirEntry) → io.listing ≡ some ds → NoTwins ds × IsListing at.files ds)
      → IsCached (new_opened sha256 removable cfg io at).1
  unfolding new_opened
  new_opened-IsCached cfg io at told =
      elim (Option-cases (load_or_create_media_key io.key_io at.key_file).1) [
        | inl k ↦ rw (new_opened, k) tt
        | inr (key, k) ↦
            elim (Option-cases (
              new_media_cache sha256 removable cfg.media.cache_dir cfg.media.max_bytes
                io.makes_cache_dir io.listing at.files)) [
                  | inl m ↦ rw (new_opened, k, m) tt
                  | inr (c, m) ↦
                      rw (new_opened, k, m)
                        (λ k' serial.
                          new_media_cache-IsCached _ _ _ io.listing at.files c k' told m serial)
                ]
      ]

  new_bridge-IsCached :
      (cfg : Config) (io : NewIo) (at : Place)
      → ((ds : List DirEntry) → io.listing ≡ some ds → NoTwins ds × IsListing at.files ds)
      → IsCached (new_bridge sha256 removable cfg io at).1
  unfolding new_bridge
  new_bridge-IsCached cfg io at told = elim (Bool-cases io.makes_session_dir) [
    | inr m ↦ rw (new_bridge, m) tt
    | inl m ↦ elim (Bool-cases io.opens_db) [
      | inr o ↦ rw (new_bridge, m, o) tt
      | inl o ↦
          subst (λ (r : Place × (NewErr ⊎ Bridge)). IsCached r.1)
            (sym (new_bridge_opens sha256 removable cfg io at m o))
            (new_opened-IsCached cfg io (record at { db_open = true }) told)
    ]
  ]

  new_server-IsSafe :
      (cfg : Config) (io : NewIo) (at : Place) (b : Bridge)
      → at.db_open ≡ false
      → (new_bridge sha256 removable cfg io at).1 ≡ inr b
      → IsSafe sha256 removable b.cache cfg (new_server b)
  unfolding new_server run no_streams
  new_server-IsSafe cfg io at b shut made =
      let (_, at_start, _, unknown, logged_out, empty) =
        subst (λ (r : NewErr ⊎ Bridge). IsNew ((new_bridge sha256 removable cfg io at).0, r)) made
          (new_bridge-IsNew sha256 removable cfg io at shut) in
      record {
        peers = rw empty tt;
        cache = IsSerial-start sha256 removable b.cache;
        login = subst IsShown (sym logged_out) (run-IsShown []);
        phase = subst (λ p. Fits p b) (sym at_start) unknown;
        streams = no_streams-IsPrivate cfg;
        clients = record { own = refl; known = tt };
      }

  module _ (c : MediaCrypto) (cfg : Config) (k₀ : Cache) where
    run_server-IsSafe :
        (s : Server) (ts : List ServerTurn)
        → IsSafe sha256 removable k₀ cfg s
        → s.streams.broker.next_id + length ts < 2 ^ 64
        → (s' : Server) × (sent : List Sent) × (run_server sha256 removable c cfg s ts
            ≡ some (s', sent))
          × IsSafe sha256 removable k₀ cfg s'
          × All (IsAllowed cfg) sent
    unfolding run_server
    run_server-IsSafe s [] v lt = (s, [], refl, v, tt)
    run_server-IsSafe s (t ∷ ts) v lt =
        let (s₁, sent, done, v₁, ok, le) =
          server_turn-IsSafe sha256 removable k₀ cfg c s v t (omega arith) in
        let (s', more, later, v', oks) = run_server-IsSafe s₁ ts v₁ (omega arith) in
        (
          s',
          sent ++ more,
          rw (run_server, done, later) refl,
          v',
          All-append (IsAllowed cfg) sent more ok oks,
        )

-- From `New` on.
pub run_server-new_server :
    (sha256 : Str → Str) (removable : Str → Bool) (c : MediaCrypto) (cfg : Config) (io : NewIo)
    (at : Place) (b : Bridge) (ts : List ServerTurn)
    → ((ds : List DirEntry) → io.listing ≡ some ds → NoTwins ds × IsListing at.files ds)
    → at.db_open ≡ false
    → (new_bridge sha256 removable cfg io at).1 ≡ inr b
    → length ts < 2 ^ 64
    → (s : Server) × (sent : List Sent) × (run_server sha256 removable c cfg (new_server b) ts
        ≡ some (s, sent))
      × All (IsAllowed cfg) sent
      × All (IsProper cfg s.streams.broker) s.streams.sessions
      × IsOpened cfg s
      × IsSerial sha256 removable b.cache s.bridge.cache
      × IsBooked s.bridge.cache
      × IsShown s.bridge.login
unfolding new_server no_streams new_broker
run_server-new_server sha256 removable c cfg io at b ts told shut made lt =
    let (s, sent, done, v, ok) =
      run_server-IsSafe sha256 removable c cfg b.cache (new_server b) ts
        (new_server-IsSafe sha256 removable cfg io at b shut made) (omega arith) in
    let cached : IsCached sha256 removable (inr b) =
      subst (IsCached sha256 removable) made
        (new_bridge-IsCached sha256 removable cfg io at told) in
    (
      s,
      sent,
      done,
      ok,
      v.streams.sessions,
      v.clients,
      v.cache,
      cached s.bridge.cache v.cache,
      v.login,
    )
