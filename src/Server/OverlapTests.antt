-- ===== src/Server/OverlapTests.antt =====
-- Two downloads of one id that overlap, at the server of internal/httpapi.
use tg_bridge.Prelude.{
  ℕ, ◌≡◌, refl, true, none, some, Option, List, [], ◌∷◌, Str, codes, str_eq, length,
}
use tg_bridge.Prelude.Int.{ℤ, pos, negsuc, ◌-ℤ◌, ◌+ℤ◌, to_u64, of_u64}
use tg_bridge.Prelude.Map
use tg_bridge.Config.{find_token, token_to_client}
use tg_bridge.Http.{bearer_token}
use tg_bridge.Http.Strings.{cut_prefix, space_width, trim, reverse_onto, trim_space}
use tg_bridge.MediaId.{
  put_uint64, put_uint16, marshal_media_ref, unmarshal_media_ref, unmarshal_tail, media_tag,
  encode_media_id, decode_raw, decode_media_id,
}
use tg_bridge.MediaId.Tests.{toy}
use tg_bridge.MediaCache.{
  cache_key, remove_file, evict_locked, evict_but_one, get, forget, push_entry, install,
}
use tg_bridge.MediaCache.Names.{hex_digit, hex, mime_from_ext, ext_from_mime}
use tg_bridge.MediaCache.Lru.{remove_element, contains_element, move_to_front, find_key}
use tg_bridge.MediaCache.Overlap.{lock_and_install}
use tg_bridge.RateLimit.{new_rate_limiter}
use tg_bridge.AuthApi.{auth_rate_limiter}
use tg_bridge.Events.{no_streams}
use tg_bridge.Broker.{new_broker}
use tg_bridge.Start.{is_ready}
use tg_bridge.Start.Tests.{sha, all_removable, made, cfg}
use tg_bridge.Server.{
  Server, Sent, ServerTurn, fetches, looks_up, file_renamed, download_fails, download_installs,
  job_at, without_job, rename_job, new_server, client_of, start_download, look_up, install_phase,
  install_job, fail_job, fetch_step, server_turn, run_server,
}
use tg_bridge.Server.Tests.{request}

program : Unit {0}
unfolding find_token token_to_client bearer_token cut_prefix space_width trim reverse_onto
    trim_space put_uint64 put_uint16 marshal_media_ref unmarshal_media_ref unmarshal_tail media_tag
    encode_media_id decode_raw decode_media_id to_u64 of_u64 str_eq cache_key remove_file
    evict_locked evict_but_one get forget push_entry install hex_digit hex mime_from_ext
    ext_from_mime remove_element contains_element move_to_front find_key Map.get Map.set Map.delete
    ◌+ℤ◌ ◌-ℤ◌ lock_and_install new_rate_limiter auth_rate_limiter no_streams new_broker is_ready
    job_at without_job rename_job new_server client_of start_download look_up install_phase
    install_job fail_job fetch_step server_turn run_server
program = tt

abbrev photo_id : Str
photo_id = encode_media_id toy made.media_key_bytes (record {
  kind = 1;
  id = pos 258;
  access_hash = negsuc 0;
  file_ref = 7 ∷ 8 ∷ [];
  thumb_size = b'm' ∷ [];
})

-- Three downloads start; one breaks off, and the others install their files in turn.
abbrev turns : List ServerTurn
turns =
    fetches (looks_up (request (codes "t1") photo_id).request true)
    ∷ fetches (looks_up (request (codes "t1") photo_id).request true)
    ∷ fetches (looks_up (request (codes "t2") photo_id).request true)
    ∷ fetches (download_fails 1)
    ∷ fetches (file_renamed 0 30)
    ∷ fetches (file_renamed 1 20)
    ∷ fetches (download_installs 1)
    ∷ fetches (download_installs 0)
    ∷ fetches (looks_up (request (codes "t3") photo_id).request true)
    ∷ []

-- The number of elements of the cache, its total and the downloads under way.
abbrev seen : Option (Server × List Sent) → Option (ℕ × ℤ × ℕ)
seen none = none
seen (some (s, sent)) = some (length s.bridge.cache.lru, s.bridge.cache.total, length s.jobs)

one_kept : seen (run_server sha all_removable toy cfg (new_server made) turns) ≡ some (1, pos 30, 0)
unfolding program
one_kept = refl
