-- ===== src/AuthApi/Tests.antt =====
-- The auth routes of internal/httpapi at concrete requests.
use tg_bridge.Prelude.{
  ℕ, ◌+◌, ◌-◌, ◌*◌, ◌≡◌, ◌≤◌, ◌⊎◌, refl, true, false, none, some, List, [], ◌∷◌, ◌++◌, Str, codes,
  str_eq, arith,
}
use tg_bridge.Prelude.Map
use tg_bridge.Config.{find_token, token_to_client}
use tg_bridge.Config.Tests.{two_clients}
use tg_bridge.Http.{bearer_token}
use tg_bridge.Http.Strings.{cut_prefix, space_width, trim, reverse_onto, trim_space}
use tg_bridge.Auth.{start, step, receive, submit_phone, submit_code, new_http_authenticator}
use tg_bridge.RateLimit.{token, new_rate_limiter, take_token, make_room, allow}
use tg_bridge.AuthApi.HostPort.{
  has_byte, cut, cut_last, bare_host, bracket_rest, bracket_host, split_host, client_ip,
}
use tg_bridge.AuthApi.{
  get_status, post_phone, post_code, AuthRequest, failed, AuthServer, auth_rate_limiter, required,
  handle_submit, handle_auth_status, handle_auth_phone, handle_auth_code, handle, with_rate_limit,
  is_known, serve, Turn, asks, goes_on, turn,
}
use tg_bridge.AuthApi.Serve.{is_accepted, serve_cases}
use tg_bridge.AuthApi.Brake.{accepted_from, run_turns, accepted_from-auth_rate_limiter}

program : Unit {0}
unfolding find_token token_to_client bearer_token cut_prefix space_width trim reverse_onto
    trim_space start step submit_phone submit_code new_http_authenticator new_rate_limiter
    take_token make_room allow has_byte cut cut_last bare_host bracket_rest bracket_host split_host
    client_ip auth_rate_limiter required handle_submit handle_auth_status handle_auth_phone
    handle_auth_code handle with_rate_limit is_known serve turn accepted_from str_eq Map.get Map.set
    Map.delete
program = tt

abbrev second : ℕ
second = 1000000000

-- A request of the client with token t1 from a port of one address.
abbrev request : Str → Str → ℕ → AuthRequest
request port field now = record {
  request = record {
    authorization = codes "Bearer t1";
    query_token = [];
    query_limit = [];
    query_before = [];
    path_id = [];
    body_text = none;
    body_up_to = none;
  };
  remote_addr = codes "10.0.0.7:" ++ port;
  field = some field;
  now = now;
  victim = codes "z";
}

abbrev server : AuthServer
server = record { auth_rl = auth_rate_limiter; login = start }

-- Two phones: the second finds the channel full. A code and four more requests use up the bucket.
abbrev turns : List Turn
turns =
    asks post_phone (request (codes "1") (codes "+1") 0)
    ∷ asks post_phone (request (codes "2") (codes "+2") 1)
    ∷ asks post_code (request (codes "3") (codes "11111") 2)
    ∷ goes_on receive
    ∷ asks get_status (request (codes "4") [] 3)
    ∷ asks post_code (request (codes "5") [] 4)
    ∷ asks post_code (request (codes "6") (codes "22222") second)
    ∷ []

-- A second later the bucket has a share of a token more.
abbrev later_turns : List Turn
later_turns =
    asks post_phone (request (codes "5") (codes "+3") second)
    ∷ asks get_status (request (codes "6") [] (2 * second))
    ∷ []

two_accepted : accepted_from two_clients (codes "10.0.0.7") server turns ≡ 2
unfolding program
two_accepted = refl

ipv6 : client_ip (codes "[fe80::1]:443") ≡ codes "fe80::1"
unfolding program
ipv6 = refl

portless : client_ip (codes "10.0.0.7") ≡ codes "10.0.0.7"
unfolding program
portless = refl

accepted_from-auth_rate_limiter_example :
    let s = run_turns two_clients server turns in
    accepted_from two_clients (codes "10.0.0.7") s later_turns * token
    ≤ 5 * token + (2 * second - second) * 10
accepted_from-auth_rate_limiter_example =
    accepted_from-auth_rate_limiter two_clients (codes "10.0.0.7") start 0 second (2 * second) turns
      later_turns
      (
        omega arith,
        (omega arith, (omega arith, (omega arith, (omega arith, (omega arith, omega arith))))),
      )
      (omega arith, (omega arith, omega arith)) (unfold str_eq in (refl, (refl, tt)))

serve_cases_example :
    let r = request (codes "1") (codes "+1") 0 in
    let done = serve two_clients server post_phone r in
    ((is_known two_clients r ≡ false) × (done ≡ (server, failed 401)))
    ⊎ ((is_known two_clients r ≡ true)
        × (done.0.auth_rl ≡ (allow server.auth_rl r.victim r.now (client_ip r.remote_addr)).0)
        × ((((allow server.auth_rl r.victim r.now (client_ip r.remote_addr)).1 ≡ false)
              × (done.1 ≡ failed 429)
              × (done.0.login ≡ server.login))
            ⊎ (((allow server.auth_rl r.victim r.now (client_ip r.remote_addr)).1 ≡ true)
                × (done.1 ≡ (handle post_phone r.field server.login.auth).1)
                × ((is_accepted done.1 ≡ true) ⊎ (done.0.login ≡ server.login)))))
serve_cases_example = serve_cases two_clients server post_phone (request (codes "1") (codes "+1") 0)
