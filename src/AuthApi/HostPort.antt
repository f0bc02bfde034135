-- ===== src/AuthApi/HostPort.antt =====
-- `clientIP` of internal/httpapi/ratelimit.go, with `net.SplitHostPort` of Go's library.
use tg_bridge.Prelude.{
  ℕ, ◌≡◌, refl, ap, sym, ◌∙◌, Bool, true, false, not, ◌&&◌, ◌||◌, Option, none, some, [], ◌∷◌, ◌++◌,
  append_assoc, Str, arith, ◌==◌, if◌then◌else◌,
}

-- Whether a string has a byte.
unfoldable pub has_byte : ℕ → Str → Bool
has_byte b [] = false
has_byte b (a ∷ s) = (a == b) || has_byte b s

-- The parts before and after the first such byte.
unfoldable pub cut : ℕ → Str → Option (Str × Str)
cut b [] = none
cut b (a ∷ s) =
    let rest = cut b s in
    if a == b then some ([], s) else elim rest [ none ↦ none | some (x, y) ↦ some (a ∷ x, y) ]

-- The parts before and after the last such byte.
unfoldable pub cut_last : ℕ → Str → Option (Str × Str)
cut_last b [] = none
cut_last b (a ∷ s) = elim (cut_last b s) [
  | some (x, y) ↦ some (a ∷ x, y)
  | none ↦ if a == b then some ([], s) else none
]

-- A name or an IPv4 address, where the string does not start with a bracket.
unfoldable pub bare_host : Str → Str → Option Str
bare_host s before =
    if has_byte 58 before || has_byte 91 s || has_byte 93 s then none else some before

-- An address in brackets; the string is what follows the first one. Only a last colon may follow
-- the closing bracket.
unfoldable pub bracket_rest : Str → Str → Str → Option Str
bracket_rest s host [] = none
bracket_rest s host (b ∷ port) =
    if b == 58 && not (has_byte 58 port || has_byte 91 s || has_byte 93 port)
    then some host
    else none

unfoldable pub bracket_host : Str → Option Str
bracket_host s = elim (cut 93 s) [ none ↦ none | some (host, post) ↦ bracket_rest s host post ]

-- The host of `net.SplitHostPort`, `none` where it fails.
unfoldable pub split_host : Str → Option Str
split_host [] = none
split_host (a ∷ s) = elim (cut_last 58 (a ∷ s)) [
  | none ↦ none
  | some (before, port) ↦ elim (a == 91) [
    | true ↦ bracket_host s
    | false ↦ bare_host (a ∷ s) before
  ]
]

unfoldable pub client_ip : Str → Str
client_ip remote_addr = elim (split_host remote_addr) [ none ↦ remote_addr | some host ↦ host ]

-- A string without a colon and without brackets.
record IsPlain (s : Str) : Type 0 where
  colon : has_byte 58 s ≡ false
  left : has_byte 91 s ≡ false
  right : has_byte 93 s ≡ false

has_byte-append : (b : ℕ) (s t : Str) → has_byte b (s ++ t) ≡ has_byte b s || has_byte b t
unfolding has_byte
has_byte-append b [] t = refl
has_byte-append b (a ∷ s) t = ground (arith, has_byte-append b s t)

cut_last-none : (b : ℕ) (s : Str) → has_byte b s ≡ false → cut_last b s ≡ none
unfolding has_byte cut_last
cut_last-none b [] e = refl
cut_last-none b (a ∷ s) e = ground (arith, cut_last-none b s)

cut_last-append : (b : ℕ) (s t : Str) → has_byte b t ≡ false → cut_last b (s ++ b ∷ t) ≡ some (s, t)
unfolding cut_last
cut_last-append b [] t e = rw (cut_last-none b t e) (ground arith)
cut_last-append b (a ∷ s) t e = rw (cut_last-append b s t e) refl

cut-append : (b : ℕ) (s t : Str) → has_byte b s ≡ false → cut b (s ++ b ∷ t) ≡ some (s, t)
unfolding cut has_byte
cut-append b [] t e = ground arith
cut-append b (a ∷ s) t e = ground (arith, cut-append b s t)

bare_host-plain :
    (host port : Str) → IsPlain host → IsPlain port → bare_host (host ++ 58 ∷ port) host ≡ some host
unfolding bare_host has_byte
bare_host-plain host port h p =
    ground (arith, has_byte-append 91 host (58 ∷ port), has_byte-append 93 host (58 ∷ port))

split_host-bare :
    (host port : Str) → IsPlain host → IsPlain port → split_host (host ++ 58 ∷ port) ≡ some host
unfolding split_host has_byte
split_host-bare [] port h p =
    rw (split_host, cut_last-append 58 [] port p.colon) (bare_host-plain [] port h p)
split_host-bare (a ∷ host) port h p =
    let other : (a == 91) ≡ false = ground arith in
    rw (split_host, cut_last-append 58 (a ∷ host) port p.colon, other)
      (bare_host-plain (a ∷ host) port h p)

split_host-bracket :
    (host port : Str)
    → has_byte 91 host ≡ false
    → has_byte 93 host ≡ false
    → IsPlain port
    → split_host (91 ∷ host ++ 93 ∷ 58 ∷ port) ≡ some host
unfolding split_host bracket_host bracket_rest has_byte
split_host-bracket host port l r p =
    let last : cut_last 58 (91 ∷ host ++ 93 ∷ 58 ∷ port) ≡ some (91 ∷ host ++ 93 ∷ [], port) =
      ap (λ x. cut_last 58 (91 ∷ x)) (sym (append_assoc host (93 ∷ []) (58 ∷ port)))
      ∙ cut_last-append 58 (91 ∷ host ++ 93 ∷ []) port p.colon in
    rw (split_host, last, bracket_host, cut-append 93 host (58 ∷ port) r)
      (ground (arith, has_byte-append 91 host (93 ∷ 58 ∷ port)))

-- A socket's address as Go writes it: the host, in brackets where it has colons, and the port.
data Host : Type 0 where
  name : Str → Host
  ipv6 : Str → Host

abbrev text : Host → Str
text (name s) = s
text (ipv6 s) = s

abbrev join_host_port : Host → Str → Str
join_host_port (name s) port = s ++ 58 ∷ port
join_host_port (ipv6 s) port = 91 ∷ s ++ 93 ∷ 58 ∷ port

abbrev IsHost : Host → Type 0
IsHost (name s) = IsPlain s
IsHost (ipv6 s) = (has_byte 91 s ≡ false) × (has_byte 93 s ≡ false)

-- From the address of a socket the limiter gets its host, whatever the port: for a name or an IPv4
-- address without colons and brackets, and for an IPv6 address in brackets.
client_ip-join_host_port :
    (host : Host) (port : Str)
    → IsHost host
    → IsPlain port
    → client_ip (join_host_port host port) ≡ text host
unfolding client_ip
client_ip-join_host_port (name s) port h p = rw (client_ip, split_host-bare s port h p) refl
client_ip-join_host_port (ipv6 s) port (l, r) p =
    rw (client_ip, split_host-bracket s port l r p) refl
