-- ===== src/Tls/Tests.antt =====
-- The certificate at concrete files, with stand-ins for the cryptography.
use tg_bridge.Prelude.{
  ◌≡◌, ◌≢◌, ◌⊎◌, inl, inr, refl, true, false, Option, none, some, List, [], ◌∷◌, ◌++◌, Str, codes,
  str_eq, leb, if◌then◌else◌, str_eq_iff, arith,
}
use tg_bridge.Prelude.Int.{pos, ◌+ℤ◌, ◌-ℤ◌}
use tg_bridge.Prelude.Map
use tg_bridge.MediaCache.Names.{hex, hex_digit}
use tg_bridge.Tls.{
  File, Disk, TlsLib, TlsIo, load_existing, write_key, complete, broken_off, is_there, read_file,
  mode_of, write_pem, key_mode, cert_block, key_block, add_hosts, template_of, fingerprint,
  load_key_pair, load_marked, new_certificate, write_key_file, write_pair, create_self_signed,
  ensure_self_signed,
}
use tg_bridge.Tls.Reuse.{ensure-ensure}
use tg_bridge.Tls.Files.{ensure-Keeps}
use tg_bridge.Tls.Fresh.{addresses, names, IsReadBack, IsHealthy, ensure_makes}

-- An address starts with a digit.
abbrev pub starts_as_digit : Str → Option Str
starts_as_digit [] = none
starts_as_digit (x ∷ s) = if leb x b'9' then some (x ∷ s) else none

-- The bytes behind eleven.
abbrev pub behind_block : Str → Option (List Str)
behind_block (a ∷ b ∷ c ∷ d ∷ e ∷ f ∷ g ∷ h ∷ i ∷ j ∷ k ∷ rest) = some (rest ∷ [])
behind_block s = none

abbrev pub pair_up : Str → Str → Option (List Str)
pair_up cert [] = none
pair_up cert (x ∷ key) = behind_block cert

abbrev pub toy : TlsLib
toy = record {
  parse_ip = starts_as_digit;
  create_certificate = λ t key random. some (t.serial_number ∷ []);
  marshal_ec_private_key = λ key. some key;
  pem = λ block text. block ++ text;
  key_pair = pair_up;
  sha256 = λ text. text;
}

abbrev pub io : TlsIo
io = record {
  stats = λ path. true;
  readable = λ path. true;
  makes_cert_dir = true;
  makes_key_dir = true;
  key = some (1 ∷ 2 ∷ []);
  serial = some 65;
  now = pos 0;
  random = [];
  cert_write = complete;
  key_write = complete;
}

-- The write of the key breaks off before its first byte.
abbrev full_disk : TlsIo
full_disk = record io { key_write = broken_off [] }

program : Unit {0}
unfolding is_there read_file mode_of write_pem add_hosts template_of fingerprint load_key_pair
    load_marked new_certificate write_key_file write_pair create_self_signed ensure_self_signed
    Map.get Map.set Map.delete str_eq hex hex_digit addresses names ◌+ℤ◌ ◌-ℤ◌
program = tt

abbrev cert_path : Str
cert_path = codes "c"

abbrev key_path : Str
key_path = codes "k"

abbrev hosts : List Str
hosts = codes "localhost" ∷ codes "127.0.0.1" ∷ []

abbrev made : Disk
made = (ensure_self_signed toy io [] cert_path key_path hosts).0

first_call :
    (ensure_self_signed toy io [] cert_path key_path hosts).1 ≡ inr ((65 ∷ []) ∷ [], codes "41")
unfolding program
first_call = refl

-- A key that was written in part is never replaced: each later call fails to load it.
half_a_key :
    ((ensure_self_signed toy full_disk [] cert_path key_path hosts).1 ≡ inl write_key)
    × ((ensure_self_signed toy io
          (ensure_self_signed toy full_disk [] cert_path key_path hosts).0
          cert_path
          key_path
          hosts).1
        ≡ inl load_existing)
unfolding program
half_a_key = (refl, refl)

paths_apart : cert_path ≢ key_path
unfolding str_eq
paths_apart e = ground (arith, str_eq_iff cert_path key_path, e)

ensure-ensure_example :
    ensure_self_signed toy io made cert_path key_path [] ≡ (made, inr ((65 ∷ []) ∷ [], codes "41"))
ensure-ensure_example =
    ensure-ensure toy io io [] cert_path key_path hosts [] ((65 ∷ []) ∷ []) (codes "41") first_call
      (refl, refl) (refl, refl)

not_cert : codes "r" ≢ cert_path
unfolding str_eq
not_cert e = ground (arith, str_eq_iff (codes "r") cert_path, e)

not_key : codes "r" ≢ key_path
unfolding str_eq
not_key e = ground (arith, str_eq_iff (codes "r") key_path, e)

ensure-Keeps_example :
    ((Map.get (codes "r") made ≡ none)
      × ((Map.get key_path made ≡ none)
          ⊎ ((f : File) × (Map.get key_path made ≡ some f) × (f.mode ≡ key_mode))))
    × ((is_there io [] cert_path ≡ false) ⊎ (is_there io [] key_path ≡ false) ⊎ (made ≡ []))
unfolding mode_of Map.get
ensure-Keeps_example =
    ensure-Keeps toy cert_path key_path (codes "r") paths_apart not_cert not_key io [] hosts

reads_back : IsReadBack toy
reads_back = record { read_back = λ t key random der key_der e m. refl }

healthy : IsHealthy io cert_path key_path
healthy = record {
  cert_dir = refl;
  key_dir = refl;
  cert_written = refl;
  key_written = refl;
  cert_read = refl;
  key_read = refl;
}

ensure_makes_example :
    let (d', loaded) = ensure_self_signed toy io [] cert_path key_path hosts in
    (loaded ≡ inr ((65 ∷ []) ∷ [], hex (65 ∷ [])))
    × ((f : File) × (Map.get cert_path d' ≡ some f) × (f.bytes ≡ toy.pem cert_block (65 ∷ [])))
    × ((f : File) × (Map.get key_path d' ≡ some f) × (f.bytes ≡ toy.pem key_block (1 ∷ 2 ∷ [])))
    × ((template_of toy 65 (pos 0) hosts).ip_addresses ≡ addresses toy.parse_ip hosts)
    × ((template_of toy 65 (pos 0) hosts).dns_names ≡ names toy.parse_ip hosts)
unfolding template_of add_hosts
ensure_makes_example =
    ensure_makes toy io [] cert_path key_path hosts (1 ∷ 2 ∷ []) (65 ∷ []) (1 ∷ 2 ∷ []) 65
      reads_back healthy paths_apart (inl (unfold program in refl)) refl refl refl refl
