-- ===== src/Tls.antt =====
-- The certificate of the server, in internal/tlsutil/tlsutil.go, with the files that keep it.
pub mod Reuse
pub mod Files
pub mod Fresh
pub mod Tests
use tg_bridge.Prelude.{
  ℕ, ◌*◌, Bool, true, false, Option, none, some, List, [], ◌∷◌, ◌++◌, ◌⊎◌, inl, inr, Str, codes,
  if◌then◌else◌,
}
use tg_bridge.Prelude.Int.{ℤ, pos, ◌+ℤ◌, ◌-ℤ◌}
use tg_bridge.Prelude.Map
use tg_bridge.MediaCache.Names.{hex}

-- A file: its bytes, and its permissions before the umask.
pub record File : Type 0 where
  pub bytes : Str
  pub mode : ℕ

abbrev pub Disk : Type 0
Disk = List (Str × File)

pub data KeyUsage : Type 0 where
  digital_signature key_encipherment : KeyUsage

-- The fields that the bridge sets of an `x509.Certificate`, with times in nanoseconds.
pub record Template : Type 0 where
  pub serial_number : ℕ
  pub common_name : Str
  pub not_before : ℤ
  pub not_after : ℤ
  pub key_usage : List KeyUsage
  pub server_auth : Bool
  pub basic_constraints_valid : Bool
  pub ip_addresses : List Str
  pub dns_names : List Str

-- What the bridge calls: `net.ParseIP`, `x509.CreateCertificate` (with its random bytes),
-- `x509.MarshalECPrivateKey`, `pem.Encode`, `tls.X509KeyPair` on the bytes of two files, and SHA-256.
pub record TlsLib : Type 0 where
  pub parse_ip : Str → Option Str
  pub create_certificate : Template → Str → Str → Option Str
  pub marshal_ec_private_key : Str → Option Str
  pub pem : Str → Str → Str
  pub key_pair : Str → Str → Option (List Str)
  pub sha256 : Str → Str

-- How a write of a PEM file ends: it is not opened, breaks off after some bytes, or completes.
pub data PemWrite : Type 0 where
  not_opened : PemWrite
  broken_off : Str → PemWrite
  complete : PemWrite

-- How the system answers during one call.
pub record TlsIo : Type 0 where
  pub stats : Str → Bool
  pub readable : Str → Bool
  pub makes_cert_dir : Bool
  pub makes_key_dir : Bool
  pub key : Option Str
  pub serial : Option ℕ
  pub now : ℤ
  pub random : Str
  pub cert_write : PemWrite
  pub key_write : PemWrite

pub data TlsErr : Type 0 where
  load_existing make_dir generate_key serial_number create_cert write_cert marshal_key write_key
        load_new no_leaf :
      TlsErr

-- The chain of a certificate and its fingerprint, or an error.
abbrev pub Loaded : Type 0
Loaded = TlsErr ⊎ (List Str × Str)

-- `os.Stat` finds the file.
unfoldable pub is_there : TlsIo → Disk → Str → Bool
is_there io d path =
    if io.stats path then elim (Map.get path d) [ none ↦ false | some f ↦ true ] else false

-- `os.ReadFile`
unfoldable pub read_file : TlsIo → Disk → Str → Option Str
read_file io d path =
    if io.readable path then elim (Map.get path d) [ none ↦ none | some f ↦ some f.bytes ] else none

-- A file that is there keeps its permissions when it is opened.
unfoldable pub mode_of : Option File → ℕ → ℕ
mode_of none mode = mode
mode_of (some f) mode = f.mode

unfoldable pub write_pem : PemWrite → Str → Str → ℕ → Disk → Disk × Bool
write_pem not_opened path text mode d = (d, false)
write_pem (broken_off part) path text mode d =
    (Map.set path (record { bytes = part; mode = mode_of (Map.get path d) mode }) d, false)
write_pem complete path text mode d =
    (Map.set path (record { bytes = text; mode = mode_of (Map.get path d) mode }) d, true)

-- 0o644 and 0o600.
abbrev pub cert_mode : ℕ
cert_mode = 420

abbrev pub key_mode : ℕ
key_mode = 384

abbrev pub cert_block : Str
cert_block = codes "CERTIFICATE"

abbrev pub key_block : Str
key_block = codes "EC PRIVATE KEY"

abbrev pub hour : ℕ
hour = 3600000000000

abbrev pub year : ℕ
year = 31536000000000000

module _ (lib : TlsLib) where
  -- The loop over the hosts.
  unfoldable pub add_hosts : List Str → Template → Template
  add_hosts [] t = t
  add_hosts (h ∷ hosts) t = elim (lib.parse_ip h) [
    | some ip ↦ add_hosts hosts (record t { ip_addresses = t.ip_addresses ++ (ip ∷ []) })
    | none ↦ add_hosts hosts (record t { dns_names = t.dns_names ++ (h ∷ []) })
  ]

  unfoldable pub template_of : ℕ → ℤ → List Str → Template
  template_of serial now hosts = add_hosts hosts (record {
    serial_number = serial;
    common_name = codes "tg-bridge";
    not_before = now -ℤ pos hour;
    not_after = now +ℤ pos (10 * year);
    key_usage = digital_signature ∷ key_encipherment ∷ [];
    server_auth = true;
    basic_constraints_valid = true;
    ip_addresses = [];
    dns_names = [];
  })

  unfoldable pub fingerprint : List Str → Option Str
  fingerprint [] = none
  fingerprint (leaf ∷ chain) = some (hex (lib.sha256 leaf))

  unfoldable pub load_key_pair : TlsIo → Disk → Str → Str → Option (List Str)
  load_key_pair io d cert_path key_path = elim (read_file io d cert_path) [
    | none ↦ none
    | some cert ↦ elim (read_file io d key_path) [ none ↦ none | some key ↦ lib.key_pair cert key ]
  ]

  -- The pair that is loaded with its fingerprint, or the error that is given for the load.
  unfoldable pub load_marked : TlsErr → Option (List Str) → Loaded
  load_marked e none = inl e
  load_marked e (some chain) = elim (fingerprint chain) [
    | none ↦ inl no_leaf
    | some fp ↦ inr (chain, fp)
  ]

  -- The directories, the key, the serial number and the certificate, before anything is written.
  unfoldable pub new_certificate : TlsIo → List Str → TlsErr ⊎ (Str × Str)
  new_certificate io hosts =
      if io.makes_cert_dir
      then (if io.makes_key_dir
          then elim io.key [
            | none ↦ inl generate_key
            | some key ↦ elim io.serial [
              | none ↦ inl serial_number
              | some n ↦ elim (lib.create_certificate (template_of n io.now hosts) key io.random) [
                | none ↦ inl create_cert
                | some der ↦ inr (key, der)
              ]
            ]
          ]
          else inl make_dir)
      else inl make_dir

  -- The files afterwards, and what went wrong.
  unfoldable pub write_key_file : TlsIo → Disk → Str → Str → Disk × Option TlsErr
  write_key_file io d key_path key = elim (lib.marshal_ec_private_key key) [
    | none ↦ (d, some marshal_key)
    | some der ↦
        let (d', done) = write_pem io.key_write key_path (lib.pem key_block der) key_mode d in
        (d', if done then none else some write_key)
  ]

  unfoldable pub write_pair : TlsIo → Disk → Str → Str → Str × Str → Disk × Option TlsErr
  write_pair io d cert_path key_path (key, der) =
      let (d', done) = write_pem io.cert_write cert_path (lib.pem cert_block der) cert_mode d in
      if done then write_key_file io d' key_path key else (d', some write_cert)

  unfoldable pub create_self_signed : TlsIo → Disk → Str → Str → List Str → Disk × Loaded
  create_self_signed io d cert_path key_path hosts = elim (new_certificate io hosts) [
    | inl e ↦ (d, inl e)
    | inr made ↦
        let (d', failed) = write_pair io d cert_path key_path made in
        (
          d',
          elim failed [
            | some e ↦ inl e
            | none ↦ load_marked load_new (load_key_pair io d' cert_path key_path)
          ],
        )
  ]

  unfoldable pub ensure_self_signed : TlsIo → Disk → Str → Str → List Str → Disk × Loaded
  ensure_self_signed io d cert_path key_path hosts =
      if is_there io d cert_path
      then (if is_there io d key_path
          then (d, load_marked load_existing (load_key_pair io d cert_path key_path))
          else create_self_signed io d cert_path key_path hosts)
      else create_self_signed io d cert_path key_path hosts
