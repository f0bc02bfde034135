-- ===== src/Tls/Fresh.antt =====
-- The certificate that `EnsureSelfSigned` of internal/tlsutil/tlsutil.go makes.
use tg_bridge.Prelude.{
  ℕ, ◌≡◌, ◌≢◌, ◌⊎◌, inl, inr, refl, ap, ◌∙◌, true, false, Option, none, some, List, [], ◌∷◌, ◌++◌,
  append-nil, append_assoc, Str, str_eq, str_eq_iff, str_eq_refl, arith, Bool-cases, Option-cases,
}
use tg_bridge.Prelude.Map
use tg_bridge.MediaCache.Names.{hex}
use tg_bridge.Tls.{
  File, Disk, TlsLib, Template, complete, TlsIo, TlsErr, is_there, read_file, mode_of, write_pem,
  cert_mode, key_mode, cert_block, key_block, add_hosts, template_of, fingerprint, load_key_pair,
  load_marked, new_certificate, write_key_file, write_pair, create_self_signed, ensure_self_signed,
}

-- `net.ParseIP` on each host that is an address, and the hosts that are names, in their order.
unfoldable pub addresses : (Str → Option Str) → List Str → List Str
addresses parse [] = []
addresses parse (h ∷ hosts) =
    let rest = addresses parse hosts in elim (parse h) [ none ↦ rest | some ip ↦ ip ∷ rest ]

unfoldable pub names : (Str → Option Str) → List Str → List Str
names parse [] = []
names parse (h ∷ hosts) =
    let rest = names parse hosts in elim (parse h) [ none ↦ h ∷ rest | some ip ↦ rest ]

-- The documented behaviour of `x509.CreateCertificate`, `x509.MarshalECPrivateKey`, `pem.Encode`
-- and `tls.LoadX509KeyPair` together: a certificate that is made with a key is read back with it.
pub record IsReadBack (lib : TlsLib) : Type 0 where
  pub read_back :
      (t : Template) (key random der key_der : Str)
      → lib.create_certificate t key random ≡ some der
      → lib.marshal_ec_private_key key ≡ some key_der
      → lib.key_pair (lib.pem cert_block der) (lib.pem key_block key_der) ≡ some (der ∷ [])

-- The system does what is asked of it.
pub record IsHealthy (io : TlsIo) (cert_path key_path : Str) : Type 0 where
  pub cert_dir : io.makes_cert_dir ≡ true
  pub key_dir : io.makes_key_dir ≡ true
  pub cert_written : io.cert_write ≡ complete
  pub key_written : io.key_write ≡ complete
  pub cert_read : io.readable cert_path ≡ true
  pub key_read : io.readable key_path ≡ true

module _ (lib : TlsLib) where
  add_hosts_lem :
      (hosts : List Str) (t : Template)
      → add_hosts lib hosts t ≡ record t {
        ip_addresses = t.ip_addresses ++ addresses lib.parse_ip hosts;
        dns_names = t.dns_names ++ names lib.parse_ip hosts;
      }
  unfolding add_hosts addresses names
  add_hosts_lem [] t = rw (append-nil t.ip_addresses, append-nil t.dns_names) refl
  add_hosts_lem (h ∷ hosts) t = elim (Option-cases (lib.parse_ip h)) [
    | inl m ↦
        let step : add_hosts lib (h ∷ hosts) t
            ≡ add_hosts lib hosts (record t { dns_names = t.dns_names ++ (h ∷ []) }) =
          rw (add_hosts, m) refl in
        step
        ∙ add_hosts_lem hosts _
        ∙ rw (addresses, names, m, append_assoc t.dns_names (h ∷ []) (names lib.parse_ip hosts))
            refl
    | inr (ip, m) ↦
        let step : add_hosts lib (h ∷ hosts) t
            ≡ add_hosts lib hosts (record t { ip_addresses = t.ip_addresses ++ (ip ∷ []) }) =
          rw (add_hosts, m) refl in
        step
        ∙ add_hosts_lem hosts _
        ∙ rw
            (
              addresses,
              names,
              m,
              append_assoc t.ip_addresses (ip ∷ []) (addresses lib.parse_ip hosts),
            )
            refl
  ]

  new_certificate_ok :
      (io : TlsIo) (hosts : List Str) (key der : Str) (n : ℕ)
      → io.makes_cert_dir ≡ true
      → io.makes_key_dir ≡ true
      → io.key ≡ some key
      → io.serial ≡ some n
      → lib.create_certificate (template_of lib n io.now hosts) key io.random ≡ some der
      → new_certificate lib io hosts ≡ inr (key, der)
  unfolding new_certificate
  new_certificate_ok io hosts key der n c k ek en ed = ground (arith, c, k, ek, en, ed)

  -- The files after both are written.
  pair_files : (cert_path key_path : Str) (d : Disk) (der key_der : Str) → Disk
  pair_files cert_path key_path d der key_der =
      let cert_file : File = record {
        bytes = lib.pem cert_block der;
        mode = mode_of (Map.get cert_path d) cert_mode;
      } in
      let d' = Map.set cert_path cert_file d in
      Map.set key_path
        (record {
          bytes = lib.pem key_block key_der;
          mode = mode_of (Map.get key_path d') key_mode;
        })
        d'

  write_pair_ok :
      (io : TlsIo) (d : Disk) (cert_path key_path key der key_der : Str)
      → io.cert_write ≡ complete
      → io.key_write ≡ complete
      → lib.marshal_ec_private_key key ≡ some key_der
      → write_pair lib io d cert_path key_path (key, der)
        ≡ (pair_files cert_path key_path d der key_der, none)
  unfolding write_pair write_key_file write_pem pair_files
  write_pair_ok io d cert_path key_path key der key_der c k m = ground (arith, c, k, m)

  -- Each path then holds its text.
  pair_files-get :
      (cert_path key_path : Str) (d : Disk) (der key_der : Str)
      → cert_path ≢ key_path
      → ((f : File) × (Map.get cert_path (pair_files cert_path key_path d der key_der) ≡ some f)
          × (f.bytes ≡ lib.pem cert_block der))
        × ((f : File) × (Map.get key_path (pair_files cert_path key_path d der key_der) ≡ some f)
            × (f.bytes ≡ lib.pem key_block key_der))
  unfolding pair_files
  pair_files-get cert_path key_path d der key_der apart =
      let cert_file : File = record {
        bytes = lib.pem cert_block der;
        mode = mode_of (Map.get cert_path d) cert_mode;
      } in
      let d' = Map.set cert_path cert_file d in
      let key_file : File = record {
        bytes = lib.pem key_block key_der;
        mode = mode_of (Map.get key_path d') key_mode;
      } in
      let other : str_eq key_path cert_path ≡ false =
        ground (arith, str_eq_iff key_path cert_path, apart) in
      (
        (
          cert_file,
          Map.get-set key_path cert_path key_file d'
              ∙ rw (other)
                  (Map.get-set cert_path cert_path cert_file d ∙ rw (str_eq_refl cert_path) refl),
          refl,
        ),
        (
          key_file,
          Map.get-set key_path key_path key_file d' ∙ rw (str_eq_refl key_path) refl,
          refl,
        ),
      )

  load_pair_files :
      (io : TlsIo) (d : Disk) (cert_path key_path : Str) (cert key : File) (chain : List Str)
      → Map.get cert_path d ≡ some cert
      → Map.get key_path d ≡ some key
      → io.readable cert_path ≡ true
      → io.readable key_path ≡ true
      → lib.key_pair cert.bytes key.bytes ≡ some chain
      → load_key_pair lib io d cert_path key_path ≡ some chain
  unfolding load_key_pair read_file
  load_pair_files io d cert_path key_path cert key chain c k r s p =
      rw (load_key_pair, read_file, r, c, s, k) p

  -- A call that does not find both files makes them: when the system does what is asked of it and
  -- the two paths differ, the call answers with the certificate that is created from the template
  -- and with the hex text of its SHA-256, the files hold the certificate and its key, and the
  -- template names each host once, as an address when it parses as one and else as a name.
  pub ensure_makes :
      (io : TlsIo) (d : Disk) (cert_path key_path : Str) (hosts : List Str) (key der key_der : Str)
      (n : ℕ)
      → IsReadBack lib
      → IsHealthy io cert_path key_path
      → cert_path ≢ key_path
      → (is_there io d cert_path ≡ false) ⊎ (is_there io d key_path ≡ false)
      → io.key ≡ some key
      → io.serial ≡ some n
      → lib.create_certificate (template_of lib n io.now hosts) key io.random ≡ some der
      → lib.marshal_ec_private_key key ≡ some key_der
      → let (d', loaded) = ensure_self_signed lib io d cert_path key_path hosts in
        (loaded ≡ inr (der ∷ [], hex (lib.sha256 der)))
        × ((f : File) × (Map.get cert_path d' ≡ some f) × (f.bytes ≡ lib.pem cert_block der))
        × ((f : File) × (Map.get key_path d' ≡ some f) × (f.bytes ≡ lib.pem key_block key_der))
        × ((template_of lib n io.now hosts).ip_addresses ≡ addresses lib.parse_ip hosts)
        × ((template_of lib n io.now hosts).dns_names ≡ names lib.parse_ip hosts)
  unfolding ensure_self_signed create_self_signed load_marked fingerprint template_of
  ensure_makes io d cert_path key_path hosts key der key_der n law h apart gone ek en ed em =
      let made = new_certificate_ok io hosts key der n h.cert_dir h.key_dir ek en ed in
      let written =
        write_pair_ok io d cert_path key_path key der key_der h.cert_written h.key_written em in
      let ((cert, at_cert, cert_text), (k, at_key, key_text)) =
        pair_files-get cert_path key_path d der key_der apart in
      let pair : lib.key_pair cert.bytes k.bytes ≡ some (der ∷ []) =
        rw (cert_text, key_text) (law.read_back _ key io.random der key_der ed em) in
      let loaded =
        load_pair_files io _ cert_path key_path cert k (der ∷ []) at_cert at_key h.cert_read
          h.key_read pair in
      let created : ensure_self_signed lib io d cert_path key_path hosts
          ≡ create_self_signed lib io d cert_path key_path hosts =
        elim gone [
          | inl g ↦ rw (ensure_self_signed, g) refl
          | inr g ↦ elim (Bool-cases (is_there io d cert_path)) [
            | inl c ↦ rw (ensure_self_signed, c, g) refl
            | inr c ↦ rw (ensure_self_signed, c) refl
          ]
        ] in
      let files = ap (λ (x : Disk × Option TlsErr). x.0) written in
      let unfailed = ap (λ (x : Disk × Option TlsErr). x.1) written in
      let result : create_self_signed lib io d cert_path key_path hosts
          ≡ (pair_files cert_path key_path d der key_der, inr (der ∷ [], hex (lib.sha256 der))) =
        rw (create_self_signed, made, unfailed, files, loaded) refl in
      let hosted = add_hosts_lem hosts _ in
      rw (created, result)
        (
          refl,
          (cert, at_cert, cert_text),
          (k, at_key, key_text),
          ap (λ (t : Template). t.ip_addresses) hosted,
          ap (λ (t : Template). t.dns_names) hosted,
        )
