-- ===== src/Tls/Reuse.antt =====
-- The files of the certificate are written once, in internal/tlsutil/tlsutil.go.
use tg_bridge.Prelude.{
  ◌≡◌, inl, inr, refl, sym, ap, ◌∙◌, true, Option, none, some, List, Str, arith, Bool-cases,
  Option-cases,
}
use tg_bridge.Prelude.Map
use tg_bridge.Tls.{
  File, Disk, TlsLib, TlsIo, TlsErr, Loaded, is_there, read_file, load_new, load_existing,
  fingerprint, load_key_pair, load_marked, new_certificate, write_pair, create_self_signed,
  ensure_self_signed,
}

read_file-some :
    (io : TlsIo) (d : Disk) (path text : Str)
    → read_file io d path ≡ some text
    → (f : File) × (Map.get path d ≡ some f) × (f.bytes ≡ text)
unfolding read_file
read_file-some io d path text e = elim (Option-cases (Map.get path d)) [
  | inl m ↦ absurd (ground (arith, m, e))
  | inr (f, m) ↦ (f, m, ground (arith, m, e))
]

found_again :
    (io : TlsIo) (d : Disk) (path : Str) (f : File)
    → Map.get path d ≡ some f
    → io.stats path ≡ true
    → io.readable path ≡ true
    → (is_there io d path ≡ true) × (read_file io d path ≡ some f.bytes)
unfolding is_there read_file
found_again io d path f m s r = (rw (s, m) refl, rw (r, m) refl)

module _ (lib : TlsLib) where
  load_key_pair-some :
      (io : TlsIo) (d : Disk) (cert_path key_path : Str) (chain : List Str)
      → load_key_pair lib io d cert_path key_path ≡ some chain
      → (cert key : File) × (Map.get cert_path d ≡ some cert)
        × (Map.get key_path d ≡ some key)
        × (lib.key_pair cert.bytes key.bytes ≡ some chain)
  unfolding load_key_pair
  load_key_pair-some io d cert_path key_path chain e =
      elim (Option-cases (read_file io d cert_path)) [
        | inl m ↦ absurd (ground (arith, m, e))
        | inr (c, m) ↦ elim (Option-cases (read_file io d key_path)) [
          | inl n ↦ absurd (ground (arith, m, n, e))
          | inr (k, n) ↦
              let (cert, at_cert, same_cert) = read_file-some io d cert_path c m in
              let (key, at_key, same_key) = read_file-some io d key_path k n in
              let paired : load_key_pair lib io d cert_path key_path ≡ lib.key_pair c k =
                rw (load_key_pair, m, n) refl in
              (cert, key, at_cert, at_key, rw (same_cert, same_key) (sym paired ∙ e))
        ]
      ]

  load_marked_ok :
      (e : TlsErr) (loaded : Option (List Str)) (chain : List Str) (fp : Str)
      → load_marked lib e loaded ≡ inr (chain, fp)
      → (loaded ≡ some chain) × ((e' : TlsErr) → load_marked lib e' loaded ≡ inr (chain, fp))
  unfolding load_marked
  load_marked_ok e none chain fp h = absurd (cc)
  load_marked_ok e (some c) chain fp h = elim (Option-cases (fingerprint lib c)) [
    | inl m ↦ absurd (ground (arith, m, h))
    | inr (x, m) ↦ (ground (arith, m, h), λ e'. ground (arith, m, h))
  ]

  -- A pair that is answered is what the files hold.
  abbrev Holds : TlsIo → Str → Str → Disk × Loaded → Type 0
  Holds io cert_path key_path r =
      (chain : List Str) (fp : Str)
      → r.1 ≡ inr (chain, fp)
      → (load_key_pair lib io r.0 cert_path key_path ≡ some chain)
        × ((e : TlsErr) → load_marked lib e (some chain) ≡ inr (chain, fp))

  loaded-Holds :
      (io : TlsIo) (d : Disk) (cert_path key_path : Str) (e : TlsErr)
      → Holds io cert_path key_path
          (d, load_marked lib e (load_key_pair lib io d cert_path key_path))
  loaded-Holds io d cert_path key_path e chain fp h =
      let (loaded, marked) =
        load_marked_ok e (load_key_pair lib io d cert_path key_path) chain fp h in
      (loaded, λ e'. ap (load_marked lib e') (sym loaded) ∙ marked e')

  create-Holds :
      (io : TlsIo) (d : Disk) (cert_path key_path : Str) (hosts : List Str)
      → Holds io cert_path key_path (create_self_signed lib io d cert_path key_path hosts)
  unfolding create_self_signed
  create-Holds io d cert_path key_path hosts =
      elim (new_certificate lib io hosts)
          as (λ made.
            new_certificate lib io hosts ≡ made
            → Holds io cert_path key_path (create_self_signed lib io d cert_path key_path hosts)) [
              | inl x ↦ λ m. rw (create_self_signed, m) (λ chain fp e. absurd (cc))
              | inr made ↦ λ m.
                  elim (Option-cases (write_pair lib io d cert_path key_path made).1) [
                    | inl w ↦
                        rw (create_self_signed, m, w)
                          (loaded-Holds io (write_pair lib io d cert_path key_path made).0 cert_path
                            key_path load_new)
                    | inr (x, w) ↦ rw (create_self_signed, m, w) (λ chain fp e. absurd (cc))
                  ]
            ]
        refl

  ensure-Holds :
      (io : TlsIo) (d : Disk) (cert_path key_path : Str) (hosts : List Str)
      → Holds io cert_path key_path (ensure_self_signed lib io d cert_path key_path hosts)
  unfolding ensure_self_signed
  ensure-Holds io d cert_path key_path hosts = elim (Bool-cases (is_there io d cert_path)) [
    | inl c ↦ elim (Bool-cases (is_there io d key_path)) [
      | inl k ↦ rw (ensure_self_signed, c, k) (loaded-Holds io d cert_path key_path load_existing)
      | inr k ↦ rw (ensure_self_signed, c, k) (create-Holds io d cert_path key_path hosts)
    ]
    | inr c ↦ rw (ensure_self_signed, c) (create-Holds io d cert_path key_path hosts)
  ]

  -- Once a call has succeeded, every later call on those files answers with the same chain and the
  -- same fingerprint and writes nothing, whatever hosts it is given, while the two files can be
  -- found and read.
  pub ensure-ensure :
      (io later : TlsIo) (d : Disk) (cert_path key_path : Str) (hosts others : List Str)
      (chain : List Str) (fp : Str)
      → (ensure_self_signed lib io d cert_path key_path hosts).1 ≡ inr (chain, fp)
      → (later.stats cert_path ≡ true) × (later.stats key_path ≡ true)
      → (later.readable cert_path ≡ true) × (later.readable key_path ≡ true)
      → let d' = (ensure_self_signed lib io d cert_path key_path hosts).0 in
        ensure_self_signed lib later d' cert_path key_path others ≡ (d', inr (chain, fp))
  unfolding ensure_self_signed load_key_pair
  ensure-ensure io later d cert_path key_path hosts others chain fp e (s, t) (q, r) =
      let (loaded, marked) = ensure-Holds io d cert_path key_path hosts chain fp e in
      let d' = (ensure_self_signed lib io d cert_path key_path hosts).0 in
      let (cert, key, at_cert, at_key, pair) =
        load_key_pair-some io d' cert_path key_path chain loaded in
      let (cert_there, cert_read) = found_again later d' cert_path cert at_cert s q in
      let (key_there, key_read) = found_again later d' key_path key at_key t r in
      let again : load_key_pair lib later d' cert_path key_path ≡ some chain =
        rw (load_key_pair, cert_read, key_read) pair in
      rw (ensure_self_signed, cert_there, key_there, again, marked load_existing) refl
