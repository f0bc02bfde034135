-- ===== src/Tls/Files.antt =====
-- Which files `EnsureSelfSigned` of internal/tlsutil/tlsutil.go touches, and with what permissions.
use tg_bridge.Prelude.{
  ℕ, ◌≡◌, ◌≢◌, ◌⊎◌, inl, inr, refl, ◌∙◌, false, some, List, Str, str_eq_iff, str_eq_refl, arith,
  Bool-cases, Option-cases, sym, subst,
}
use tg_bridge.Prelude.Map
use tg_bridge.Tls.{
  File, Disk, TlsLib, PemWrite, not_opened, broken_off, complete, TlsIo, is_there, mode_of,
  write_pem, cert_mode, key_mode, cert_block, key_block, new_certificate, write_key_file,
  write_pair, create_self_signed, ensure_self_signed,
}

write_pem-get :
    (w : PemWrite) (path text other : Str) (mode : ℕ) (d : Disk)
    → other ≢ path
    → Map.get other (write_pem w path text mode d).0 ≡ Map.get other d
unfolding write_pem
write_pem-get not_opened path text other mode d ne = refl
write_pem-get (broken_off part) path text other mode d ne =
    let f : File = record { bytes = part; mode = mode_of (Map.get path d) mode } in
    ground (arith, Map.get-set path other f d, str_eq_iff path other)
write_pem-get complete path text other mode d ne =
    let f : File = record { bytes = text; mode = mode_of (Map.get path d) mode } in
    ground (arith, Map.get-set path other f d, str_eq_iff path other)

-- A file after a write is as before, or it has the permissions of before, or those asked for.
write_pem-mode :
    (w : PemWrite) (path text : Str) (mode : ℕ) (d : Disk)
    → (Map.get path (write_pem w path text mode d).0 ≡ Map.get path d)
      ⊎ ((f : File) × (Map.get path (write_pem w path text mode d).0 ≡ some f)
          × (f.mode ≡ mode_of (Map.get path d) mode))
unfolding write_pem
write_pem-mode not_opened path text mode d = inl refl
write_pem-mode (broken_off part) path text mode d =
    let f : File = record { bytes = part; mode = mode_of (Map.get path d) mode } in
    inr (f, Map.get-set path path f d ∙ rw (str_eq_refl path) refl, refl)
write_pem-mode complete path text mode d =
    let f : File = record { bytes = text; mode = mode_of (Map.get path d) mode } in
    inr (f, Map.get-set path path f d ∙ rw (str_eq_refl path) refl, refl)

module _ (lib : TlsLib) (cert_path key_path other : Str) (apart : cert_path ≢ key_path)
    (other_cert : other ≢ cert_path) (other_key : other ≢ key_path) where
  -- Another file stays, and the key's file stays or has the permissions of before, or those of a
  -- key when it is new.
  abbrev pub Keeps : Disk → Disk → Type 0
  Keeps d d' =
      (Map.get other d' ≡ Map.get other d)
      × ((Map.get key_path d' ≡ Map.get key_path d)
          ⊎ ((f : File) × (Map.get key_path d' ≡ some f)
              × (f.mode ≡ mode_of (Map.get key_path d) key_mode)))

  key-Keeps :
      (w : PemWrite) (text : Str) (d d' : Disk)
      → (Map.get other d' ≡ Map.get other d)
      → (Map.get key_path d' ≡ Map.get key_path d)
      → Keeps d (write_pem w key_path text key_mode d').0
  key-Keeps w text d d' same same_key =
      let kept = write_pem-get w key_path text other key_mode d' other_key in
      (
        kept ∙ same,
        subst
            (λ old.
              (Map.get key_path (write_pem w key_path text key_mode d').0 ≡ old)
              ⊎ ((f : File) × (Map.get key_path (write_pem w key_path text key_mode d').0 ≡ some f)
                  × (f.mode ≡ mode_of old key_mode)))
            same_key (write_pem-mode w key_path text key_mode d'),
      )

  write_pair-Keeps :
      (io : TlsIo) (d : Disk) (made : Str × Str)
      → Keeps d (write_pair lib io d cert_path key_path made).0
  unfolding write_pair write_key_file
  write_pair-Keeps io d (key, der) =
      let text = lib.pem cert_block der in
      let d' = (write_pem io.cert_write cert_path text cert_mode d).0 in
      let same = write_pem-get io.cert_write cert_path text other cert_mode d other_cert in
      let same_key =
        write_pem-get io.cert_write cert_path text key_path cert_mode d (λ e. apart (sym e)) in
      elim (Bool-cases (write_pem io.cert_write cert_path text cert_mode d).1) [
        | inr w ↦ rw (write_pair, w) (same, inl same_key)
        | inl w ↦ elim (Option-cases (lib.marshal_ec_private_key key)) [
          | inl m ↦ rw (write_pair, w, write_key_file, m) (same, inl same_key)
          | inr (k, m) ↦
              rw (write_pair, w, write_key_file, m)
                (key-Keeps io.key_write (lib.pem key_block k) d d' same same_key)
        ]
      ]

  create-Keeps :
      (io : TlsIo) (d : Disk) (hosts : List Str)
      → Keeps d (create_self_signed lib io d cert_path key_path hosts).0
  unfolding create_self_signed
  create-Keeps io d hosts =
      elim (new_certificate lib io hosts)
          as (λ made.
            new_certificate lib io hosts ≡ made
            → Keeps d (create_self_signed lib io d cert_path key_path hosts).0) [
              | inl x ↦ λ m. rw (create_self_signed, m) (refl, inl refl)
              | inr made ↦ λ m. rw (create_self_signed, m) (write_pair-Keeps io d made)
            ]
        refl

  -- When the two paths differ, a call leaves every other file alone, the permissions of the key's
  -- file stay, or are 0600 when the call makes it, and a call that finds both files leaves the
  -- whole disk as it is, even when they do not load.
  pub ensure-Keeps :
      (io : TlsIo) (d : Disk) (hosts : List Str)
      → let d' = (ensure_self_signed lib io d cert_path key_path hosts).0 in
        Keeps d d'
        × ((is_there io d cert_path ≡ false) ⊎ (is_there io d key_path ≡ false) ⊎ (d' ≡ d))
  unfolding ensure_self_signed
  ensure-Keeps io d hosts = elim (Bool-cases (is_there io d cert_path)) [
    | inl c ↦ elim (Bool-cases (is_there io d key_path)) [
      | inl k ↦ rw (ensure_self_signed, c, k) ((refl, inl refl), inr (inr refl))
      | inr k ↦ rw (ensure_self_signed, c, k) (create-Keeps io d hosts, inr (inl refl))
    ]
    | inr c ↦ rw (ensure_self_signed, c) (create-Keeps io d hosts, inl refl)
  ]
