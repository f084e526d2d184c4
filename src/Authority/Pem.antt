-- ===== src/Authority/Pem.antt =====
-- platform/util/wraputil/pem.go
use text.Mathlib.Text.{starts_with}
use mathlib.Core.List.{Memᴰ}
use homeworld.Common.{
  String, ◌≡◌, refl, ap, ◌↔◌, inl, inr, Bool, true, false, ◌||◌, Option, none, some, List, [], ◌∷◌,
  arith, ◌==◌, eq_iff, if◌then◌else◌, Bool-cases, message, Result, ok, err, panic, ◌>>=◌, ◌>>◌,
  guard, >>=-eq-ok,
}
use homeworld.Authority.Crypto.{X509, PemBlock, Certificate, Csr, RsaKey}

-- The loop over `expected_types`.
unfoldable pub is_expected : String → List String → Bool
is_expected kind [] = false
is_expected kind (expected ∷ rest) = kind == expected || is_expected kind rest

expected_listed :
    (kind : String) (types : List String) → is_expected kind types ≡ true → Memᴰ kind types
unfolding is_expected
expected_listed kind [] h = cc
expected_listed kind (expected ∷ rest) h = elim (Bool-cases (kind == expected)) [
  | inl same ↦ Memᴰ.head ((eq_iff kind expected).0 same)
  | inr other ↦ Memᴰ.tail (expected_listed kind rest (rw other at h))
]

listed_expected :
    (kind : String) (types : List String) → Memᴰ kind types → is_expected kind types ≡ true
unfolding is_expected
listed_expected kind [] m = elim m [ ]
listed_expected kind (expected ∷ rest) (Memᴰ.head e) =
    let k = (eq_iff kind expected).1 e in ground arith
listed_expected kind (expected ∷ rest) (Memᴰ.tail m) =
    let k = listed_expected kind rest m in ground arith

abbrev pub header : String
header = "-----BEGIN "

module _ (x : X509) where
  check_block : List String → Option PemBlock × String → Result String
  unfolding is_expected
  check_block expected_types (none, remain) = err (message "Could not parse PEM data")
  check_block expected_types (some block, remain) = do
    guard (is_expected block.kind expected_types)
        (message "Found PEM block of type \"%s\" instead of types %s")
    guard (remain == "") (message "Trailing data found after PEM data")
    ok block.bytes

  unfoldable pub load_single_pem_block : String → List String → Result String
  unfolding check_block
  load_single_pem_block data' expected_types = do
    guard (starts_with data' header) (message "Missing expected PEM header")
    check_block expected_types (x.pem_decode data')

  unfoldable is_pem_block : String → Bool
  is_pem_block data' =
      if starts_with data' header
      then elim (x.pem_decode data').0 [ none ↦ false | some _ ↦ (x.pem_decode data').1 == "" ]
      else false

  unfoldable pub load_x509_cert_from_pem : String → Result Certificate
  unfolding load_single_pem_block
  load_x509_cert_from_pem certdata = do
    certblock ← load_single_pem_block certdata ("CERTIFICATE" ∷ [])
    x.parse_certificate certblock

  unfoldable pub load_x509_csr_from_pem : String → Result Csr
  unfolding load_single_pem_block
  load_x509_csr_from_pem certdata = do
    block ← load_single_pem_block certdata ("CERTIFICATE REQUEST" ∷ [])
    x.parse_certificate_request block

  abbrev load_pkcs8 : Result (Option RsaKey) → Result RsaKey
  load_pkcs8 (ok (some key)) = ok key
  load_pkcs8 (ok none) = err (message "non-RSA private key found in PKCS#8 block")
  load_pkcs8 (err e) = err (message "could not load PEM private key as PKCS#1 or PKCS#8")
  load_pkcs8 (panic s) = panic s

  -- PKCS#1 is tried first.
  abbrev load_pkcs : String → Result RsaKey → Result RsaKey
  load_pkcs block (ok key) = ok key
  load_pkcs block (err e) = load_pkcs8 (x.parse_pkcs8 block)
  load_pkcs block (panic s) = panic s

  unfoldable pub load_rsa_key_from_pem : String → Result RsaKey
  unfolding load_single_pem_block
  load_rsa_key_from_pem keydata = do
    keyblock ← load_single_pem_block keydata ("RSA PRIVATE KEY" ∷ "PRIVATE KEY" ∷ [])
    load_pkcs keyblock (x.parse_pkcs1 keyblock)

  check_block_sound :
      (types : List String) (found : Option PemBlock) (remain bytes : String)
      → check_block types (found, remain) ≡ ok bytes
      → (kind : String) × (is_expected kind types ≡ true)
        × (found ≡ some (record { kind = kind; bytes = bytes }))
        × (remain ≡ "")
  unfolding check_block
  check_block_sound types none remain bytes h = cc
  check_block_sound types (some b) remain bytes h =
      (b.kind, ground arith, ground arith, (eq_iff remain "").0 (ground arith))

  -- A block is loaded exactly when the data begins with the five dashes and `BEGIN `, it decodes to one
  -- PEM block with nothing after it, and the type of the block stands in the list of those expected;
  -- the result is the bytes of the block.
  pub load_single_pem_block_iff :
      (data' : String) (types : List String) (bytes : String)
      → (load_single_pem_block data' types ≡ ok bytes) ↔ (
          (starts_with data' "-----BEGIN " ≡ true)
          × ((kind : String) × Memᴰ kind types
              × (x.pem_decode data' ≡ (some (record { kind = kind; bytes = bytes }), ""))))
  unfolding load_single_pem_block
  load_single_pem_block_iff data' types bytes = (sound, complete)
    where
      sound :
          load_single_pem_block data' types ≡ ok bytes
          → (starts_with data' "-----BEGIN " ≡ true)
            × ((kind : String) × Memᴰ kind types
                × (x.pem_decode data' ≡ (some (record { kind = kind; bytes = bytes }), "")))
      sound h =
          let (_, rest, started) = >>=-eq-ok (guard (starts_with data' header) _) _ h in
          let (kind, expected, r, left) = check_block_sound types _ _ bytes rest in
          (ground arith, (kind, expected_listed kind types expected, λ i. (r i, left i)))

      complete :
          (starts_with data' "-----BEGIN " ≡ true)
            × ((kind : String) × Memᴰ kind types
                × (x.pem_decode data' ≡ (some (record { kind = kind; bytes = bytes }), "")))
          → load_single_pem_block data' types ≡ ok bytes
      complete (started, (kind, listed, decoded)) =
          rw (started, decoded, listed_expected kind types listed)

  -- What is loaded is a PEM block to the test of the source also.
  load_single_pem_block-is_pem_block :
      (data' : String) (types : List String) (bytes : String)
      → load_single_pem_block data' types ≡ ok bytes
      → is_pem_block data' ≡ true
  unfolding is_pem_block
  load_single_pem_block-is_pem_block data' types bytes h =
      let (started, (kind, listed, decoded)) = (load_single_pem_block_iff data' types bytes).0 h in
      rw
        (
          started,
          ap (λ d. d.0) decoded,
          (eq_iff (x.pem_decode data').1 "").1 (ap (λ d. d.1) decoded),
        )
        refl

  -- An encoded block is loaded back, at any place where its type is expected.
  pub load_single_pem_block-pem_encode :
      (b : PemBlock) (types : List String)
      → starts_with (x.pem_encode b) header ≡ true
      → x.pem_decode (x.pem_encode b) ≡ (some b, "")
      → is_expected b.kind types ≡ true
      → load_single_pem_block (x.pem_encode b) types ≡ ok b.bytes
  unfolding load_single_pem_block
  load_single_pem_block-pem_encode b types started decoded expected =
      rw (started, decoded, expected)
