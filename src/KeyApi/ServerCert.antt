-- ===== src/KeyApi/ServerCert.antt =====
-- The certificate that the keyserver serves with: `GetValidServerCert` of
-- platform/keysystem/keyserver/keyapi/api.go. Times are in nanoseconds.
use homeworld.Common.{
  ℕ, ◌+◌, ◌*◌, String, true, Option, none, some, List, [], ◌∷◌, ltb, if◌then◌else◌, Error, Result,
  ok, err, panic, ◌>>=◌, wrapped,
}
use homeworld.Authority.Crypto.{Certificate, X509, Net, Instant}
use homeworld.Authority.Tls.{sign}
use homeworld.Util.Csr.{CsrLib, build_tls_csr}
use homeworld.Account.{Context}

-- `tls.Certificate`: the DER certificates, the key and the parsed leaf.
pub record KeyPair : Type 0 where
  pub certificate : List String
  pub private_key : String
  pub leaf : Certificate

abbrev pub renewal_margin : ℕ
renewal_margin = 5 * 60000000000

abbrev pub validity_interval : ℕ
validity_interval = 24 * 3600000000000

-- The mutex is held throughout, so that one call runs after another. `x509_key_pair` is
-- `tls.X509KeyPair`, which gives the certificates of the PEM file.
module _ (net : Net) (x : X509) (lib : CsrLib)
    (x509_key_pair : String → String → Result (List String)) (wrap : String → Error → Error)
    (ctx : Context) (server_key : String) where
  abbrev pub parse_leaf : List String → Result Certificate
  parse_leaf [] = panic "index out of range"
  parse_leaf (der ∷ rest) = wrapped (wrap "while pre-parsing certificate") (x.parse_certificate der)

  unfoldable pub new_server_cert : Instant → Result KeyPair
  unfolding build_tls_csr
  new_server_cert i = do
    csr ← wrapped (wrap "while generating CSR") (build_tls_csr lib x server_key)
    cert ← wrapped (wrap "while signing CSR") (
        sign net x i ctx.cluster_ca csr true validity_interval "keyserver-autogen-tls"
          (ctx.keyserver_dns ∷ []) [])
    certificate ← wrapped (wrap "while reloading certificate") (x509_key_pair cert server_key)
    leaf ← parse_leaf certificate
    ok (record { certificate = certificate; private_key = server_key; leaf = leaf })

  abbrev pub keep : Option KeyPair → Result KeyPair → Result KeyPair × Option KeyPair
  keep held (ok pair) = (ok pair, some pair)
  keep held (err e) = (err e, held)
  keep held (panic t) = (panic t, held)

  -- `k.ServerCert` is used while it is not nil and `now` plus the margin is before its end.
  -- The state is `k.ServerCert`; the clock is read first, and again when the certificate is signed.
  unfoldable pub get_valid_server_cert :
      ℕ → Instant → Option KeyPair → Result KeyPair × Option KeyPair
  unfolding new_server_cert
  get_valid_server_cert now i none = keep none (new_server_cert i)
  get_valid_server_cert now i (some pair) =
      if ltb (now + renewal_margin) pair.leaf.not_after
      then (ok pair, some pair)
      else keep (some pair) (new_server_cert i)
