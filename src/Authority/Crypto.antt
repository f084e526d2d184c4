-- ===== src/Authority/Crypto.antt =====
-- The cryptographic packages that the source calls, as parameters of the model: Go's `encoding/pem`,
-- `crypto/x509` and `net`, and `golang.org/x/crypto/ssh`. Texts stand for byte slices.
use homeworld.Common.{ℕ, String, Bool, Option, List, Error, Result}

pub data PublicKey : Type 0 where
  -- `*rsa.PublicKey`, by its modulus
  rsa : ℕ → PublicKey
  other : String → PublicKey

pub data KeyAlgorithm : Type 0 where
  rsa_algorithm other_algorithm : KeyAlgorithm

pub record RsaKey : Type 0 where
  pub modulus : ℕ
  pub encoded : String

pub record Certificate : Type 0 where
  pub raw : String
  pub common_name : String
  pub not_after : ℕ
  pub public_key_algorithm : KeyAlgorithm
  pub public_key : PublicKey

pub record Csr : Type 0 where
  pub body : String
  pub public_key : PublicKey

pub data KeyUsage : Type 0 where
  client_auth server_auth : KeyUsage

-- `net.IP`, by its bytes.
abbrev pub Ip : Type 0
Ip = List ℕ

-- The fields of `x509.Certificate` that the source sets before it signs.
pub record Template : Type 0 where
  pub digital_signature : Bool
  pub ext_key_usage : List KeyUsage
  pub basic_constraints_valid : Bool
  pub is_ca : Bool
  pub max_path_len : ℕ
  pub max_path_len_zero : Bool
  pub not_before : ℕ
  pub not_after : ℕ
  pub common_name : String
  pub organization : List String
  pub dns_names : List String
  pub ip_addresses : List Ip
  pub serial_number : ℕ

pub record PemBlock : Type 0 where
  pub kind : String
  pub bytes : String

pub record X509 : Type 0 where
  -- `pem.Decode`: the block, if one is found, and what remains
  pub pem_decode : String → Option PemBlock × String
  pub pem_encode : PemBlock → String
  pub parse_certificate : String → Result Certificate
  pub parse_certificate_request : String → Result Csr
  pub parse_pkcs1 : String → Result RsaKey
  -- `none` for a private key that is not RSA
  pub parse_pkcs8 : String → Result (Option RsaKey)
  pub check_signature : Csr → Result (Unit {0})
  -- `cert.Verify` for client authentication under one root: the number of chains, and the error
  pub verify : Certificate → Certificate → ℕ × Option Error
  pub create_certificate : Template → Certificate → PublicKey → RsaKey → Result String

pub record Net : Type 0 where
  pub parse_ip : String → Option Ip
  -- `ip.Equal`
  pub ip_equal : Ip → Ip → Bool

-- `ssh.PublicKey`, by its `Type()` and `Marshal()`; also a certificate, once it is signed.
pub record SshKey : Type 0 where
  pub kind : String
  pub blob : String

pub record SshSigner : Type 0 where
  pub public : SshKey
  pub secret : String

pub data SshCertType : Type 0 where
  user_cert host_cert : SshCertType

pub record SshCertificate : Type 0 where
  pub key : SshKey
  pub key_id : String
  pub serial : ℕ
  pub cert_type : SshCertType
  pub valid_after : ℕ
  pub valid_before : ℕ
  pub valid_principals : List String
  pub extensions : List (String × String)

pub record SshLib : Type 0 where
  -- the key and what remains of the data
  pub parse_authorized_key : String → Result (SshKey × String)
  pub parse_private_key : String → Result SshSigner
  pub sign_cert : SshCertificate → SshSigner → Result SshKey

-- What a signature reads: the clock, once or twice, and a random number below the bound given.
pub record Instant : Type 0 where
  pub now : ℕ
  pub later : ℕ
  pub random_int : ℕ → Result ℕ
