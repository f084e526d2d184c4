-- ===== src/Tests/Sample.antt =====
-- A small deployment: stand-ins for the packages, a setup with a supervisor and a worker, the
-- context that is generated for it, and one request.
use homeworld.Common.{
  String, Bool, true, false, none, some, List, [], ◌∷◌, map, ◌==◌, eqb, if◌then◌else◌, Error,
  Result, ok,
}
use homeworld.Common.Dict.{Dict}
use homeworld.Token.{Encoding, Moment}
use homeworld.Authority.Crypto.{X509, Net, Ip, SshLib, Instant, Certificate, rsa_algorithm, rsa}
use homeworld.Authority.Tls.{TlsAuthority}
use homeworld.Authority.Ssh.{SshAuthority}
use homeworld.Account.{Context, Packages, Reading, Account}
use homeworld.Operation.{Json}
use homeworld.KeyApi.{Request, Readings}
use homeworld.WorldConfig.Spire.{SpireSetup}
use homeworld.WorldConfig.Validation.{ready}
use homeworld.WorldConfig.Generate.{System}

abbrev pub same_ip : Ip → Ip → Bool
same_ip [] [] = true
same_ip (a ∷ as') (b ∷ bs) = if eqb a b then same_ip as' bs else false
same_ip _ _ = false

abbrev pub net : Net
net = record {
  parse_ip = λ s.
      if s == "10.0.0.1"
      then some (10 ∷ 0 ∷ 0 ∷ 1 ∷ [])
      else (if s == "10.0.0.2" then some (10 ∷ 0 ∷ 0 ∷ 2 ∷ []) else none);
  ip_equal = same_ip;
}

abbrev pub key_block : String
key_block = "-----BEGIN KEY"

abbrev pub csr_block : String
csr_block = "-----BEGIN CSR"

abbrev pub block_kind : String → String
block_kind s =
    if s == key_block
    then "RSA PRIVATE KEY"
    else (if s == csr_block then "CERTIFICATE REQUEST" else "CERTIFICATE")

abbrev pub certificate : String → Certificate
certificate name = record {
  raw = name;
  common_name = name;
  not_after = 1000;
  public_key_algorithm = rsa_algorithm;
  public_key = rsa 33;
}

abbrev pub x509 : X509
x509 = record {
  pem_decode = λ s. (some (record { kind = block_kind s; bytes = s }), "");
  pem_encode = λ b. b.bytes;
  parse_certificate = λ s. ok (certificate s);
  parse_certificate_request = λ s. ok (record { body = s; public_key = rsa 35 });
  parse_pkcs1 = λ s. ok (record { modulus = 33; encoded = s });
  parse_pkcs8 = λ s. ok none;
  check_signature = λ csr. ok tt;
  verify = λ root cert. (1, none);
  create_certificate = λ template parent key signer. ok template.common_name;
}

abbrev pub ssh_lib : SshLib
ssh_lib = record {
  parse_authorized_key = λ s. ok (record { kind = "ssh-rsa"; blob = s }, "");
  parse_private_key =
      λ s. ok (record { public = record { kind = "ssh-rsa"; blob = s }; secret = s });
  sign_cert = λ c signer. ok (record { kind = "ssh-rsa-cert"; blob = c.key_id });
}

abbrev pub enc : Encoding
enc = record { base64 = λ s. s; sha256 = λ s. "xyz" }

abbrev pub packages : Packages
packages = record { x509 = x509; net = net; ssh = ssh_lib; encoding = enc }

abbrev pub wrap : String → Error → Error
wrap text e = e

abbrev pub setup : SpireSetup
setup = record {
  cluster = record {
    external_domain = "example.com";
    internal_domain = "internal";
    kerberos_realm = "EXAMPLE.COM";
  };
  service_api = "10.0.0.9";
  nodes =
      record {
        hostname = "sup";
        ip = "10.0.0.1";
        net_ip = none;
        setup = false;
        kind = "supervisor";
      }
      ∷ record { hostname = "work"; ip = "10.0.0.2"; net_ip = none; setup = false; kind = "worker" }
      ∷ [];
  supervisor = none;
  root_admins = "admin@EXAMPLE.COM" ∷ [];
}

-- The setup once it is validated.
abbrev pub conf : SpireSetup
conf = record setup {
  nodes = map (ready net) setup.nodes;
  supervisor = some (record {
    hostname = "sup";
    ip = "10.0.0.1";
    net_ip = some (10 ∷ 0 ∷ 0 ∷ 1 ∷ []);
    setup = true;
    kind = "supervisor";
  });
}

abbrev pub read_under : String → String → Result String
read_under dir name =
    if name == "ssh-user"
    then ok "P"
    else (if name == "ssh-user.pub"
        then ok "P"
        else (if name == "ssh-host"
            then ok "P"
            else (if name == "ssh-host.pub"
                then ok "P"
                else (if name == "keygranting.pem"
                    then ok "-----BEGIN CERT"
                    else (if name == "clusterca.pem"
                        then ok "-----BEGIN CERT"
                        else (if name == "kubernetes.pem"
                            then ok "-----BEGIN CERT"
                            else (if name == "etcd-server.pem"
                                then ok "-----BEGIN CERT"
                                else (if name == "etcd-client.pem"
                                    then ok "-----BEGIN CERT"
                                    else (if name == "serviceaccount.pem"
                                        then ok "-----BEGIN CERT"
                                        else ok key_block)))))))))

abbrev pub sys : System
sys = record {
  net = net;
  x509 = x509;
  ssh_lib = ssh_lib;
  read_file = λ path. ok "yaml";
  read_under = read_under;
  stat = λ path. ok false;
  parse_yaml = λ content. ok setup;
}

abbrev pub tls_sample : TlsAuthority
tls_sample = record {
  key = record { modulus = 33; encoded = key_block };
  key_encoded = key_block;
  cert = certificate "-----BEGIN CERT";
  cert_encoded = "-----BEGIN CERT";
}

abbrev pub ssh_sample : SshAuthority
ssh_sample = record {
  key = record { public = record { kind = "ssh-rsa"; blob = "P" }; secret = "P" };
  pubkey = "P";
}

abbrev pub moment : Moment
moment = record { sweep = λ k. 100; now = 100; random = ok "token" }

abbrev pub instant : Instant
instant = record { now = 100; later = 101; random_int = λ bound. ok 7 }

abbrev pub reading : Reading
reading = record { moment = moment; instant = instant }

-- The supervisor acts as an administrator, and asks for SSH access.
abbrev pub operations : List (Dict String)
operations =
    (("api", "auth-to-kerberos") ∷ ("body", "admin@EXAMPLE.COM") ∷ [])
    ∷ (("api", "access-ssh") ∷ ("body", "K") ∷ [])
    ∷ []

abbrev pub json : Json
json = record {
  decode_operations = λ s. ok operations;
  encode_texts = λ texts. ok "done";
  encode_operations = λ ops. ok "ops";
  decode_texts = λ s. ok ("" ∷ []);
}

abbrev pub request : Request
request = record {
  path = "/apirequest";
  bootstrap_token = "";
  tls = some ((certificate "sup.example.com" ∷ []) ∷ []);
  remote_addr = "10.0.0.1:4000";
  body = ok "ops";
}

abbrev pub readings : Readings
readings = record { claim = 100; operation = λ i. reading }

abbrev pub context_or : Context → Result Context → Context
context_or otherwise (ok ctx) = ctx
context_or otherwise _ = otherwise

abbrev pub no_context : Context
no_context = record {
  authorities = [];
  accounts = [];
  authentication_authority = tls_sample;
  cluster_ca = tls_sample;
  static_files = [];
  keyserver_dns = "";
  members = λ group. [];
}

abbrev pub no_account : Account
no_account = record { principal = ""; disable_direct_auth = true; limit_ip = none; privileges = [] }

abbrev pub account_or : Account → Result Account → Account
account_or otherwise (ok a) = a
account_or otherwise _ = otherwise

abbrev pub dict_or : {A : Type 0} → Result (Dict A) → Dict A
dict_or (ok m) = m
dict_or _ = []
