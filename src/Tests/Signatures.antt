-- ===== src/Tests/Signatures.antt =====
-- Signatures with the stand-ins for the packages.
use text.Mathlib.Text.{starts_with}
use mathlib.Core.List.{Memᴰ}
use homeworld.Common.{
  ◌+◌, ◌/◌, ◌≤◌, ◌<◌, String, ◌≡◌, refl, ◌≢◌, ◌↔◌, true, none, some, List, [], ◌∷◌, arith,
  if◌then◌else◌, ok,
}
use homeworld.Authority.Crypto.{
  Csr, Certificate, Template, SshKey, SshCertificate, rsa, rsa_algorithm, host_cert, user_cert,
}
use homeworld.Authority.Pem.{
  load_rsa_key_from_pem, load_x509_cert_from_pem, load_x509_csr_from_pem, load_single_pem_block,
  load_single_pem_block_iff, is_expected,
}
use homeworld.Authority.Tls.{
  load_tls_authority, check_keys, sign, cert_template, finish_certificate,
  partition_dns_names_and_ips, verify_cert, VerifiedChains, first_cert,
}
use homeworld.Authority.Ssh.{
  second, sign_ssh, ssh_certificate, marshal_ssh_cert, cert_type, parse_single_ssh_key,
}
use homeworld.Authority.Certificates.{
  IsIssued, sign_sound, load_tls_authority_sound, verify_cert_iff, sign_ssh_sound,
}
use homeworld.Tests.Sample.{
  net, x509, ssh_lib, enc, instant, tls_sample, ssh_sample, key_block, csr_block, certificate,
}

abbrev host_names : List String
host_names = "m.example.com" ∷ "10.0.0.2" ∷ []

signed : sign net x509 instant tls_sample csr_block true 60 "etcd" host_names [] ≡ ok "etcd"
unfolding sign finish_certificate cert_template load_x509_csr_from_pem load_single_pem_block
    is_expected partition_dns_names_and_ips
signed = refl

sign_sound_example :
    (csr : Csr) × (load_x509_csr_from_pem x509 csr_block ≡ ok csr)
    × (x509.check_signature csr ≡ ok tt)
    × ((c : Template) × IsIssued net 100 true 60 "etcd" host_names [] c
        × ((der : String) × (x509.create_certificate c tls_sample.cert csr.public_key tls_sample.key
              ≡ ok der)
            × ("etcd" ≡ x509.pem_encode (record { kind = "CERTIFICATE"; bytes = der }))))
sign_sound_example =
    sign_sound net x509 instant tls_sample csr_block true 60 "etcd" host_names [] signed

loaded : load_tls_authority x509 key_block "-----BEGIN CERT" ≡ ok tls_sample
unfolding load_tls_authority load_rsa_key_from_pem load_x509_cert_from_pem load_single_pem_block
    is_expected check_keys
loaded = refl

load_tls_authority_sound_example :
    (tls_sample.cert.public_key_algorithm ≡ rsa_algorithm)
    × (tls_sample.cert.public_key ≡ rsa tls_sample.key.modulus)
    × (load_rsa_key_from_pem x509 key_block ≡ ok tls_sample.key)
    × (load_x509_cert_from_pem x509 "-----BEGIN CERT" ≡ ok tls_sample.cert)
    × (tls_sample.key_encoded ≡ key_block)
    × (tls_sample.cert_encoded ≡ "-----BEGIN CERT")
load_tls_authority_sound_example = load_tls_authority_sound x509 key_block "-----BEGIN CERT" loaded

abbrev chains : VerifiedChains
chains = some ((certificate "m.example.com" ∷ []) ∷ [])

has_chain :
    (cert : Certificate)
    → (x509.verify tls_sample.cert cert).1 ≡ none
    → (x509.verify tls_sample.cert cert).0 ≢ 0
has_chain cert fine = omega arith

verify_cert_iff_example : (verify_cert x509 (λ e. e) tls_sample chains ≡ ok "m.example.com") ↔ (
    (cert : Certificate) × (first_cert chains ≡ some cert)
    × ((x509.verify tls_sample.cert cert).1 ≡ none)
    × (cert.common_name ≡ "m.example.com"))
verify_cert_iff_example = verify_cert_iff x509 (λ e. e) tls_sample chains "m.example.com" has_chain

abbrev principals : List String
principals = "m" ∷ []

ssh_signed :
    sign_ssh ssh_lib enc instant ssh_sample "K" true second "m" principals ≡ ok "ssh-rsa-cert m\n"
unfolding sign_ssh parse_single_ssh_key ssh_certificate marshal_ssh_cert cert_type
ssh_signed = refl

sign_ssh_sound_example :
    (c : SshCertificate) × (signed_key : SshKey) × (parse_single_ssh_key ssh_lib "K" ≡ ok c.key)
    × (ssh_lib.sign_cert c ssh_sample.key ≡ ok signed_key)
    × ("ssh-rsa-cert m\n" ≡ marshal_ssh_cert enc signed_key)
    × (c.cert_type ≡ (if true then host_cert else user_cert))
    × (c.valid_principals ≡ principals)
    × (principals ≢ [])
    × (second ≤ second)
    × (c.valid_after < c.valid_before)
    × (c.valid_before ≤ 101 / second + second / second + 1)
sign_ssh_sound_example =
    sign_ssh_sound ssh_lib enc instant ssh_sample "K" true second "m" principals (omega arith)
      (omega arith) ssh_signed

load_single_pem_block_iff_example :
    (load_single_pem_block x509 key_block ("RSA PRIVATE KEY" ∷ []) ≡ ok key_block) ↔ (
      (starts_with key_block "-----BEGIN " ≡ true)
      × ((kind : String) × Memᴰ kind ("RSA PRIVATE KEY" ∷ [])
          × (x509.pem_decode key_block ≡ (some (record { kind = kind; bytes = key_block }), ""))))
load_single_pem_block_iff_example =
    load_single_pem_block_iff x509 key_block ("RSA PRIVATE KEY" ∷ []) key_block
