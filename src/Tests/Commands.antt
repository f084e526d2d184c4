-- ===== src/Tests/Commands.antt =====
-- The command of an administrator, on a sample host.
use homeworld.Common.{
  ℕ, suc, String, ◌≡◌, refl, inl, false, [], ◌∷◌, ◌==◌, eqb, if◌then◌else◌, message, Result, ok,
  err, length,
}
use homeworld.Authority.Pem.{
  load_x509_cert_from_pem, load_single_pem_block, is_expected, load_rsa_key_from_pem,
}
use homeworld.Operation.{Json}
use homeworld.Keyclient.Effects.{Client, Os}
use homeworld.Keyclient.Target.{send_request, get_pubkey, endpoint_request}
use homeworld.Util.Csr.{CsrLib, build_tls_csr}
use homeworld.Keygateway.{new_keyserver}
use homeworld.Keygateway.Knc.{
  Processes, knc_request, knc_send_requests, authenticate_with_kerberos_tickets,
}
use homeworld.Keyreq.{goes, main}
use homeworld.Keyreq.Kerberos.{IsGreeted}
use homeworld.Keyreq.Obtained.{IsObtained, main-obtains}
use homeworld.Tests.Sample.{x509, key_block}
use homeworld.Tests.KeyclientRounds.{os, client, errors}

-- The keyserver answers an empty batch with no results, and any other with one.
abbrev json : Json
json = record {
  decode_operations = λ s. err (message "unused");
  encode_texts = λ texts. ok "texts";
  encode_operations = λ ops. ok (if eqb (length ops) 0 then "[]" else "[op]");
  decode_texts = λ s. ok (if s == "[]" then [] else "cert" ∷ []);
}

abbrev processes : Processes ℕ
processes = record {
  environ = λ w. [];
  stdin_pipe = λ w. ok tt;
  output = λ args env input w. (ok input, w);
  describe = λ e. e;
  url_hostname = λ url. ok "keyserver";
}

-- The state counts the files that were written.
abbrev host : Os ℕ
host = record os {
  read_file = λ path w. ok "-----BEGIN CERTIFICATE";
  generate_rsa = λ bits w. (ok key_block, w);
  write_file = λ path contents mode w. (ok tt, suc w);
  send = λ request w. (ok (record { status = 200; body = ok "ca" }), w);
}

abbrev csr_lib : CsrLib
csr_lib = record {
  create_certificate_request = λ name key. ok "request";
  marshal_authorized_key = λ key. key.blob;
  inner_newlines = λ text. 0;
  is_cert_type = λ kind. false;
}

abbrev ssh_pubkey : String → Result String
ssh_pubkey key = ok "ssh-rsa"

abbrev write_stdout : String → ℕ → Result (Unit {0}) × ℕ
write_stdout text w = (ok tt, w)

abbrev three_files : Client ℕ
three_files = record client { world = suc (suc (suc client.world)) }

obtains :
    main host errors x509 json processes csr_lib ssh_pubkey write_stdout
      ("kube-cert" ∷ "ca" ∷ "keyserver" ∷ "k.key" ∷ "k.pem" ∷ "ca.pem" ∷ [])
      client
    ≡ (goes tt, three_files)
unfolding main new_keyserver load_x509_cert_from_pem load_single_pem_block is_expected
    load_rsa_key_from_pem build_tls_csr send_request get_pubkey endpoint_request
    authenticate_with_kerberos_tickets knc_send_requests knc_request
obtains = refl

main-obtains_example :
    (base_url : String) × (hostname : String) × (v : Client ℕ) × IsGreeted host errors x509 json
      processes csr_lib "ca" "keyserver" base_url hostname client v
    × IsObtained host errors x509 json processes csr_lib "access-kubernetes" "kubernetes" base_url
        hostname "k.key" "k.pem" "ca.pem" v three_files
main-obtains_example =
    main-obtains host errors x509 json processes csr_lib ssh_pubkey write_stdout "kube-cert"
      "access-kubernetes" "kubernetes" "ca" "keyserver" "k.key" "k.pem" "ca.pem" [] client
      three_files (inl (refl, refl, refl)) obtains
