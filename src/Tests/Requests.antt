-- ===== src/Tests/Requests.antt =====
-- Requests to the keyserver of the sample deployment.
use homeworld.Common.{String, ◌≡◌, refl, false, some, List, not_exist, Result, ok, err, length}
use homeworld.Common.Dict.{Dict, lookup, insert}
use homeworld.Token.{new_tokens, has_attempt}
use homeworld.Account.{Account, Context, get_account, has_member, invoke}
use homeworld.Authority.{load}
use homeworld.Authority.Pem.{
  load_rsa_key_from_pem, load_x509_cert_from_pem, load_single_pem_block, is_expected,
}
use homeworld.Authority.Tls.{load_tls_authority, check_keys, has_cert_attempt, verify_cert}
use homeworld.Authority.Ssh.{
  load_ssh_authority, parse_single_ssh_key, are_public_keys_equal, sign_ssh, ssh_certificate,
  marshal_ssh_cert, cert_type,
}
use homeworld.Util.RemoteAddress.{
  parse_remote_address, contains, split_last_colon, parse_port, bracketed, before_bracket,
}
use homeworld.Operation.{
  invoke_api_operation_set, run_operations, run_operation, invoke_api_operation,
}
use homeworld.WorldConfig.Spire.{is_supervisor, is_master, is_worker, dns, net_ip, supervisor}
use homeworld.WorldConfig.Grants.{
  grants_for_root_admin_account, node_grants, grants_for_node_account, generate_local_conf,
}
use homeworld.WorldConfig.Generate.{
  configure, validate_static_files, load_authorities, select_authorities, as_tls, as_ssh,
  build_accounts, add_nodes, node_account, add_kerberos, add_admins, add_hosts, register,
}
use homeworld.KeyApi.{
  serve, attempt_authentication, authenticate_by, admit, verify_account_ip, handle_api_request,
}
use homeworld.KeyApi.Authentication.{ComesFrom, Proves, attempt_authentication_sound}
use homeworld.KeyApi.Requests.{serve_sound, serve-IsSound}
use homeworld.Operation.Authorization.{Permitted}
use homeworld.Operation.Registry.{IsSound}
use homeworld.Deployment.{IsFromNode, served}
use homeworld.Tests.Sample.{
  sys, conf, no_context, context_or, packages, wrap, json, request, readings, no_account,
  account_or,
}

abbrev ctx : Context
ctx = context_or no_context (configure sys conf)

configured : configure sys conf ≡ ok ctx
unfolding configure supervisor dns validate_static_files load_authorities load load_tls_authority
    load_rsa_key_from_pem load_x509_cert_from_pem load_single_pem_block is_expected check_keys
    load_ssh_authority parse_single_ssh_key are_public_keys_equal select_authorities as_tls as_ssh
    lookup insert build_accounts add_nodes node_account net_ip grants_for_node_account node_grants
    is_supervisor is_master is_worker generate_local_conf add_kerberos add_admins add_hosts
    grants_for_root_admin_account register
configured = refl

abbrev no_file : String → Result String
no_file path = err (not_exist path)

answered : (serve packages wrap ctx json no_file readings request new_tokens).0 ≡ some (200, "done")
unfolding configure supervisor dns validate_static_files load_authorities load load_tls_authority
    load_rsa_key_from_pem load_x509_cert_from_pem load_single_pem_block is_expected check_keys
    load_ssh_authority parse_single_ssh_key are_public_keys_equal select_authorities as_tls as_ssh
    lookup insert build_accounts add_nodes node_account net_ip grants_for_node_account node_grants
    is_supervisor is_master is_worker generate_local_conf add_kerberos add_admins add_hosts
    grants_for_root_admin_account register serve handle_api_request attempt_authentication
    authenticate_by has_attempt has_cert_attempt verify_cert admit get_account verify_account_ip
    parse_remote_address split_last_colon parse_port bracketed before_bracket contains
    invoke_api_operation_set run_operations run_operation invoke_api_operation invoke has_member
    sign_ssh ssh_certificate marshal_ssh_cert cert_type
answered = refl

served_example :
    (a : Account) × (b : Account) × (body : String) × (ops : List (Dict String)) × (request.body
      ≡ ok body)
    × (json.decode_operations body ≡ ok ops)
    × Proves packages wrap ctx 100 request new_tokens a.principal
    × IsFromNode packages conf ctx request a ops b
served_example =
    served sys packages wrap conf json no_file readings request new_tokens configured refl answered

serve_sound_example :
    (a : Account) × ((attempt_authentication packages wrap ctx 100 request new_tokens).0 ≡ ok a)
    × ((body : String) × (ops : List (Dict String)) × (results : List String) × (request.body
          ≡ ok body)
        × (json.decode_operations body ≡ ok ops)
        × ((b : Account) × Permitted ctx a ops b)
        × (json.encode_texts results ≡ ok "done")
        × (length results ≡ length ops))
serve_sound_example =
    serve_sound packages wrap ctx json no_file readings request new_tokens refl answered

abbrev sender : Account
sender = account_or no_account (attempt_authentication packages wrap ctx 100 request new_tokens).0

authenticated : (attempt_authentication packages wrap ctx 100 request new_tokens).0 ≡ ok sender
unfolding configure supervisor dns validate_static_files load_authorities load load_tls_authority
    load_rsa_key_from_pem load_x509_cert_from_pem load_single_pem_block is_expected check_keys
    load_ssh_authority parse_single_ssh_key are_public_keys_equal select_authorities as_tls as_ssh
    lookup insert build_accounts add_nodes node_account net_ip grants_for_node_account node_grants
    is_supervisor is_master is_worker generate_local_conf add_kerberos add_admins add_hosts
    grants_for_root_admin_account register attempt_authentication authenticate_by has_attempt
    has_cert_attempt verify_cert admit get_account verify_account_ip parse_remote_address
    split_last_colon parse_port bracketed before_bracket contains
authenticated = refl

attempt_authentication_sound_example :
    (principal : String) × Proves packages wrap ctx 100 request new_tokens principal
    × (get_account ctx principal ≡ ok sender)
    × (sender.principal ≡ principal)
    × (sender.disable_direct_auth ≡ false)
    × ComesFrom packages wrap ctx sender request
attempt_authentication_sound_example =
    attempt_authentication_sound packages wrap ctx 100 request new_tokens authenticated

new_tokens-IsSound : IsSound ctx new_tokens
new_tokens-IsSound = record {
  valid = record {
    map = tt;
    keyed = λ k t h. unfold lookup in cc;
    unshared = λ k j t u h. unfold lookup in cc;
  };
  members = tt;
}

serve-IsSound_example :
    IsSound ctx (serve packages wrap ctx json no_file readings request new_tokens).1
serve-IsSound_example =
    serve-IsSound packages wrap ctx json no_file readings request new_tokens new_tokens-IsSound
