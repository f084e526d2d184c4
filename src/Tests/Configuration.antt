-- ===== src/Tests/Configuration.antt =====
-- The configuration of the sample deployment.
use homeworld.Common.{◌≡◌, refl, ◌↔◌, true, false, none, [], map, ok, All}
use homeworld.Common.Dict.{Dict, insert, AllValues}
use homeworld.Authority.{Authority}
use homeworld.Account.{Context}
use homeworld.Authority.{load}
use homeworld.Authority.Pem.{
  load_rsa_key_from_pem, load_x509_cert_from_pem, load_single_pem_block, is_expected,
}
use homeworld.Authority.Tls.{load_tls_authority, check_keys}
use homeworld.Authority.Ssh.{load_ssh_authority, parse_single_ssh_key, are_public_keys_equal}
use homeworld.WorldConfig.Spire.{
  is_supervisor, is_master, is_worker, validate, load_spire_setup, check_node, check_nodes,
  check_admins, is_member, SpireNode,
}
use homeworld.WorldConfig.Grants.{node_grants, list_authorities, Authorities}
use homeworld.WorldConfig.Generate.{configure, generate_config, load_authorities}
use homeworld.WorldConfig.Validation.{
  IsUsable, IsAdminList, count_supervisors, validate_iff, ready, found, last_supervisor,
}
use homeworld.WorldConfig.Confinement.{IsOrdinary, node_grants-IsOrdinary}
use homeworld.WorldConfig.Success.{generate_config_total}
use homeworld.Tests.Sample.{sys, net, setup, conf, tls_sample, ssh_sample, dict_or}

validate_iff_example : (validate net setup ≡ ok conf) ↔ (
    All (IsUsable net) setup.nodes
    × (count_supervisors setup.nodes ≡ 1)
    × IsAdminList [] setup.root_admins
    × (conf ≡ record setup {
      nodes = map (ready net) setup.nodes;
      supervisor = found net (last_supervisor setup.nodes) none;
    }))
validate_iff_example = validate_iff net setup conf

validated : validate net setup ≡ ok conf
unfolding validate check_nodes check_node is_supervisor is_master is_worker check_admins is_member
validated = refl

loaded_setup :
    load_spire_setup sys.net sys.parse_yaml (sys.read_file "/etc/homeworld/config/setup.yaml")
    ≡ ok conf
unfolding load_spire_setup validate check_nodes check_node is_supervisor is_master is_worker
    check_admins is_member
loaded_setup = refl

abbrev authorities : Dict Authority
authorities = dict_or (load_authorities sys list_authorities [])

loaded : load_authorities sys list_authorities [] ≡ ok authorities
unfolding load_authorities load load_tls_authority load_rsa_key_from_pem load_x509_cert_from_pem
    load_single_pem_block is_expected check_keys load_ssh_authority parse_single_ssh_key
    are_public_keys_equal insert
loaded = refl

generate_config_total_example :
    (ctx : Context) × (generate_config sys ≡ ok ctx) × (configure sys conf ≡ ok ctx)
generate_config_total_example = generate_config_total sys conf loaded_setup refl loaded

abbrev all_authorities : Authorities
all_authorities = record {
  keygranting = tls_sample;
  cluster_ca = tls_sample;
  ssh_user = ssh_sample;
  ssh_host = ssh_sample;
  etcd_server = tls_sample;
  etcd_client = tls_sample;
  kubernetes = tls_sample;
  service_account = tls_sample;
}

abbrev master : SpireNode
master = record { hostname = "m"; ip = "10.0.0.2"; net_ip = none; setup = true; kind = "master" }

no_supervisor : is_supervisor master ≡ false
unfolding is_supervisor
no_supervisor = refl

node_grants-IsOrdinary_example :
    AllValues
      (IsOrdinary all_authorities master "m.example.com" "m.example.com")
      (node_grants conf all_authorities master "m.example.com" "m.example.com")
node_grants-IsOrdinary_example =
    node_grants-IsOrdinary conf all_authorities master "m.example.com" "m.example.com" no_supervisor
