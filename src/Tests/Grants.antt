-- ===== src/Tests/Grants.antt =====
-- The page of the user grants for a sample user, in a cluster whose state counts the objects.
use homeworld.Common.{
  ℕ, suc, ◌≡◌, refl, none, some, List, [], ◌∷◌, ◌==◌, if◌then◌else◌, message, ok,
}
use homeworld.Authority.Crypto.{rsa}
use homeworld.Authority.Tls.{VerifiedChains, finish_certificate}
use homeworld.UserGrant.{Config, Response}
use homeworld.UserGrant.Email.{Attribute, oid_email_address}
use homeworld.UserGrant.Handler.{
  created, refused, Services, Reply, replied, serve_page, answered, parsed, write_all, authenticate,
  grant, prepare, handle_request,
}
use homeworld.UserGrant.Soundness.{IsGranted, serve_page_sound, empty_reply}
use homeworld.Tests.Sample.{x509, certificate, instant}

abbrev names : List Attribute
names =
    record { kind = 2 ∷ 5 ∷ 4 ∷ 3 ∷ []; value = some "Alice" }
    ∷ record { kind = oid_email_address; value = some "alice@mit.edu" }
    ∷ []

-- The namespace is there already, and the binding is created.
abbrev services : Services ℕ
services = record {
  subject_names = λ cert. names;
  create_namespace = λ namespace w. (refused "AlreadyExists" (message "exists"), w);
  create_role_binding = λ binding w. (created, suc w);
  parse_template = none;
  execute = λ resp. ("namespace: " ∷ resp.namespace ∷ [], none);
  generate_rsa = λ bits w. (ok (rsa 35, "key"), w);
  instant = λ w. instant;
  encode = λ s. if s == "" then "" else "Zm9v";
  wrap = λ text e. e;
}

abbrev config : Config
config = record {
  apiserver_address = "kube.mit.edu";
  email_auth_domain = "mit.edu";
  upstream_ca = certificate "upstream";
  kube_ca = "ca";
  issuer_cert = certificate "issuer";
  issuer_key = record { modulus = 33; encoded = "issuer" };
}

abbrev chains : VerifiedChains
chains = some ((certificate "alice" ∷ []) ∷ [])

abbrev page : Reply
page = record { status = some 200; body = "namespace: user-alice" }

serve_page_runs : serve_page x509 services config chains 7 ≡ (replied page, 8)
unfolding serve_page handle_request prepare authenticate grant finish_certificate
serve_page_runs = refl

serve_page_sound_example :
    (resp : Response) × IsGranted x509 services config chains 7 resp 8
    × (answered (parsed (services.execute resp).1, write_all (services.execute resp).0 empty_reply)
        ≡ replied page)
serve_page_sound_example =
    serve_page_sound x509 services config chains page 7 8 refl serve_page_runs refl
