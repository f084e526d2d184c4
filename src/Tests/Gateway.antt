-- ===== src/Tests/Gateway.antt =====
-- A batch through knc and the gateway. Texts are encoded one behind the other: each begins with a mark,
-- and each of its characters stands behind another mark.
use Prim.Native.Char.{Char, char, code}
use Prim.Native.String.{[] as nil, ◌∷◌ as cons}
use homeworld.Common.{
  ℕ, String, ◌≡◌, refl, sym, ap, ◌∙◌, ◌≢◌, Bool, true, false, List, [], ◌∷◌, ◌++◌, map, eqb,
  if◌then◌else◌, message, Result, ok, err, panic,
}
use homeworld.Common.Dict.{Dict}
use homeworld.Operation.{Json}
use homeworld.Authority.Pem.{load_x509_cert_from_pem, load_single_pem_block, is_expected}
use homeworld.Keyclient.Effects.{Os}
use homeworld.Keyclient.Target.{
  Request, entries, impersonate_target, impersonated, authenticated, authenticate_with_cert,
  post_json, endpoint_request,
}
use homeworld.Keygateway.{
  Gateway, handle_request, load_default_keyserver_with_cert, load_default_keyserver, new_keyserver,
  get_keyserver,
}
use homeworld.Keygateway.Knc.{KncServer, Processes, knc_request, knc_send_requests}
use homeworld.Keygateway.Roundtrip.{IsJson, IsServed, knc-gateway}
use homeworld.Tests.Sample.{x509}
use homeworld.Tests.KeyclientRounds.{os, client, errors}

abbrev mark : Char
mark = char 91 tt

abbrev behind : Char
behind = char 44 tt

write_text : String → String → String
write_text nil rest = rest
write_text (cons c s) rest = cons behind (cons c (write_text s rest))

write_texts : List String → String
unfolding write_text
write_texts [] = nil
write_texts (text ∷ texts) = cons mark (write_text text (write_texts texts))

abbrev start_text : String × List String → String × List String
start_text (text, texts) = (nil, text ∷ texts)

abbrev push : Char → String × List String → String × List String
push c (text, texts) = (cons c text, texts)

-- The characters before the first mark, and the texts behind it.
read_texts : String → String × List String
read_texts nil = (nil, [])
read_texts (cons m nil) = start_text (nil, [])
read_texts (cons m (cons c s)) =
    let rest = read_texts (cons c s) in
    let inner = read_texts s in if eqb (code m) 91 then start_text rest else push c inner

read_texts-mark : (s : String) → read_texts (cons mark s) ≡ start_text (read_texts s)
unfolding read_texts
read_texts-mark nil = refl
read_texts-mark (cons c s) = refl

append_text : String → String → String
append_text nil t = t
append_text (cons c s) t = cons c (append_text s t)

read_texts-write_text :
    (text rest : String)
    → read_texts (write_text text rest)
      ≡ (append_text text (read_texts rest).0, (read_texts rest).1)
unfolding read_texts write_text append_text
read_texts-write_text nil rest = refl
read_texts-write_text (cons c s) rest = ap (push c) (read_texts-write_text s rest)

append_text-nil : (s : String) → append_text s nil ≡ s
unfolding append_text
append_text-nil nil = refl
append_text-nil (cons c s) = ap (cons c) (append_text-nil s)

read_texts-write_texts : (texts : List String) → read_texts (write_texts texts) ≡ (nil, texts)
unfolding write_texts
read_texts-write_texts [] = unfold read_texts in refl
read_texts-write_texts (text ∷ texts) =
    let e = read_texts-write_texts texts in
    read_texts-mark (write_text text (write_texts texts))
    ∙ ap start_text (read_texts-write_text text (write_texts texts))
    ∙ ap (λ (p : String × List String). start_text (append_text text p.0, p.1)) e
    ∙ ap (λ t. (nil, t ∷ texts)) (append_text-nil text)

abbrev texts_of : String → Result (List String)
texts_of nil = err (message "unexpected end of JSON input")
texts_of (cons c s) = ok (read_texts s).1

abbrev values : Dict String → List String
values [] = []
values ((key, held) ∷ rest) = held ∷ values rest

abbrev all_values : List (Dict String) → List String
all_values [] = []
all_values (op ∷ ops) = values op ++ all_values ops

abbrev pair_up : List String → List Request
pair_up [] = []
pair_up (text ∷ []) = []
pair_up (api ∷ body ∷ rest) = record { api = api; body = body } ∷ pair_up rest

abbrev requests_of : Result (List String) → Result (List Request)
requests_of (ok texts) = ok (pair_up texts)
requests_of (err e) = err e
requests_of (panic t) = panic t

pair_up-all_values : (reqs : List Request) → pair_up (all_values (map entries reqs)) ≡ reqs
pair_up-all_values [] = refl
pair_up-all_values (r ∷ reqs) = ap (λ l. r ∷ l) (pair_up-all_values reqs)

abbrev json : Json
json = record {
  decode_operations = λ s. err (message "unused");
  encode_texts = λ texts. ok (cons mark (write_texts texts));
  encode_operations = λ ops. ok (cons mark (write_texts (all_values ops)));
  decode_texts = texts_of;
}

abbrev gateway : Gateway ℕ
gateway = record {
  getenv = λ key w. "user@MIT.EDU";
  read_stdin = λ w. (ok "", w);
  write_stdout = λ text w. (ok tt, w);
  decode_requests = λ raw. requests_of (texts_of raw);
}

is_empty : String → Bool
is_empty nil = true
is_empty (cons c s) = false

not_empty : (s : String) → cons mark s ≢ ""
unfolding is_empty
not_empty s e = let k = ap is_empty e in cc

documented : IsJson json gateway
documented = record {
  requests = λ reqs raw e.
      let q : cons mark (write_texts (all_values (map entries reqs))) ≡ raw = cc in
      ap (λ t. requests_of (texts_of t)) (sym q)
      ∙ ap (λ (p : String × List String). ok (pair_up p.1))
          (read_texts-write_texts (all_values (map entries reqs)))
      ∙ ap ok (pair_up-all_values reqs);
  texts = λ results raw e.
      let q : cons mark (write_texts results) ≡ raw = cc in
      (
        ap texts_of (sym q)
            ∙ ap (λ (p : String × List String). ok p.1) (read_texts-write_texts results),
        λ n. not_empty (write_texts results) (q ∙ n),
      );
}

abbrev answers : Result (List String) → Result String
answers (ok texts) = json.encode_texts (map (λ (r : Request). r.body) (pair_up texts))
answers (err e) = err e
answers (panic t) = panic t

-- The keyserver gives each operation's body back, and knc's standard output is what the gateway answers.
abbrev gateway_os : Os ℕ
gateway_os = record os {
  read_file = λ path w. ok "-----BEGIN CERTIFICATE";
  send = λ request w. (ok (record { status = 200; body = answers (texts_of request.body) }), w);
}

abbrev reqs : List Request
reqs = record { api = "access-ssh"; body = "K" } ∷ []

abbrev raw : String
raw = cons mark (write_texts ("access-ssh" ∷ "K" ∷ []))

abbrev out : String
out = cons mark (write_texts ("K" ∷ []))

abbrev processes : Processes ℕ
processes = record {
  environ = λ w. "HOME=/root" ∷ [];
  stdin_pipe = λ w. ok tt;
  output = λ args env input w. (ok out, w);
  describe = λ e. e;
  url_hostname = λ url. ok "keyserver";
}

abbrev server : KncServer
server = record { hostname = "keyserver"; kerberos_ticket_cache = "" }

handled :
    handle_request gateway_os errors x509 json gateway "user@MIT.EDU" raw client ≡ (ok out, client)
unfolding handle_request load_default_keyserver_with_cert load_default_keyserver new_keyserver
    get_keyserver impersonate_target impersonated authenticate_with_cert authenticated post_json
    endpoint_request load_x509_cert_from_pem load_single_pem_block is_expected write_texts
    read_texts
handled = refl

got : knc_request processes errors json server raw client ≡ (ok out, client)
unfolding knc_request
got = refl

knc-gateway_example :
    (results : List String) × IsServed gateway_os errors x509 json gateway processes "user@MIT.EDU"
      reqs results client client
    × (knc_send_requests processes errors json server reqs client ≡ (ok results, client))
knc-gateway_example =
    knc-gateway gateway_os errors x509 json gateway processes server "user@MIT.EDU" raw out reqs
      client client client client documented refl handled got
