-- ===== src/Tests/Serving.antt =====
-- The keyserver's own certificate, renewed on a sample deployment. The DER form of a certificate is
-- its end, in unary.
use Prim.Native.Char.{char}
use Prim.Native.String.{[] as nil, ◌∷◌ as cons}
use homeworld.Common.{
  ℕ, zero, suc, String, ◌≡◌, refl, ap, false, Option, some, List, [], ◌∷◌, arith, Result, ok, err,
  panic,
}
use homeworld.Authority.Crypto.{X509, Certificate}
use homeworld.Util.Csr.{CsrLib}
use homeworld.KeyApi.ServerCert.{KeyPair}
use homeworld.KeyApi.Serving.{IsDocumented, IsHandshake, serve_cert, get_valid_server_cert_sound}
use homeworld.Tests.Sample.{net, x509, certificate, no_context, key_block, instant, wrap}

unary : ℕ → String
unary zero = nil
unary (suc n) = cons (char 49 tt) (unary n)

count : String → ℕ
count nil = 0
count (cons c s) = suc (count s)

count-unary : (n : ℕ) → count (unary n) ≡ n
unfolding count unary
count-unary zero = refl
count-unary (suc n) = ap suc (count-unary n)

abbrev ending : String → Certificate
ending der = record (certificate "keyserver") { not_after = count der }

abbrev unary_x509 : X509
unary_x509 = record x509 {
  parse_certificate = λ der. ok (ending der);
  create_certificate = λ template parent key signer. ok (unary template.not_after);
}

abbrev csr_lib : CsrLib
csr_lib = record {
  create_certificate_request = λ name key. ok "request";
  marshal_authorized_key = λ key. key.blob;
  inner_newlines = λ text. 0;
  is_cert_type = λ kind. false;
}

abbrev key_pair : String → String → Result (List String)
key_pair pem key = ok (pem ∷ [])

documented : IsDocumented net unary_x509 csr_lib key_pair wrap no_context key_block
documented = record {
  ends = λ t parent key signer der c made parsed.
      let e : unary t.not_after ≡ der = cc in
      let f : count der ≡ c.not_after = ap (λ (r : Result Certificate). end_of r) parsed in
      omega (arith, ap count e, count-unary t.not_after, f);
  reads = λ der certificate e. cc;
}
  where
    end_of : Result Certificate → ℕ
    end_of (ok c) = c.not_after
    end_of (err e) = 0
    end_of (panic t) = 0

-- The pair held before is about to end.
abbrev held : Option KeyPair
held = some (record { certificate = []; private_key = key_block; leaf = certificate "old" })

get_valid_server_cert_sound_example :
    IsHandshake net unary_x509 csr_lib key_pair wrap no_context key_block 100 instant held
      (serve_cert net unary_x509 csr_lib key_pair wrap no_context key_block 100 instant held)
get_valid_server_cert_sound_example =
    get_valid_server_cert_sound net unary_x509 csr_lib key_pair wrap no_context key_block 100
      instant held documented (omega arith)
