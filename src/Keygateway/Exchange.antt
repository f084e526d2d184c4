-- ===== src/Keygateway/Exchange.antt =====
-- What a batch over knc is, for platform/keysystem/api/knc/knc.go: one run of the command.
use Prim.Native.String.{◌++◌ as str_append}
use homeworld.Common.{
  String, ◌≡◌, refl, ap, ◌∙◌, subst, ◌≢◌, not, none, List, [], ◌∷◌, map, arith, ◌==◌, eq_iff, eqb,
  message, Result, ok, err, panic, guard, guard-eq-ok, length, wrapped-eq-ok,
}
use homeworld.Common.Dict.{Dict}
use homeworld.Operation.{Json}
use homeworld.Keyclient.Effects.{◌>>=◌, ◌>>◌, Client, Errors, Act, tell, give, wrapped, wrapping}
use homeworld.Keyclient.Target.{Request, entries}
use homeworld.Keygateway.Knc.{Processes, KncServer, knc_request, knc_send_requests}
use homeworld.Keygateway.Roundtrip.{>>=-gives, wrapping-gives}

pub tell-gives :
    {W A : Type 0} {a : A} {v : Client W} (f : W → Result A × W) (c : Client W)
    → tell f c ≡ (ok a, v)
    → f c.world ≡ (ok a, v.world)
tell-gives f c h = λ i. ((h i).0, (h i).1.world)

-- A step that only gives a value.
pub give-gives :
    {W A B : Type 0} {b : B} {u : Client W} (r : Result A) (rest : A → Act W B) (c : Client W)
    → (give r >>= rest) c ≡ (ok b, u)
    → (a : A) × (r ≡ ok a) × (rest a c ≡ (ok b, u))
give-gives (ok a) rest c h = (a, refl, h)
give-gives (err e) rest c h = cc
give-gives (panic t) rest c h = cc

module _ {W : Type 0} (processes : Processes W) (errors : Errors) (json : Json) where
  -- The batch was packed and given to the command `knc` for the keyserver's host, in the environment
  -- of the caller, with whose Kerberos ticket it connects; its answer is not empty and holds the results.
  pub record IsExchange (hostname : String) (batch : List (Dict String)) (results : List String)
      (c u : Client W) : Type 0 where
    pub packed : String
    pub raw : String
    pub encoded : json.encode_operations batch ≡ ok packed
    pub sent :
        processes.output
          ("/usr/bin/knc" ∷ str_append "host@" hostname ∷ "20575" ∷ [])
          none
          packed
          c.world
        ≡ (ok raw, u.world)
    pub some_answer : raw ≢ ""
    pub decoded : json.decode_texts raw ≡ ok results

  abbrev pub with_own_ticket : String → KncServer
  with_own_ticket hostname = record { hostname = hostname; kerberos_ticket_cache = "" }

  knc_request-sends :
      (hostname packed : String) (c u : Client W) {raw : String}
      → knc_request processes errors json (with_own_ticket hostname) packed c ≡ (ok raw, u)
      → processes.output
          ("/usr/bin/knc" ∷ str_append "host@" hostname ∷ "20575" ∷ [])
          none
          packed
          c.world
        ≡ (ok raw, u.world)
  unfolding knc_request
  knc_request-sends hostname packed c u h =
      let (_, _, h1) = give-gives (processes.stdin_pipe c.world) _ c h in
      let command =
        processes.output ("/usr/bin/knc" ∷ str_append "host@" hostname ∷ "20575" ∷ []) none
          packed in
      tell-gives command c (wrapping-gives processes.describe (tell command) c h1)

  -- What is done with the answer of the command.
  unpacked : List Request → String → Act W (List String)
  unpacked reqs raw_resps = do
    give (
        guard (not (raw_resps == "")) (
          message
            "empty response, likely because the server does not recognize your Kerberos identity"))
    resps ←
        give (
          wrapped (errors.wrap "while unpacking json ('%s' -> '%s')") (json.decode_texts raw_resps))
    give (guard (eqb (length resps) (length reqs)) (message "wrong number of results"))
    give (ok resps)

  unpacked-gives :
      (reqs : List Request) (raw : String) (c u : Client W) {results : List String}
      → unpacked reqs raw c ≡ (ok results, u)
      → (raw ≢ "") × (json.decode_texts raw ≡ ok results) × (length results ≡ length reqs) × (c ≡ u)
  unfolding unpacked
  unpacked-gives reqs raw c u {results} h =
      let (_, given, h1) = give-gives (guard (not (raw == "")) _) _ c h in
      let (resps, decoded, h2) = give-gives (wrapped _ (json.decode_texts raw)) _ c h1 in
      let (_, many, h3) = give-gives (guard (eqb (length resps) (length reqs)) _) _ c h2 in
      let same : resps ≡ results = let e = ap (λ p. p.0) h3 in cc in
      let as_many = guard-eq-ok (eqb (length resps) (length reqs)) _ many in
      let kept = guard-eq-ok (not (raw == "")) _ given in
      (
        λ e. let k = (eq_iff raw "").1 e in ground arith,
        wrapped-eq-ok _ (json.decode_texts raw) decoded ∙ ap ok same,
        subst (λ r. length r ≡ length reqs) same (ground arith),
        ap (λ p. p.1) h3,
      )

  pub knc_send_requests-IsExchange :
      (hostname : String) (reqs : List Request) (c u : Client W) {results : List String}
      → knc_send_requests processes errors json (with_own_ticket hostname) reqs c ≡ (ok results, u)
      → IsExchange hostname (map entries reqs) results c u × (length results ≡ length reqs)
  unfolding knc_send_requests unpacked
  knc_send_requests-IsExchange hostname reqs c u {results} h =
      let (packed, encoded, h1) =
        give-gives
          (wrapped (errors.wrap "while packing json") (json.encode_operations (map entries reqs))) _
          c h in
      let (raw, v, h2, got) =
        >>=-gives
          (wrapping (errors.wrap "while performing request")
            (knc_request processes errors json (with_own_ticket hostname) packed))
          (unpacked reqs) c h1 in
      let (some_answer, decoded, as_many, still) = unpacked-gives reqs raw v u h2 in
      let sent = knc_request-sends hostname packed c v (
        wrapping-gives (errors.wrap "while performing request")
          (knc_request processes errors json (with_own_ticket hostname) packed) c got) in
      (
        record {
          packed = packed;
          raw = raw;
          encoded = wrapped-eq-ok _ (json.encode_operations (map entries reqs)) encoded;
          sent = sent ∙ ap (λ (w : Client W). (ok raw, w.world)) still;
          some_answer = some_answer;
          decoded = decoded;
        },
        as_many,
      )
