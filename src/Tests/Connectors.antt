-- ===== src/Tests/Connectors.antt =====
-- `ssl_connector` of src/worker.rs at a concrete configuration, with a builder that counts its calls.
use rpc_perf.Base.{ℕ, suc, ◌≡◌, refl, true, none, some, ◌⊎◌}
use rpc_perf.Base.Bytes.{codes}
use rpc_perf.Base.Outcome.{other, ok, err}
use rpc_perf.Worker.Connector.{Openssl, Tls, ssl_connector}
use rpc_perf.Worker.Connector.Decides.{Absent, Half, Whole, Made, IsMade, ssl_connector-Made}

abbrev openssl : Openssl
openssl = record {
  Builder = ℕ;
  Connector = ℕ;
  Cert = ℕ;
  builder = ok 0;
  set_verify_none = λ b. suc b;
  set_private_key_file = λ f b. some (suc b);
  set_ca_file = λ f b. some (suc b);
  set_certificate_file = λ f b. some (suc b);
  set_certificate_chain_file = λ f b. none;
  read_chain = λ f. some f;
  parse_chain = λ pem. some pem;
  add_extra_chain_cert = λ cert b. some (suc b);
  set_session_cache = λ size b. suc b;
  build = λ b. b;
}

abbrev tls : Tls
tls = record {
  certificate = some (codes "cert.pem");
  private_key = some (codes "key.pem");
  ca_file = none;
  certificate_chain = some (codes "ca");
  verify = true;
  session_cache = some 20;
}

-- The key, the leaf, two certificates of the chain and the cache.
ssl_connector-openssl : ssl_connector openssl tls ≡ ok (some 5)
unfolding ssl_connector
ssl_connector-openssl = refl

connector_example :
    (Absent tls × (ssl_connector openssl tls ≡ ok none))
    ⊎ (Half tls × (ssl_connector openssl tls ≡ err other))
    ⊎ (Whole tls × Made IsMade (ssl_connector openssl tls))
connector_example = ssl_connector-Made openssl tls 0 refl
