-- ===== src/Tests/Requests.antt =====
-- The theorems on requests, keys and errors of the SDK, at concrete inputs.
use onvm.Base.{ℕ, zero, suc, ◌≡◌, refl, String, true, false, Option, none, some, [], ◌∷◌, arith}
use onvm.Sdk.Errors.{Fault, builtin, is_onvm_error, new_network_error, Detail}
use onvm.Sdk.Auth.{
  DerivedKeys, zeros, hkdf, derive_keys, derive_response_nonce, decrypt_response_to_buffer,
}
use onvm.Sdk.Auth.Hkdf.{rfc_okm, hkdf-eq-rfc_okm}
use onvm.Sdk.Auth.Keys.{IsKeysOf, derive_keys-IsKeysOf}
use onvm.Sdk.Auth.Canonical.{canonical_injective}
use onvm.Sdk.Auth.Decryption.{derived, decrypt-seal}
use onvm.Sdk.Client.{OnvmClient, OnvmClientConfig, new_client, NodeMode, dev, Session}
use onvm.Sdk.Client.Mode.{detect_node_mode}
use onvm.Sdk.Client.Request.{request, recast}
use onvm.Sdk.Client.Credentials.{Signs, new_client-Signs}
use onvm.Sdk.Client.Safety.{request_throws}
use onvm.Sdk.Client.Detection.{Detects, detect_node_mode-Detects}
use onvm.Sdk.Client.Signing.{NodeState}
use onvm.Js.Value.{Value, str, obj, field, end}
use onvm.Js.Result.{Result, ok, throw}
use onvm.Js.Platform.{Platform, HttpResponse, IsLawful}
use onvm.Tests.Toy.{toy, seal, toy-IsLawful}

abbrev pub keys : DerivedKeys
keys = record { signing_key = zeros 32; response_key = zeros 32 }

-- A client with credentials, in the mode that it has detected.
abbrev pub client : Option NodeMode → OnvmClient
client mode = record {
  rpc_url = "http://node";
  program_id = none;
  project_id = some "site";
  project_secret = some "secret";
  timeout = 30000;
  derived_keys = some keys;
  detected_node_mode = mode;
}

abbrev pub session : Option NodeMode → Session
session mode = record { client = client mode; sent = [] }

-- A client without credentials.
abbrev guest : Option NodeMode → Session
guest mode = record {
  client = record (client mode) { project_id = none; project_secret = none; derived_keys = none };
  sent = [];
}

abbrev refused : Result HttpResponse
refused = throw (builtin "TypeError" "fetch failed")

abbrev liveness : Value
liveness = obj (field "mode" (str "prod") end)

abbrev pub plain_response : HttpResponse
plain_response = record {
  status = 200;
  status_text = "OK";
  header = λ name. none;
  body = ok (97 ∷ []);
}

-- A network that is down, and one where each request is answered.
abbrev down : Platform
down = toy (λ sent req. refused) (λ t. ok (str t)) (λ v. "a")

abbrev up : Platform
up = toy (λ sent req. ok plain_response) (λ t. ok liveness) (λ v. "a")

abbrev up_laws : IsLawful up seal
up_laws = toy-IsLawful (λ sent req. ok plain_response) (λ t. ok liveness) (λ v. "a")

-- A node at the time 7 that takes only POST and GET, and the paths of the URLs of this node.
abbrev watch : NodeState
watch = record {
  upper = λ m. m;
  allowed_methods = "POST" ∷ "GET" ∷ [];
  signing_key_of = λ project. some (zeros 32);
  clock = 7;
  skew = 2;
  was_seen = λ nonce. false;
  has_token = true;
}

abbrev drop_text : ℕ → String → String
drop_text zero s = s
drop_text (suc n) String.[] = ""
drop_text (suc n) (String.◌∷◌ c s) = drop_text n s

-- What follows the origin `http://node`.
abbrev read_path : String → String
read_path url = drop_text 11 url

abbrev down_error : Fault
down_error =
    new_network_error "Network error calling http://node/jobs: fetch failed"
      (Detail.cause (builtin "TypeError" "fetch failed"))

request_throws_example : is_onvm_error down_error ≡ true
unfolding request detect_node_mode recast
request_throws_example =
    request_throws down "GET" "/jobs" (str "") [] (session (some dev)) down_error refl

detect_node_mode-Detects_example :
    Detects up none
      (session none)
      (detect_node_mode up (session none)).1
      (detect_node_mode up (session none)).0
detect_node_mode-Detects_example = detect_node_mode-Detects up (session none)

hkdf-eq-rfc_okm_example : hkdf up (1 ∷ []) none (2 ∷ []) 64 ≡ rfc_okm up (1 ∷ []) none (2 ∷ []) 64
hkdf-eq-rfc_okm_example = hkdf-eq-rfc_okm up (1 ∷ []) none (2 ∷ []) 64 (omega arith)

derive_keys-IsKeysOf_example : IsKeysOf up "bb" (derive_keys up "bb")
derive_keys-IsKeysOf_example = derive_keys-IsKeysOf up up_laws.digest_length "bb"

abbrev nonce : String
nonce = "ab"

abbrev verb : String
verb = "G"

abbrev target : String
target = "/a"

abbrev content : String
content = "a b"

abbrev time : ℕ
time = 5

canonical_injective_example :
    (verb ≡ verb) × (target ≡ target) × (time ≡ time) × (nonce ≡ nonce) × (content ≡ content)
canonical_injective_example =
    canonical_injective verb verb target target time time nonce nonce content content (ground arith)
      (ground arith) (ground arith) (ground arith) (ground arith) (ground arith) refl

decrypt-seal_example :
    decrypt_response_to_buffer up
      (up.base64_encode (
        seal
          (zeros 32)
          (derive_response_nonce up (zeros 32) "ab" 5)
          (1 ∷ 2 ∷ [])
          (up.utf8_encode "a")))
      (zeros 32)
      "ab"
      5
      "a"
      none
    ≡ ok (1 ∷ 2 ∷ [])
decrypt-seal_example =
    decrypt-seal up seal up_laws (zeros 32) "ab" 5 "a" none (1 ∷ 2 ∷ []) refl derived

abbrev guest_config : OnvmClientConfig
guest_config = record {
  rpc_url = some "http://node/";
  program_id = none;
  project_id = some "site";
  project_secret = some "";
  timeout = none;
}

abbrev guest_client : OnvmClient
guest_client = record {
  rpc_url = "http://node";
  program_id = none;
  project_id = some "site";
  project_secret = some "";
  timeout = 30000;
  derived_keys = none;
  detected_node_mode = none;
}

new_client-Signs_example : Signs up true guest_client
unfolding new_client
new_client-Signs_example = new_client-Signs up guest_config guest_client refl
