-- ===== src/Sdk/Client.antt =====
-- The state of `OnvmClient` and its constructor (onvm-sdk/src/client.ts, onvm-sdk/src/types.ts).
pub mod Mode
pub mod Credentials
pub mod Reply
pub mod Request
pub mod Blobs
pub mod Types
pub mod Endpoints
pub mod Methods
pub mod Safety
pub mod Detection
pub mod Signing
pub mod Sealing
pub mod SealedBlobs
pub mod RoundTrip
pub mod Plain
use text.Mathlib.Text.{◌==◌}
use Prim.Native.Char.{code}
use Prim.Native.String.{◌∷◌, []}
use onvm.Base.{
  ℕ, List, String, Bool, true, false, Option, none, some, if◌then◌else◌, ◌==◌ as nat_eq,
}
use onvm.Base.Texts.{present}
use onvm.Sdk.Errors.{builtin}
use onvm.Sdk.Auth.{DerivedKeys, derive_keys}
use onvm.Js.Result.{Result, ok, throw, ◌>>=◌}
use onvm.Js.Io.{Io}
use onvm.Js.Platform.{Platform, Trace, HttpRequest, HttpResponse}

pub data NodeMode : Type 0 where
  dev prod : NodeMode

-- `OnvmClientConfig`; `mode` is never read. Callers in JavaScript may leave out `rpc_url`.
pub record OnvmClientConfig : Type 0 where
  pub rpc_url : Option String
  pub program_id : Option String
  pub project_id : Option String
  pub project_secret : Option String
  pub timeout : Option ℕ

pub record OnvmClient : Type 0 where
  pub rpc_url : String
  pub program_id : Option String
  pub project_id : Option String
  pub project_secret : Option String
  pub timeout : ℕ
  pub derived_keys : Option DerivedKeys
  pub detected_node_mode : Option NodeMode

-- A client and the requests that it has sent.
pub record Session : Type 0 where
  pub client : OnvmClient
  pub sent : Trace

-- `url.replace(/\/$/, '')`
unfoldable strip_slash : String → String
strip_slash [] = []
strip_slash (c ∷ []) = if nat_eq (code c) b'/' then [] else c ∷ []
strip_slash (c ∷ d ∷ s) = c ∷ strip_slash (d ∷ s)

abbrev strip : Option String → Result String
strip none = throw (builtin "TypeError" "Cannot read properties of undefined (reading 'replace')")
strip (some url) = ok (strip_slash url)

abbrev or_default : Option ℕ → ℕ → ℕ
or_default none n = n
or_default (some t) n = t

-- Keys are derived where both credentials are given.
abbrev keys_of : Platform → Option String → Option String → Result (Option DerivedKeys)
keys_of p (some id) (some secret) = derive_keys p secret >>= λ k. ok (some k)
keys_of p _ _ = ok none

-- The constructor of `OnvmClient`.
unfoldable pub new_client : Platform → OnvmClientConfig → Result OnvmClient
unfolding strip_slash
new_client p config = strip config.rpc_url >>= λ url.
    keys_of p (present config.project_id) (present config.project_secret) >>= λ keys. ok (record {
      rpc_url = url;
      program_id = config.program_id;
      project_id = config.project_id;
      project_secret = config.project_secret;
      timeout = or_default config.timeout 30000;
      derived_keys = keys;
      detected_node_mode = none;
    })

unfoldable set_program_id : String → OnvmClient → OnvmClient
set_program_id program_id c = record c { program_id = some program_id }

unfoldable get_program_id : OnvmClient → Option String
get_program_id c = c.program_id

-- `!this.projectId || !this.projectSecret`
abbrev pub lacks_credentials : OnvmClient → Bool
lacks_credentials c = elim (present c.project_id) [
  | none ↦ true
  | some id ↦ elim (present c.project_secret) [ none ↦ true | some secret ↦ false ]
]

-- `await fetch(…)`
abbrev pub send : Platform → HttpRequest → Io Session HttpResponse
send p req s = (p.fetch s.sent req, record s { sent = List.◌∷◌ req s.sent })
