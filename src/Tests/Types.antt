-- ===== src/Tests/Types.antt =====
-- The theorems on the types of requests and replies, at concrete inputs.
use package.text.Mathlib.Text.{◌==◌}
use onvm.Base.{String, none, ◌⊎◌, ◌∷◌, if◌then◌else◌, refl, true, some, [], inl}
use onvm.Sdk.Client.{Session, dev}
use onvm.Sdk.Client.Request.{request, request_in, exchange}
use onvm.Sdk.Client.Reply.{receive, open_reply}
use onvm.Sdk.Client.Mode.{detect_node_mode}
use onvm.Sdk.Client.Methods.{Call, route}
use onvm.Sdk.Client.Methods as Methods
use onvm.Sdk.Client.Endpoints.Serving.{IsServed, route-IsServed}
use onvm.Nbook.Ops.{Op, op_value}
use onvm.Nbook.Client.{Browser, execute_program, perform, btoa, all_latin1}
use onvm.Nbook.Program.{PostView, Response, Output, respond, response_value}
use onvm.Nbook.Client.Settling.{Settles, perform-Settles}
use onvm.Programs.Execute.{run_program}
use onvm.Programs.Identity.{IdentityOp}
use onvm.Programs.Identity as Identity
use onvm.Programs.Identity.Typing.{identity_requests}
use onvm.Programs.Identity.Types.{get_profile_request}
use onvm.Programs.Identity.Program as IdentityProgram
use onvm.Programs.Identity.Settling.{Ends, perform-Ends}
use onvm.Js.Shape.{Has, IsVariant}
use onvm.Js.Value.{Value, undefined, str, bool, obj, field, end, show_value}
use onvm.Js.Result.{ok}
use onvm.Js.Platform.{Platform}
use onvm.Tests.Toy.{toy}
use onvm.Tests.Requests.{session, plain_response}
use onvm.Tests.Site.{page}

-- A network on which each reply is the JSON of `v`.
abbrev replying : Value → Platform
replying v = toy (λ sent req. ok plain_response) (λ t. ok v) (λ q. "a")

-- A network on which the proxy gives what the program answers.
abbrev program_web : Response → Platform
program_web r =
    toy (λ sent req. ok plain_response)
      (λ t. ok (if t == "a" then obj (field "return_base64" (str "b") end) else response_value r))
      (λ q. "a")

-- The post that the program answers a like with.
abbrev liked : PostView
liked = record {
  id = "p1";
  author = "bob";
  text = "t";
  attachments = [];
  created_at = 1;
  likes = 1;
  comments = record { id = "c1"; author = "eve"; text = "hi"; created_at = 2 } ∷ [];
}

abbrev like : Op
like = Op.like (str "token") "p1"

abbrev outcome : Output like ⊎ String
outcome = inl liked

abbrev site : Platform
site = program_web (respond like outcome)

abbrev after_like : Browser
after_like = (execute_program site "prog" (op_value like) page).1

perform-Settles_example : Settles like outcome after_like (perform site "prog" like page)
unfolding execute_program btoa all_latin1 show_value
perform-Settles_example = perform-Settles site "prog" like outcome page after_like refl

-- The node is alive.
abbrev alive : Value
alive = obj (field "alive" (bool true) (field "mode" (str "prod") end))

route-IsServed_example : IsServed (λ t. t) (Call.get_program_state_root "ab" (some "k"))
route-IsServed_example =
    route-IsServed (λ t. t) (Call.get_program_state_root "ab" (some "k")) (refl, refl)

abbrev node : Platform
node = replying alive

abbrev asked : Session
asked = (request node "GET" "/health/liveness" undefined [] (session (some dev))).1

-- An identity without a bio, as the program answers with it.
abbrev eve : IdentityProgram.Identity
eve = record {
  id = "i1";
  name = "eve";
  email = "e@x";
  bio = none;
  avatar_url = some "a";
  theme = "blue";
  created_at = 1;
  updated_at = 1;
  checksum = "c";
}

abbrev lookup : IdentityOp
lookup = IdentityOp.get_identity "i1"

abbrev found : IdentityProgram.Output lookup ⊎ String
found = inl eve

-- A node on which the program gives this reply.
abbrev cards : Platform
cards =
    toy (λ sent req. ok plain_response)
      (λ t. ok (
        if t == "a"
        then obj (field "return_base64" (str "b") end)
        else IdentityProgram.response_value (IdentityProgram.respond lookup found)))
      (λ q. "a")

abbrev looked_up : Session
looked_up = (run_program (λ t. t) cards "prog" (Identity.op_value lookup) (session (some dev))).1

perform-Ends_example :
    IsVariant "op" identity_requests (Identity.op_value lookup)
    × Has get_profile_request (Identity.op_value lookup)
    × Ends lookup found looked_up
        (Identity.perform (λ t. t) cards "prog" lookup (session (some dev)))
unfolding run_program Methods.perform request exchange receive detect_node_mode request_in
    open_reply show_value
perform-Ends_example =
    perform-Ends (λ t. t) cards "prog" lookup found (session (some dev)) looked_up refl
