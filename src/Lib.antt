-- ===== src/Lib.antt =====
-- The clients of onvm, a network that runs WASM programs: the TypeScript SDK of the node's RPC,
-- and the web applications that reach their programs through it.
--
-- The program. `OnvmClient` (onvm-sdk/src/client.ts) asks the node for its mode, signs requests
-- with keys that it derives from a project's secret (onvm-sdk/src/auth.ts), and opens the replies
-- that the node seals. The social site (wasm_programs/nbook/ui) sends its operations from the
-- browser to its own API routes, which call the SDK; the school and identity applications call the
-- SDK themselves.
--
-- The files.
-- Base: lists, texts and decimal numbers over the native numbers.
-- Js: what the code uses of its language. Shape has the types of JSON values, Serde how the Rust
--   programs write them. Value holds JSON values (numbers are the naturals, which is what the
--   programs send), Result computations that throw, Io asynchronous actions over a state: what was
--   written before a throw stays written. Platform is a record of what is not in the repository:
--   fetch, the clock, randomness, JSON, text encodings, HMAC-SHA256 and XChaCha20-Poly1305; IsLawful
--   says what the theorems rely on. The network, the clock and the randomness may depend on all the
--   requests that were sent before.
-- Sdk/Errors: onvm-sdk/src/errors.ts. Sdk/Auth: onvm-sdk/src/auth.ts, one function each, `hkdf` by
--   the loop `expand` whose rounds are the number of blocks.
-- Sdk/Client: onvm-sdk/src/client.ts. The state, `Session`, is the client's fields and the
--   requests that were sent. Mode is `detectNodeMode`, Request and Reply are `request`, Blobs
--   `uploadBlob` and `downloadBlob`, Methods all others as constructors of `Call`, with `route` for
--   what they pass to `request`, Types onvm-sdk/src/types.ts. Endpoints is what the node serves
--   (src/rpc/mod.rs, jobs.rs and health.rs), against which the methods are checked.
-- Nbook: wasm_programs/nbook/ui. Ops, Client and Normalize are lib/onvm-client.ts, Session
--   lib/auth.ts over the local storage, Api lib/api.ts, Sniff both functions `sniffContentType`, and
--   Proxy the two routes under app/api/onvm. Types are the interfaces of lib/onvm-client.ts,
--   Ops/Accepted has the requests of the program (../src/lib.rs), and Program what it answers.
--   Session/Keeping says what the storage of a session promises. The state of the page is `Browser`,
--   that of a route `Server`.
-- Nbook/Pages: the components of the site, as handlers over `Page V`: the browser, the component's
--   own state, the toasts and the paths that were pushed. Card is components/feed/post-card.tsx,
--   Profile components/profile/profile-content.tsx, Detail components/post/post-detail-content.tsx,
--   Feed, Uploads, CreatePost, Account, Panel and Menu what their files name. Effects has the step
--   relation of an effect whose requests can be overtaken. A handler reads the state that was
--   rendered at its start, as a closure of the code does.
-- Programs: `executeProgram` and the requests of the school and identity clients
--   (wasm_programs/school_management/ui/lib and wasm_programs/identity_card/ui/lib). Identity/Typing
--   has the operations of the identity program (src/lib.rs), Identity/Program what it answers.
--   Pages: the frame of the school's pages, its students, teachers, courses and grades views and the
--   dashboard, and the identity form, gallery and statistics; Identity/Overtaking has the step
--   relation of the gallery.
-- Gateway: src/blob_gateway/ui/src. Format is lib/format.ts, the texts of the blob explorer;
--   Explorer is pages/Index.tsx and pages/SharePage.tsx, whose buttons are in Explorer/Sharing;
--   Explorer/Serving has the routes of the gateway (src/blob_gateway/server.rs).
-- Tests: a small platform, and the theorems at concrete inputs.
--
-- Bounds. The only fuel is that of `to_string`: n + 1 rounds are enough, since each divides by
-- ten. Every other loop is structural. The counter of `expand` wraps at 256 as a byte does; the
-- sizes that the RFC allows stay below. `parseInt` is modelled on digits, which is all that the
-- SDK gives it.
--
-- Not modelled. Timeouts are an argument of `fetch`; that it fires is an error of `fetch`. Console
-- output is left out, and so is the AbortController's timer. The node (Rust) and the guest
-- programs are other code: the node's sealing of a reply is the independent description IsSealed,
-- and its check of a request is `verify_signed_request` in Sdk/Client/Signing (src/rpc/auth.rs),
-- for an unsigned time, where the replay cache and the rate limiter are given by what they answer
-- and the path that a server reads of a URL is a parameter. Numbers of a reply that are not
-- naturals are left out. Of the pages, the markup is left out, and so are the settings, the
-- landing pages, and the copied interface components. The clipboard and the share sheet are a
-- record `Device`. What a page computes with fractions (two texts of the school's dashboard, and
-- its average for scores that are no numbers) is a parameter.
pub mod Base
pub mod Js
pub mod Sdk
pub mod Nbook
pub mod Programs
pub mod Gateway
pub mod Tests
