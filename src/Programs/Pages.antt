-- ===== src/Programs/Pages.antt =====
-- The pages of the school and identity programs (components under
-- wasm_programs/school_management/ui and wasm_programs/identity_card/ui). A page keeps the session
-- of its client and the state of its component.
pub mod Roster
pub mod Grades
pub mod Dashboard
pub mod Frame
pub mod Identity
use onvm.Base.{String, Bool, ◌&&◌, List, [], ◌∷◌, if◌then◌else◌}
use onvm.Sdk.Client.{Session}
use onvm.Js.Value.{Value, arr, Items, truthy, is_text, peek}
use onvm.Js.Result.{Result, ok, member}
use onvm.Js.Io.{Io, pure, lift, catch, ◌>>=◌}

pub record Page (V : Type 0) : Type 0 where
  pub session : Session
  pub view : V

module _ {V : Type 0} where
  -- An action of the client.
  abbrev pub call : {A : Type 0} → Io Session A → Io (Page V) A
  call m s = ((m s.session).0, record s { session = (m s.session).1 })

  -- A change of the component's state.
  abbrev pub set : (V → V) → Io (Page V) (Unit {0})
  set f s = (ok tt, record s { view = f s.view })

  -- `try { m } catch (e) { console.error(e) } finally { set(done) }`
  abbrev pub attempt : (V → V) → Io (Page V) (Unit {0}) → Io (Page V) (Unit {0})
  attempt done m s = (
    (catch m (λ e. pure tt) s).0,
    record (catch m (λ e. pure tt) s).1 { view = done (catch m (λ e. pure tt) s).1.view },
  )

-- `response.status === "success" && response.data`, for a response that is an object.
abbrev pub has_data : Value → Bool
has_data response = is_text (peek response "status") "success" && truthy (peek response "data")
