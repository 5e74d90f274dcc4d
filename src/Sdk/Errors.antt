-- ===== src/Sdk/Errors.antt =====
-- The error classes of the SDK (onvm-sdk/src/errors.ts), among everything that the code throws.
use onvm.Base.Texts.{concat}
use onvm.Base.{
  [], ◌∷◌, ℕ, String, Bool, true, false, ◌&&◌, ◌||◌, Option, none, some, ltb, leb, ◌==◌,
}

pub data ErrorClass : Type 0 where
  onvm_error auth_error network_error rate_limit_error config_error : ErrorClass

mutual
  -- `builtin` is an Error of the language or of the platform, by its name and message.
  pub data Fault : Type 0 where
    builtin : (name message : String) → Fault
    sdk_error : ErrorClass → (message : String) → (status_code : Option ℕ) → Detail → Fault

  -- The `details` of an error: left out, a text, or the error that caused it.
  pub data Detail : Type 0 where
    omitted : Detail
    text : String → Detail
    cause : Fault → Detail

abbrev pub new_onvm_error : String → Option ℕ → Detail → Fault
new_onvm_error message status_code details =
    sdk_error ErrorClass.onvm_error message status_code details

abbrev pub new_auth_error : String → Detail → Fault
new_auth_error message details = sdk_error ErrorClass.auth_error message (some 401) details

abbrev pub new_network_error : String → Detail → Fault
new_network_error message details = sdk_error ErrorClass.network_error message none details

abbrev new_rate_limit_error : String → Detail → Fault
new_rate_limit_error message details =
    sdk_error ErrorClass.rate_limit_error message (some 429) details

abbrev new_config_error : String → Detail → Fault
new_config_error message details = sdk_error ErrorClass.config_error message none details

-- `error.message`
abbrev pub message_of : Fault → String
message_of (builtin name message) = message
message_of (sdk_error class message status_code details) = message

-- `error.statusCode`
abbrev pub status_code_of : Fault → Option ℕ
status_code_of (builtin name message) = none
status_code_of (sdk_error class message status_code details) = status_code

-- `error instanceof OnvmError`
abbrev pub is_onvm_error : Fault → Bool
is_onvm_error (builtin name message) = false
is_onvm_error (sdk_error class message status_code details) = true

unfoldable pub is_auth_error : Fault → Bool
is_auth_error e = elim (status_code_of e) [ none ↦ false | some n ↦ n == 401 || n == 403 ]

unfoldable pub is_rate_limit_error : Fault → Bool
is_rate_limit_error e = elim (status_code_of e) [ none ↦ false | some n ↦ n == 429 ]

unfoldable pub is_network_error : Fault → Bool
is_network_error e = elim (status_code_of e) [ none ↦ true | some n ↦ leb 500 n && ltb n 600 ]

-- `error.name`
abbrev class_name : ErrorClass → String
class_name ErrorClass.onvm_error = "OnvmError"
class_name ErrorClass.auth_error = "OnvmAuthError"
class_name ErrorClass.network_error = "OnvmNetworkError"
class_name ErrorClass.rate_limit_error = "OnvmRateLimitError"
class_name ErrorClass.config_error = "OnvmConfigError"

abbrev pub name_of : Fault → String
name_of (builtin name message) = name
name_of (sdk_error class message status_code details) = class_name class

-- An error in a template literal, `${error}`.
abbrev pub show_fault : Fault → String
show_fault (builtin name message) = concat (name ∷ ": " ∷ message ∷ [])
show_fault (sdk_error class message status_code details) =
    concat (class_name class ∷ ": " ∷ message ∷ [])
