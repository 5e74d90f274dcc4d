-- ===== src/Nbook/Client/Sending.antt =====
-- What the methods of `NbookONVMClient` send, and when they fail.
use onvm.Base.{◌≡◌, refl, ap, ◌∙◌, true, false, not, String, ◌∷◌, arith}
use onvm.Sdk.Errors.{builtin}
use onvm.Nbook.Ops.{Op, op_value}
use onvm.Nbook.Client.{
  Browser, all_latin1, btoa, json_request, refuse_unless_ok, execute_program, call, result_of,
  perform, login_user,
}
use onvm.Js.Value.{Value, str, obj, field, end, truthy, is_text, show_value}
use onvm.Js.Result.{Result, ok, throw, member}
use onvm.Js.Io.{lift, pure, fail_if, ◌>>=◌, ◌>>◌}
use onvm.Js.Io.Laws.{resume_state, resume_ok, resume-eq-ok}
use onvm.Js.Platform.{Platform, HttpRequest, json_of}

module _ (p : Platform) (program_id : String) where
  -- The request that carries a text in base64 to the site's route.
  abbrev execute_request : String → HttpRequest
  execute_request input_base64 = json_request p program_id (
      obj (
        field "operation" (str "executeProgram")
          (field "program_id" (str program_id) (field "input_base64" (str input_base64) end))))

  -- The browser after a method: as it was if the text could not be encoded, else with one request.
  abbrev after_call : Result String → Browser → Browser
  after_call (throw e) s = s
  after_call (ok input_base64) s = record s { sent = execute_request input_base64 ∷ s.sent }

  execute_program_sends :
      (v : Value) (s : Browser)
      → (execute_program p program_id v s).1 ≡ after_call (btoa p program_id (p.json_stringify v)) s
  unfolding execute_program
  execute_program_sends v s = ground arith

  call_state :
      (op : Op) (s : Browser)
      → (call p program_id op s).1 ≡ (execute_program p program_id (op_value op) s).1
  unfolding call
  call_state op s =
      resume_state (execute_program p program_id (op_value op) s).0 _ _ (λ r. ground arith)

  -- A method sends at most one request: none if the JSON of its operation has a character outside
  -- of Latin-1, which `btoa` refuses; otherwise the one that carries this JSON in base64.
  perform_sends :
      (op : Op) (s : Browser)
      → (perform p program_id op s).1
        ≡ after_call (btoa p program_id (p.json_stringify (op_value op))) s
  unfolding perform
  perform_sends op s =
      resume_state (call p program_id op s).0 (λ r. lift (result_of p program_id op r)) _
        (λ r. refl)
      ∙ call_state op s
      ∙ execute_program_sends (op_value op) s

  after_call_window : (r : Result String) (s : Browser) → (after_call r s).has_window ≡ s.has_window
  after_call_window (ok t) s = refl
  after_call_window (throw e) s = refl

  after_call_stored : (r : Result String) (s : Browser) → (after_call r s).stored ≡ s.stored
  after_call_stored (ok t) s = refl
  after_call_stored (throw e) s = refl

  pub perform_window :
      (op : Op) (s : Browser) → (perform p program_id op s).1.has_window ≡ s.has_window
  perform_window op s =
      ap (λ (b : Browser). b.has_window) (perform_sends op s) ∙ after_call_window _ s

  login_user_sends :
      (username password : String) (s : Browser)
      → (login_user p program_id username password s).1
        ≡ after_call
            (btoa p program_id (p.json_stringify (op_value (Op.login username password))))
            s
  unfolding login_user
  login_user_sends username password s =
      resume_state (execute_program p program_id (op_value (Op.login username password)) s).0 _ _
        (λ r. ground arith)
      ∙ execute_program_sends (op_value (Op.login username password)) s

  pub login_user_window :
      (username password : String) (s : Browser)
      → (login_user p program_id username password s).1.has_window ≡ s.has_window
  login_user_window username password s =
      ap (λ (b : Browser). b.has_window) (login_user_sends username password s)
      ∙ after_call_window _ s

  pub login_user_stored :
      (username password : String) (s : Browser)
      → (login_user p program_id username password s).1.stored ≡ s.stored
  login_user_stored username password s =
      ap (λ (b : Browser). b.stored) (login_user_sends username password s) ∙ after_call_stored _ s

  -- A method whose operation has such a character fails, and the page is as it was.
  pub perform_not_latin1 :
      (op : Op) (s : Browser)
      → all_latin1 (p.json_stringify (op_value op)) ≡ false
      → (perform p program_id op s) ≡ (
        throw (
            builtin "InvalidCharacterError"
              "The string contains characters outside of the Latin1 range."),
        s,
      )
  unfolding perform call execute_program btoa
  perform_not_latin1 op s h = rw h refl

  -- What a method returns comes from a reply of the program with a status that is not "error".
  abbrev pub IsAnswer : Op → Value → Type 0
  IsAnswer op v =
      (reply status : Value) × (member reply "status" ≡ ok status)
      × (truthy status ≡ true)
      × (is_text status "error" ≡ false)
      × (result_of p program_id op reply ≡ ok v)

  abbrev Passes : Value → Type 0
  Passes reply = (status : Value) × (member reply "status" ≡ ok status) × (truthy status ≡ true)

  checked_status :
      (status parsed reply : Value) (s : Browser)
      → ((fail_if (not (truthy status)) (builtin "Error" "invalid response from program")
            >> pure parsed)
          s).0
        ≡ ok reply
      → (truthy status ≡ true) × (parsed ≡ reply)
  checked_status status parsed reply s h = ground arith

  checked-Passes :
      (parsed reply : Value) (s : Browser)
      → ((lift (member parsed "status") >>= λ status.
            fail_if (not (truthy status)) (builtin "Error" "invalid response from program")
            >> pure parsed)
          s).0
        ≡ ok reply
      → Passes reply
  checked-Passes parsed reply s h =
      resume_ok (member parsed "status") _ s reply h (λ status read h₁.
        let (full, same) = checked_status status parsed reply s h₁ in
        (status, rw (← same) read, full))

  execute_program-Passes :
      (v : Value) (s : Browser) (reply : Value)
      → (execute_program p program_id v s).0 ≡ ok reply
      → Passes reply
  unfolding execute_program
  execute_program-Passes v s reply h =
      let text = p.json_stringify v in
      resume_ok (btoa p program_id text) _ s reply h (λ input _ h₁.
        let after = record s { sent = execute_request input ∷ s.sent } in
        resume_ok (p.fetch s.sent (execute_request input)) _ after reply h₁ (λ response _ h₂.
          let checked = refuse_unless_ok p program_id response "Failed to execute program" after in
          resume_ok checked.0 _ checked.1 reply h₂ (λ done _ h₃.
            resume_ok (json_of p response) _ checked.1 reply h₃ (λ result _ h₄.
              resume_ok (member result "return_base64") _ checked.1 reply h₄ (λ encoded _ h₅.
                resume_ok (p.atob (show_value encoded)) _ checked.1 reply h₅ (λ text _ h₆.
                  resume_ok (p.json_parse text) _ checked.1 reply h₆
                    (λ parsed _ h₇. checked-Passes parsed reply checked.1 h₇)))))))

  call_status :
      (op : Op) (s : Browser) (reply : Value)
      → (call p program_id op s).0 ≡ ok reply
      → (status : Value) × (member reply "status" ≡ ok status)
        × (truthy status ≡ true)
        × (is_text status "error" ≡ false)
  unfolding call
  call_status op s reply h =
      let (r, done, rest) =
        resume-eq-ok (execute_program p program_id (op_value op) s).0 _ _ reply h in
      let (status, read, full) = execute_program-Passes (op_value op) s r done in ground arith

  -- A method returns what it makes of a reply of the program that has a status, and not "error".
  pub perform-IsAnswer :
      (op : Op) (s : Browser) (v : Value) → (perform p program_id op s).0 ≡ ok v → IsAnswer op v
  unfolding perform
  perform-IsAnswer op s v h =
      let (r, done, rest) =
        resume-eq-ok (call p program_id op s).0 (λ r. lift (result_of p program_id op r)) _ v h in
      let (status, read, full, good) = call_status op s r done in
      (r, status, read, full, good, rest)
