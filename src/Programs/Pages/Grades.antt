-- ===== src/Programs/Pages/Grades.antt =====
-- The page of the grades (wasm_programs/school_management/ui/components/grades-view.tsx).
pub mod Letters
use onvm.Base.{
  ℕ, ◌≡◌, refl, String, Bool, true, false, ◌&&◌, List, [], ◌∷◌, leb, if◌then◌else◌, Bool-cases, inl,
  inr,
}
use onvm.Base.Decimal.{to_string}
use onvm.Sdk.Errors.{builtin}
use onvm.Sdk.Client.{Session}
use onvm.Programs.School.{SchoolOp, perform}
use onvm.Programs.Pages.{Page, call, set, attempt, has_data}
use onvm.Js.Value.{
  Value, undefined, null, num, str, arr, obj, Items, nil, cons, Fields, end, field, field_of,
  truthy, same, or_value, is_text, peek, show_value,
}
use onvm.Js.Result.{Result, ok, throw, member}
use onvm.Js.Io.{Io, pure, lift, gets, catch, handle, ◌>>=◌, ◌>>◌}
use onvm.Js.Platform.{Platform}

pub record Grades : Type 0 where
  pub grades : Items
  pub students : Items
  pub courses : Items
  pub loading : Bool
  pub is_add_dialog_open : Bool
  pub form_data : Fields

abbrev pub start_loading : Grades → Grades
start_loading v = record v { loading = true }

abbrev stop_loading : Grades → Grades
stop_loading v = record v { loading = false }

-- `infos.find((s) => s.id === id)?.name || unknown`
abbrev name_of : (infos : Items) (id : Value) (unknown : String) → Value
name_of nil id unknown = str unknown
name_of (cons info infos) id unknown =
    let rest = name_of infos id unknown in
    if same (peek info "id") id then or_value (peek info "name") (str unknown) else rest

-- `{ ...grade, studentName, courseName }`
abbrev named_grade : (students courses : Items) → Value → Value
named_grade students courses (obj fs) = obj (
    field "studentName" (name_of students (field_of fs "student_id") "Unknown Student")
      (field "courseName" (name_of courses (field_of fs "course_id") "Unknown Course") fs))
named_grade students courses v = v

abbrev named_grades : (students courses grades : Items) → Items → Items
named_grades students courses nil more = more
named_grades students courses (cons g gs) more =
    cons (named_grade students courses g) (named_grades students courses gs more)

-- An array; `v || []` where there may be none.
abbrev array_of : Value → Result Items
array_of (arr vs) = ok vs
array_of v = throw (builtin "TypeError" "not an array")

abbrev array_or_empty : Value → Result Items
array_or_empty v = if truthy v then array_of v else ok nil

abbrev is_empty : Items → Bool
is_empty nil = true
is_empty (cons v vs) = false

-- The fields without which nothing is sent.
abbrev pub is_complete : Fields → Bool
is_complete form =
    truthy (field_of form "student_id")
    && truthy (field_of form "course_id")
    && truthy (field_of form "score")

module _ (encode_uri : String → String) (p : Platform) (program_id : String) where
  abbrev school : SchoolOp → Io (Page Grades) Value
  school op = call (perform encode_uri p program_id op)

  abbrev take_list : (Items → Grades → Grades) → Value → Io (Page Grades) (Unit {0})
  take_list put response =
      if has_data response
      then (lift (array_of (peek response "data")) >>= λ vs. set (put vs))
      else pure tt

  -- `fetchStudents` and `fetchCourses`
  abbrev fetch_students : Io (Page Grades) (Unit {0})
  fetch_students =
      catch (school SchoolOp.list_students >>= take_list (λ vs v. record v { students = vs }))
        (λ e. pure tt)

  abbrev fetch_courses : Io (Page Grades) (Unit {0})
  fetch_courses =
      catch (school SchoolOp.list_courses >>= take_list (λ vs v. record v { courses = vs }))
        (λ e. pure tt)

  -- The grades of one student after another.
  abbrev collect : (students courses all : Items) → Io (Page Grades) Items
  collect students courses nil = pure nil
  collect students courses (cons student rest) = do
    id ← lift (member student "id")
    response ← school (SchoolOp.get_student_grades (show_value id))
    grades ← if has_data response then lift (array_of (peek response "data")) else pure nil
    more ← collect students courses rest
    pure (named_grades students courses grades more)

  -- A list that was empty when the page was drawn is asked for once more, whatever was fetched
  -- in between.
  abbrev current : Items → SchoolOp → Io (Page Grades) Items
  current drawn op =
      if is_empty drawn
      then (do response ← school op; vs ← lift (member response "data"); lift (array_or_empty vs))
      else pure drawn

  -- The `try` block of `fetchGrades`.
  abbrev grades_request : (students courses : Items) → Io (Page Grades) (Unit {0})
  grades_request students courses = do
    if is_empty students then fetch_students else pure tt
    if is_empty courses then fetch_courses else pure tt
    current_students ← current students SchoolOp.list_students
    current_courses ← current courses SchoolOp.list_courses
    grades ← collect current_students current_courses current_students
    set (λ v. record v { grades = grades })

  pub fetch_grades : Io (Page Grades) (Unit {0})
  fetch_grades s =
      (set start_loading >> attempt stop_loading (grades_request s.view.students s.view.courses)) s

  -- The new grade, at the time `now`.
  abbrev new_grade : (now : ℕ) → Fields → Value
  new_grade now form = obj (
      field "id" (str (to_string now)) (
        field "student_id" (field_of form "student_id") (
          field "course_id" (field_of form "course_id")
            (field "score" (field_of form "score") (field "date" (field_of form "date") end)))))

  -- `today` is the date of the form that is shown next.
  abbrev after_assign : (today : String) → Value → Io (Page Grades) (Unit {0})
  after_assign today response =
      if is_text (peek response "status") "success"
      then (fetch_grades
          >> set (λ v. record v {
            is_add_dialog_open = false;
            form_data = field "date" (str today) end;
          }))
      else pure tt

  pub handle_add_grade : (today : String) → Io (Page Grades) (Unit {0})
  handle_add_grade today s =
      if is_complete s.view.form_data
      then catch
          (school (SchoolOp.assign_grade (new_grade (p.now s.session.sent) s.view.form_data))
            >>= after_assign today)
          (λ e. pure tt) s
      else pure tt s
