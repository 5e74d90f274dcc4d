-- ===== src/Programs/Pages/Roster.antt =====
-- The three pages that list what the program stores and add to it: students-view.tsx,
-- teachers-view.tsx and courses-view.tsx of wasm_programs/school_management/ui/components.
pub mod Adding
pub mod Searching
pub mod Teacher
use Prim.Native.Char.{code}
use onvm.Base.{◌==◌, ℕ, String, Bool, true, false, ◌&&◌, ◌||◌, Option, none, some, if◌then◌else◌}
use onvm.Base.Decimal.{to_string}
use onvm.Sdk.Client.{Session}
use onvm.Programs.School.{SchoolOp, perform}
use onvm.Programs.Pages.{Page, call, set, attempt, has_data}
use onvm.Js.Value.{
  Value, undefined, num, str, arr, obj, Items, nil, Fields, end, field, field_of, truthy, or_value,
  is_text, peek, cons, show_value,
}
use onvm.Js.Result.{member}
use onvm.Js.Io.{Io, pure, lift, catch, ◌>>=◌, ◌>>◌}
use onvm.Js.Platform.{Platform}

-- `rows` is what was fetched, and `form_data` what was typed into the dialog.
pub record Roster : Type 0 where
  pub rows : Value
  pub loading : Bool
  pub search_query : String
  pub is_add_dialog_open : Bool
  pub form_data : Fields

abbrev pub start_loading : Roster → Roster
start_loading v = record v { loading = true }

abbrev pub stop_loading : Roster → Roster
stop_loading v = record v { loading = false }

pub data Kind : Type 0 where
  students teachers courses : Kind

abbrev pub list_op : Kind → SchoolOp
list_op Kind.students = SchoolOp.list_students
list_op Kind.teachers = SchoolOp.list_teachers
list_op Kind.courses = SchoolOp.list_courses

abbrev pub add_op : Kind → Value → SchoolOp
add_op Kind.students v = SchoolOp.add_student v
add_op Kind.teachers v = SchoolOp.add_teacher v
add_op Kind.courses v = SchoolOp.add_course v

-- The two fields without which nothing is added.
abbrev pub is_complete : Kind → Fields → Bool
is_complete Kind.courses form = truthy (field_of form "name") && truthy (field_of form "code")
is_complete kind form = truthy (field_of form "name") && truthy (field_of form "email")

abbrev text_or_empty : Fields → String → Value
text_or_empty form key = or_value (field_of form key) (str "")

-- What is sent for a form, at the time `now`.
unfoldable pub new_student : (now : ℕ) → Fields → Value
unfolding to_string
new_student now form = obj (
    field "id" (str (to_string now)) (
      field "name" (field_of form "name") (
        field "grade" (text_or_empty form "grade") (
          field "age" (or_value (field_of form "age") (num 0)) (
            field "email" (field_of form "email")
              (field "subjects" (or_value (field_of form "subjects") (arr nil)) end))))))

unfoldable pub new_teacher : (now : ℕ) → Fields → Value
unfolding to_string
new_teacher now form = obj (
    field "id" (str (to_string now)) (
      field "name" (field_of form "name") (
        field "subject" (text_or_empty form "subject") (
          field "email" (field_of form "email") (field "phone" (text_or_empty form "phone") end)))))

pub new_course : (now : ℕ) → Fields → Value
unfolding to_string
new_course now form = obj (
    field "id" (str (to_string now)) (
      field "name" (field_of form "name") (
        field "code" (field_of form "code") (
          field "teacher_id" (text_or_empty form "teacherId") (
            field "student_ids" (or_value (field_of form "studentIds") (arr nil))
              (field "description" (text_or_empty form "description") end))))))

abbrev pub new_row : Kind → (now : ℕ) → Fields → Value
new_row Kind.students = new_student
new_row Kind.teachers = new_teacher
new_row Kind.courses = new_course

module _ (encode_uri : String → String) (p : Platform) (program_id : String) (kind : Kind) where
  -- The rows are replaced where the reply has data.
  abbrev pub take_rows : Value → Io (Page Roster) (Unit {0})
  take_rows response =
      if has_data response then set (λ v. record v { rows = peek response "data" }) else pure tt

  -- `fetchStudents`, `fetchTeachers` and `fetchCourses`
  pub fetch_rows : Io (Page Roster) (Unit {0})
  fetch_rows =
      attempt stop_loading
        (set start_loading >> (call (perform encode_uri p program_id (list_op kind)) >>= take_rows))

  abbrev close_dialog : Roster → Roster
  close_dialog v = record v { is_add_dialog_open = false; form_data = end }

  -- What follows the reply to an addition.
  abbrev pub after_add : Value → Io (Page Roster) (Unit {0})
  after_add response =
      if is_text (peek response "status") "success"
      then (fetch_rows >> set close_dialog)
      else pure tt

  -- `handleAddStudent`, `handleAddTeacher` and `handleAddCourse`
  pub handle_add : Io (Page Roster) (Unit {0})
  handle_add s =
      if is_complete kind s.view.form_data
      then catch
          (call (
              perform encode_uri p program_id
                (add_op kind (new_row kind (p.now s.session.sent) s.view.form_data)))
            >>= after_add)
          (λ e. pure tt) s
      else pure tt s

-- `t.includes(q)`
abbrev starts : (t q : String) → Bool
starts t String.[] = true
starts String.[] (String.◌∷◌ d q) = false
starts (String.◌∷◌ c t) (String.◌∷◌ d q) = code c == code d && starts t q

abbrev pub text_includes : (t q : String) → Bool
text_includes String.[] q = starts String.[] q
text_includes (String.◌∷◌ c t) q = starts (String.◌∷◌ c t) q || text_includes t q

-- The two fields in which the page searches; `lower` is `toLowerCase`, and rows have texts there.
abbrev pub searched : Kind → String × String
searched Kind.students = ("name", "email")
searched Kind.teachers = ("name", "subject")
searched Kind.courses = ("name", "code")

module _ (lower : String → String) (kind : Kind) (query : String) where
  abbrev pub matches : Value → Bool
  matches row =
      text_includes (lower (show_value (peek row (searched kind).0))) (lower query)
      || text_includes (lower (show_value (peek row (searched kind).1))) (lower query)

  -- `filteredStudents`, `filteredTeachers` and `filteredCourses`
  pub filtered : Items → Items
  filtered nil = nil
  filtered (cons row rows) = let rest = filtered rows in if matches row then cons row rest else rest
