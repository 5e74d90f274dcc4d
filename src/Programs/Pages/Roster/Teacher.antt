-- ===== src/Programs/Pages/Roster/Teacher.antt =====
-- The teacher of a new course (wasm_programs/school_management/ui/components/courses-view.tsx).
use onvm.Base.{ℕ, ◌≡◌, refl, String}
use onvm.Programs.Pages.Roster.{new_course}
use onvm.Js.Value.{undefined, str, Fields, end, field, field_of, peek}

-- The forms that the four inputs of the dialog can make, each by `{ ...formData, key: value }`.
pub data IsTyped : Fields → Type 0 where
  empty : IsTyped end
  name : {form : Fields} (t : String) → IsTyped form → IsTyped (field "name" (str t) form)
  code : {form : Fields} (t : String) → IsTyped form → IsTyped (field "code" (str t) form)
  teacher_name :
      {form : Fields} (t : String) → IsTyped form → IsTyped (field "teacherName" (str t) form)
  description :
      {form : Fields} (t : String) → IsTyped form → IsTyped (field "description" (str t) form)

-- No input sets the field that the course takes its teacher from.
IsTyped-teacher : {form : Fields} → IsTyped form → field_of form "teacherId" ≡ undefined
IsTyped-teacher empty = refl
IsTyped-teacher (name t h) = IsTyped-teacher h
IsTyped-teacher (code t h) = IsTyped-teacher h
IsTyped-teacher (teacher_name t h) = IsTyped-teacher h
IsTyped-teacher (description t h) = IsTyped-teacher h

-- A course that is added with the dialog has no teacher, whatever was typed.
pub new_course-teacher :
    (now : ℕ) (form : Fields) → IsTyped form → peek (new_course now form) "teacher_id" ≡ str ""
unfolding new_course
new_course-teacher now form h = rw (IsTyped-teacher h) refl
