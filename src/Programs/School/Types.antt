-- ===== src/Programs/School/Types.antt =====
-- The types of the school's pages (wasm_programs/school_management/ui/types/index.ts).
use onvm.Js.Shape.{Shape, text, number, array, object, done, ◌⨾◌, ◌∶◌, ◌∶?◌}

abbrev pub student : Shape
student = object (
    "id" ∶ text
    ⨾ "name" ∶ text
    ⨾ "grade" ∶ text
    ⨾ "age" ∶ number
    ⨾ "email" ∶ text
    ⨾ "subjects" ∶ array text
    ⨾ done)

abbrev pub teacher : Shape
teacher =
    object ("id" ∶ text ⨾ "name" ∶ text ⨾ "subject" ∶ text ⨾ "email" ∶ text ⨾ "phone" ∶ text ⨾ done)

abbrev pub course : Shape
course = object (
    "id" ∶ text
    ⨾ "name" ∶ text
    ⨾ "code" ∶ text
    ⨾ "teacher_id" ∶ text
    ⨾ "student_ids" ∶ array text
    ⨾ "description" ∶ text
    ⨾ done)

abbrev pub grade : Shape
grade = object (
    "id" ∶ text
    ⨾ "student_id" ∶ text
    ⨾ "course_id" ∶ text
    ⨾ "score" ∶ number
    ⨾ "date" ∶ text
    ⨾ "studentName" ∶? text
    ⨾ "courseName" ∶? text
    ⨾ done)
