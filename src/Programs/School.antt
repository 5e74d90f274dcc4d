-- ===== src/Programs/School.antt =====
-- `SchoolManagementClient` (wasm_programs/school_management/ui/lib/onvm-client.ts).
pub mod Types
use onvm.Base.{String}
use onvm.Sdk.Client.{Session}
use onvm.Programs.Execute.{execute_program}
use onvm.Js.Value.{Value, null, str, obj, end, field}
use onvm.Js.Io.{Io}
use onvm.Js.Platform.{Platform}

-- The operations; `student`, `teacher`, `course` and `grade` are sent as the caller gives them.
pub data SchoolOp : Type 0 where
  add_student update_student : (student : Value) → SchoolOp
  get_student delete_student : (id : String) → SchoolOp
  list_students : SchoolOp
  add_teacher update_teacher : (teacher : Value) → SchoolOp
  get_teacher delete_teacher : (id : String) → SchoolOp
  list_teachers : SchoolOp
  add_course update_course : (course : Value) → SchoolOp
  get_course delete_course : (id : String) → SchoolOp
  list_courses : SchoolOp
  assign_grade : (grade : Value) → SchoolOp
  get_student_grades : (student_id : String) → SchoolOp
  get_course_grades : (course_id : String) → SchoolOp
  enroll_student : (student_id course_id : String) → SchoolOp

abbrev operation : String → Value → Value
operation name payload = obj (field "operation" (str name) (field "data" payload end))

abbrev wrapped : String → Value → Value
wrapped name v = obj (field name v end)

-- The request of each method.
unfoldable pub op_value : SchoolOp → Value
op_value (SchoolOp.add_student v) = operation "add_student" (wrapped "student" v)
op_value (SchoolOp.get_student id) = operation "get_student" (str id)
op_value (SchoolOp.update_student v) = operation "update_student" (wrapped "student" v)
op_value (SchoolOp.delete_student id) = operation "delete_student" (str id)
op_value SchoolOp.list_students = operation "list_students" null
op_value (SchoolOp.add_teacher v) = operation "add_teacher" (wrapped "teacher" v)
op_value (SchoolOp.get_teacher id) = operation "get_teacher" (str id)
op_value (SchoolOp.update_teacher v) = operation "update_teacher" (wrapped "teacher" v)
op_value (SchoolOp.delete_teacher id) = operation "delete_teacher" (str id)
op_value SchoolOp.list_teachers = operation "list_teachers" null
op_value (SchoolOp.add_course v) = operation "add_course" (wrapped "course" v)
op_value (SchoolOp.get_course id) = operation "get_course" (str id)
op_value (SchoolOp.update_course v) = operation "update_course" (wrapped "course" v)
op_value (SchoolOp.delete_course id) = operation "delete_course" (str id)
op_value SchoolOp.list_courses = operation "list_courses" null
op_value (SchoolOp.assign_grade v) = operation "assign_grade" (wrapped "grade" v)
op_value (SchoolOp.get_student_grades id) = operation "get_student_grades" (str id)
op_value (SchoolOp.get_course_grades id) = operation "get_course_grades" (str id)
op_value (SchoolOp.enroll_student student_id course_id) =
    operation "enroll_student"
      (obj (field "student_id" (str student_id) (field "course_id" (str course_id) end)))

module _ (encode_uri : String → String) (p : Platform) (program_id : String) where
  -- A method of the client.
  unfoldable pub perform : SchoolOp → Io Session Value
  unfolding op_value
  perform op = execute_program encode_uri p program_id "error" "error" (op_value op)
