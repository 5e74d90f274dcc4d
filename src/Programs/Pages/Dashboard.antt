-- ===== src/Programs/Pages/Dashboard.antt =====
-- The dashboard of the school (wasm_programs/school_management/ui/components/dashboard-view.tsx).
pub mod Average
use onvm.Base.{
  Option, some, none, ℕ, ◌≡◌, refl, ◌+◌, ◌*◌, ◌/◌, String, Bool, true, false, List, [], ◌∷◌, ◌++◌,
  take, if◌then◌else◌, ltb,
}
use onvm.Base.Texts.{concat}
use onvm.Base.Decimal.{to_string}
use onvm.Sdk.Errors.{builtin}
use onvm.Sdk.Client.{Session}
use onvm.Programs.School.{SchoolOp, perform}
use onvm.Programs.Pages.{Page, call, set, has_data}
use onvm.Js.Value.{
  Value, undefined, num, str, arr, Items, nil, cons, truthy, same, peek, show_value, list_of,
}
use onvm.Js.Result.{Result, ok, throw, member}
use onvm.Js.Io.{Io, pure, lift, catch, ◌>>=◌, ◌>>◌}
use onvm.Js.Platform.{Platform}

record Activity : Type 0 where
  pub student : Value
  pub action : String

-- The four values of the cards, the activities, and the four values below them.
record Dashboard : Type 0 where
  pub stats : List String
  pub recent_activity : List Activity
  pub quick_stats : List String

-- `grade.score`, if it is a number.
abbrev pub score_of : Value → Option ℕ
score_of (num n) = some n
score_of v = none

abbrev array_of : Value → Result (List Value)
array_of (arr vs) = ok (list_of vs)
array_of v = throw (builtin "TypeError" "not an array")

-- The elements of a response, none where it has no data.
abbrev data_of : Value → Result (List Value)
data_of response = if has_data response then array_of (peek response "data") else ok []

abbrev pub count : List Value → ℕ
count [] = 0
count (v ∷ vs) = count vs + 1

-- `gradeSum` after more grades; none if a score is not a number.
abbrev pub sum_scores : List Value → ℕ → Option ℕ
sum_scores [] sum = some sum
sum_scores (g ∷ gs) sum = elim (score_of (peek g "score")) [
  | none ↦ none
  | some n ↦ sum_scores gs (sum + n)
]

-- `totalGrades > 0 ? Math.round(gradeSum / totalGrades) : 0`
pub average_grade : (sum total : ℕ) → ℕ
average_grade sum total = if ltb 0 total then (2 * sum + total) / (2 * total) else 0

abbrev enrolled : Value → Activity
enrolled student = record { student = peek student "name"; action = "Enrolled in school" }

abbrev graded : (students : List Value) → Value → List Activity
graded [] grade = []
graded (s ∷ students) grade =
    let rest = graded students grade in
    if same (peek s "id") (peek grade "student_id")
    then record {
      student = peek s "name";
      action = concat ("Received grade " ∷ show_value (peek grade "score") ∷ " in course" ∷ []);
    }
      ∷ []
    else rest

abbrev all_graded : (students : List Value) → List Value → List Activity
all_graded students [] = []
all_graded students (g ∷ gs) = graded students g ++ all_graded students gs

abbrev all_enrolled : List Value → List Activity
all_enrolled [] = []
all_enrolled (s ∷ students) = enrolled s ∷ all_enrolled students

-- `rate` and `attendance` are the two texts that the page computes with fractions, and `odd_average` is
-- what it shows for grades with a score that is not a number.
module _ (encode_uri : String → String) (p : Platform) (program_id : String)
    (rate : (graded courses students : ℕ) → String) (attendance : (students : ℕ) → String)
    (odd_average : List Value → String) where
  abbrev average_text : (grades : List Value) → String
  average_text grades = elim (sum_scores grades 0) [
    | none ↦ odd_average grades
    | some sum ↦ concat (to_string (average_grade sum (count grades)) ∷ "%" ∷ [])
  ]

  abbrev school : SchoolOp → Io (Page Dashboard) (List Value)
  school op = call (perform encode_uri p program_id op) >>= λ response. lift (data_of response)

  -- All grades of the courses, one course after another.
  abbrev course_grades : List Value → Io (Page Dashboard) (List Value)
  course_grades [] = pure []
  course_grades (c ∷ courses) = do
    id ← lift (member c "id")
    grades ← school (SchoolOp.get_course_grades (show_value id))
    more ← course_grades courses
    pure (grades ++ more)

  -- The activities of the first two grades of every course, which are asked for again.
  abbrev course_activities :
      (students : List Value) → List Value → Io (Page Dashboard) (List Activity)
  course_activities students [] = pure []
  course_activities students (c ∷ courses) = do
    id ← lift (member c "id")
    grades ← school (SchoolOp.get_course_grades (show_value id))
    more ← course_activities students courses
    pure (all_graded students (take 2 grades) ++ more)

  abbrev stats_request : Io (Page Dashboard) (Unit {0})
  stats_request = do
    students ← school SchoolOp.list_students
    teachers ← school SchoolOp.list_teachers
    courses ← school SchoolOp.list_courses
    grades ← course_grades courses
    set (λ v. record v {
      stats =
          to_string (count students)
          ∷ to_string (count teachers)
          ∷ to_string (count courses)
          ∷ average_text grades
          ∷ [];
    })
    activities ← course_activities students courses
    set (λ v. record v { recent_activity = take 4 (all_enrolled (take 2 students) ++ activities) })
    set (λ v. record v {
      quick_stats =
          to_string (count students)
          ∷ to_string (count grades)
          ∷ rate (count grades) (count courses) (count students)
          ∷ attendance (count students)
          ∷ [];
    })

  unfoldable fetch_stats : Io (Page Dashboard) (Unit {0})
  fetch_stats = catch stats_request (λ e. pure tt)
