-- ===== src/Programs/Pages/Grades/Letters.antt =====
-- The letter and the colour of a score, and the requests of the page of grades
-- (wasm_programs/school_management/ui/components/grades-view.tsx).
use onvm.Base.{
  ℕ, ◌≡◌, refl, ◌≤◌, ◌<◌, ◌⊎◌, inl, inr, String, Bool, true, false, ◌&&◌, leb, if◌then◌else◌,
  Bool-cases, arith,
}
use onvm.Programs.Pages.{Page}
use onvm.Programs.Pages.Grades.{
  Grades, fetch_grades, grades_request, start_loading, is_complete, handle_add_grade,
}
use onvm.Js.Value.{Fields, num, field_of, truthy}
use onvm.Js.Result.{Result, ok, throw}
use onvm.Js.Io.{pure, handle}
use onvm.Js.Platform.{Platform}

-- `getGradeLetter`
unfoldable grade_letter : (score : ℕ) → String
grade_letter score =
    if leb 90 score
    then "A"
    else if leb 80 score
    then "B"
    else if leb 70 score
    then "C"
    else if leb 60 score
    then "D"
    else "F"

-- `getGradeColor`
unfoldable grade_color : (score : ℕ) → String
grade_color score =
    if leb 90 score
    then "text-emerald-600 dark:text-emerald-400 bg-emerald-500/10"
    else if leb 80 score
    then "text-blue-600 dark:text-blue-400 bg-blue-500/10"
    else if leb 70 score
    then "text-amber-600 dark:text-amber-400 bg-amber-500/10"
    else "text-red-600 dark:text-red-400 bg-red-500/10"

-- The letter and the colour of each range of scores.
abbrev IsMarked : (score : ℕ) → (letter color : String) → Type 0
IsMarked score letter color =
    ((90 ≤ score)
      × (letter ≡ "A")
      × (color ≡ "text-emerald-600 dark:text-emerald-400 bg-emerald-500/10"))
    ⊎ ((80 ≤ score)
        × (score < 90)
        × (letter ≡ "B")
        × (color ≡ "text-blue-600 dark:text-blue-400 bg-blue-500/10"))
    ⊎ ((70 ≤ score)
        × (score < 80)
        × (letter ≡ "C")
        × (color ≡ "text-amber-600 dark:text-amber-400 bg-amber-500/10"))
    ⊎ ((score < 70)
        × (((60 ≤ score) × (letter ≡ "D")) ⊎ ((score < 60) × (letter ≡ "F")))
        × (color ≡ "text-red-600 dark:text-red-400 bg-red-500/10"))

-- The letter and the colour change at the same scores, but for 60: D and F are shown in one colour.
grade_letter-IsMarked : (score : ℕ) → IsMarked score (grade_letter score) (grade_color score)
unfolding grade_letter grade_color
grade_letter-IsMarked n = elim (Bool-cases (leb 90 n)) [
  | inl a ↦ inl (ground arith, rw a refl, rw a refl)
  | inr a ↦ elim (Bool-cases (leb 80 n)) [
    | inl b ↦ inr (inl (ground arith, ground arith, rw (a, b) refl, rw (a, b) refl))
    | inr b ↦ elim (Bool-cases (leb 70 n)) [
      | inl c ↦ inr (inr (inl (ground arith, ground arith, rw (a, b, c) refl, rw (a, b, c) refl)))
      | inr c ↦ elim (Bool-cases (leb 60 n)) [
        | inl d ↦
            inr (
              inr (inr (ground arith, inl (ground arith, rw (a, b, c, d) refl), rw (a, b, c) refl)))
        | inr d ↦
            inr (
              inr (inr (ground arith, inr (ground arith, rw (a, b, c, d) refl), rw (a, b, c) refl)))
      ]
    ]
  ]
]

and-false : (a b : Bool) → (a && b && false) ≡ false
and-false true true = refl
and-false true false = refl
and-false false b = refl

zero_incomplete : (form : Fields) → field_of form "score" ≡ num 0 → is_complete form ≡ false
zero_incomplete form h =
    rw h (and-false (truthy (field_of form "student_id")) (truthy (field_of form "course_id")))

module _ (encode_uri : String → String) (p : Platform) (program_id : String) where
  logged_ok : (r : Result (Unit {0})) (s : Page Grades) → (handle r (λ e. pure tt) s).0 ≡ ok tt
  logged_ok (ok a) s = refl
  logged_ok (throw e) s = refl

  -- A fetch of the grades ends whatever the requests give, and the page is no longer loading.
  fetch_grades_settles :
      (s : Page Grades)
      → ((fetch_grades encode_uri p program_id s).0 ≡ ok tt)
        × ((fetch_grades encode_uri p program_id s).1.view.loading ≡ false)
  unfolding fetch_grades
  fetch_grades_settles s =
      let started : Page Grades = record s { view = start_loading s.view } in
      let after = grades_request encode_uri p program_id s.view.students s.view.courses started in
      (logged_ok after.0 after.1, refl)

  -- A score of zero is taken for a missing one: nothing is sent, and nothing is said.
  handle_add_grade_zero :
      (today : String) (s : Page Grades)
      → field_of s.view.form_data "score" ≡ num 0
      → handle_add_grade encode_uri p program_id today s ≡ (ok tt, s)
  unfolding handle_add_grade
  handle_add_grade_zero today s zero_score = rw (zero_incomplete s.view.form_data zero_score) refl
