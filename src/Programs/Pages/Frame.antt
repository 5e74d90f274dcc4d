-- ===== src/Programs/Pages/Frame.antt =====
-- The frame of the school's pages (wasm_programs/school_management/ui/app/page.tsx): the menu and the
-- view that is shown.
use package.text.Mathlib.Text.{◌==◌}
use onvm.Base.{◌≡◌, refl, String, Bool, false, Option, none, some, List, [], ◌∷◌, if◌then◌else◌}

data View : Type 0 where
  dashboard students teachers courses grades : View

record Frame : Type 0 where
  pub current_view : View
  pub sidebar_open : Bool

abbrev new_frame : Frame
new_frame = record { current_view = View.dashboard; sidebar_open = false }

abbrev view_id : View → String
view_id View.dashboard = "dashboard"
view_id View.students = "students"
view_id View.teachers = "teachers"
view_id View.courses = "courses"
view_id View.grades = "grades"

abbrev navigation : List (View × String)
navigation =
    (View.dashboard, "Dashboard")
    ∷ (View.students, "Students")
    ∷ (View.teachers, "Teachers")
    ∷ (View.courses, "Courses")
    ∷ (View.grades, "Grades")
    ∷ []

-- A click on an item of the menu.
abbrev go_to : View → Frame → Frame
go_to view f = record f { current_view = view; sidebar_open = false }

abbrev show_sidebar : (open_now : Bool) → Frame → Frame
show_sidebar open_now f = record f { sidebar_open = open_now }

abbrev find_name : List (View × String) → View → Option String
find_name [] view = none
find_name ((v, name) ∷ items) view =
    let rest = find_name items view in if view_id v == view_id view then some name else rest

-- The heading of the page.
abbrev title : Frame → Option String
title f = find_name navigation f.current_view

-- The items of the menu that lead to where the heading names them.
AreTitled : List (View × String) → Frame → Type 0
AreTitled [] f = Unit
AreTitled ((v, name) ∷ items) f = (title (go_to v f) ≡ some name) × AreTitled items f

-- Every item of the menu leads to a view under its own name, and closes the menu.
navigation-AreTitled :
    (f : Frame) → AreTitled navigation f × ((v : View) → (go_to v f).sidebar_open ≡ false)
unfolding AreTitled
navigation-AreTitled f = ((refl, (refl, (refl, (refl, (refl, tt))))), λ v. refl)
