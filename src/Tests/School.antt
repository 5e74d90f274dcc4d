-- ===== src/Tests/School.antt =====
-- The theorems on the pages of the programs and of the explorer, at concrete inputs.
use onvm.Base.{some, ℕ, ◌≡◌, refl, ◌≤◌, true, false, none, [], ◌∷◌, if◌then◌else◌, arith}
use onvm.Programs.Pages.{Page}
use onvm.Programs.Pages.Roster.{Roster, Kind, handle_add}
use onvm.Programs.Pages.Roster.Adding.{dialog, is_added, add_reply, handle_add-dialog}
use onvm.Programs.Pages.Dashboard.{sum_scores, count, average_grade}
use onvm.Programs.Pages.Dashboard.Average.{average_grade-within}
use onvm.Gateway.Explorer.{info_url, download_url, cdn_url}
use onvm.Gateway.Explorer.Serving.{Serves, links_served}
use onvm.Js.Value.{Value, str, num, arr, obj, nil, Fields, field, end}
use onvm.Tests.Requests.{session}
use onvm.Tests.Site.{web}

abbrev typed : Fields
typed = field "teacherName" (str "Ada") (field "code" (str "C1") (field "name" (str "Logic") end))

abbrev courses_page : Page Roster
courses_page = record {
  session = session none;
  view = record {
    rows = arr nil;
    loading = false;
    search_query = "";
    is_add_dialog_open = true;
    form_data = typed;
  };
}

handle_add-dialog_example :
    dialog
      (λ u. u)
      web
      "prog"
      Kind.courses
      (handle_add (λ u. u) web "prog" Kind.courses courses_page).1
    ≡ (if is_added (add_reply (λ u. u) web "prog" Kind.courses courses_page)
        then (false, end)
        else (true, typed))
handle_add-dialog_example = handle_add-dialog (λ u. u) web "prog" Kind.courses courses_page refl

abbrev grade : ℕ → Value
grade n = obj (field "score" (num n) end)

average_grade-within_example :
    (sum : ℕ) × (sum_scores (grade 60 ∷ grade 91 ∷ []) 0 ≡ some sum)
    × (60 ≤ average_grade sum (count (grade 60 ∷ grade 91 ∷ [])))
    × (average_grade sum (count (grade 60 ∷ grade 91 ∷ [])) ≤ 91)
average_grade-within_example =
    average_grade-within 60 91 (grade 60) (grade 91 ∷ [])
      ((60, refl, omega arith, omega arith), ((91, refl, omega arith, omega arith), tt))

links_served_example :
    Serves (info_url "b1") "get_blob_info"
    × Serves (download_url "b1") "get_blob_handler"
    × Serves (cdn_url (str "b1")) "cdn_serve_handler"
links_served_example = links_served "b1" (refl, refl)
