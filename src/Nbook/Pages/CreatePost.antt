-- ===== src/Nbook/Pages/CreatePost.antt =====
-- The writing of a post: the box above the feed
-- (wasm_programs/nbook/ui/components/feed/create-post-box.tsx), and the page of its own
-- (create/create-post-page.tsx).
pub mod Publishing
use onvm.Base.{
  ℕ, ◌+◌, ◌/◌, String, Bool, true, false, Option, none, some, List, [], ◌∷◌, ◌++◌, map,
  if◌then◌else◌,
}
use onvm.Base.Texts.{trim, front}
use onvm.Nbook.Api.{create_post}
use onvm.Nbook.Pages.{Page, Toast, Variant, call, set, toast, push, attempt}
use onvm.Nbook.Pages.Uploads.{File, Attachment, upload_files}
use onvm.Js.Value.{Value, peek, truthy, show_value}
use onvm.Js.Io.{Io, pure, modify, ◌>>=◌, ◌>>◌}
use onvm.Js.Platform.{Platform}

pub record Draft : Type 0 where
  pub content : String
  pub is_focused : Bool
  pub is_posting : Bool
  pub attachments : List Attachment

abbrev pub start_posting : Draft → Draft
start_posting v = record v { is_posting = true }

abbrev pub stop_posting : Draft → Draft
stop_posting v = record v { is_posting = false }

-- `attachments.map((a) => a.id)`
abbrev pub ids : List Attachment → List String
ids [] = []
ids (a ∷ more) = show_value a.id ∷ ids more

abbrev pub success : (title : String) → Toast
success title = record {
  title = title;
  description = some "Your post has been shared.";
  variant = Variant.standard;
}

abbrev refusal : (title description : String) → Toast
refusal title description = record {
  title = title;
  description = some description;
  variant = Variant.destructive;
}

-- The text of the post is sent without the white space around it.
abbrev pub cleared : Draft → Draft
cleared v = record v { content = ""; is_focused = false; attachments = [] }

-- `getInitials`; `upper` is `toUpperCase`.
unfoldable get_initials : (upper : String → String) → (name : Value) → String
get_initials upper name = if truthy name then upper (front 2 (show_value name)) else "U"

module _ (p : Platform) (program_id : String) where
  -- Nothing is done for an empty choice of files.
  abbrev upload_chosen : List File → Io (Page Draft) (Unit {0})
  upload_chosen [] = pure tt
  upload_chosen (f ∷ files) =
      set start_posting
      >> attempt "Upload failed" stop_posting (
          upload_files p program_id (f ∷ files) >>= λ uploads.
          set (λ v. record v { attachments = v.attachments ++ uploads }))

  -- `handleFileSelect` of the box, and `handleFiles` of the page.
  pub handle_file_select : Option (List File) → Io (Page Draft) (Unit {0})
  handle_file_select none = pure tt
  handle_file_select (some files) = upload_chosen files

  -- The box; `on_post_created` is what the feed does after a post.
  module _ (on_post_created : Page Draft → Page Draft) where
    abbrev send_from_box : (trimmed : String) → List Attachment → Io (Page Draft) (Unit {0})
    send_from_box String.[] attachments = pure tt
    send_from_box (String.◌∷◌ c t) attachments =
        set start_posting
        >> attempt "Failed to post" stop_posting (
            call (create_post p program_id (String.◌∷◌ c t) (ids attachments)) >>= λ post.
            toast (success "Posted!") >> set cleared >> modify on_post_created)

    pub handle_post : Io (Page Draft) (Unit {0})
    handle_post s = send_from_box (trim s.view.content) s.view.attachments s

  -- The page of its own: it says what is missing, and ends on the feed.
  abbrev send_from_page :
      (trimmed : String) → (session : Value) → List Attachment → Io (Page Draft) (Unit {0})
  send_from_page String.[] session attachments =
      toast (refusal "Post is empty" "Please write something before posting.")
  send_from_page (String.◌∷◌ c t) session attachments =
      if truthy (peek session "session")
      then (set start_posting
          >> attempt "Failed to post" stop_posting (
              call (create_post p program_id (String.◌∷◌ c t) (ids attachments)) >>= λ post.
              toast (success "Post published!") >> push "/feed"))
      else toast (refusal "Login required" "Please log in before creating a post.")

  -- `session` is what `getSession` gave when the page was shown.
  pub publish : (session : Value) → Io (Page Draft) (Unit {0})
  publish session s = send_from_page (trim s.view.content) session s.view.attachments s
