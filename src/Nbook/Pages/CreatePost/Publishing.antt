-- ===== src/Nbook/Pages/CreatePost/Publishing.antt =====
-- What becomes of a draft: it is kept until its post is made.
use Prim.Native.Char.{Char}
use onvm.Base.{◌≡◌, refl, ap, ◌∙◌, String, true, false, some, List, [], ◌∷◌, ◌++◌}
use onvm.Base.Texts.{trim}
use onvm.Nbook.Client.{Browser, upload_blob}
use onvm.Nbook.Api.{create_post}
use onvm.Nbook.Pages.{Page, failure, call, set, toast, push, finally}
use onvm.Nbook.Pages.Attempt.{attempt-then, concluded}
use onvm.Nbook.Pages.Keeps.{Keeps, >>=-Keeps}
use onvm.Sdk.Errors.{Fault}
use onvm.Nbook.Client.{Browser}
use onvm.Nbook.Pages.Uploads.{
  File, Attachment, upload_files, AreUploads, IsRefused, upload_files-AreUploads,
  upload_files-IsRefused,
}
use onvm.Nbook.Pages.CreatePost.{
  Draft, start_posting, stop_posting, cleared, ids, success, handle_post, handle_file_select,
  publish,
}
use onvm.Js.Value.{Value, peek, truthy}
use onvm.Js.Result.{Result, ok, throw}
use onvm.Js.Io.{modify, catch, resume, ◌>>◌}
use onvm.Js.Platform.{Platform}

module _ (p : Platform) (program_id : String) (s : Page Draft) where
  abbrev started : Page Draft
  started = record s { view = start_posting s.view }

  -- The reply to the request for a post with this text.
  abbrev pub create_reply : String → Result Value × Browser
  create_reply text = create_post p program_id text (ids s.view.attachments) s.browser

  module _ (on_post_created : Page Draft → Page Draft) where
    -- The page after the post was made: the draft is empty, and the feed has been told.
    abbrev posted_page : Browser → Page Draft
    posted_page b = on_post_created (record s {
      browser = b;
      view = record s.view {
        content = "";
        is_focused = false;
        attachments = [];
        is_posting = true;
      };
      toasts = success "Posted!" ∷ s.toasts;
    })

    -- The page by the reply: after an error only the message is new.
    abbrev pub posted : Result Value × Browser → Page Draft
    posted (ok post, b) = record (posted_page b) { view = stop_posting (posted_page b).view }
    posted (throw e, b) = record s {
      browser = b;
      view = stop_posting s.view;
      toasts = failure "Failed to post" e ∷ s.toasts;
    }

    posted_reply :
        (r : Result Value × Browser)
        → concluded "Failed to post" stop_posting
            (λ v t. ((toast (success "Posted!") >> set cleared >> modify on_post_created) t).1)
            started
            r
          ≡ posted r
    posted_reply (ok post, b) = refl
    posted_reply (throw e, b) = refl

    -- A post whose text is not blank is sent without the white space around it; the draft is emptied
    -- if it was made, and kept if it was not.
    pub handle_post_lem :
        (c : Char) (t : String)
        → trim s.view.content ≡ String.◌∷◌ c t
        → handle_post p program_id on_post_created s
          ≡ (ok tt, posted (create_reply (String.◌∷◌ c t)))
    unfolding handle_post
    handle_post_lem c t full = rw full (
        attempt-then "Failed to post" stop_posting
          (create_post p program_id (String.◌∷◌ c t) (ids s.view.attachments))
          (λ v. toast (success "Posted!") >> set cleared >> modify on_post_created)
          (λ v u. ((toast (success "Posted!") >> set cleared >> modify on_post_created) u).1)
          started (λ v u. refl)
        ∙ ap (λ q. (ok tt, q)) (posted_reply (create_reply (String.◌∷◌ c t))))

  -- The page of its own, by the reply: it moves to the feed, and the draft stays.
  abbrev published : Result Value × Browser → Page Draft
  published (ok post, b) = record s {
    browser = b;
    view = stop_posting s.view;
    toasts = success "Post published!" ∷ s.toasts;
    pushed = "/feed" ∷ s.pushed;
  }
  published (throw e, b) = record s {
    browser = b;
    view = stop_posting s.view;
    toasts = failure "Failed to post" e ∷ s.toasts;
  }

  published_reply :
      (r : Result Value × Browser)
      → concluded "Failed to post" stop_posting
          (λ v t. ((toast (success "Post published!") >> push "/feed") t).1)
          started
          r
        ≡ published r
  published_reply (ok post, b) = refl
  published_reply (throw e, b) = refl

  -- On the page of its own, with a session.
  publish_lem :
      (session : Value) (c : Char) (t : String)
      → trim s.view.content ≡ String.◌∷◌ c t
      → truthy (peek session "session") ≡ true
      → publish p program_id session s ≡ (ok tt, published (create_reply (String.◌∷◌ c t)))
  unfolding publish
  publish_lem session c t full in_session =
      rw (full, in_session)
        (attempt-then "Failed to post" stop_posting
            (create_post p program_id (String.◌∷◌ c t) (ids s.view.attachments))
            (λ v. toast (success "Post published!") >> push "/feed")
            (λ v u. ((toast (success "Post published!") >> push "/feed") u).1) started (λ v u. refl)
          ∙ ap (λ q. (ok tt, q)) (published_reply (create_reply (String.◌∷◌ c t))))

-- The attachments after an upload: all of the chosen files are added, or none.
abbrev pub attached : Result (List Attachment) → List Attachment → List Attachment
attached (ok uploads) xs = xs ++ uploads
attached (throw e) xs = xs

module _ (p : Platform) (program_id : String) (b : Browser) (files : List File) where
  -- The attachments `ys` after an upload of the files from the browser `b` that ended with `r`, with the
  -- attachments `xs` before.
  abbrev pub Attaches : (r : Result (List Attachment)) → (xs ys : List Attachment) → Type 0
  Attaches (ok uploads) xs ys = (ys ≡ xs ++ uploads) × AreUploads p program_id files uploads b
  Attaches (throw e) xs ys = (ys ≡ xs) × IsRefused p program_id files e b

  uploaded-Attaches :
      (r : Result (List Attachment)) (xs ys : List Attachment)
      → ys ≡ attached r xs
      → ((us : List Attachment) → r ≡ ok us → AreUploads p program_id files us b)
      → ((e : Fault) → r ≡ throw e → IsRefused p program_id files e b)
      → Attaches r xs ys
  uploaded-Attaches (ok us) xs ys h k l = (h, k us refl)
  uploaded-Attaches (throw e) xs ys h k l = (h, l e refl)

module _ (p : Platform) (program_id : String) where
  upload_files-Keeps :
      (files : List File) → Keeps {V = Draft} (λ v. v) (upload_files p program_id files)
  unfolding upload_files
  upload_files-Keeps [] = λ s. refl
  upload_files-Keeps (f ∷ files) =
      >>=-Keeps (λ v. v) (call (upload_blob p program_id f.content)) _ (λ s. refl)
        (λ id.
          >>=-Keeps (λ v. v) (upload_files p program_id files) _ (upload_files-Keeps files)
            (λ us s. refl))

  after_uploads :
      (r : Result (List Attachment)) (xs : List Attachment) (s : Page Draft)
      → s.view.attachments ≡ xs
      → (finally
          (catch
            (λ t. resume r (λ us. set (λ v. record v { attachments = v.attachments ++ us })) t)
            (λ e. toast (failure "Upload failed" e)))
          stop_posting
          s).1.view.attachments
        ≡ attached r xs
  after_uploads (ok us) xs s h = ap (λ ys. ys ++ us) h
  after_uploads (throw e) xs s h = h

  -- If every upload succeeds, the chosen files are attached after the earlier ones, in their order, with
  -- their names and sizes and the ids that the uploads returned; else an upload failed, and the
  -- attachments stay as they were.
  pub handle_file_select-Attaches :
      (f : File) (files : List File) (s : Page Draft)
      → Attaches p program_id s.browser
          (f ∷ files)
          (upload_files p program_id (f ∷ files) (record s { view = start_posting s.view })).0
          s.view.attachments
          (handle_file_select p program_id (some (f ∷ files)) s).1.view.attachments
  unfolding handle_file_select
  handle_file_select-Attaches f files s =
      let started : Page Draft = record s { view = start_posting s.view } in
      uploaded-Attaches p program_id s.browser (f ∷ files)
        (upload_files p program_id (f ∷ files) started).0 s.view.attachments _
        (after_uploads (upload_files p program_id (f ∷ files) started).0 s.view.attachments
          (upload_files p program_id (f ∷ files) started).1
          (ap (λ v. v.attachments) (upload_files-Keeps (f ∷ files) started)))
        (λ us e. upload_files-AreUploads p program_id (f ∷ files) started us e)
        (λ x e. upload_files-IsRefused p program_id (f ∷ files) started x e)
