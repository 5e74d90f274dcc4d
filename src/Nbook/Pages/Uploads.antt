-- ===== src/Nbook/Pages/Uploads.antt =====
-- The files of a new post (wasm_programs/nbook/ui/components/feed/create-post-box.tsx and
-- create/create-post-page.tsx, which have the same code): each is uploaded in turn, and all of them
-- are attached, or none.
use mathlib.Core.Path.{subst}
use onvm.Base.{
  Bool-cases, inl, inr, ◌⊎◌, ◌==◌, if◌then◌else◌, ℕ, zero, suc, ◌≡◌, refl, ap, ◌∙◌, sym, ◌+◌, ◌<◌,
  String, List, [], ◌∷◌, ◌++◌, take, drop, arith,
}
use onvm.Sdk.Errors.{Fault}
use onvm.Nbook.Client.{Browser, upload_blob}
use onvm.Nbook.Pages.{Page, call}
use onvm.Js.Value.{Value}
use onvm.Js.Result.{ok, throw, ok_injective}
use onvm.Js.Io.{Io, pure, ◌>>=◌}
use onvm.Js.Io.Laws.{resume-eq-ok, resume-eq-throw}
use onvm.Js.Platform.{Platform, Bytes}

pub record File : Type 0 where
  pub name : String
  pub size : ℕ
  pub content : Bytes

pub record Attachment : Type 0 where
  pub id : Value
  pub name : String
  pub size : ℕ

-- The elements, numbered from `i`, whose number is not `idx`.
abbrev without : (i idx : ℕ) → List Attachment → List Attachment
without i idx [] = []
without i idx (x ∷ xs) = let rest = without (suc i) idx xs in if i == idx then rest else x ∷ rest

-- `prev.filter((_, i) => i !== idx)`
unfoldable remove_at : ℕ → List Attachment → List Attachment
remove_at idx xs = without 0 idx xs

without-later : (i idx : ℕ) (xs : List Attachment) → idx < i → without i idx xs ≡ xs
without-later i idx [] h = refl
without-later i idx (x ∷ xs) h = elim (Bool-cases (i == idx)) [
  | inl e ↦ absurd (ground arith)
  | inr e ↦ rw e (ap (λ t. x ∷ t) (without-later (suc i) idx xs (omega arith)))
]

without-take :
    (i n : ℕ) (xs : List Attachment) → without i (i + n) xs ≡ take n xs ++ drop (suc n) xs
without-take i zero [] = refl
without-take i (suc n) [] = refl
without-take i zero (x ∷ xs) = elim (Bool-cases (i == i + 0)) [
  | inl e ↦ rw e (without-later (suc i) (i + 0) xs (omega arith))
  | inr e ↦ absurd (ground arith)
]
without-take i (suc n) (x ∷ xs) = elim (Bool-cases (i == i + suc n)) [
  | inl e ↦ absurd (ground arith)
  | inr e ↦
      rw e
        (ap (λ t. x ∷ t) (ap (λ m. without (suc i) m xs) (omega arith) ∙ without-take (suc i) n xs))
]

-- The button of an attachment takes away that attachment alone.
remove_at-take :
    (idx : ℕ) (xs : List Attachment) → remove_at idx xs ≡ take idx xs ++ drop (suc idx) xs
unfolding remove_at
remove_at-take idx xs = ap (λ m. without 0 m xs) (omega arith) ∙ without-take 0 idx xs

module _ {V : Type 0} (p : Platform) (program_id : String) where
  -- The loop over the files.
  unfoldable pub upload_files : List File → Io (Page V) (List Attachment)
  upload_files [] = pure []
  upload_files (f ∷ files) = do
    id ← call (upload_blob p program_id f.content)
    let upload : Attachment = record { id = id; name = f.name; size = f.size }
    uploads ← upload_files files
    pure (upload ∷ uploads)

module _ (p : Platform) (program_id : String) where
  -- The attachments are the files with their names and sizes, each with the id that its upload
  -- returned, where the uploads follow one another from the browser `b`.
  abbrev pub AreUploads : List File → List Attachment → (b : Browser) → Type 0
  AreUploads [] us b = us ≡ []
  AreUploads (f ∷ files) [] b = ⊥
  AreUploads (f ∷ files) (u ∷ us) b =
      ((upload_blob p program_id f.content b).0 ≡ ok u.id)
      × (u.name ≡ f.name)
      × (u.size ≡ f.size)
      × AreUploads files us (upload_blob p program_id f.content b).1

  -- When every upload succeeds, each file has an attachment with its id, name and size.
  pub upload_files-AreUploads :
      {V : Type 0} (files : List File) (s : Page V) (us : List Attachment)
      → (upload_files p program_id files s).0 ≡ ok us
      → AreUploads files us s.browser
  unfolding upload_files
  upload_files-AreUploads [] s us h = sym (ok_injective h)
  upload_files-AreUploads (f ∷ files) s us h =
      let (id, sent, more) =
        resume-eq-ok (upload_blob p program_id f.content s.browser).0 _ _ us h in
      let (rest, uploaded, same) = resume-eq-ok (upload_files p program_id files _).0 _ _ us more in
      subst (λ us. AreUploads (f ∷ files) us s.browser) (ok_injective same)
        (sent, refl, refl, upload_files-AreUploads files _ rest uploaded)

  -- An upload ended with the error `e`, after uploads of the earlier files that succeeded.
  abbrev pub IsRefused : List File → (e : Fault) → (b : Browser) → Type 0
  IsRefused [] e b = ⊥
  IsRefused (f ∷ files) e b =
      ((upload_blob p program_id f.content b).0 ≡ throw e)
      ⊎ ((id : Value) × ((upload_blob p program_id f.content b).0 ≡ ok id)
          × IsRefused files e (upload_blob p program_id f.content b).1)

  -- When the uploads fail, an upload failed.
  pub upload_files-IsRefused :
      {V : Type 0} (files : List File) (s : Page V) (e : Fault)
      → (upload_files p program_id files s).0 ≡ throw e
      → IsRefused files e s.browser
  unfolding upload_files
  upload_files-IsRefused [] s e h = cc
  upload_files-IsRefused (f ∷ files) s e h =
      elim (resume-eq-throw (upload_blob p program_id f.content s.browser).0 _ _ e h) [
        | inl refused ↦ inl refused
        | inr (id, sent, more) ↦
            elim (resume-eq-throw (upload_files p program_id files _).0 _ _ e more) [
              | inl later ↦ inr (id, sent, upload_files-IsRefused files _ e later)
              | inr (rest, uploaded, same) ↦ cc
            ]
      ]
