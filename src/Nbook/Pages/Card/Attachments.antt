-- ===== src/Nbook/Pages/Card/Attachments.antt =====
-- The effect of a card that loads the attachments of its post: each one is fetched in turn.
use text.Mathlib.Text.{◌==◌}
use text.Mathlib.TextEquality.{eq_iff}
use onvm.Base.{
  ◌≡◌, refl, String, Bool, false, Option, none, some, List, [], ◌∷◌, if◌then◌else◌, inl, inr, ◌⊎◌,
  Bool-cases,
}
use mathlib.Core.Logic.{◌≢◌}
use onvm.Base.Texts.{or_text}
use onvm.Sdk.Errors.{message_of}
use onvm.Nbook.Client.{Browser, fetch_blob}
use onvm.Nbook.Pages.{Page, call, set}
use onvm.Nbook.Pages.Card.State.{Card}
use onvm.Nbook.Pages.Card.Text.{stored_entry}
use onvm.Js.Value.{Value, str, Items, nil, cons, arr, peek, show_value}
use onvm.Js.Result.{Result, ok, throw, member}
use onvm.Js.Io.{Io, pure, lift, gets, catch, ◌>>=◌}
use onvm.Js.Platform.{Platform, Bytes, Trace}

-- `Record<string, string>`: an entry that is written again hides the earlier one.
abbrev Table : Type 0
Table = List (String × String)

abbrev lookup : Table → String → Option String
lookup [] k = none
lookup ((k', v) ∷ t) k = if k' == k then some v else lookup t k

abbrev put : Table → String → String → Table
put t k v = (k, v) ∷ t

-- `object_url` is `URL.createObjectURL` for the bytes that were fetched; each address is a new one.
-- `cancelled` is the flag that the cleanup of the effect sets, read after the requests that were sent.
module _ (p : Platform) (program_id : String) (object_url : Trace → Bytes → String)
    (cancelled : Trace → Bool) where
  -- The tables `next` and `errs` after one attachment; none where the loop is left early.
  abbrev load_blob : String → Table × Table → Io (Page Card) (Option (Table × Table))
  load_blob id (next, errs) = call (fetch_blob p program_id id) >>= λ r. gets (λ s.
      if cancelled s.browser.sent
      then none
      else some (
        put next id (
            stored_entry (object_url s.browser.sent r.0)
              (or_text (some r.1) "application/octet-stream")),
        errs,
      ))

  abbrev load_attachment : Value → Table × Table → Io (Page Card) (Option (Table × Table))
  load_attachment att tables =
      catch (lift (member att "blob_id_hex") >>= λ id. load_blob (show_value id) tables) (λ e.
        lift (member att "blob_id_hex") >>= λ id.
        pure (some (tables.0, put tables.1 (show_value id) (message_of e))))

  abbrev load_all : Items → Option (Table × Table) → Io (Page Card) (Option (Table × Table))
  load_all atts none = pure none
  load_all nil (some tables) = pure (some tables)
  load_all (cons att atts) (some tables) = load_attachment att tables >>= λ t. load_all atts t

  abbrev show_tables : Option (Table × Table) → Io (Page Card) (Unit {0})
  show_tables none = pure tt
  show_tables (some t) = gets (λ s. cancelled s.browser.sent) >>= λ gone.
      if gone then pure tt else set (λ c. record c { attachments = t.0; attachment_errors = t.1 })

  abbrev load_items : Items → Io (Page Card) (Unit {0})
  load_items nil = pure tt
  load_items (cons att atts) = load_all (cons att atts) (some ([], [])) >>= show_tables

  abbrev load_value : Value → Io (Page Card) (Unit {0})
  load_value (arr atts) = load_items atts
  load_value _ = pure tt

  -- `load`, for a post that stays the same until it ends.
  pub load_attachments : Io (Page Card) (Unit {0})
  load_attachments s = load_value (peek s.view.local_post "attachments") s

-- One of the tables has an entry.
abbrev IsCovered : Table × Table → String → Type 0
IsCovered (next, errs) id = (lookup next id ≢ none) ⊎ (lookup errs id ≢ none)

abbrev pub AreCovered : Table × Table → List String → Type 0
AreCovered tables [] = Unit
AreCovered tables (id ∷ ids) = IsCovered tables id × AreCovered tables ids

lookup-put : (t : Table) (k v k' : String) → lookup t k' ≢ none → lookup (put t k v) k' ≢ none
lookup-put t k v k' h = elim (Bool-cases (k == k')) [ inl e ↦ rw e (λ q. cc) | inr e ↦ rw e h ]

lookup-put_same : (t : Table) (k v : String) → lookup (put t k v) k ≢ none
lookup-put_same t k v = rw ((eq_iff k k).1 refl) (λ q. cc)

-- The attachments are objects with these ids.
abbrev IsNamed : Items → List String → Type 0
IsNamed nil ids = ids ≡ []
IsNamed (cons att atts) [] = ⊥
IsNamed (cons att atts) (id ∷ ids) = (member att "blob_id_hex" ≡ ok (str id)) × IsNamed atts ids

module _ (p : Platform) (program_id : String) (object_url : Trace → Bytes → String)
    (cancelled : Trace → Bool) (lives : (sent : Trace) → cancelled sent ≡ false) where
  -- A step that ends with tables that have an entry for `id`, and keep every entry.
  record IsStep (id : String) (tables : Table × Table)
      (r : Result (Option (Table × Table)) × Page Card) : Type 0 where
    after : Table × Table
    returns : r.0 ≡ ok (some after)
    covers : IsCovered after id
    keeps : (k : String) → IsCovered tables k → IsCovered after k

  -- One attachment, by the reply to its request.
  abbrev after_reply :
      Result (Bytes × String) × Browser
      → String
      → Table × Table
      → Io (Page Card) (Option (Table × Table))
  after_reply r id tables =
      catch
        (call (λ b. r) >>= λ q. gets (λ s.
          if cancelled s.browser.sent
          then none
          else some (
            put tables.0 id (
                stored_entry (object_url s.browser.sent q.0)
                  (or_text (some q.1) "application/octet-stream")),
            tables.1,
          )))
        (λ e. pure (some (tables.0, put tables.1 id (message_of e))))

  after_reply-IsStep :
      (r : Result (Bytes × String) × Browser) (id : String) (next errs : Table) (s : Page Card)
      → IsStep id (next, errs) (after_reply r id (next, errs) s)
  after_reply-IsStep (ok q, b) id next errs s =
      let entry : String =
        stored_entry (object_url b.sent q.0) (or_text (some q.1) "application/octet-stream") in
      record {
        after = (put next id entry, errs);
        returns = rw (lives b.sent) refl;
        covers = inl (lookup-put_same next id entry);
        keeps = λ k h. elim h [ inl f ↦ inl (lookup-put next id entry k f) | inr f ↦ inr f ];
      }
  after_reply-IsStep (throw e, b) id next errs s = record {
    after = _;
    returns = refl;
    covers = inr (lookup-put_same errs id _);
    keeps = λ k h. elim h [ inl f ↦ inl f | inr f ↦ inr (lookup-put errs id _ k f) ];
  }

  load_attachment-IsStep :
      (att : Value) (id : String) (next errs : Table) (s : Page Card)
      → member att "blob_id_hex" ≡ ok (str id)
      → IsStep id
          (next, errs)
          (load_attachment p program_id object_url cancelled att (next, errs) s)
  unfolding show_value
  load_attachment-IsStep att id next errs s read =
      rw read (after_reply-IsStep (fetch_blob p program_id id s.browser) id next errs s)

  -- The whole loop returns, covers every id and keeps every entry.
  record IsLoaded (ids : List String) (tables : Table × Table)
      (r : Result (Option (Table × Table)) × Page Card) : Type 0 where
    after : Table × Table
    returns : r.0 ≡ ok (some after)
    covers : AreCovered after ids
    keeps : (k : String) → IsCovered tables k → IsCovered after k

  load_all-IsLoaded :
      (atts : Items) (ids : List String) (next errs : Table) (s : Page Card)
      → IsNamed atts ids
      → IsLoaded ids
          (next, errs)
          (load_all p program_id object_url cancelled atts (some (next, errs)) s)
  load_all-IsLoaded nil ids next errs s named = record {
    after = (next, errs);
    returns = refl;
    covers = rw named tt;
    keeps = λ k h. h;
  }
  load_all-IsLoaded (cons att atts) [] next errs s named = elim named [ ]
  load_all-IsLoaded (cons att atts) (id ∷ ids) next errs s (read, named) =
      let step = load_attachment-IsStep att id next errs s read in
      let rest =
        load_all-IsLoaded atts ids step.after.0 step.after.1
          (load_attachment p program_id object_url cancelled att (next, errs) s).1 named in
      record {
        after = rest.after;
        returns = rw step.returns rest.returns;
        covers = (rest.keeps id step.covers, rest.covers);
        keeps = λ k h. rest.keeps k (step.keeps k h);
      }

  -- If the cleanup does not run meanwhile, the effect of a post that has attachments with ids ends, and
  -- each one is then either loaded or has an error.
  pub load_attachments-AreCovered :
      (s : Page Card) (att : Value) (atts : Items) (ids : List String)
      → peek s.view.local_post "attachments" ≡ arr (cons att atts)
      → IsNamed (cons att atts) ids
      → ((load_attachments p program_id object_url cancelled s).0 ≡ ok tt)
        × AreCovered
            (
              (load_attachments p program_id object_url cancelled s).1.view.attachments,
              (load_attachments p program_id object_url cancelled s).1.view.attachment_errors,
            )
            ids
  unfolding load_attachments
  load_attachments-AreCovered s att atts ids read named =
      let loaded = load_all-IsLoaded (cons att atts) ids [] [] s named in
      rw (read, loaded.returns, lives _) (refl, loaded.covers)
