-- ===== src/Nbook/Normalize/Renaming.antt =====
-- The normalization of the program's replies is a renaming of fields.
use onvm.Base.{◌≡◌, refl, ap, sym, String, List, [], ◌∷◌}
use mathlib.Core.Path.{subst}
use onvm.Js.Value.{Value, undefined, null, bool, num, str, arr, obj, Items, nil, cons, field_of}
use onvm.Js.Result.{>>=-eq-ok, ok_injective, Result, ok, member}
use onvm.Nbook.Normalize.{map_items, map_value, normalize_comment, normalize_post}

-- Each field of the reply is found under its new name.
abbrev pub IsRenaming : List (String × String) → Value → Value → Type 0
IsRenaming [] api v = Unit {0}
IsRenaming ((from, to) ∷ more) api v = (member v to ≡ member api from) × IsRenaming more api v

abbrev pub post_names : List (String × String)
post_names =
    ("id", "id")
    ∷ ("author", "author")
    ∷ ("author_display_name", "displayName")
    ∷ ("author_avatar_blob_id", "avatarBlobId")
    ∷ ("text", "text")
    ∷ ("attachments", "attachments")
    ∷ ("created_at", "createdAt")
    ∷ ("likes", "likes")
    ∷ []

abbrev comment_names : List (String × String)
comment_names =
    ("id", "id") ∷ ("author", "author") ∷ ("text", "text") ∷ ("created_at", "createdAt") ∷ []

-- One item for each item, in the same order.
abbrev AreRenamed : List (String × String) → Items → Items → Type 0
AreRenamed names nil nil = Unit {0}
AreRenamed names (cons v vs) (cons w ws) = IsRenaming names v w × AreRenamed names vs ws
AreRenamed names _ _ = ⊥

moved :
    (names : List (String × String)) (api w v : Value)
    → ok w ≡ ok v
    → IsRenaming names api w
    → IsRenaming names api v
moved names api w v h r = subst (IsRenaming names api) (ok_injective h) r

normalize_comment-IsRenaming :
    (c v : Value) → normalize_comment c ≡ ok v → IsRenaming comment_names c v
unfolding normalize_comment
normalize_comment-IsRenaming undefined v h = cc
normalize_comment-IsRenaming null v h = cc
normalize_comment-IsRenaming (obj fs) v h =
    moved comment_names (obj fs) _ v h (refl, (refl, (refl, (refl, tt))))
normalize_comment-IsRenaming (bool x) v h =
    moved comment_names (bool x) _ v h (refl, (refl, (refl, (refl, tt))))
normalize_comment-IsRenaming (num x) v h =
    moved comment_names (num x) _ v h (refl, (refl, (refl, (refl, tt))))
normalize_comment-IsRenaming (str x) v h =
    moved comment_names (str x) _ v h (refl, (refl, (refl, (refl, tt))))
normalize_comment-IsRenaming (arr x) v h =
    moved comment_names (arr x) _ v h (refl, (refl, (refl, (refl, tt))))

map_items-AreRenamed :
    (vs ws : Items) → map_items normalize_comment vs ≡ ok ws → AreRenamed comment_names vs ws
map_items-AreRenamed nil ws h = subst (AreRenamed comment_names nil) (ok_injective h) tt
map_items-AreRenamed (cons v vs) ws h =
    let (w, first, h₁) = >>=-eq-ok (normalize_comment v) _ _ h in
    let (rest, more, h₂) = >>=-eq-ok (map_items normalize_comment vs) _ _ h₁ in
    subst (AreRenamed comment_names (cons v vs)) (ok_injective h₂)
      (normalize_comment-IsRenaming v w first, map_items-AreRenamed vs rest more)

-- The comments of a post that was read.
pub record HasComments (api v : Value) : Type 0 where
  pub vs : Items
  pub ws : Items
  pub read : member api "comments" ≡ ok (arr vs)
  pub written : member v "comments" ≡ ok (arr ws)
  pub renamed : AreRenamed comment_names vs ws

map_value-eq-ok :
    (f : Value → Result Value) (v w : Value)
    → map_value f v ≡ ok w
    → (vs : Items) × (ws : Items) × (v ≡ arr vs) × (w ≡ arr ws) × (map_items f vs ≡ ok ws)
map_value-eq-ok f (arr vs) w h =
    let (ws, mapped, h₁) = >>=-eq-ok (map_items f vs) _ _ h in
    (vs, ws, refl, sym (ok_injective h₁), mapped)
map_value-eq-ok f undefined w h = cc
map_value-eq-ok f null w h = cc
map_value-eq-ok f (bool b) w h = cc
map_value-eq-ok f (num n) w h = cc
map_value-eq-ok f (str s) w h = cc
map_value-eq-ok f (obj fs) w h = cc

-- A post that the client returns has every field of the program's post under its new name, and its
-- comments are the program's, renamed, in their order.
pub normalize_post-renames :
    (api v : Value) → normalize_post api ≡ ok v → IsRenaming post_names api v × HasComments api v
unfolding normalize_post
normalize_post-renames (obj fs) v h =
    let (comments, mapped, h₁) =
      >>=-eq-ok (map_value normalize_comment (field_of fs "comments")) _ _ h in
    let (vs, ws, array, written, items) = map_value-eq-ok normalize_comment _ comments mapped in
    (
      moved post_names (obj fs) _ v h₁
          (refl, (refl, (refl, (refl, (refl, (refl, (refl, (refl, tt)))))))),
      subst (HasComments (obj fs)) (ok_injective h₁) (record {
        vs = vs;
        ws = ws;
        read = ap ok array;
        written = ap ok written;
        renamed = map_items-AreRenamed vs ws items;
      }),
    )
normalize_post-renames undefined v h = cc
normalize_post-renames null v h = cc
normalize_post-renames (bool b) v h = cc
normalize_post-renames (num n) v h = cc
normalize_post-renames (str s) v h = cc
normalize_post-renames (arr vs) v h = cc
