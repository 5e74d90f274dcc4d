-- ===== src/Programs/Identity/Types.antt =====
-- The types of the identity client (wasm_programs/identity_card/ui/lib/types.ts).
use onvm.Js.Shape.{Shape, text, number, literal, array, object, done, ◌⨾◌, ◌∶◌, ◌∶?◌}

abbrev pub register_request : Shape
register_request = object (
    "op" ∶ literal "register"
    ⨾ "name" ∶ text
    ⨾ "email" ∶ text
    ⨾ "bio" ∶? text
    ⨾ "avatar_url" ∶? text
    ⨾ "theme" ∶? text
    ⨾ done)

abbrev pub get_profile_request : Shape
get_profile_request = object ("op" ∶ literal "getprofile" ⨾ "id" ∶ text ⨾ done)

abbrev pub update_profile_request : Shape
update_profile_request = object (
    "op" ∶ literal "updateprofile"
    ⨾ "id" ∶ text
    ⨾ "name" ∶? text
    ⨾ "email" ∶? text
    ⨾ "bio" ∶? text
    ⨾ "avatar_url" ∶? text
    ⨾ "theme" ∶? text
    ⨾ done)

abbrev pub get_card_request : Shape
get_card_request = object ("op" ∶ literal "getcard" ⨾ "id" ∶ text ⨾ "format" ∶? text ⨾ done)

abbrev pub get_card_response : Shape
get_card_response =
    object ("status" ∶ literal "okcard" ⨾ "id" ∶ text ⨾ "format" ∶ text ⨾ "card_svg" ∶ text ⨾ done)

abbrev pub stats_response : Shape
stats_response = object (
    "status" ∶ literal "okstats"
    ⨾ "total_identities" ∶ number
    ⨾ "total_storage_bytes" ∶ number
    ⨾ "merkle_root" ∶ text
    ⨾ done)

abbrev pub identity : Shape
identity = object (
    "id" ∶ text
    ⨾ "name" ∶ text
    ⨾ "email" ∶ text
    ⨾ "bio" ∶? text
    ⨾ "avatar_url" ∶? text
    ⨾ "theme" ∶ text
    ⨾ "created_at" ∶ number
    ⨾ "updated_at" ∶ number
    ⨾ "checksum" ∶ text
    ⨾ done)

abbrev pub register_response : Shape
register_response = object (
    "status" ∶ literal "okregister"
    ⨾ "id" ∶ text
    ⨾ "identity" ∶ identity
    ⨾ "card_svg" ∶ text
    ⨾ done)

abbrev pub get_profile_response : Shape
get_profile_response = object ("status" ∶ literal "okprofile" ⨾ "identity" ∶ identity ⨾ done)

abbrev pub update_profile_response : Shape
update_profile_response =
    object ("status" ∶ literal "okupdate" ⨾ "id" ∶ text ⨾ "identity" ∶ identity ⨾ done)

abbrev pub identity_summary : Shape
identity_summary =
    object
      ("id" ∶ text ⨾ "name" ∶ text ⨾ "email" ∶ text ⨾ "theme" ∶ text ⨾ "created_at" ∶ number ⨾ done)

abbrev pub list_all_response : Shape
list_all_response =
    object (
      "status" ∶ literal "oklist" ⨾ "identities" ∶ array identity_summary ⨾ "total" ∶ number ⨾ done)
