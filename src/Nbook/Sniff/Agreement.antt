-- ===== src/Nbook/Sniff/Agreement.antt =====
-- The two sniffers of the site, compared.
use onvm.Base.{
  ℕ, ◌≡◌, refl, ap, ◌∙◌, ◌≤◌, ◌<◌, String, Bool, true, false, ◌||◌, ◌&&◌, none, some, length, take,
  get_elem?, leb, zero, suc, [], ◌∷◌, arith, if◌then◌else◌, ◌==◌ as nat_eq,
}
use onvm.Nbook.Sniff.{
  byte_is, is_png, is_jpeg, is_gif, is_webp, is_png_prefix, sniff_content_type, sniff_blob,
  svg_or_binary,
}
use onvm.Js.Platform.{Bytes}

get_elem?-take : (n i : ℕ) (b : Bytes) → i < n → get_elem? (take n b) i ≡ get_elem? b i
get_elem?-take zero i b h = elim h [ ]
get_elem?-take (suc n) i [] h = refl
get_elem?-take (suc n) zero (y ∷ b) h = refl
get_elem?-take (suc n) (suc i) (y ∷ b) h = get_elem?-take n i b (omega arith)

and : {a a' c c' : Bool} → a ≡ a' → c ≡ c' → (a && c) ≡ (a' && c')
and {a} {a'} {c} {c'} p q = ap (λ x. x && c) p ∙ ap (λ x. a' && x) q

module _ (n : ℕ) (b : Bytes) (h : 12 ≤ n) where
  byte : (i x : ℕ) → i < 12 → byte_is (take n b) i x ≡ byte_is b i x
  byte i x k =
      ap (λ o. elim o [ none ↦ false | some y ↦ nat_eq y x ]) (get_elem?-take n i b (omega arith))

  is_png-take : is_png (take n b) ≡ is_png b
  is_png-take =
      and
        (and
          (and
            (and
              (and
                (and (and (byte 0 0x89 (omega arith)) (byte 1 0x50 (omega arith)))
                  (byte 2 0x4e (omega arith)))
                (byte 3 0x47 (omega arith)))
              (byte 4 0x0d (omega arith)))
            (byte 5 0x0a (omega arith)))
          (byte 6 0x1a (omega arith)))
        (byte 7 0x0a (omega arith))

  is_jpeg-take : is_jpeg (take n b) ≡ is_jpeg b
  is_jpeg-take =
      and (and (byte 0 0xff (omega arith)) (byte 1 0xd8 (omega arith))) (byte 2 0xff (omega arith))

  is_gif-take : is_gif (take n b) ≡ is_gif b
  is_gif-take =
      and
        (and (and (byte 0 0x47 (omega arith)) (byte 1 0x49 (omega arith)))
          (byte 2 0x46 (omega arith)))
        (byte 3 0x38 (omega arith))

  is_webp-take : is_webp (take n b) ≡ is_webp b
  is_webp-take =
      and
        (and
          (and
            (and
              (and
                (and (and (byte 0 0x52 (omega arith)) (byte 1 0x49 (omega arith)))
                  (byte 2 0x46 (omega arith)))
                (byte 3 0x46 (omega arith)))
              (byte 8 0x57 (omega arith)))
            (byte 9 0x45 (omega arith)))
          (byte 10 0x42 (omega arith)))
        (byte 11 0x50 (omega arith))

-- The type of an image, by the tests in their order.
abbrev image_type : (png jpeg gif webp : Bool) → String → String
image_type png jpeg gif webp other =
    if png
    then "image/png"
    else if jpeg
    then "image/jpeg"
    else if gif
    then "image/gif"
    else if webp
    then "image/webp"
    else other

image_type_cong :
    {png png' jpeg jpeg' gif gif' webp webp' : Bool} (s : String)
    → png ≡ png'
    → jpeg ≡ jpeg'
    → gif ≡ gif'
    → webp ≡ webp'
    → image_type png jpeg gif webp s ≡ image_type png' jpeg' gif' webp' s
image_type_cong s a b c d = cc

image_type_other :
    (png prefix jpeg gif webp : Bool) (s t : String)
    → png || jpeg || gif || webp ≡ true
    → (png ≡ true → prefix ≡ true)
    → (jpeg || gif || webp ≡ true → prefix ≡ false)
    → image_type png jpeg gif webp s ≡ image_type prefix jpeg gif webp t
image_type_other png prefix jpeg gif webp s t image h k = ground arith

-- Of a PNG, JPEG, GIF or WebP image of twelve bytes or more, the browser and the proxy report the
-- same type, whatever the header of the reply says.
pub sniff_agree :
    (decode : Bytes → String) (b : Bytes) (header_ct : String)
    → 12 ≤ length b
    → is_png b || is_jpeg b || is_gif b || is_webp b ≡ true
    → sniff_content_type b header_ct ≡ sniff_blob decode b
unfolding sniff_content_type sniff_blob
sniff_agree decode b header_ct h image =
    let long : leb 12 (length b) ≡ true = ground arith in
    let not_short : leb 8 (length b) ≡ true = ground arith in
    image_type_cong _ (is_png-take 12 b (omega arith)) (is_jpeg-take 12 b (omega arith))
      (is_gif-take 12 b (omega arith)) (is_webp-take 12 b (omega arith))
    ∙ image_type_other (is_png b) (is_png_prefix b) (is_jpeg b) (is_gif b) (is_webp b) _
        (svg_or_binary (decode (take 5 b))) image (λ e. ground arith) (λ e. ground arith)
    ∙ rw (long, not_short) refl
