-- ===== src/Nbook/Sniff.antt =====
-- Content types from magic numbers: the browser's sniffer (wasm_programs/nbook/ui/lib/onvm-client.ts)
-- and the blob proxy's (wasm_programs/nbook/ui/app/api/onvm/blob/[id]/route.ts).
pub mod Agreement
use text.Mathlib.Text.{◌==◌, starts_with}
use Prim.Native.Nat.{bit_and}
use onvm.Base.{
  ℕ, String, Bool, true, false, not, ◌&&◌, ◌||◌, Option, none, some, List, leb, length, take,
  get_elem?, if◌then◌else◌, ◌==◌ as nat_eq,
}
use onvm.Base.Texts.{present}
use onvm.Js.Platform.{Bytes}

-- `bytes[i] === b`: false past the end, where the element is undefined.
abbrev pub byte_is : Bytes → ℕ → ℕ → Bool
byte_is bytes i b = elim (get_elem? bytes i) [ none ↦ false | some x ↦ nat_eq x b ]

-- `(bytes[i] & mask) === b`: undefined counts as 0.
abbrev masked_is : Bytes → ℕ → ℕ → ℕ → Bool
masked_is bytes i mask b = elim (get_elem? bytes i) [
  | none ↦ nat_eq 0 b
  | some x ↦ nat_eq (bit_and x mask) b
]

-- `headerCt && headerCt !== "application/octet-stream" ? headerCt : ""`
abbrev default_ct : String → String
default_ct header_ct = elim (present (some header_ct)) [
  | none ↦ ""
  | some t ↦ if t == "application/octet-stream" then "" else t
]

abbrev pub is_png : Bytes → Bool
is_png b =
    byte_is b 0 0x89
    && byte_is b 1 0x50
    && byte_is b 2 0x4e
    && byte_is b 3 0x47
    && byte_is b 4 0x0d
    && byte_is b 5 0x0a
    && byte_is b 6 0x1a
    && byte_is b 7 0x0a

abbrev pub is_jpeg : Bytes → Bool
is_jpeg b = byte_is b 0 0xff && byte_is b 1 0xd8 && byte_is b 2 0xff

abbrev pub is_gif : Bytes → Bool
is_gif b = byte_is b 0 0x47 && byte_is b 1 0x49 && byte_is b 2 0x46 && byte_is b 3 0x38

abbrev is_riff : Bytes → Bool
is_riff b = byte_is b 0 0x52 && byte_is b 1 0x49 && byte_is b 2 0x46 && byte_is b 3 0x46

abbrev pub is_webp : Bytes → Bool
is_webp b =
    is_riff b && byte_is b 8 0x57 && byte_is b 9 0x45 && byte_is b 10 0x42 && byte_is b 11 0x50

abbrev is_mpeg : Bytes → Bool
is_mpeg b =
    (byte_is b 0 0x49 && byte_is b 1 0x44 && byte_is b 2 0x33)
    || (byte_is b 0 0xff && masked_is b 1 0xe0 0xe0)

abbrev is_ogg : Bytes → Bool
is_ogg b = byte_is b 0 0x4f && byte_is b 1 0x67 && byte_is b 2 0x67 && byte_is b 3 0x53

abbrev is_wav : Bytes → Bool
is_wav b =
    is_riff b && byte_is b 8 0x57 && byte_is b 9 0x41 && byte_is b 10 0x56 && byte_is b 11 0x45

abbrev is_mp4 : Bytes → Bool
is_mp4 b = byte_is b 4 0x66 && byte_is b 5 0x74 && byte_is b 6 0x79 && byte_is b 7 0x70

-- `sniffContentType` of the browser's client.
pub sniff_content_type : (buffer : Bytes) (header_ct : String) → String
sniff_content_type buffer header_ct =
    let bytes = take 12 buffer in
    if is_png bytes
    then "image/png"
    else if is_jpeg bytes
    then "image/jpeg"
    else if is_gif bytes
    then "image/gif"
    else if is_webp bytes
    then "image/webp"
    else if is_mpeg bytes
    then "audio/mpeg"
    else if is_ogg bytes
    then "audio/ogg"
    else if is_wav bytes
    then "audio/wav"
    else if is_mp4 bytes
    then "video/mp4"
    else elim (present (some (default_ct header_ct))) [
      | none ↦ "application/octet-stream"
      | some t ↦ t
    ]

-- The proxy looks at four bytes of a PNG.
abbrev pub is_png_prefix : Bytes → Bool
is_png_prefix b = byte_is b 0 0x89 && byte_is b 1 0x50 && byte_is b 2 0x4e && byte_is b 3 0x47

-- The text at the front, `buffer.slice(0, 5).toString('utf8')`, decides last.
abbrev pub svg_or_binary : String → String
svg_or_binary prefix =
    if starts_with prefix "<?xml" || starts_with prefix "<svg"
    then "image/svg+xml"
    else "application/octet-stream"

-- `sniffContentType` of the proxy.
pub sniff_blob : (utf8_decode : Bytes → String) → Bytes → String
sniff_blob utf8_decode buffer =
    let size = length buffer in
    if leb 8 size && is_png_prefix buffer
    then "image/png"
    else if leb 8 size && is_jpeg buffer
    then "image/jpeg"
    else if leb 8 size && is_gif buffer
    then "image/gif"
    else if leb 8 size && leb 12 size && is_webp buffer
    then "image/webp"
    else svg_or_binary (utf8_decode (take 5 buffer))
