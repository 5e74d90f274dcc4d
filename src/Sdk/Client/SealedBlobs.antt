-- ===== src/Sdk/Client/SealedBlobs.antt =====
-- Replies that the node seals to an upload or a download.
use onvm.Base.{length, ℕ, ◌≡◌, refl, String, some}
use onvm.Sdk.Auth.{DerivedKeys, canonical}
use onvm.Sdk.Auth.Decryption.{decrypt-seal, in_header}
use onvm.Sdk.Client.{OnvmClient, NodeMode}
use onvm.Sdk.Client.Reply.{Stamp, sealed_by}
use onvm.Sdk.Client.Blobs.{read_upload, read_download}
use onvm.Sdk.Client.Sealing.{IsSealed, decrypt_response-seal}
use onvm.Js.Result.{ok}
use onvm.Js.Platform.{Platform, Bytes, HttpResponse, IsLawful}

module _ (p : Platform) (seal : (key nonce plaintext associated : Bytes) → Bytes)
    (laws : IsLawful p seal) (mode : NodeMode) (c : OnvmClient) (stamp : Stamp) (keys : DerivedKeys)
    (t : ℕ) (nonce : String) (plaintext : Bytes) (response : HttpResponse)
    (key_size : length keys.response_key ≡ 32) where
  -- On a lawful platform, the reply to a signed download that the node has sealed for its path is the blob, byte for byte.
  read_download_sealed :
      (path : String)
      → sealed_by mode c stamp ≡ some (record { keys = keys; timestamp = t; nonce = nonce })
      → IsSealed p seal keys.response_key nonce t
          (canonical "GET" path t nonce "")
          plaintext
          response
      → read_download p mode c stamp path response ≡ ok plaintext
  unfolding read_download
  read_download_sealed path by r =
      rw (r.good, by, r.named, r.sealed, r.announced)
        (decrypt-seal p seal laws keys.response_key nonce t (canonical "GET" path t nonce "") _
          plaintext key_size in_header)

  -- On a lawful platform, the reply to a signed upload that the node has sealed for the text of its body is the JSON that
  -- was sealed.
  read_upload_sealed :
      (body : String)
      → sealed_by mode c stamp ≡ some (record { keys = keys; timestamp = t; nonce = nonce })
      → IsSealed p seal keys.response_key nonce t
          (canonical "POST" "/blobs" t nonce body)
          plaintext
          response
      → read_upload p mode c stamp body response ≡ p.json_parse (p.utf8_decode plaintext)
  unfolding read_upload
  read_upload_sealed body by r =
      rw (r.sealed, r.good, by, r.named, r.announced)
        (rw
          (decrypt_response-seal p seal laws keys.response_key nonce t
            (canonical "POST" "/blobs" t nonce body) plaintext key_size)
          refl)
