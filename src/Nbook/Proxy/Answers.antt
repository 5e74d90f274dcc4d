-- ===== src/Nbook/Proxy/Answers.antt =====
-- The routes of the site answer every request.
use onvm.Base.{◌≡◌, refl, String, Option-cases, inl, inr, none, some, [], ◌∷◌}
use onvm.Base.Texts.{present}
use onvm.Sdk.Errors.{Fault, message_of}
use onvm.Sdk.Client.{OnvmClient, OnvmClientConfig, new_client}
use onvm.Sdk.Client.Blobs.{download_blob}
use onvm.Nbook.Sniff.{sniff_blob}
use onvm.Nbook.Proxy.{bytes, Reply, Incoming, Server, error_reply, get_client, post, get_blob}
use onvm.Js.Result.{Result, ok, throw}
use onvm.Js.Io.{handle, pure, resume}
use onvm.Js.Io.Laws.{handle_answers}
use onvm.Js.Platform.{Platform, Bytes}

module _ (p : Platform) (config : OnvmClientConfig) where
  -- Whatever happens to the client, to the node or to the network, the blob route answers.
  get_blob_answers :
      (blob_id : String) (s : Server)
      → (reply : Reply) × ((get_blob p config blob_id s).0 ≡ ok reply)
  unfolding get_blob
  get_blob_answers blob_id s = elim (Option-cases (present (some blob_id))) [
    | inl empty ↦ (error_reply 400 "missing blob id", rw (empty, get_blob) refl)
    | inr (id, full) ↦ rw (full, get_blob) (handle_answers _ _ _)
  ]

  -- Once its client is made, the other route answers every request, whatever the node, the network
  -- and the body do.
  post_answers :
      (request : Incoming) (s : Server) (c : OnvmClient)
      → (get_client p config s).0 ≡ ok c
      → (reply : Reply) × ((post p config request s).0 ≡ ok reply)
  unfolding post
  post_answers request s c made = rw made (handle_answers _ _ _)

  -- Before a client is made, a configuration that the client refuses is not turned into a reply by
  -- this route: the error leaves the handler, and nothing changes.
  post_refused :
      (request : Incoming) (s : Server) (e : Fault)
      → s.client_instance ≡ none
      → new_client p config ≡ throw e
      → post p config request s ≡ (throw e, s)
  unfolding post get_client
  post_refused request s e fresh refused = rw (fresh, refused) refl

  -- What the blob route makes of a download.
  abbrev pub blob_reply : Result Bytes → Reply
  blob_reply (throw e) = error_reply 500 (message_of e)
  blob_reply (ok buffer) = record {
    status = 200;
    headers =
        ("Content-Type", sniff_blob p.utf8_decode buffer)
        ∷ ("Cache-Control", "public, max-age=60")
        ∷ [];
    content = bytes buffer;
  }

  handle_blob :
      (r : Result Bytes) (s : Server)
      → handle
          (resume r (λ b. pure (blob_reply (ok b))) s).0
          (λ e. pure (error_reply 500 (message_of e)))
          (resume r (λ b. pure (blob_reply (ok b))) s).1
        ≡ (ok (blob_reply r), s)
  handle_blob (ok b) s = refl
  handle_blob (throw e) s = refl

  -- With a client at hand and an id that is not empty, the route answers what the SDK's download gives, and keeps the client
  -- with all that it has learned.
  pub get_blob_replies :
      (blob_id : String) (s : Server) (c : OnvmClient)
      → present (some blob_id) ≡ some blob_id
      → s.client_instance ≡ some c
      → get_blob p config blob_id s ≡ (
          let (r, after) = download_blob p blob_id (record { client = c; sent = s.sent }) in
          (ok (blob_reply r), record { client_instance = some after.client; sent = after.sent }))
  unfolding get_blob get_client
  get_blob_replies blob_id s c full made =
      rw (full, made, get_blob)
        (handle_blob (download_blob p blob_id (record { client = c; sent = s.sent })).0 _)
