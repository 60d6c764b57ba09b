-- ===== src/Client/Xo.antt =====
-- examples/xo_python/sawtooth_xo/xo_client.py: `XoClient`. The key file is given by what reading it
-- comes to, and the nonce and the clock by what they give.
use sawtooth_sdk_python.Base.{ℕ, Option, none, some, List, [], ◌∷◌, ◌++◌, take}
use sawtooth_sdk_python.Base.Text.{Text, Bytes, codes}
use sawtooth_sdk_python.Base.Text.Split.{join}
use sawtooth_sdk_python.Base.Dict.{Dict}
use sawtooth_sdk_python.Base.Exec.{
  Exec, Result, ok, raised, then_do, message, xo_exception, attribute_error, ◌>>=◌,
}
use sawtooth_sdk_python.Base.Platform.{Platform, strip}
use sawtooth_sdk_python.Signing.Keys.{Curve, create_context, private_from_hex}
use sawtooth_sdk_python.Signing.Signer.{Signer, new_signer}
use sawtooth_sdk_python.Batch.Messages.{
  Proto, TransactionHeader, Batch, sign_transaction, create_batch,
}
use sawtooth_sdk_python.Client.Rest.{Rest, Failures, post_batch, list_entries, show_data}

-- `XoException` of `_send_request`
unfoldable pub failures : Failures
failures = record {
  missing = λ name.
      xo_exception
        (message "No such game: {}" (elim name [ none ↦ codes "None" | some n ↦ n ] ∷ []));
  unsuccessful = λ code reason. xo_exception (message "Error {}: {}" (code ∷ reason ∷ []));
  connection = λ url. xo_exception (message "Failed to connect to {}: {}" (url ∷ []));
  wrapped = xo_exception (message "{}" []);
}

-- `XoClient`, with the world behind its requests
pub record XoClient (W Private Public : Type 0) : Type 0 where
  pub base_url : Text
  pub signer : Option (Signer Private Public)
  pub world : W

abbrev loaded : {A : Type 0} → Result A → Result A
loaded (ok a) = ok a
loaded (raised e) = raised (xo_exception (message "Unable to load private key: {}" []))

-- The signer that `__init__` makes: `keyfile` is None, or what reading the file gives, where none is
-- an OSError.
unfoldable pub init_signer :
    {Private Public Signature : Type 0}
    → Curve Private Public Signature
    → Platform
    → (keyfile : Option (Option Text)) → Result (Option (Signer Private Public))
init_signer curve platform none = ok none
init_signer curve platform (some none) =
    raised (xo_exception (message "Failed to read private key {}: {}" []))
init_signer curve platform (some (some text)) =
    then_do (loaded (private_from_hex curve (strip platform text))) (λ private_key.
      then_do (create_context curve (codes "secp256k1"))
        (λ context. ok (some (new_signer (record { context = context }) private_key))))

module _ (platform : Platform) where
  -- `_get_prefix`
  unfoldable pub get_prefix : Text
  get_prefix = take 6 (platform.sha512_hexdigest (platform.encode (codes "xo")))

  -- `_get_address`
  unfoldable pub get_address : Text → Text
  unfolding get_prefix
  get_address name = get_prefix ++ take 64 (platform.sha512_hexdigest (platform.encode name))

  -- The payload, of `str(space)`
  unfoldable pub xo_payload : (name action space : Text) → Bytes
  xo_payload name action space = platform.encode (join b',' (name ∷ action ∷ space ∷ []))

  unfoldable pub xo_header : (name digest nonce signer_key batcher_key : Text) → TransactionHeader
  unfolding get_address
  xo_header name digest nonce signer_key batcher_key = record {
    signer_public_key = signer_key;
    family_name = codes "xo";
    family_version = codes "1.0";
    inputs = get_address name ∷ [];
    outputs = get_address name ∷ [];
    dependencies = [];
    payload_sha512 = digest;
    batcher_public_key = batcher_key;
    nonce = nonce;
  }

  module _ {Private Public : Type 0} (proto : Proto) where
    -- The batch of `_send_xo_txn`, with `_create_batch_list`
    unfoldable pub xo_batch : (name action space nonce : Text) → Exec (Signer Private Public) Batch
    unfolding xo_payload xo_header
    xo_batch name action space nonce = do
      let payload = xo_payload name action space
      transaction ←
          sign_transaction proto (xo_header name (platform.sha512_hexdigest payload) nonce) payload
      create_batch proto (transaction ∷ [])

  module _ {W : Type 0} (rest : Rest W) where
    -- The headers for `auth_user` and `auth_password`
    unfoldable pub auth_headers : Option Text → Option Text → Dict Text
    auth_headers none auth_password = []
    auth_headers (some auth_user) auth_password =
        (
          codes "Authorization",
          codes "Basic "
              ++ rest.b64encode (
                  platform.encode (
                    auth_user
                    ++ codes ":"
                    ++ elim auth_password [ none ↦ codes "None" | some password ↦ password ])),
        )
        ∷ []

  module _ {W Private Public : Type 0} (rest : Rest W) (proto : Proto) where
    abbrev posted :
        XoClient W Private Public
        → Dict Text
        → Option ℕ
        → List ℕ
        → Result Batch × Signer Private Public
        → Result Text × XoClient W Private Public
    posted client auth wait elapsed (ok batch, signer) =
        let (r, w) =
          post_batch rest failures client.base_url auth batch wait elapsed client.world in
        (r, record client { signer = some signer; world = w })
    posted client auth wait elapsed (raised e, signer) =
        (raised e, record client { signer = some signer })

    -- `_send_xo_txn`
    unfoldable pub send_xo_txn :
        (name action space nonce : Text)
        → Dict Text
        → Option ℕ
        → List ℕ
        → Exec (XoClient W Private Public) Text
    unfolding xo_batch
    send_xo_txn name action space nonce auth wait elapsed client = elim client.signer [
      | none ↦ (raised attribute_error, client)
      | some signer ↦
          posted client auth wait elapsed (xo_batch proto name action space nonce signer)
    ]

    unfoldable pub create :
        (name nonce : Text) → Dict Text → Option ℕ → List ℕ → Exec (XoClient W Private Public) Text
    unfolding send_xo_txn
    create name nonce auth wait elapsed =
        send_xo_txn name (codes "create") [] nonce auth wait elapsed

    unfoldable pub delete :
        (name nonce : Text) → Dict Text → Option ℕ → List ℕ → Exec (XoClient W Private Public) Text
    unfolding send_xo_txn
    delete name nonce auth wait elapsed =
        send_xo_txn name (codes "delete") [] nonce auth wait elapsed

    unfoldable pub take_space :
        (name space nonce : Text)
        → Dict Text
        → Option ℕ
        → List ℕ
        → Exec (XoClient W Private Public) Text
    unfolding send_xo_txn
    take_space name space nonce auth wait elapsed =
        send_xo_txn name (codes "take") space nonce auth wait elapsed

    abbrev on_world : {A : Type 0} → Exec W A → Exec (XoClient W Private Public) A
    on_world m client = let (r, w) = m client.world in (r, record client { world = w })

    -- `list`
    unfoldable pub list : Dict Text → Exec (XoClient W Private Public) (Option (List Bytes))
    unfolding get_prefix
    list auth client = on_world (list_entries rest failures client.base_url auth get_prefix) client

    -- `show`
    unfoldable pub show : Text → Dict Text → Exec (XoClient W Private Public) (Option Bytes)
    unfolding get_address
    show name auth client =
        on_world (show_data rest failures client.base_url auth (get_address name) name) client
