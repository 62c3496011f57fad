-- ===== src/Java/Ssl.antt =====
-- src/main/java/ezbake/common/ssl/SSLContextUtil.java, over the classes of the Java platform that
-- it calls. A key store that `load` has filled is the result of the call.
pub mod Declared
use ezbake_common.Common.{Bool, true, false, ◌∷◌, Option, none, some, codes, if◌then◌else◌}
use ezbake_common.Java.Resources.{ClassPath, get_resource}
use ezbake_common.Java.Strings.{starts_with}
use ezbake_common.Java.{
  Chars, Result, returns, throws, ◌>>=◌, Thrown, check_not_null, catching, null_pointer, io,
  ssl_context, key_store, certificate, no_such_algorithm, unrecoverable_key, key_management,
}

-- `Files.asByteSource(new File(path)).openStream()`, ClasspathResources, `URL.openStream`, KeyStore,
-- KeyManagerFactory, TrustManagerFactory and SSLContext. A factory's `init` gives the managers.
pub record Platform : Type 1 where
  pub Stream : Type 0
  pub Url : Type 0
  pub KeyStore : Type 0
  pub KeyFactory : Type 0
  pub KeyManagers : Type 0
  pub TrustFactory : Type 0
  pub TrustManagers : Type 0
  pub Context : Type 0
  pub open_file : Chars → Result Stream
  pub class_path : ClassPath Url
  pub open_url : Url → Result Stream
  pub default_type : Chars
  pub key_store_of : Chars → Result KeyStore
  pub load : KeyStore → Stream → Chars → Result KeyStore
  pub key_factory : Result KeyFactory
  pub key_managers : KeyFactory → Option KeyStore → Chars → Result KeyManagers
  pub trust_factory : Result TrustFactory
  pub trust_managers : TrustFactory → Option KeyStore → Result TrustManagers
  pub context_of : Chars → Result Context
  pub init_context : Context → KeyManagers → TrustManagers → Result Context

-- What the catch clauses of `loadKeystore` and of `getSSLContext` catch.
unfoldable pub caught_loading : Thrown → Bool
caught_loading key_store = true
caught_loading certificate = true
caught_loading no_such_algorithm = true
caught_loading e = false

unfoldable pub caught_initializing : Thrown → Bool
caught_initializing no_such_algorithm = true
caught_initializing unrecoverable_key = true
caught_initializing key_store = true
caught_initializing key_management = true
caught_initializing e = false

-- `password.toCharArray()`
unfoldable pub to_char_array : Option Chars → Result Chars
to_char_array none = throws null_pointer
to_char_array (some password) = returns password

module _ (platform : Platform) where
  open platform use {Stream, KeyStore, Context}

  -- The catch block of `getInputStream`.
  unfoldable pub resource_stream : Chars → Result Stream
  unfolding starts_with get_resource
  resource_stream path =
      let path = (if starts_with path (codes "/") then path else b'/' ∷ path) in
      elim (get_resource platform.class_path (some path)) [
        | none ↦ throws io
        | some url ↦ platform.open_url url
      ]

  -- `new File(null)` throws.
  unfoldable pub get_input_stream : Option Chars → Result Stream
  unfolding resource_stream
  get_input_stream none = throws null_pointer
  get_input_stream (some path) = elim (platform.open_file path) [
    | returns stream ↦ returns stream
    | throws e ↦ elim e [ io ↦ resource_stream path | other ↦ throws other ]
  ]

  -- `loadKeystore` of a stream, of a path, and of a path with the default type.
  unfoldable pub load_stream : Option Stream → Option Chars → Option Chars → Result KeyStore
  unfolding check_not_null catching caught_loading
  load_stream keystore password type = do
    stream ← check_not_null keystore
    secret ← check_not_null password
    kind ← check_not_null type
    catching caught_loading ssl_context
        (do store ← platform.key_store_of kind; platform.load store stream secret)

  unfoldable pub load_keystore_of : Option Chars → Option Chars → Option Chars → Result KeyStore
  unfolding get_input_stream load_stream
  load_keystore_of keystore password type = do
    stream ← get_input_stream keystore
    load_stream (some stream) password type

  unfoldable pub load_keystore : Option Chars → Option Chars → Result KeyStore
  unfolding load_keystore_of
  load_keystore keystore password = load_keystore_of keystore password (some platform.default_type)

  -- `if (keystore != null)`: a store, or none where there is no path.
  unfoldable pub optional_keystore :
      Option Chars → Option Chars → Option Chars → Result (Option KeyStore)
  unfolding load_keystore_of
  optional_keystore none password type = returns none
  optional_keystore (some keystore) password type = do
    store ← load_keystore_of (some keystore) password type
    returns (some store)

  -- The try block of `getSSLContext`.
  unfoldable pub init_ssl_context :
      Option KeyStore → Option Chars → Option KeyStore → Result Context
  unfolding to_char_array
  init_ssl_context key_key_store keystore_pass trust_key_store = do
    kmf ← platform.key_factory
    password ← to_char_array keystore_pass
    keys ← platform.key_managers kmf key_key_store password
    tmf ← platform.trust_factory
    trusted ← platform.trust_managers tmf trust_key_store
    context ← platform.context_of (codes "SSL")
    platform.init_context context keys trusted

  unfoldable pub get_ssl_context_of :
      Option Chars
      → Option Chars
      → Option Chars
      → Option Chars
      → Option Chars
      → Option Chars
      → Result Context
  unfolding optional_keystore init_ssl_context catching caught_initializing
  get_ssl_context_of keystore keystore_pass keystore_type truststore truststore_pass
        truststore_type =
      do
        key_key_store ← optional_keystore keystore keystore_pass keystore_type
        trust_key_store ← optional_keystore truststore truststore_pass truststore_type
        catching caught_initializing ssl_context
            (init_ssl_context key_key_store keystore_pass trust_key_store)

  unfoldable pub get_ssl_context :
      Option Chars → Option Chars → Option Chars → Option Chars → Result Context
  unfolding get_ssl_context_of
  get_ssl_context keystore keystore_pass truststore truststore_pass =
      get_ssl_context_of keystore keystore_pass (some platform.default_type) truststore
        truststore_pass (some platform.default_type)
