-- ===== src/Java/Ssl/Declared.antt =====
-- What SSLContextUtil.java throws, where the classes that it calls throw what they document.
use ezbake_common.Common.{
  ◌≡◌, ◌⊎◌, inl, inr, refl, Bool, true, Option, none, some, Option-cases, codes, ◌∷◌, if◌then◌else◌,
}
use ezbake_common.Java.Resources.{get_resource}
use ezbake_common.Java.Strings.{starts_with}
use ezbake_common.Java.Ssl.{
  Platform, get_input_stream, resource_stream, load_stream, load_keystore_of, optional_keystore,
  init_ssl_context, get_ssl_context, get_ssl_context_of, caught_loading, caught_initializing,
  to_char_array,
}
use ezbake_common.Java.{
  Chars, Result, returns, >>=-eq_returns, catching-eq_returns, Thrown, check_not_null,
  catching-Throws, Throws, Throws-mono, >>=-Throws, Result-cases, io, ssl_context, key_store,
  certificate, no_such_algorithm, unrecoverable_key, key_management,
}

-- The checked exceptions of the calls.
pub record IsDocumented (platform : Platform) : Type 0 where
  pub open_file : (path : Chars) → Throws (λ e. e ≡ io) (platform.open_file path)
  pub open_url : (url : platform.Url) → Throws (λ e. e ≡ io) (platform.open_url url)
  pub key_store_of : (kind : Chars) → Throws (λ e. e ≡ key_store) (platform.key_store_of kind)
  pub load :
      (store : platform.KeyStore) (stream : platform.Stream) (password : Chars)
      → Throws
          (λ e. (e ≡ io) ⊎ (e ≡ no_such_algorithm) ⊎ (e ≡ certificate))
          (platform.load store stream password)
  pub key_factory : Throws (λ e. e ≡ no_such_algorithm) platform.key_factory
  pub key_managers :
      (factory : platform.KeyFactory) (store : Option platform.KeyStore) (password : Chars)
      → Throws
          (λ e. (e ≡ key_store) ⊎ (e ≡ no_such_algorithm) ⊎ (e ≡ unrecoverable_key))
          (platform.key_managers factory store password)
  pub trust_factory : Throws (λ e. e ≡ no_such_algorithm) platform.trust_factory
  pub trust_managers :
      (factory : platform.TrustFactory) (store : Option platform.KeyStore)
      → Throws (λ e. e ≡ key_store) (platform.trust_managers factory store)
  pub context_of : (name : Chars) → Throws (λ e. e ≡ no_such_algorithm) (platform.context_of name)
  pub init_context :
      (context : platform.Context) (keys : platform.KeyManagers) (trusted : platform.TrustManagers)
      → Throws (λ e. e ≡ key_management) (platform.init_context context keys trusted)

-- What `getSSLContext` declares.
abbrev pub IsDeclared : Thrown → Type 0
IsDeclared e = (e ≡ ssl_context) ⊎ (e ≡ io)

-- One exception that is caught.
only {ℓ} :
    {A : Type ℓ} (caught : Thrown → Bool) (x : Thrown) (r : Result A)
    → caught x ≡ true
    → Throws (λ e. e ≡ x) r
    → Throws (λ e. (caught e ≡ true) ⊎ IsDeclared e) r
only caught x r c =
    Throws-mono (λ e. e ≡ x) (λ e. (caught e ≡ true) ⊎ IsDeclared e) r (λ e q. inl (rw q c))

module _ (platform : Platform) (documented : IsDocumented platform) where
  resource_stream-io : (path : Chars) → Throws (λ e. e ≡ io) (resource_stream platform path)
  unfolding resource_stream
  resource_stream-io path =
      let path' = (if starts_with path (codes "/") then path else b'/' ∷ path) in
      elim (Option-cases (get_resource platform.class_path (some path'))) [
        | inl e ↦ rw (e, resource_stream) refl
        | inr (url, e) ↦ rw (e, resource_stream) (documented.open_url url)
      ]

  get_input_stream-io :
      (path : Chars) → Throws (λ e. e ≡ io) (get_input_stream platform (some path))
  unfolding get_input_stream
  get_input_stream-io path = elim (Result-cases (platform.open_file path)) [
    | inl (stream, e) ↦ rw (e, get_input_stream) tt
    | inr (x, e) ↦
        let q : x ≡ io = rw e at (documented.open_file path) in
        rw (e, get_input_stream) (rw q (resource_stream-io path))
  ]

  load_keystore_of-IsDeclared :
      (keystore password type : Chars)
      → Throws IsDeclared (load_keystore_of platform (some keystore) (some password) (some type))
  unfolding load_keystore_of load_stream check_not_null caught_loading
  load_keystore_of-IsDeclared keystore password type =
      let P = λ (e : Thrown). (caught_loading e ≡ true) ⊎ IsDeclared e in
      >>=-Throws IsDeclared (get_input_stream platform (some keystore)) _
        (Throws-mono (λ e. e ≡ io) IsDeclared _ (λ e q. inr q) (get_input_stream-io keystore))
        (λ stream.
          catching-Throws IsDeclared caught_loading ssl_context _
            (>>=-Throws P (platform.key_store_of type) _
              (only caught_loading key_store _ refl (documented.key_store_of type))
              (λ store.
                Throws-mono _ P _
                  (λ e q. elim q [
                    | inl r ↦ inr (inr r)
                    | inr s ↦ elim s [ inl r ↦ inl (rw r refl) | inr r ↦ inl (rw r refl) ]
                  ])
                  (documented.load store stream password)))
            (inl refl))

  optional_keystore-IsDeclared :
      (keystore : Option Chars) (password type : Chars)
      → Throws IsDeclared (optional_keystore platform keystore (some password) (some type))
  unfolding optional_keystore
  optional_keystore-IsDeclared none password type = tt
  optional_keystore-IsDeclared (some keystore) password type =
      >>=-Throws IsDeclared (load_keystore_of platform (some keystore) (some password) (some type))
        _ (load_keystore_of-IsDeclared keystore password type) (λ store. tt)

  init_ssl_context-caught :
      (keys : Option platform.KeyStore) (password : Chars) (trusted : Option platform.KeyStore)
      → Throws
          (λ e. (caught_initializing e ≡ true) ⊎ IsDeclared e)
          (init_ssl_context platform keys (some password) trusted)
  unfolding init_ssl_context caught_initializing
  init_ssl_context-caught keys password trusted =
      let P = λ (e : Thrown). (caught_initializing e ≡ true) ⊎ IsDeclared e in
      >>=-Throws P platform.key_factory _
        (only caught_initializing no_such_algorithm _ refl documented.key_factory)
        (λ kmf.
          >>=-Throws P (platform.key_managers kmf keys password) _
            (Throws-mono _ P _
              (λ e q. elim q [
                | inl r ↦ inl (rw r refl)
                | inr s ↦ elim s [ inl r ↦ inl (rw r refl) | inr r ↦ inl (rw r refl) ]
              ])
              (documented.key_managers kmf keys password))
            (λ managers.
              >>=-Throws P platform.trust_factory _
                (only caught_initializing no_such_algorithm _ refl documented.trust_factory)
                (λ tmf.
                  >>=-Throws P (platform.trust_managers tmf trusted) _
                    (only caught_initializing key_store _ refl
                      (documented.trust_managers tmf trusted))
                    (λ trust.
                      >>=-Throws P (platform.context_of (codes "SSL")) _
                        (only caught_initializing no_such_algorithm _ refl
                          (documented.context_of (codes "SSL")))
                        (λ context.
                          only caught_initializing key_management _ refl
                            (documented.init_context context managers trust))))))

  -- Let the classes of the platform throw what they document. With both passwords given,
  -- `getSSLContext` throws nothing but the SSLContextException and the IOException that it declares,
  -- whichever of the two stores are given.
  pub get_ssl_context-IsDeclared :
      (keystore : Option Chars) (keystore_pass : Chars) (truststore : Option Chars)
      (truststore_pass : Chars)
      → Throws IsDeclared
          (get_ssl_context platform keystore (some keystore_pass) truststore (some truststore_pass))
  unfolding get_ssl_context get_ssl_context_of
  get_ssl_context-IsDeclared keystore keystore_pass truststore truststore_pass =
      let type = some platform.default_type in
      >>=-Throws IsDeclared (optional_keystore platform keystore (some keystore_pass) type) _
        (optional_keystore-IsDeclared keystore keystore_pass platform.default_type)
        (λ keys.
          >>=-Throws IsDeclared (optional_keystore platform truststore (some truststore_pass) type)
            _ (optional_keystore-IsDeclared truststore truststore_pass platform.default_type)
            (λ trusted.
              catching-Throws IsDeclared caught_initializing ssl_context
                (init_ssl_context platform keys (some keystore_pass) trusted)
                (init_ssl_context-caught keys keystore_pass trusted) (inl refl)))

-- Without a password of the key store `getSSLContext` returns for no arguments, also where there is
-- no key store.
pub get_ssl_context-no_password :
    (platform : Platform) (keystore truststore truststore_pass : Option Chars)
    (context : platform.Context)
    → ¬ (get_ssl_context platform keystore none truststore truststore_pass ≡ returns context)
unfolding get_ssl_context get_ssl_context_of init_ssl_context to_char_array
get_ssl_context-no_password platform keystore truststore truststore_pass context done =
    let type = some platform.default_type in
    let (keys, _, rest) = >>=-eq_returns (optional_keystore platform keystore none type) _ done in
    let (trusted, _, init) =
      >>=-eq_returns (optional_keystore platform truststore truststore_pass type) _ rest in
    let made =
      catching-eq_returns caught_initializing ssl_context
        (init_ssl_context platform keys none trusted) init in
    let (kmf, _, refused) = >>=-eq_returns platform.key_factory _ made in cc
