-- ===== src/Tests/Platform.antt =====
-- DateUtils, SSLContextUtil and SharedSecretTextCryptoProvider on a small platform.
use ezbake_common.Common.{
  ℕ, ◌≡◌, refl, inr, pos, negsuc, true, false, List, [], ◌∷◌, none, some, codes, arith,
}
use ezbake_common.Java.Encryption.Laws.{wrapped}
use ezbake_common.Java.EzProperties.{EzProperties, get_property, set_property, plain}
use ezbake_common.Java.Resources.{get_resource}
use ezbake_common.Java.SharedSecret.Shared.{get_property-set_property_shared, IsInverse}
use ezbake_common.Java.SharedSecret.{Jasypt, Configuration, init, provider, salt}
use ezbake_common.Java.Ssl.Declared.{
  IsDocumented, IsDeclared, get_ssl_context-IsDeclared, get_ssl_context-no_password,
}
use ezbake_common.Java.Ssl.{
  Platform, get_ssl_context, get_ssl_context_of, optional_keystore, load_keystore_of, load_stream,
  get_input_stream, resource_stream, init_ssl_context, caught_loading, to_char_array,
}
use ezbake_common.Java.Strings.{starts_with}
use ezbake_common.Java.Table.{put}
use ezbake_common.Java.Time.Zone.{Stands, get_current_time-Stands}
use ezbake_common.Java.Time.{Calendar, get_current_time, get_current_date, zone_of, to_short}
use ezbake_common.Java.{
  Chars, Result, returns, throws, Throws, check_not_null, catching, null_pointer, io, ssl_context,
  certificate,
}

-- The first day of the year in a zone three and a half hours behind UTC.
abbrev newfoundland : Calendar
newfoundland = record {
  offset = negsuc 12_599_999;
  millisecond = pos 5;
  second = pos 4;
  minute = pos 3;
  hour_of_day = pos 2;
  day_of_month = pos 1;
  month = pos 0;
  year = pos 2015;
}

time_run :
    (zone_of newfoundland.offset ≡ record { hour = pos 3; minute = pos 30; after_utc = false })
    × (get_current_date newfoundland ≡ record { day = pos 1; month = pos 1; year = pos 2015 })
unfolding zone_of get_current_date to_short
time_run = (refl, refl)

get_current_time-Stands_example : Stands (get_current_time newfoundland).tz newfoundland.offset
get_current_time-Stands_example = get_current_time-Stands newfoundland (omega arith)

-- An encryptor that writes a unit before the message, and refuses a text without it.
strip : Chars → Result Chars
strip [] = throws io
strip (c ∷ text) = returns text

abbrev marking : Jasypt
marking = record {
  default_charset = codes "UTF-8";
  set_password = λ secret. check_not_null secret;
  encrypt = λ encryptor message. returns (b'#' ∷ message);
  decrypt = λ encryptor text. strip text;
}

marking-IsInverse : IsInverse marking
unfolding strip
marking-IsInverse encryptor message text h = let e : b'#' ∷ message ≡ text = cc in rw (← e) refl

abbrev encryptor : Configuration
encryptor = record {
  algorithm = codes "PBEWithMD5AndDES";
  salt_charset = codes "UTF-8";
  salt = salt;
  password = codes "secret";
}

init_run : init marking (some (codes "secret")) ≡ returns encryptor
unfolding init check_not_null
init_run = refl

abbrev writer : EzProperties
writer = record {
  table = [];
  defaults = plain ((codes "b", codes "2") ∷ []);
  crypto_provider = some (provider marking encryptor);
}

abbrev written : List (Chars × Chars)
written = (codes "key", wrapped (b'#' ∷ codes "text")) ∷ []

abbrev reader : EzProperties
reader = record {
  table = written;
  defaults = [];
  crypto_provider = some (provider marking encryptor);
}

set_run :
    set_property writer (codes "key") (codes "text") true
    ≡ returns (record writer { table = written })
unfolding set_property provider catching put
set_run = refl

get_property-set_property_shared_example :
    get_property reader (codes "key") ≡ returns (some (codes "text"))
get_property-set_property_shared_example =
    get_property-set_property_shared marking (some (codes "secret")) encryptor encryptor writer
      (record writer { table = written }) reader (codes "key") (codes "text") marking-IsInverse
      init_run init_run refl refl refl set_run

-- A platform with one file and one resource; the file is no key store.
abbrev small : Platform
small = record {
  Stream = ℕ;
  Url = ℕ;
  KeyStore = ℕ;
  KeyFactory = ℕ;
  KeyManagers = ℕ;
  TrustFactory = ℕ;
  TrustManagers = ℕ;
  Context = ℕ;
  open_file = λ path. throws io;
  class_path = record { context = λ _. none; runtime = λ _. some 1; own = λ _. none };
  open_url = λ url. returns url;
  default_type = codes "jks";
  key_store_of = λ kind. returns 0;
  load = λ store stream password. throws certificate;
  key_factory = returns 0;
  key_managers = λ factory store password. returns 0;
  trust_factory = returns 0;
  trust_managers = λ factory store. returns 0;
  context_of = λ name. returns 0;
  init_context = λ context keys trusted. returns 7;
}

small-IsDocumented : IsDocumented small
small-IsDocumented = record {
  open_file = λ path. refl;
  open_url = λ url. tt;
  key_store_of = λ kind. tt;
  load = λ store stream password. inr (inr refl);
  key_factory = tt;
  key_managers = λ factory store password. tt;
  trust_factory = tt;
  trust_managers = λ factory store. tt;
  context_of = λ name. tt;
  init_context = λ context keys trusted. tt;
}

program : Unit {0}
unfolding get_ssl_context get_input_stream resource_stream load_stream caught_loading catching
    optional_keystore load_keystore_of init_ssl_context get_ssl_context_of check_not_null
    to_char_array get_resource starts_with
program = tt

ssl_run :
    (get_ssl_context small (some (codes "a")) (some (codes "p")) none none ≡ throws ssl_context)
    × (get_ssl_context small none (some (codes "p")) none none ≡ returns 7)
    × (get_ssl_context small none none none none ≡ throws null_pointer)
unfolding program
ssl_run = (refl, refl, refl)

get_ssl_context-IsDeclared_example :
    Throws IsDeclared
      (get_ssl_context small (some (codes "a")) (some (codes "p")) none (some (codes "q")))
get_ssl_context-IsDeclared_example =
    get_ssl_context-IsDeclared small small-IsDocumented (some (codes "a")) (codes "p") none
      (codes "q")

get_ssl_context-no_password_example : ¬ (get_ssl_context small none none none none ≡ returns 7)
get_ssl_context-no_password_example = get_ssl_context-no_password small none none none 7
