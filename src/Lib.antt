-- ===== src/Lib.antt =====
-- Verification library of ezbake-common: of its C++ half the caches, the host and port type, the text
-- encryption and the environment; of its Java half the properties with encrypted values, the
-- key stores and the dates; and what they stand on.
--
-- The program's parts.
-- - src/main/cpp/include/ezbake/common/lrucache/LRUCache.h, the class LRUCache: a thread-safe
--   multimap of limited size that gives up its least recently used entry. Modelled in LruCache,
--   method by method: containsKey is contains_key, containsValue contains_value, entrySet
--   entry_set, valueSet value_set, getKey get_key, isEmpty is_empty, isFull is_full, valueRange
--   value_range, the two remove are remove_key and remove_value, findEntry is find_entry and
--   getLruEntry get_lru_entry; clear, get, pop, put and size keep their names. A method takes the
--   cache and returns the cache after it beside its result.
-- - src/main/cpp/include/ezbake/common/lrucache/LRUTimedCache.h: CacheValue and LRUTimedCache, an
--   LRUCache whose values carry the second at which they were put, and expire. Modelled in
--   LruTimedCache, with the methods' names as above; it calls the operations of LruCache.
-- - src/main/cpp/include/ezbake/common/HostAndPort.h: HostAndPort, modelled in HostAndPort:
--   fromHost is from_host, fromParts from_parts, fromString from_string, and so on; the operators
--   ==, != and < are equal, not_equal and less, and << is print.
-- - src/main/cpp/security and src/main/cpp/include/ezbake/common/security: Base64Util, modelled in
--   Security/Base64; PbeMd5AndDesEncryptor in Security/Pbe (generateKey is generate_key,
--   generateDataHash generate_data_hash); the template PbeStringEncryptor in
--   Security/StringEncryptor (encrypt_with, decrypt_with); the interface TextCryptoProvider and its
--   implementations NoOpTextCryptoProvider (no_op) and SharedSecretTextCryptoProvider
--   (shared_secret) in Security/Providers. A provider calls the encryptor, which calls Base64Util.
-- - src/main/cpp/utils/OpenShiftUtil.cpp, modelled in OpenShift (getRepoDir is get_repo_dir, and so
--   on) over the environment as a function, and
--   src/main/cpp/include/ezbake/common/utils/StringConversionUtil.h, modelled in Conversions, the
--   numeric conversions as one function of boost::lexical_cast. OpenShiftUtil makes a HostAndPort.
-- - src/main/java/ezbake/common/properties: EzProperties, modelled in Java/EzProperties, with its
--   merging and loading in Java/EzProperties/Merging (getProperty is get_property and, with a
--   default, get_property_or; mergeProperties is merge_properties, the loop of loadFromDirectory
--   load_files),
--   and PropertiesEncryptionUtil, modelled in Java/Encryption, and, for its functions on properties,
--   in Java/EzProperties. EzProperties calls OpenShiftUtil (Java/OpenShift, from
--   src/main/java/ezbake/common/openshift) and ClasspathResources (Java/Resources, from
--   src/main/java/ezbake/common/io), and a TextCryptoProvider, of which
--   src/main/java/ezbake/common/security/SharedSecretTextCryptoProvider.java is modelled in
--   Java/SharedSecret.
-- - src/main/java/ezbake/common/ssl/SSLContextUtil.java, modelled in Java/Ssl: the three loadKeystore
--   are load_stream, load_keystore_of and load_keystore, the two getSSLContext get_ssl_context_of and
--   get_ssl_context. It calls ClasspathResources.
-- - src/main/java/ezbake/common/time/DateUtils.java, modelled in Java/Time over readings of
--   java.util.Calendar.
--
-- What they stand on.
-- - Bimap is the interface of boost::bimap as LRUCache uses it: operations and the laws that its
--   documentation promises. The order of the hashed view among entries of one key is not fixed.
--   Bimap/Lists has a container that meets it, on which the tests run.
-- - StdSet is std::set over a parameter for its order; StdSet/Laws has the laws of its insertions.
-- - Text has what is used of std::string and std::to_string, and boost::lexical_cast as an
--   interface; Text/Decimal has a reader that meets it.
-- - OpenSsl is the interface of the base64 BIO, of MD5 and of DES in CBC mode; OpenSsl/Identity has
--   implementations that meet it, on which the tests run.
-- - Entries is the abstract view: a cache as the list of its entries, the least recently used first.
--   LruCache/Spec is the contract on that list: a request for each public method, and its answer. What
--   `remove(key)` returns is a bag there, a quotient of lists by their order, since the source does
--   not promise one. LruCache/Handled has the cache's own methods as answers to requests.
--   LruTimedCache/Spec and LruTimedCache/Handled are the same for the timed cache, whose list has
--   stamped entries; the requests to the base class are among its requests.
-- - Java has the results of a Java call, Java/Strings what is used of java.lang.String and Java/Table
--   the own entries of a java.util.Properties. An object and its chain of defaults are a list, by
--   value; an object in it that is an EzProperties decrypts what is read of it. Guava's set intersection is
--   an interface, which Java/Sets meets on lists; NumberUtils, toLowerCase and the class loaders are
--   parameters.
-- - Common has the shared helpers: lists, tests and Outcome, what a C++ call can do (return, throw,
--   or leave the defined behaviour).
--
-- How it is modelled.
-- - Numbers are the native naturals. A cast to unsigned int is `% 2 ^ 32`. Timestamps are seconds in
--   a uint64_t and are not wrapped: the clock does not get there. A date is what a
--   boost::posix_time::ptime holds, a signed 64-bit number of microseconds, and wraps around (ticks in
--   LruTimedCache), so that an expiration of 2^63 seconds and more is negative.
-- - An iterator is the position of its entry in the list view, and `end()` is `none`; reading it
--   there is `undefined`.
-- - Each method of LRUCache holds the object's mutex from start to end, so the calls of several
--   threads form one sequence of whole methods, which LruCache/Run describes. The timed `get` holds
--   it twice: LruTimedCache has it whole, LruTimedCache/Sections as two critical sections, between
--   which those of other threads may run; LruTimedCache/Interleaved compares the two, and
--   LruTimedCache/Readers has any number of calls of `get` under way at once. The timed
--   `entrySet` and `valueSet` read one section's copy and change nothing, so they are no section of
--   their own.
-- - A method that reads the clock takes the reading as an argument; the timed getKey, which reads it
--   in its loop, takes the sequence of readings.
-- - Loops over a range, a view or a set are recursion on its list; the printing of a number is on
--   fuel, one unit more than the number, which is more than its digits. The loop of
--   generateDataHash is recursion on how far its counter is above the least 64-bit long, whose
--   decrement is undefined.
-- - Reading a schedule that was never set, an array out of its bounds, or its last byte where it has
--   none is `undefined`. The size of a stack array is not limited.
--
-- Not modelled: the classes that the code calls and the repository does not hold (of the C++ half
-- boost, OpenSSL and std; of the Java half java.security, javax.net.ssl, java.util, Guava, Jasypt and
-- the Thrift classes), which are parameters or interfaces; logging; that files and streams stay open;
-- the vendored test framework; and the unit tests.
pub mod Common
pub mod Entries
pub mod Bimap
pub mod StdSet
pub mod LruCache
pub mod LruTimedCache
pub mod Text
pub mod HostAndPort
pub mod OpenSsl
pub mod Security
pub mod Conversions
pub mod OpenShift
pub mod Java
mod Tests
