-- ===== src/LruTimedCache.antt =====
-- src/main/cpp/include/ezbake/common/lrucache/LRUTimedCache.h: CacheValue, and the class
-- LRUTimedCache over an LRUCache of such values. Time is the number of microseconds since the
-- epoch; a method that reads the clock takes the reading, and `getKey`, which reads it in a loop,
-- takes all of them. A date is a signed 64-bit number of microseconds, which wraps around.
pub mod Order
pub mod Expiry
pub mod Reads
pub mod Removal
pub mod Scan
pub mod Keys
pub mod Matching
pub mod Sections
pub mod Readers
pub mod Traced
pub mod Run
pub mod Origin
pub mod Sets
pub mod Spec
pub mod Live
pub mod Listed
pub mod Handled
pub mod Observed
pub mod Retention
pub mod Interleaved
use ezbake_common.Bimap.{Bimap}
use ezbake_common.Common.{
  ℕ, zero, suc, ◌+◌, ◌-◌, ◌*◌, ◌/◌, ◌%◌, ◌^◌, ◌≡◌, ap, ite, not, ◌&&◌, ◌||◌, Bool, true, false,
  List, [], ◌∷◌, map, Option, none, some, Outcome, ok, undefined, ◌>>=◌, length, get_elem?, ltb,
  leb, ◌==◌, if◌then◌else◌, test, ℕ_discrete,
}
use ezbake_common.LruCache
use ezbake_common.LruCache.{LruCache}
use ezbake_common.StdSet

pub record CacheValue {ℓ} (V : Type ℓ) : Type ℓ where
  pub timestamp : ℕ
  pub value : V

abbrev pub microseconds : ℕ
microseconds = 1_000_000

-- The constructor takes the time in whole seconds.
unfoldable pub stamp {ℓ} : {V : Type ℓ} → ℕ → V → CacheValue V
stamp now v = record { timestamp = now / microseconds; value = v }

module _ {ℓ} {V : Type ℓ} where
  -- CacheValue::operator==
  unfoldable pub cache_value_discrete : Discrete V → Discrete (CacheValue V)
  unfolding ℕ_discrete
  cache_value_discrete dv a b = elim (ℕ_discrete a.timestamp b.timestamp) [
    | yes p ↦ elim (dv a.value b.value) [
      | yes q ↦ yes (λ i. record { timestamp = p i; value = q i })
      | no n ↦ no (λ r. n (ap (λ (x : CacheValue V). x.value) r))
    ]
    | no n ↦ no (λ r. n (ap (λ (x : CacheValue V). x.timestamp) r))
  ]

  -- CacheValue::operator<
  unfoldable pub cache_value_less : Discrete V → (V → V → Bool) → CacheValue V → CacheValue V → Bool
  cache_value_less dv less a b =
      ite (dv a.value b.value) (ltb a.timestamp b.timestamp) (less a.value b.value)

-- operator< of std::pair
unfoldable pub pair_less {ℓ κ} :
    {A : Type ℓ} {B : Type κ} → (A → A → Bool) → (B → B → Bool) → A × B → A × B → Bool
pair_less less_a less_b x y = less_a x.0 y.0 || (not (less_a y.0 x.0) && less_b x.1 y.1)

pub record LruTimedCache {ℓ} {K V : Type ℓ} {dk : Discrete K} (B : Bimap (CacheValue V) dk)
    : Type ℓ where
  pub base : LruCache B
  pub expiration : ℕ

abbrev pub default_max_capacity : ℕ
default_max_capacity = 1000

abbrev pub default_cache_expiration : ℕ
default_cache_expiration = 43200

-- A posix_time::ptime counts microseconds from day 0 of the Julian day numbers, of which the epoch is
-- day 2440588, in a signed 64-bit integer.
abbrev pub epoch_ticks : ℕ
epoch_ticks = 2440588 * 86400 * microseconds

-- The ptime of a number of microseconds since the epoch, which wraps around, plus 2^63, so that the
-- order of the sums is that of the signed numbers.
unfoldable pub ticks : ℕ → ℕ
ticks x = (x + epoch_ticks + 2 ^ 63) % 2 ^ 64

-- The first number of microseconds since the epoch that a ptime cannot hold.
abbrev pub end_of_dates : ℕ
end_of_dates = 2 ^ 63 - epoch_ticks

-- `expired`, at a reading of the clock. `seconds(_expiration)` takes a signed 64-bit number of
-- seconds, so that an `_expiration` of 2^63 and more is negative: modulo 2^64 the conversion, the
-- product with the microseconds and the sum are one wrap-around. The three values of a ptime that
-- stand for infinities and for no date are dates here.
unfoldable pub expired : ℕ → ℕ → ℕ → Bool
unfolding ticks
expired expiration now timestamp =
    if expiration == 0
    then false
    else leb (ticks ((timestamp + expiration) * microseconds)) (ticks now)

-- The value that `pop` returns for what it took out.
unfoldable pub unexpired {ℓ} : {V : Type ℓ} → ℕ → ℕ → Option (CacheValue V) → Option V
unfolding expired
unexpired expiration now none = none
unexpired expiration now (some cv) =
    if not (expired expiration now cv.timestamp) then some cv.value else none

module _ {ℓ} {K V : Type ℓ} {dk : Discrete K} (dv : Discrete V) (B : Bimap (CacheValue V) dk) where
  abbrev pub dc : Discrete (CacheValue V)
  dc = cache_value_discrete dv

  unfoldable pub init : ℕ → ℕ → LruTimedCache B
  init capacity expiration = record { base = LruCache.init dc B capacity; expiration = expiration }

  unfoldable pub put : LruTimedCache B → ℕ → K → V → Outcome (LruTimedCache B)
  unfolding stamp
  put c now k v = do base ← LruCache.put dc B c.base k (stamp now v); ok (record c { base = base })

  -- What `get` does with the value that it found.
  unfoldable pub get_found :
      LruTimedCache B → ℕ → K → Option (CacheValue V) → Outcome (LruTimedCache B × Option V)
  unfolding expired
  get_found c now k none = ok (c, none)
  get_found c now k (some cv) = elim (expired c.expiration now cv.timestamp) [
    | true ↦ do
      (base, _) ← LruCache.remove_value dc B c.base k cv
      ok (record c { base = base }, none)
    | false ↦ ok (c, some cv.value)
  ]

  unfoldable pub get : LruTimedCache B → ℕ → K → Outcome (LruTimedCache B × Option V)
  unfolding get_found
  get c now k = do
    (base, found) ← LruCache.get dc B c.base k
    get_found (record c { base = base }) now k found

  unfoldable pub pop : LruTimedCache B → ℕ → K → Outcome (LruTimedCache B × Option V)
  unfolding unexpired
  pop c now k = do
    (base, found) ← LruCache.pop dc B c.base k
    ok (record c { base = base }, unexpired c.expiration now found)

  -- The loops `BOOST_FOREACH(entry, entries) TimedCacheType::remove(entry.first, entry.second)`.
  unfoldable pub remove_all : LruCache B → List (K × CacheValue V) → Outcome (LruCache B)
  remove_all base [] = ok base
  remove_all base (e ∷ entries) = do
    (base', _) ← LruCache.remove_value dc B base e.0 e.1
    remove_all base' entries

  module _ (less : K × CacheValue V → K × CacheValue V → Bool) where
    -- The loop of `getKey` over the list view: the key that it finds, and `expiredEntries`.
    -- `clock i` is the i-th reading.
    unfoldable pub get_key_scan :
        ℕ
        → (ℕ → ℕ)
        → ℕ
        → V
        → List (K × CacheValue V)
        → List (K × CacheValue V)
        → Option K × List (K × CacheValue V)
    unfolding StdSet.insert
    get_key_scan expiration clock i v [] set = (none, set)
    get_key_scan expiration clock i v (e ∷ l) set = elim (test (dv e.1.value v)) [
      | false ↦ get_key_scan expiration clock i v l set
      | true ↦ elim (expired expiration (clock i) e.1.timestamp) [
        | true ↦ get_key_scan expiration clock (suc i) v l (StdSet.insert less e set)
        | false ↦ (some e.0, set)
      ]
    ]

    unfoldable pub get_key : LruTimedCache B → (ℕ → ℕ) → V → Outcome (LruTimedCache B × Option K)
    unfolding get_key_scan remove_all
    get_key c clock v =
        let (key, set) = get_key_scan c.expiration clock 0 v (B.right c.base.store) [] in
        do base ← remove_all c.base set; ok (record c { base = base }, key)

    unfoldable pub contains_value : LruTimedCache B → (ℕ → ℕ) → V → Outcome (LruTimedCache B × Bool)
    unfolding get_key
    contains_value c clock v = do
      (c', key) ← get_key c clock v
      ok (c', elim key [ none ↦ false | some _ ↦ true ])

    -- The loop of `remove(key, value)` over the range of the key.
    unfoldable pub matching :
        B.Store → V → List ℕ → List (K × CacheValue V) → Outcome (List (K × CacheValue V))
    unfolding StdSet.insert
    matching s v [] set = ok set
    matching s v (itr ∷ range) set = do
      e ← LruCache.deref dc B s (some itr)
      matching s v range (ite (dv e.1.value v) (StdSet.insert less e set) set)

    unfoldable pub remove_value :
        LruTimedCache B → K → V → Outcome (LruTimedCache B × List (CacheValue V))
    unfolding matching remove_all
    remove_value c k v = do
      set ← matching c.base.store v (B.equal_range c.base.store k) []
      base ← remove_all c.base set
      ok (record c { base = base }, map (λ e. e.1) set)

  unfoldable pub remove_key : LruTimedCache B → K → Outcome (LruTimedCache B × List (CacheValue V))
  remove_key c k = do
    (base, removed) ← LruCache.remove_key dc B c.base k
    ok (record c { base = base }, removed)

  -- The values of a std::set of cache values, and the pairs of one of entries, without timestamps.
  unfoldable pub value_set :
      (CacheValue V → CacheValue V → Bool) → (V → V → Bool) → LruTimedCache B → K → Outcome (List V)
  unfolding StdSet.insert_all
  value_set less_c less_v c k = do
    set ← LruCache.value_set dc B less_c c.base k
    ok (StdSet.insert_all less_v (map (λ cv. cv.value) set) [])

  unfoldable pub entry_set :
      (K × CacheValue V → K × CacheValue V → Bool)
      → (K × V → K × V → Bool)
      → LruTimedCache B
      → List (K × V)
  unfolding StdSet.insert_all
  entry_set less_c less_e c =
      StdSet.insert_all less_e (map (λ e. (e.0, e.1.value)) (LruCache.entry_set dc B less_c c.base))
        []
