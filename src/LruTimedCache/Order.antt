-- ===== src/LruTimedCache/Order.antt =====
-- operator< of CacheValue and of std::pair, by which the sets of LRUTimedCache.h are ordered.
use ezbake_common.Common.{◌≡◌, refl, if_pos, Bool, true, arith}
use ezbake_common.LruTimedCache.{CacheValue, cache_value_less, pair_less}
use ezbake_common.StdSet.Laws.{IsOrder}

module _ {ℓ} {V : Type ℓ} (dv : Discrete V) (less : V → V → Bool) (o : IsOrder less) where
  cache_value_less-transitive :
      (a b c : CacheValue V)
      → cache_value_less dv less a b ≡ true
      → cache_value_less dv less b c ≡ true
      → cache_value_less dv less a c ≡ true
  unfolding cache_value_less
  cache_value_less-transitive a b c h g = ground (
    arith,
    o.transitive a.value b.value c.value,
    o.irreflexive a.value,
    o.transitive b.value a.value b.value,
    o.irreflexive b.value,
    o.irreflexive c.value,
  )

  -- CacheValue::operator< is a strict total order where operator< of the values is one.
  pub cache_value_less-IsOrder : IsOrder (cache_value_less dv less)
  unfolding cache_value_less
  cache_value_less-IsOrder = record {
    irreflexive = λ a. rw (if_pos (dv a.value a.value) refl) (ground arith);
    transitive = cache_value_less-transitive;
    connected = λ a b h g. ground (arith, o.connected a.value b.value);
  }

module _ {ℓ κ} {A : Type ℓ} {B : Type κ} (less_a : A → A → Bool) (less_b : B → B → Bool)
    (oa : IsOrder less_a) (ob : IsOrder less_b) where
  -- operator< of std::pair is a strict total order where those of its parts are.
  pub pair_less-IsOrder : IsOrder (pair_less less_a less_b)
  unfolding pair_less
  pair_less-IsOrder = record {
    irreflexive = λ x. ground (arith, oa.irreflexive x.0, ob.irreflexive x.1);
    transitive = λ x y z h g. ground (
      arith,
      oa.transitive x.0 y.0 z.0,
      oa.transitive y.0 z.0 x.0,
      oa.transitive z.0 x.0 y.0,
      oa.connected x.0 y.0,
      oa.connected y.0 z.0,
      oa.irreflexive x.0,
      oa.irreflexive y.0,
      ob.transitive x.1 y.1 z.1,
    );
    connected = λ x y h g. ground (arith, oa.connected x.0 y.0, ob.connected x.1 y.1);
  }
