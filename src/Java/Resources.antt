-- ===== src/Java/Resources.antt =====
-- src/main/java/ezbake/common/io/ClasspathResources.java. What the class loaders find under a name
-- is a parameter.
use ezbake_common.Common.{◌==◌, Option, none, some, length, if◌then◌else◌}
use ezbake_common.Java.{Chars}

-- Guava's `Resources.getResource`, which throws where this is `none`, and `getResource` of
-- java.lang.Class and of ClasspathResources.
pub record ClassPath {ℓ} (A : Type ℓ) : Type ℓ where
  pub context : Chars → Option A
  pub runtime : Chars → Option A
  pub own : Chars → Option A

-- `retVal` after the try block, and after the assignment behind it.
unfoldable pub get_resource {ℓ} : {A : Type ℓ} → ClassPath A → Option Chars → Option A
get_resource path none = none
get_resource path (some resource) =
    if length resource == 0
    then none
    else (let ret_val = path.context resource in
        let ret_val = path.runtime resource in
        elim ret_val [ none ↦ path.own resource | some url ↦ some url ])
