-- ===== src/Engine/Policy.antt =====
-- `PolicyEngine` of src/engine/policy.ts: the store of policies, a Map in insertion order. Files are
-- read and validated by the environment, so `reload` starts from the policies that were loaded.
pub mod Laws
use caas_lite.Prelude.{
  String, Bool, true, false, not, ◌&&◌, ◌||◌, Option, none, some, List, [], ◌∷◌, if◌then◌else◌,
  str_eq, filter, any,
}
use caas_lite.Engine.Domain.{PolicyTemplate}

abbrev pub Store : Type 0
Store = List PolicyTemplate

-- `Map.set` under the policy's id: an id that is there keeps its place.
unfoldable pub put : PolicyTemplate → Store → Store
put p [] = p ∷ []
put p (q ∷ s) = if str_eq q.id p.id then p ∷ s else q ∷ put p s

-- The loop of `reload`, on a store that was cleared; policies that are not enabled are skipped.
unfoldable pub load : List PolicyTemplate → Store → Store
load [] s = s
load (p ∷ ps) s = load ps (if p.enabled then put p s else s)

unfoldable pub reload : List PolicyTemplate → Store
reload loaded = load loaded []

-- `Array.includes` on texts.
unfoldable pub has : List String → String → Bool
has xs x = any (str_eq x) xs

abbrev pub in_environment : Option (List String) → String → Bool
in_environment none environment = true
in_environment (some []) environment = true
in_environment (some (e ∷ es)) environment = has (e ∷ es) environment

unfoldable pub is_applicable : String → String → PolicyTemplate → Bool
is_applicable type environment p =
    p.enabled && has p.applies_to type && in_environment p.environments environment

unfoldable pub get_applicable_policies : String → String → Store → List PolicyTemplate
get_applicable_policies type environment s = filter (is_applicable type environment) s

unfoldable pub get_policy : String → Store → Option PolicyTemplate
get_policy id [] = none
get_policy id (p ∷ s) = if str_eq p.id id then some p else get_policy id s

pub record PolicyFilter : Type 0 where
  pub framework : Option String
  pub event_type : Option String
  pub environment : Option String
  pub enabled_only : Bool

-- A filter that is absent or the empty text keeps everything.
abbrev pub filter_by : Option String → (String → PolicyTemplate → Bool) → Store → Store
filter_by none test s = s
filter_by (some x) test s = if str_eq x "" then s else filter (test x) s

unfoldable pub list_policies : PolicyFilter → Store → List PolicyTemplate
list_policies f s =
    let a = filter_by f.framework (λ x p. str_eq p.framework x) s in
    let b = filter_by f.event_type (λ x p. has p.applies_to x) a in
    let c = filter_by f.environment (λ x p. in_environment p.environments x) b in
    if f.enabled_only then filter (λ (p : PolicyTemplate). p.enabled) c else c
