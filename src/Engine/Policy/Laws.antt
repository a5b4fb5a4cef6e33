-- ===== src/Engine/Policy/Laws.antt =====
-- What a reload leaves in the store, and which policies apply to an event.
use caas_lite.Prelude.{
  ◌≡◌, refl, String, ◌&&◌, Option, none, some, List, [], ◌∷◌, if◌then◌else◌, str_eq, eq_iff, arith,
  ◌∙◌, ap,
}
use caas_lite.Engine.Domain.{PolicyTemplate}
use caas_lite.Engine.Policy.{Store, put, load, reload, get_policy}

-- The last enabled policy of an id, after an earlier one.
pub last_enabled : String → Option PolicyTemplate → List PolicyTemplate → Option PolicyTemplate
last_enabled id before [] = before
last_enabled id before (p ∷ ps) =
    last_enabled id (if p.enabled && str_eq p.id id then some p else before) ps

get_policy-put :
    (id : String) (p : PolicyTemplate) (s : Store)
    → get_policy id (put p s) ≡ (if str_eq p.id id then some p else get_policy id s)
unfolding get_policy put
get_policy-put id p [] = refl
get_policy-put id p (q ∷ s) =
    ground (arith, eq_iff q.id p.id, eq_iff q.id id, eq_iff p.id id, get_policy-put id p s)

get_policy-load :
    (id : String) (ps : List PolicyTemplate) (s : Store)
    → get_policy id (load ps s) ≡ last_enabled id (get_policy id s) ps
unfolding load last_enabled
get_policy-load id [] s = refl
get_policy-load id (p ∷ ps) s =
    let first : get_policy id (if p.enabled then put p s else s)
        ≡ (if p.enabled && str_eq p.id id then some p else get_policy id s) =
      ground (arith, get_policy-put id p s) in
    get_policy-load id ps (if p.enabled then put p s else s) ∙ ap (λ o. last_enabled id o ps) first

-- After a reload an id gives the last policy of that id that was loaded and enabled, and none
-- where there is none.
pub get_policy-reload :
    (id : String) (loaded : List PolicyTemplate)
    → get_policy id (reload loaded) ≡ last_enabled id none loaded
unfolding reload get_policy
get_policy-reload id loaded = get_policy-load id loaded []
