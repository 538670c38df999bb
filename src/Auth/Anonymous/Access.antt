-- ===== src/Auth/Anonymous/Access.antt =====
-- What anonymous clients may do, in terms of the configured lists of names.
use apm_server.Prelude.{
  String, string_eq, str_eq, str_eq_iff, Bool, true, false, ◌||◌, ◌&&◌, not, List, [], ◌∷◌, ◌≡◌,
  refl, ◌⊎◌, ◌↔◌, is_empty, arith, inl, inr,
}
use apm_server.Prelude.Maps.{lookup, insert}
use apm_server.Auth.Types.{agent_config, event_ingest, sourcemap_upload, Resource, ok}
use apm_server.Auth.Anonymous.{new_anonymous_auth, add_names, flag, authorize_anonymous}

-- The name stands in the list.
pub contains : String → List String → Bool
contains name [] = false
contains name (x ∷ xs) = str_eq x name || contains name xs

-- A list that restricts nothing, or holds the name.
abbrev pub Allows : List String → String → Type 0
Allows names name = (names ≡ []) ⊎ (contains name names ≡ true)

flag-insert :
    (m : List (String × Bool)) (x name : String)
    → flag (insert x true m) name ≡ (str_eq x name || flag m name)
unfolding flag lookup insert
flag-insert [] x name = ground arith
flag-insert ((j, b) ∷ m) x name =
    ground (arith, str_eq_iff j x, str_eq_iff j name, str_eq_iff x name, flag-insert m x name)

flag-add_names :
    (m : List (String × Bool)) (names : List String) (name : String)
    → flag (add_names m names) name ≡ (flag m name || contains name names)
unfolding add_names contains
flag-add_names m [] name = ground arith
flag-add_names m (x ∷ xs) name =
    ground (arith, flag-add_names (insert x true m) xs name, flag-insert m x name)

insert_some : (m : List (String × Bool)) (x : String) → is_empty (insert x true m) ≡ false
unfolding insert
insert_some [] x = refl
insert_some ((j, b) ∷ m) x = ground arith

add_names_some :
    (m : List (String × Bool)) (names : List String)
    → is_empty m ≡ false
    → is_empty (add_names m names) ≡ false
unfolding add_names
add_names_some m [] h = h
add_names_some m (x ∷ xs) h = add_names_some (insert x true m) xs (insert_some m x)

is_empty-add_names : (names : List String) → is_empty (add_names [] names) ≡ is_empty names
unfolding add_names
is_empty-add_names [] = refl
is_empty-add_names (x ∷ xs) = add_names_some (insert x true []) xs (insert_some [] x)

flag_empty : (name : String) → flag [] name ≡ false
unfolding flag lookup
flag_empty name = refl

-- The test of `Authorize` is made on the maps, and comes down to the configured list.
blocked : List (String × Bool) → String → Bool
blocked m name = not (is_empty m) && not (flag m name)

blocked-Allows :
    (names : List String) (name : String)
    → blocked (add_names [] names) name ≡ false
    → Allows names name
unfolding blocked
blocked-Allows [] name h = inl refl
blocked-Allows (x ∷ xs) name h =
    inr (
      ground (arith, is_empty-add_names (x ∷ xs), flag-add_names [] (x ∷ xs) name, flag_empty name))

Allows-blocked :
    (names : List String) (name : String)
    → Allows names name
    → blocked (add_names [] names) name ≡ false
unfolding blocked
Allows-blocked names name (inl e) = ground (arith, is_empty-add_names names)
Allows-blocked names name (inr e) = ground (arith, flag-add_names [] names name, flag_empty name)

-- Anonymous clients may send events exactly for the services and the agents on the configured
-- lists, and read agent configuration exactly for those services, where an empty list allows all;
-- they may never upload a source map.
pub authorize_anonymous_iff :
    (agents services : List String) (resource : Resource)
    → let anonymous = new_anonymous_auth agents services in
      ((authorize_anonymous anonymous event_ingest resource ≡ ok tt)
        ↔ (Allows services resource.service_name × Allows agents resource.agent_name))
      × ((authorize_anonymous anonymous agent_config resource ≡ ok tt)
          ↔ Allows services resource.service_name)
      × ¬ (authorize_anonymous anonymous sourcemap_upload resource ≡ ok tt)
unfolding new_anonymous_auth authorize_anonymous blocked
authorize_anonymous_iff agents services resource = (
  (
    λ h. (
      blocked-Allows services resource.service_name (ground arith),
      blocked-Allows agents resource.agent_name (ground arith),
    ),
    λ h. ground (
      arith,
      Allows-blocked services resource.service_name h.0,
      Allows-blocked agents resource.agent_name h.1,
    ),
  ),
  (
    λ h. blocked-Allows services resource.service_name (ground arith),
    λ h. ground (arith, Allows-blocked services resource.service_name h),
  ),
  λ h. cc,
)
