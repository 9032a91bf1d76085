-- ===== src/Events/Taxonomy.antt =====
-- api/app/services/event_taxonomy.py, and how the hooks of event_emission.py stand to it.
use hcp.Prelude.{ℕ, ◌≡◌, refl, String, Bool, true, ◌||◌, List, [], ◌∷◌, any, str_eq}
use hcp.Prelude.{if◌then◌else◌}
use hcp.Action.{Result, ok, err, unknown_event_type}
use hcp.Json.{Json}
use hcp.Events.{
  Runtime, Event, commit_created, merge_created, conflict_detected, presence_heartbeat,
  presence_joined, presence_left, soft_lock_acquired, soft_lock_released, cross_domain_alert,
  crdt_operation, crdt_operation_dedupe_key,
}
use Prim.Native.String.{◌++◌}
use text.Mathlib.TextLemmas.{append_assoc}

abbrev core_event_types : List String
core_event_types =
    "commit_created" ∷ "merge_created" ∷ "conflict_detected" ∷ "version_created"
    ∷ "lifecycle_transition" ∷ "parse_complete" ∷ "graph_auto_link_complete"
    ∷ "scene_graph_snapshot_created" ∷ "artifact.branched" ∷ []

abbrev collaboration_event_types : List String
collaboration_event_types =
    "presence_heartbeat" ∷ "presence_joined" ∷ "presence_left" ∷ "soft_lock_acquired"
    ∷ "soft_lock_released" ∷ "cross_domain_alert" ∷ "crdt_operation" ∷ []

pub is_known_event_type : String → Bool
is_known_event_type event_type =
    any (λ t. str_eq t event_type) core_event_types
    || any (λ t. str_eq t event_type) collaboration_event_types

abbrev validate_event_type : String → Result (Unit {0})
validate_event_type event_type =
    if is_known_event_type event_type then ok tt else err unknown_event_type

-- One of the ten hooks, with the arguments that it is called with.
pub data Hook : Type 0 where
  commit merge conflict : (id actor : ℕ) (metadata : Json) → Hook
  heartbeat : (session : String) (actor bucket : ℕ) (metadata : Json) → Hook
  joined left acquired alert : (key : String) (actor : ℕ) (metadata : Json) → Hook
  released : (path : String) (lock actor : ℕ) (metadata : Json) → Hook
  crdt : (document operation : String) (actor : ℕ) (metadata : Json) → Hook

module _ (rt : Runtime) (org project : ℕ) where
  pub hook_event : Hook → Event
  hook_event (commit id actor m) = commit_created rt org project id actor m
  hook_event (merge id actor m) = merge_created rt org project id actor m
  hook_event (conflict id actor m) = conflict_detected rt org project id actor m
  hook_event (heartbeat session actor bucket m) =
      presence_heartbeat rt org project session actor bucket m
  hook_event (joined key actor m) = presence_joined rt org project key actor m
  hook_event (left key actor m) = presence_left rt org project key actor m
  hook_event (acquired key actor m) = soft_lock_acquired rt org project key actor m
  hook_event (alert key actor m) = cross_domain_alert rt org project key actor m
  hook_event (released path lock actor m) = soft_lock_released rt org project path lock actor m
  hook_event (crdt document operation actor m) =
      crdt_operation rt org project document operation actor m

-- Every hook publishes an event of a type that the taxonomy knows, for the given organisation and
-- project.
pub hook_event_known :
    (rt : Runtime) (org project : ℕ) (h : Hook)
    → (is_known_event_type (hook_event rt org project h).event_type ≡ true)
      × ((hook_event rt org project h).org_id ≡ org)
      × ((hook_event rt org project h).project_id ≡ project)
unfolding hook_event is_known_event_type commit_created merge_created conflict_detected
    presence_heartbeat presence_joined presence_left soft_lock_acquired soft_lock_released
    cross_domain_alert crdt_operation any
hook_event_known rt org project (commit id actor m) = (refl, refl, refl)
hook_event_known rt org project _ = (refl, refl, refl)

-- Operation `b:c` of document `a` and operation `c` of document `a:b` have one dedupe key.
pub crdt_key_collision :
    (a b c : String)
    → crdt_operation_dedupe_key a (b ++ ":" ++ c) ≡ crdt_operation_dedupe_key (a ++ ":" ++ b) c
unfolding crdt_operation_dedupe_key
crdt_key_collision a b c = simp append_assoc
