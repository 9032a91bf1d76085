-- ===== src/GraphLinks.antt =====
-- GraphService of api/app/services/graph.py: the links that it keeps in memory where Neo4j does not
-- answer.
pub mod Fallback
use hcp.Prelude.{
  String, Bool, true, false, ◌&&◌, ◌||◌, not, Option, none, some, List, [], ◌∷◌, str_eq, any,
  if◌then◌else◌,
}
use hcp.Json.{Fields, end}
use hcp.Json.Dict.{Dict, lookup, insert}

-- What a method answers: a value, a ValueError by its text, a KeyError, or a Neo4jError.
pub data Answer (A : Type 0) : Type 0 where
  answer : A → Answer A
  refused : String → Answer A
  key_error : Answer A
  neo4j_error : Answer A

pub record Link : Type 0 where
  pub relationship_id : String
  pub org_id : String
  pub from_id : String
  pub to_id : String
  pub relationship_type : String
  pub metadata : Fields

-- A dict with the keys from_object_id and to_object_id, or from_version_id and to_version_id.
pub data Stored : Type 0 where
  of_objects : Link → Stored
  of_versions : Link → Stored

-- The links of each organization by their identifiers.
abbrev pub Links : Type 0
Links = Dict (Dict Stored)

-- An organization without links has the empty dict, in the table or not.
unfoldable pub org_links : String → Links → Dict Stored
org_links org links = elim (lookup org links) [ none ↦ [] | some kept ↦ kept ]

unfoldable pub put_link : String → String → Stored → Links → Links
unfolding org_links
put_link org rel_id link links = insert org (insert rel_id link (org_links org links)) links

pub data Direction : Type 0 where
  out_of : Direction
  into : Direction
  both : Direction

unfoldable pub touches : Direction → String → Link → Bool
touches out_of oid link = str_eq link.from_id oid
touches into oid link = str_eq link.to_id oid
touches both oid link = str_eq link.from_id oid || str_eq link.to_id oid

abbrev pub with_edge : Bool → Link → Answer (List Link) → Answer (List Link)
with_edge true link (answer edges) = answer (link ∷ edges)
with_edge _ link edges = edges

-- A link between versions has no from_object_id.
unfoldable pub edges_among : Direction → String → Dict Stored → Answer (List Link)
edges_among direction oid [] = answer []
edges_among direction oid ((_, of_versions _) ∷ rest) = key_error
edges_among direction oid ((_, of_objects link) ∷ rest) =
    with_edge (touches direction oid link) link (edges_among direction oid rest)

unfoldable pub edges_for : String → String → Direction → Links → Answer (List Link)
edges_for org oid direction links = edges_among direction oid (org_links org links)

abbrev pub object_rel_types : List String
object_rel_types =
    "USES" ∷ "CONTAINS" ∷ "TARGETS" ∷ "VALIDATES" ∷ "SATISFIES" ∷ "SOURCED_FROM" ∷ "REPRESENTS" ∷ []

abbrev pub allowed_labels : List String
allowed_labels =
    "HardwareObject" ∷ "Version" ∷ "Part" ∷ "Requirement" ∷ "Firmware" ∷ "Supplier" ∷ "Project" ∷ []

unfoldable pub among : String → List String → Bool
among s texts = any (λ (t : String). str_eq t s) texts

-- What is used of Neo4jGraphClient. Creating a link answers its identifier, or fails with a
-- ValueError or a Neo4jError; of a deletion, `none` is a Neo4jError.
pub record Neo4j (N : Type 0) : Type 0 where
  pub available : N → Bool
  pub create_object_link : String → String → String → String → Option Fields → N → Answer String × N
  pub create_derived_from : String → String → String → N → Answer String × N
  pub delete_relationship : String → String → N → Option Bool × N

unfoldable pub new_link : String → String → String → String → String → Option Fields → Link
new_link rel_id org from to rel_type metadata = record {
  relationship_id = rel_id;
  org_id = org;
  from_id = from;
  to_id = to;
  relationship_type = rel_type;
  metadata = elim metadata [ none ↦ end | some given ↦ given ];
}

-- del links[rel_id]
remove_link : String → Dict Stored → Dict Stored
remove_link rel_id [] = []
remove_link rel_id ((id, link) ∷ rest) =
    let kept = (id, link) ∷ remove_link rel_id rest in if str_eq id rel_id then rest else kept

module _ {N : Type 0} (neo4j : Neo4j N) where
  -- `rel_id` is what uuid.uuid4 gives.
  keep_objects :
      String
      → String
      → String
      → String
      → String
      → Option Fields
      → Links × N
      → Answer Link × (Links × N)
  unfolding new_link
  keep_objects rel_id org from to rel_type metadata (links, n) =
      let link = new_link rel_id org from to rel_type metadata in
      (answer link, (put_link org rel_id (of_objects link) links, n))

  unfoldable pub create_link :
      String
      → String
      → String
      → String
      → String
      → Option Fields
      → Links × N
      → Answer Link × (Links × N)
  unfolding new_link keep_objects
  create_link rel_id org from to rel_type metadata (links, n) =
      let (made, after) = neo4j.create_object_link org from to rel_type metadata n in
      if not (among rel_type object_rel_types)
      then (refused "invalid_relationship_type", (links, n))
      else if neo4j.available n
      then elim made [
        | answer id ↦ (answer (new_link id org from to rel_type metadata), (links, after))
        | refused e ↦ (refused e, (links, after))
        | key_error ↦ (key_error, (links, after))
        | neo4j_error ↦ keep_objects rel_id org from to rel_type metadata (links, after)
      ]
      else keep_objects rel_id org from to rel_type metadata (links, n)

  unfoldable pub create_manual_link :
      String
      → String
      → String
      → String × String
      → String × String
      → Option Fields
      → Links × N
      → Answer String × (Links × N)
  unfolding keep_objects
  create_manual_link rel_id org rel_type (from, from_label) (to, to_label) metadata (links, n) =
      let (made, after) = neo4j.create_object_link org from to rel_type metadata n in
      if not (among from_label allowed_labels && among to_label allowed_labels)
      then (refused "invalid_label", (links, n))
      else if not (among rel_type object_rel_types)
      then (refused "invalid_relationship_type", (links, n))
      else if (str_eq from_label "HardwareObject" && str_eq to_label "Part")
          && not (str_eq rel_type "USES")
      then (refused "invalid_relationship_type", (links, n))
      else if neo4j.available n
      then (made, (links, after))
      else (answer rel_id, (keep_objects rel_id org from to rel_type metadata (links, n)).1)

  keep_versions :
      String → String → String → String → Option Fields → Links × N → Answer Link × (Links × N)
  unfolding new_link
  keep_versions rel_id org from to metadata (links, n) =
      let link = new_link rel_id org from to "DERIVED_FROM" metadata in
      (answer link, (put_link org rel_id (of_versions link) links, n))

  unfoldable pub create_derived_from_link :
      String → String → String → String → Option Fields → Links × N → Answer Link × (Links × N)
  unfolding new_link keep_versions
  create_derived_from_link rel_id org from to metadata (links, n) =
      let (made, after) = neo4j.create_derived_from org from to n in
      if neo4j.available n
      then elim made [
        | answer id ↦ (answer (new_link id org from to "DERIVED_FROM" metadata), (links, after))
        | refused e ↦ (refused e, (links, after))
        | key_error ↦ (key_error, (links, after))
        | neo4j_error ↦ keep_versions rel_id org from to metadata (links, after)
      ]
      else keep_versions rel_id org from to metadata (links, n)

  forget : String → String → Links × N → Bool × (Links × N)
  unfolding remove_link
  forget org rel_id (links, n) = elim (lookup rel_id (org_links org links)) [
    | none ↦ (false, (links, n))
    | some _ ↦ (true, (insert org (remove_link rel_id (org_links org links)) links, n))
  ]

  unfoldable pub delete_link : String → String → Links × N → Bool × (Links × N)
  unfolding forget
  delete_link org rel_id (links, n) =
      let (deleted, after) = neo4j.delete_relationship org rel_id n in
      if neo4j.available n
      then elim deleted [
        | some true ↦ (true, (links, after))
        | _ ↦ forget org rel_id (links, after)
      ]
      else forget org rel_id (links, n)
