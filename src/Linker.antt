-- ===== src/Linker.antt =====
-- graph/linker.py: the graph of a parsed version. The queries' MERGE and MATCH act on a graph that
-- has a list of nodes for each label and a list of edges for each type.
pub mod Parts
pub mod Twice
pub mod Again
use hcp.Prelude.{
  ℕ, suc, ◌+◌, String, Bool, true, false, not, ◌&&◌, Option, none, some, List, [], ◌∷◌, ◌++◌, any,
  update_where, length, str_eq, if◌then◌else◌,
}
use hcp.Text.{strip}

pub record PartRef : Type 0 where
  pub mpn : String
  pub manufacturer : String
  pub lifecycle : Option String

pub record LinkContext : Type 0 where
  pub org_id : String
  pub org_name : String
  pub project_id : String
  pub project_name : String
  pub object_id : String
  pub object_name : String
  pub object_type : String
  pub version_id : String
  pub version_num : ℕ
  pub lifecycle_state : String
  pub previous_version_id : Option String

-- What a component or a row of a bill of materials says of its part.
pub record PartSource : Type 0 where
  pub mpn : Option String
  pub manufacturer : Option String

pub record Parsed : Type 0 where
  pub components : List PartSource
  pub bom_rows : List PartSource

-- text or d
or_text : String → String → String
or_text s d = if str_eq s "" then d else s

opt_text : Option String → String → String
unfolding or_text
opt_text none d = d
opt_text (some s) d = or_text s d

unfoldable pub mpn_of : PartSource → String
unfolding opt_text
mpn_of source = strip (opt_text source.mpn "")

unfoldable pub manufacturer_of : PartSource → String
unfolding opt_text or_text
manufacturer_of source = or_text (strip (opt_text source.manufacturer "Unknown")) "Unknown"

unfoldable pub part_ref : PartSource → PartRef
part_ref source = record {
  mpn = mpn_of source;
  manufacturer = manufacturer_of source;
  lifecycle = none;
}

-- equal keys
unfoldable pub same_part : PartRef → PartRef → Bool
same_part p q = str_eq p.mpn q.mpn && str_eq p.manufacturer q.manufacturer

-- One of the two loops. The keys that it has seen are those of `parts`.
unfoldable pub collect : List PartSource → List PartRef → List PartRef
collect [] parts = parts
collect (source ∷ sources) parts =
    let part = part_ref source in
    collect sources (
      if str_eq (mpn_of source) ""
      then parts
      else if any (same_part part) parts
      then parts
      else parts ++ (part ∷ []))

unfoldable pub extract_parts : Parsed → List PartRef
extract_parts parsed = collect parsed.bom_rows (collect parsed.components [])

pub record OrgNode : Type 0 where
  pub org_id : String
  pub name : String

pub record ProjectNode : Type 0 where
  pub project_id : String
  pub org_id : String
  pub name : String

pub record ObjectNode : Type 0 where
  pub object_id : String
  pub org_id : String
  pub name : String
  pub type : String

pub record VersionNode : Type 0 where
  pub version_id : String
  pub org_id : String
  pub object_id : String
  pub version_num : ℕ
  pub state : String

pub record Graph : Type 0 where
  pub orgs : List OrgNode
  pub projects : List ProjectNode
  pub objects : List ObjectNode
  pub versions : List VersionNode
  pub parts : List PartRef
  pub contains : List (String × String)
  pub has_version : List (String × String)
  pub supersedes : List (String × String)
  pub uses : List (String × PartRef)

-- MERGE of a node: ON MATCH for each that is there, ON CREATE if none is.
unfoldable pub merge_node : {N : Type 0} → (N → Bool) → (N → N) → N → List N → List N
merge_node matches on_match created nodes =
    if any matches nodes then update_where matches on_match nodes else nodes ++ (created ∷ [])

unfoldable pub same_edge : String × String → String × String → Bool
same_edge (a, b) (c, d) = str_eq a c && str_eq b d

-- MERGE of an edge between nodes that are there
unfoldable pub merge_edge : {E : Type 0} → (E → E → Bool) → E → List E → List E
merge_edge same e edges = if any (same e) edges then edges else edges ++ (e ∷ [])

abbrev keep : {N : Type 0} → N → N
keep n = n

unfoldable pub is_org : LinkContext → OrgNode → Bool
is_org ctx o = str_eq o.org_id ctx.org_id

unfoldable pub is_project : LinkContext → ProjectNode → Bool
is_project ctx p = str_eq p.project_id ctx.project_id

unfoldable pub is_object : LinkContext → ObjectNode → Bool
is_object ctx h = str_eq h.object_id ctx.object_id

unfoldable pub is_version : LinkContext → VersionNode → Bool
is_version ctx v = str_eq v.version_id ctx.version_id

unfoldable pub object_seen : LinkContext → ObjectNode → ObjectNode
object_seen ctx h = record h { name = ctx.object_name; type = ctx.object_type }

unfoldable pub version_seen : LinkContext → VersionNode → VersionNode
version_seen ctx v = record v { version_num = ctx.version_num; state = ctx.lifecycle_state }

unfoldable pub ensure_scaffold : LinkContext → Graph → Graph
unfolding same_edge
ensure_scaffold ctx g = record g {
  orgs = merge_node (is_org ctx) keep (record { org_id = ctx.org_id; name = ctx.org_name }) g.orgs;
  projects =
      merge_node (is_project ctx) keep
        (record { project_id = ctx.project_id; org_id = ctx.org_id; name = ctx.project_name })
        g.projects;
  objects =
      merge_node (is_object ctx) (object_seen ctx)
        (record {
          object_id = ctx.object_id;
          org_id = ctx.org_id;
          name = ctx.object_name;
          type = ctx.object_type;
        })
        g.objects;
  versions =
      merge_node (is_version ctx) (version_seen ctx)
        (record {
          version_id = ctx.version_id;
          org_id = ctx.org_id;
          object_id = ctx.object_id;
          version_num = ctx.version_num;
          state = ctx.lifecycle_state;
        })
        g.versions;
  contains = merge_edge same_edge (ctx.project_id, ctx.object_id) g.contains;
}

-- MATCH (v:Version {version_id: …}) WHERE v.org_id = …
unfoldable pub has_version_node : String → String → List VersionNode → Bool
has_version_node version_id org_id versions =
    any (λ (v : VersionNode). str_eq v.version_id version_id && str_eq v.org_id org_id) versions

unfoldable pub has_object_node : String → String → List ObjectNode → Bool
has_object_node object_id org_id objects =
    any (λ (h : ObjectNode). str_eq h.object_id object_id && str_eq h.org_id org_id) objects

unfoldable pub same_use : String × PartRef → String × PartRef → Bool
same_use (v, p) (w, q) = str_eq v w && same_part p q

unfoldable pub link_part : LinkContext → PartRef → Graph → Graph
link_part ctx part g =
    if has_version_node ctx.version_id ctx.org_id g.versions
    then record g {
      parts = merge_node (same_part part) keep part g.parts;
      uses = merge_edge same_use (ctx.version_id, part) g.uses;
    }
    else g

-- the graph, and the number of parts
unfoldable pub link_parts : LinkContext → List PartRef → Graph → ℕ × Graph
link_parts ctx [] g = (0, g)
link_parts ctx (part ∷ parts) g =
    let (count, linked) = link_parts ctx parts (link_part ctx part g) in (suc count, linked)

unfoldable pub link_previous : LinkContext → Graph → Graph
link_previous ctx g = elim ctx.previous_version_id [
  | none ↦ g
  | some prev ↦
      if not (str_eq prev "")
        && (has_version_node ctx.version_id ctx.org_id g.versions
            && has_version_node prev ctx.org_id g.versions)
      then record g { supersedes = merge_edge same_edge (ctx.version_id, prev) g.supersedes }
      else g
]

link_object : LinkContext → Graph → Graph
link_object ctx g =
    if has_object_node ctx.object_id ctx.org_id g.objects
      && has_version_node ctx.version_id ctx.org_id g.versions
    then record g {
      has_version = merge_edge same_edge (ctx.object_id, ctx.version_id) g.has_version;
    }
    else g

unfoldable pub link_version_edges : LinkContext → Graph → Graph
unfolding link_previous link_object
link_version_edges ctx g = link_previous ctx (link_object ctx g)

unfoldable pub run_auto_link : LinkContext → Parsed → Graph → ℕ × Graph
run_auto_link ctx parsed g =
    let (uses_count, linked) = link_parts ctx (extract_parts parsed) (ensure_scaffold ctx g) in
    (uses_count, link_version_edges ctx linked)
