-- ===== src/Linker/Again.antt =====
-- graph/linker.py: linking a version a second time.
use hcp.Prelude.{
  ℕ, String, ◌≡◌, refl, sym, ◌∙◌, ap, Bool, true, false, not, ◌&&◌, Option, none, some, List, [],
  ◌∷◌, arith, length, str_eq, eq_refl, if◌then◌else◌, Bool-cases, inl, inr,
}
use hcp.Linker.{
  PartRef, LinkContext, Parsed, Graph, OrgNode, ProjectNode, ObjectNode, VersionNode, same_part,
  extract_parts, merge_node, merge_edge, same_edge, same_use, is_org, is_project, is_object,
  is_version, object_seen, version_seen, ensure_scaffold, has_version_node, has_object_node,
  link_part, link_parts, link_previous, link_version_edges, run_auto_link,
}
use hcp.Linker.Twice.{
  merge_node_twice, merge_node_keep, merge_edge_twice, merge_all, merge_all_twice,
}

same_part_refl : (p : PartRef) → same_part p p ≡ true
unfolding same_part
same_part_refl p = rw (eq_refl p.mpn, eq_refl p.manufacturer) refl

same_use_refl : (u : String × PartRef) → same_use u u ≡ true
unfolding same_use
same_use_refl (v, p) = rw (eq_refl v, same_part_refl p) refl

same_edge_refl : (e : String × String) → same_edge e e ≡ true
unfolding same_edge
same_edge_refl (a, b) = rw (eq_refl a, eq_refl b) refl

module _ (ctx : LinkContext) where
  new_org : OrgNode
  new_org = record { org_id = ctx.org_id; name = ctx.org_name }

  new_project : ProjectNode
  new_project = record { project_id = ctx.project_id; org_id = ctx.org_id; name = ctx.project_name }

  new_object : ObjectNode
  new_object = record {
    object_id = ctx.object_id;
    org_id = ctx.org_id;
    name = ctx.object_name;
    type = ctx.object_type;
  }

  new_version : VersionNode
  new_version = record {
    version_id = ctx.version_id;
    org_id = ctx.org_id;
    object_id = ctx.object_id;
    version_num = ctx.version_num;
    state = ctx.lifecycle_state;
  }

  abbrev orgs_of : List OrgNode → List OrgNode
  orgs_of orgs = merge_node (is_org ctx) (λ n. n) new_org orgs

  abbrev projects_of : List ProjectNode → List ProjectNode
  projects_of projects = merge_node (is_project ctx) (λ n. n) new_project projects

  abbrev objects_of : List ObjectNode → List ObjectNode
  objects_of objects = merge_node (is_object ctx) (object_seen ctx) new_object objects

  abbrev versions_of : List VersionNode → List VersionNode
  versions_of versions = merge_node (is_version ctx) (version_seen ctx) new_version versions

  orgs_twice : (xs : List OrgNode) → orgs_of (orgs_of xs) ≡ orgs_of xs
  unfolding new_org is_org
  orgs_twice xs =
      merge_node_twice (is_org ctx) (λ n. n) (λ n. refl) (λ n. refl) new_org xs (eq_refl ctx.org_id)
        refl

  projects_twice : (xs : List ProjectNode) → projects_of (projects_of xs) ≡ projects_of xs
  unfolding new_project is_project
  projects_twice xs =
      merge_node_twice (is_project ctx) (λ n. n) (λ n. refl) (λ n. refl) new_project xs
        (eq_refl ctx.project_id) refl

  objects_twice : (xs : List ObjectNode) → objects_of (objects_of xs) ≡ objects_of xs
  unfolding new_object is_object object_seen
  objects_twice xs =
      merge_node_twice (is_object ctx) (object_seen ctx) (λ n. refl) (λ n. refl) new_object xs
        (eq_refl ctx.object_id) refl

  versions_twice : (xs : List VersionNode) → versions_of (versions_of xs) ≡ versions_of xs
  unfolding new_version is_version version_seen
  versions_twice xs =
      merge_node_twice (is_version ctx) (version_seen ctx) (λ n. refl) (λ n. refl) new_version xs
        (eq_refl ctx.version_id) refl

-- a list that grows only under a condition
abbrev when_ : {E : Type 0} → Bool → (List E → List E) → List E → List E
when_ b f xs = if b then f xs else xs

when_twice :
    {E : Type 0} (b : Bool) (f : List E → List E) (xs : List E)
    → f (f xs) ≡ f xs
    → when_ b f (when_ b f xs) ≡ when_ b f xs
when_twice true f xs h = h
when_twice false f xs h = refl

abbrev pair_with : String → List PartRef → List (String × PartRef)
pair_with v [] = []
pair_with v (p ∷ ps) = (v, p) ∷ pair_with v ps

-- The queries for the parts, as one step.
link_parts_form :
    (ctx : LinkContext) (ps : List PartRef) (g : Graph)
    → link_parts ctx ps g ≡ (
      length ps,
      let b = has_version_node ctx.version_id ctx.org_id g.versions in
          record g {
            parts = when_ b (merge_all same_part same_part_refl ps) g.parts;
            uses = when_ b (merge_all same_use same_use_refl (pair_with ctx.version_id ps)) g.uses;
          },
    )
unfolding link_parts link_part
link_parts_form ctx [] g =
    elim (Bool-cases (has_version_node ctx.version_id ctx.org_id g.versions)) [
      | inl e ↦ rw e refl
      | inr e ↦ rw e refl
    ]
link_parts_form ctx (p ∷ ps) g =
    elim (Bool-cases (has_version_node ctx.version_id ctx.org_id g.versions)) [
      | inl e ↦ rw (e, link_parts_form ctx ps, e, merge_node_keep same_part p g.parts) refl
      | inr e ↦ rw (e, link_parts_form ctx ps, e) refl
    ]

abbrev previous_of :
    LinkContext → List VersionNode → List (String × String) → List (String × String)
previous_of ctx versions xs = elim ctx.previous_version_id [
  | none ↦ xs
  | some prev ↦
      when_
        (not (str_eq prev "")
          && (has_version_node ctx.version_id ctx.org_id versions
              && has_version_node prev ctx.org_id versions))
        (merge_edge same_edge (ctx.version_id, prev)) xs
]

previous_twice :
    (ctx : LinkContext) (versions : List VersionNode) (xs : List (String × String))
    → previous_of ctx versions (previous_of ctx versions xs) ≡ previous_of ctx versions xs
previous_twice ctx versions xs = go ctx.previous_version_id
  where
    when_there :
        (prev : String) (b : Bool)
        → when_ b
            (merge_edge same_edge (ctx.version_id, prev))
            (when_ b (merge_edge same_edge (ctx.version_id, prev)) xs)
          ≡ when_ b (merge_edge same_edge (ctx.version_id, prev)) xs
    when_there prev b =
        when_twice b (merge_edge same_edge (ctx.version_id, prev)) xs
          (merge_edge_twice same_edge same_edge_refl (ctx.version_id, prev) xs)

    step : Option String → List (String × String) → List (String × String)
    step o ys = elim o [
      | none ↦ ys
      | some prev ↦
          when_
            (not (str_eq prev "")
              && (has_version_node ctx.version_id ctx.org_id versions
                  && has_version_node prev ctx.org_id versions))
            (merge_edge same_edge (ctx.version_id, prev)) ys
    ]

    go : (o : Option String) → step o (step o xs) ≡ step o xs
    go none = refl
    go (some prev) = when_there prev (
        not (str_eq prev "")
        && (has_version_node ctx.version_id ctx.org_id versions
            && has_version_node prev ctx.org_id versions))

abbrev edges_form : LinkContext → Graph → Graph
edges_form ctx g = record g {
  has_version =
      when_
        (has_object_node ctx.object_id ctx.org_id g.objects
          && has_version_node ctx.version_id ctx.org_id g.versions)
        (merge_edge same_edge (ctx.object_id, ctx.version_id)) g.has_version;
  supersedes = previous_of ctx g.versions g.supersedes;
}

link_previous_form :
    (ctx : LinkContext) (g : Graph)
    → link_previous ctx g ≡ record g { supersedes = previous_of ctx g.versions g.supersedes }
unfolding link_previous
link_previous_form ctx g = ground arith

link_version_edges_form :
    (ctx : LinkContext) (g : Graph) → link_version_edges ctx g ≡ edges_form ctx g
unfolding link_version_edges
link_version_edges_form ctx g =
    let objects = has_object_node ctx.object_id ctx.org_id g.objects in
    let versions = has_version_node ctx.version_id ctx.org_id g.versions in
    elim (Bool-cases (objects && versions)) [
      | inl e ↦ rw e (
          link_previous_form ctx (record g {
            has_version = merge_edge same_edge (ctx.object_id, ctx.version_id) g.has_version;
          }))
      | inr e ↦ rw e (link_previous_form ctx g)
    ]

-- A linked graph: every field as the field before it.
abbrev form : LinkContext → List PartRef → Graph → Graph
form ctx ps g =
    let versions = versions_of ctx g.versions in
    let objects = objects_of ctx g.objects in
    let b = has_version_node ctx.version_id ctx.org_id versions in
    record {
      orgs = orgs_of ctx g.orgs;
      projects = projects_of ctx g.projects;
      objects = objects;
      versions = versions;
      parts = when_ b (merge_all same_part same_part_refl ps) g.parts;
      contains = merge_edge same_edge (ctx.project_id, ctx.object_id) g.contains;
      has_version =
          when_ (has_object_node ctx.object_id ctx.org_id objects && b)
            (merge_edge same_edge (ctx.object_id, ctx.version_id)) g.has_version;
      supersedes = previous_of ctx versions g.supersedes;
      uses = when_ b (merge_all same_use same_use_refl (pair_with ctx.version_id ps)) g.uses;
    }

run_auto_link-form :
    (ctx : LinkContext) (parsed : Parsed) (g : Graph)
    → run_auto_link ctx parsed g
      ≡ (length (extract_parts parsed), form ctx (extract_parts parsed) g)
unfolding run_auto_link ensure_scaffold new_org new_project new_object new_version
run_auto_link-form ctx parsed g =
    rw
      (
        link_parts_form ctx (extract_parts parsed) (ensure_scaffold ctx g),
        link_version_edges_form ctx,
      )
      refl

form_twice :
    (ctx : LinkContext) (ps : List PartRef) (g : Graph)
    → form ctx ps (form ctx ps g) ≡ form ctx ps g
form_twice ctx ps g =
    let versions = versions_of ctx g.versions in
    let b = has_version_node ctx.version_id ctx.org_id versions in
    rw
      (
        orgs_twice ctx g.orgs,
        projects_twice ctx g.projects,
        objects_twice ctx g.objects,
        versions_twice ctx g.versions,
        when_twice b (merge_all same_part same_part_refl ps) g.parts
            (merge_all_twice same_part same_part_refl ps g.parts),
        when_twice b (merge_all same_use same_use_refl (pair_with ctx.version_id ps)) g.uses
            (merge_all_twice same_use same_use_refl (pair_with ctx.version_id ps) g.uses),
        merge_edge_twice same_edge same_edge_refl (ctx.project_id, ctx.object_id) g.contains,
        previous_twice ctx versions g.supersedes,
        when_twice (has_object_node ctx.object_id ctx.org_id (objects_of ctx g.objects) && b)
            (merge_edge same_edge (ctx.object_id, ctx.version_id)) g.has_version
            (merge_edge_twice same_edge same_edge_refl (ctx.object_id, ctx.version_id)
              g.has_version),
      )
      refl

-- Linking a version a second time changes nothing in the graph, whatever the graph held before, and
-- counts the same edges.
pub run_auto_link_idempotent :
    (ctx : LinkContext) (parsed : Parsed) (g : Graph)
    → run_auto_link ctx parsed ((run_auto_link ctx parsed g).1) ≡ run_auto_link ctx parsed g
run_auto_link_idempotent ctx parsed g =
    let ps = extract_parts parsed in
    ap (λ (r : ℕ × Graph). run_auto_link ctx parsed r.1) (run_auto_link-form ctx parsed g)
    ∙ run_auto_link-form ctx parsed (form ctx ps g)
    ∙ ap (λ (h : Graph). (length ps, h)) (form_twice ctx ps g)
    ∙ sym (run_auto_link-form ctx parsed g)
