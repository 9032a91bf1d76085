-- ===== src/GraphLinks/Fallback.antt =====
-- The links in memory: what is created is listed and can be deleted, and what a link between versions
-- does to all the others.
use hcp.Prelude.{
  ◌≡◌, refl, sym, subst, ap, ◌∙◌, String, Bool, true, false, Option, none, some, List, [], ◌∷◌,
  ◌++◌, str_eq, eq_refl, inl, inr, Bool-cases,
}
use hcp.Json.{Fields}
use hcp.Json.Dict.{Dict, lookup, insert, lookup-insert}
use hcp.GraphLinks.{
  Answer, answer, refused, key_error, neo4j_error, Link, Stored, of_objects, of_versions, Links,
  org_links, put_link, Direction, out_of, touches, with_edge, edges_among, edges_for, among,
  object_rel_types, Neo4j, new_link, keep_objects, keep_versions, create_link,
  create_derived_from_link, remove_link, forget, delete_link,
}

with_edge_key_error : (b : Bool) (link : Link) → with_edge b link key_error ≡ key_error
with_edge_key_error true link = refl
with_edge_key_error false link = refl

edges_among_versions :
    (direction : Direction) (oid rel_id : String) (link : Link) (kept : Dict Stored)
    → edges_among direction oid (insert rel_id (of_versions link) kept) ≡ key_error
unfolding edges_among insert
edges_among_versions direction oid rel_id link [] = refl
edges_among_versions direction oid rel_id link ((id, of_versions old) ∷ kept) =
    elim (Bool-cases (str_eq id rel_id)) [ inl e ↦ rw (e) refl | inr e ↦ rw (e) refl ]
edges_among_versions direction oid rel_id link ((id, of_objects old) ∷ kept) =
    elim (Bool-cases (str_eq id rel_id)) [
      | inl e ↦ rw (e) refl
      | inr e ↦ rw (e) (
          ap (with_edge (touches direction oid old) old)
            (edges_among_versions direction oid rel_id link kept)
          ∙ with_edge_key_error (touches direction oid old) old)
    ]

org_links-insert :
    (org : String) (kept : Dict Stored) (links : Links)
    → org_links org (insert org kept links) ≡ kept
unfolding org_links
org_links-insert org kept links = rw (lookup-insert org org kept links, eq_refl org, org_links) refl

insert_fresh :
    (id : String) (link : Stored) (kept : Dict Stored)
    → lookup id kept ≡ none
    → insert id link kept ≡ kept ++ ((id, link) ∷ [])
unfolding insert lookup
insert_fresh id link [] fresh = refl
insert_fresh id link ((k, old) ∷ kept) fresh = elim (Bool-cases (str_eq k id)) [
  | inl e ↦ absurd (some_none (subst_here e))
  | inr e ↦ rw (e) (ap (λ m. (k, old) ∷ m) (insert_fresh id link kept (subst_there e)))
]
  where
    some_none : {s : Stored} → some s ≡ none → ⊥
    some_none h = cc h

    subst_here : str_eq k id ≡ true → some old ≡ none
    subst_here e = subst (λ o. o ≡ none) (rw (e, lookup) refl) fresh

    subst_there : str_eq k id ≡ false → lookup id kept ≡ none
    subst_there e = subst (λ o. o ≡ none) (rw (e, lookup) refl) fresh

remove_fresh :
    (id : String) (link : Stored) (kept : Dict Stored)
    → lookup id kept ≡ none
    → (lookup id (kept ++ ((id, link) ∷ [])) ≡ some link)
      × (remove_link id (kept ++ ((id, link) ∷ [])) ≡ kept)
unfolding lookup remove_link
remove_fresh id link [] fresh = (rw (eq_refl id) refl, rw (eq_refl id) refl)
remove_fresh id link ((k, old) ∷ kept) fresh = elim (Bool-cases (str_eq k id)) [
  | inl e ↦ absurd (some_none (gone e))
  | inr e ↦
      let (found, back) =
        remove_fresh id link kept (subst (λ o. o ≡ none) (rw (e, lookup) refl) fresh) in
      (rw (e) found, rw (e) (ap (λ m. (k, old) ∷ m) back))
]
  where
    some_none : {s : Stored} → some s ≡ none → ⊥
    some_none h = cc h

    gone : str_eq k id ≡ true → some old ≡ none
    gone e = subst (λ o. o ≡ none) (rw (e, lookup) refl) fresh

-- the edges of two lists of links
abbrev together : Answer (List Link) → Answer (List Link) → Answer (List Link)
together (answer edges) (answer later) = answer (edges ++ later)
together (answer edges) (refused e) = refused e
together (answer edges) key_error = key_error
together (answer edges) neo4j_error = neo4j_error
together (refused e) _ = refused e
together key_error _ = key_error
together neo4j_error _ = neo4j_error

with_edge-together :
    (b : Bool) (link : Link) (first later : Answer (List Link))
    → with_edge b link (together first later) ≡ together (with_edge b link first) later
with_edge-together false link first later = refl
with_edge-together true link (answer edges) (answer later) = refl
with_edge-together true link (answer edges) (refused e) = refl
with_edge-together true link (answer edges) key_error = refl
with_edge-together true link (answer edges) neo4j_error = refl
with_edge-together true link (refused e) later = refl
with_edge-together true link key_error later = refl
with_edge-together true link neo4j_error later = refl

together_none : (later : Answer (List Link)) → together (answer []) later ≡ later
together_none (answer later) = refl
together_none (refused e) = refl
together_none key_error = refl
together_none neo4j_error = refl

edges_among-append :
    (direction : Direction) (oid : String) (kept more : Dict Stored)
    → edges_among direction oid (kept ++ more)
      ≡ together (edges_among direction oid kept) (edges_among direction oid more)
unfolding edges_among
edges_among-append direction oid [] more = sym (together_none (edges_among direction oid more))
edges_among-append direction oid ((_, of_versions link) ∷ kept) more = refl
edges_among-append direction oid ((_, of_objects link) ∷ kept) more =
    ap (with_edge (touches direction oid link) link) (edges_among-append direction oid kept more)
    ∙ with_edge-together (touches direction oid link) link (edges_among direction oid kept)
        (edges_among direction oid more)

module _ {N : Type 0} (neo4j : Neo4j N) (n : N) (down : neo4j.available n ≡ false) where
  created :
      (rel_id org from to rel_type : String) (metadata : Option Fields) (links : Links)
      → among rel_type object_rel_types ≡ true
      → lookup rel_id (org_links org links) ≡ none
      → create_link neo4j rel_id org from to rel_type metadata (links, n) ≡ (
        answer (new_link rel_id org from to rel_type metadata),
        (
          insert org
              (org_links org links
                ++ ((rel_id, of_objects (new_link rel_id org from to rel_type metadata)) ∷ []))
              links,
          n,
        ),
      )
  unfolding create_link keep_objects put_link
  created rel_id org from to rel_type metadata links valid fresh =
      rw
        (
          valid,
          down,
          insert_fresh rel_id (of_objects (new_link rel_id org from to rel_type metadata))
              (org_links org links) fresh,
        )
        refl

  deleted :
      (rel_id org : String) (link : Stored) (kept : Dict Stored) (links : Links)
      → lookup rel_id kept ≡ none
      → delete_link neo4j org rel_id (insert org (kept ++ ((rel_id, link) ∷ [])) links, n)
        ≡ (true, (insert org kept (insert org (kept ++ ((rel_id, link) ∷ [])) links), n))
  unfolding delete_link forget
  deleted rel_id org link kept links fresh =
      let (found, back) = remove_fresh rel_id link kept fresh in
      let same = org_links-insert org (kept ++ ((rel_id, link) ∷ [])) links in
      rw (down, forget, same, found, same, back) refl

  -- While Neo4j does not answer, a link from an object to another, of a valid type and under a new
  -- identifier, is listed last among the edges out of the object; and deleting it then, which
  -- succeeds, makes the edges of every object what they were.
  pub create_link-delete_link :
      (rel_id org from to rel_type : String) (metadata : Option Fields) (links : Links)
      (edges : List Link)
      → among rel_type object_rel_types ≡ true
      → lookup rel_id (org_links org links) ≡ none
      → edges_for org from out_of links ≡ answer edges
      → let after = (create_link neo4j rel_id org from to rel_type metadata (links, n)).1 in
        let deleted = delete_link neo4j org rel_id after in
        (edges_for org from out_of after.0
          ≡ answer (edges ++ (new_link rel_id org from to rel_type metadata ∷ [])))
        × (deleted.0 ≡ true)
        × ((oid : String) (direction : Direction)
            → edges_for org oid direction deleted.1.0 ≡ edges_for org oid direction links)
  unfolding edges_for edges_among touches new_link
  create_link-delete_link rel_id org from to rel_type metadata links edges valid fresh out =
      let link = of_objects (new_link rel_id org from to rel_type metadata) in
      let kept = org_links org links in
      let longer = kept ++ ((rel_id, link) ∷ []) in
      rw
        (
          created rel_id org from to rel_type metadata links valid fresh,
          deleted rel_id org link kept links fresh,
        )
        (
          rw
              (
                org_links-insert org longer links,
                edges_among-append out_of from kept ((rel_id, link) ∷ []),
                out,
                eq_refl from,
              )
              refl,
          refl,
          λ oid direction.
              ap (edges_among direction oid) (org_links-insert org kept (insert org longer links)),
        )

  -- While Neo4j does not answer, a link from a derived version to its source makes the edges of
  -- every object of the organization fail with KeyError, in every direction.
  pub derived_from_breaks_edges :
      (rel_id org from to : String) (metadata : Option Fields) (links : Links) (oid : String)
      (direction : Direction)
      → edges_for org oid direction
          (create_derived_from_link neo4j rel_id org from to metadata (links, n)).1.0
        ≡ key_error
  unfolding create_derived_from_link keep_versions put_link edges_for
  derived_from_breaks_edges rel_id org from to metadata links oid direction = rw (down) (
      ap (edges_among direction oid) (
        org_links-insert org
          (insert rel_id (of_versions (new_link rel_id org from to "DERIVED_FROM" metadata))
            (org_links org links))
          links)
      ∙ edges_among_versions direction oid rel_id
          (new_link rel_id org from to "DERIVED_FROM" metadata) (org_links org links))
