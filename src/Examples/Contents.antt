-- ===== src/Examples/Contents.antt =====
-- Bills of materials and links in memory, at concrete objects.
use hcp.Prelude.{
  Listed, ℕ, ◌<◌, ◌≡◌, ◌↔◌, refl, sym, subst, ◌∙◌, String, true, false, none, some, List, [], ◌∷◌,
  pos, ◌==◌, str_eq, if◌then◌else◌, inl, inr, Bool-cases, arith, any, first_where, select, sort_by,
}
use hcp.Json.{end}
use hcp.Json.Dict.{lookup}
use hcp.Db.{HardwareObject, Version, Db, blank}
use hcp.Parser.Schema.{BomRow}
use hcp.Parser.Plugin.{base_output}
use hcp.GraphLinks.{
  Answer, answer, key_error, neo4j_error, Link, Links, of_objects, Neo4j, create_link,
  create_derived_from_link, delete_link, edges_for, out_of, both, org_links, among, new_link,
}
use hcp.GraphLinks.Fallback.{create_link-delete_link, derived_from_breaks_edges}
use hcp.Objects.{get_object, list_versions}
use hcp.Boms.{Outside, Bom, get_bom, flat_bom, diff_rows, row_key, row_eq}
use hcp.Boms.Flat.{Ended, Lighter, edges_out, flat_bom_ends, flat_bom_endless}
use hcp.Boms.Keys.{last_of}
use hcp.Boms.Differences.{diff_rows_exact}

abbrev resistor : BomRow
resistor = record {
  ref_designators = "R1" ∷ [];
  mpn = none;
  manufacturer = none;
  quantity = pos 1;
  description = none;
  unit_price_usd = none;
}

abbrev capacitor : BomRow
capacitor = record resistor { ref_designators = "C1" ∷ [] }

abbrev chip : BomRow
chip = record resistor { mpn = some "LM358"; manufacturer = some "TI" }

abbrev two_chips : BomRow
two_chips = record chip { quantity = pos 2 }

abbrev outside : Outside
outside = record {
  download = λ key.
      record (base_output "BOMParser" "BOM" 0 (record {
        filename = "bom.csv";
        object_id = "1";
        version_id = "v";
        source_tool = none;
        domain = none;
        representation = none;
      })) { bom_rows = chip ∷ [] };
  uuid_text = λ n. if n == 1 then "1" else if n == 2 then "2" else "9";
  parse_uuid = λ s. if str_eq s "1" then some 1 else if str_eq s "2" then some 2 else none;
}

abbrev board : HardwareObject
board = record {
  id = 1;
  org_id = 9;
  project_id = 1;
  name = "board";
  object_type = "PCB";
  domain = none;
  source_tool = none;
  representation = none;
  created_by = 1;
  deleted_at = none;
}

abbrev parsed : Version
parsed = record {
  id = 21;
  org_id = 9;
  object_id = 1;
  version_num = 1;
  filename = "bom.csv";
  content_hash = "00";
  file_size_bytes = 10;
  storage_key = "k";
  parsed_key = some "parsed";
  parse_status = "complete";
  lifecycle_state = "draft";
  uploaded_by = 1;
  description = none;
  source_tool = none;
  source_tool_version = none;
  domain = none;
  representation = none;
  derived_from_version_id = none;
  created_at = 0;
}

abbrev stored : Db
stored = record blank {
  objects = board ∷ record board { id = 2 } ∷ [];
  versions = parsed ∷ record parsed { id = 22; object_id = 2 } ∷ [];
}

abbrev contains_link : String → String → Link
contains_link from to = record {
  relationship_id = "l";
  org_id = "9";
  from_id = from;
  to_id = to;
  relationship_type = "CONTAINS";
  metadata = end;
}

abbrev nested : Links
nested = ("9", ("l", of_objects (contains_link "1" "2")) ∷ []) ∷ []

abbrev looped : Links
looped = ("9", ("l", of_objects (contains_link "1" "1")) ∷ []) ∷ []

abbrev weight : ℕ → ℕ
weight n = if n == 1 then 1 else 0

abbrev no_neo4j : Neo4j (Unit {0})
no_neo4j = record {
  available = λ n. false;
  create_object_link = λ org from to rel_type metadata n. (neo4j_error, n);
  create_derived_from = λ org from to n. (neo4j_error, n);
  delete_relationship = λ org id n. (none, n);
}

create_link-delete_link_example :
    (edges_for "9" "1" out_of (create_link no_neo4j "m" "9" "1" "2" "USES" none (nested, tt)).1.0
      ≡ answer (contains_link "1" "2" ∷ new_link "m" "9" "1" "2" "USES" none ∷ []))
    × ((delete_link no_neo4j "9" "m"
          (create_link no_neo4j "m" "9" "1" "2" "USES" none (nested, tt)).1).0
        ≡ true)
    × ((oid : String) (direction : _)
        → edges_for "9" oid direction
            (delete_link no_neo4j "9" "m"
              (create_link no_neo4j "m" "9" "1" "2" "USES" none (nested, tt)).1).1.0
          ≡ edges_for "9" oid direction nested)
unfolding among any lookup org_links edges_for hcp.GraphLinks.edges_among hcp.GraphLinks.touches
create_link-delete_link_example =
    create_link-delete_link no_neo4j tt refl "m" "9" "1" "2" "USES" none nested
      (contains_link "1" "2" ∷ []) refl refl refl

derived_from_breaks_edges_example :
    edges_for "9" "1" both
      (create_derived_from_link no_neo4j "m" "9" "v2" "v1" none (nested, tt)).1.0
    ≡ key_error
derived_from_breaks_edges_example =
    derived_from_breaks_edges no_neo4j tt refl "m" "9" "v2" "v1" none nested "1" both

diff_rows_exact_example :
    (Listed chip (diff_rows (chip ∷ []) (two_chips ∷ [])).added ↔ (
      (last_of (row_key chip) (two_chips ∷ []) ≡ some chip)
      × (last_of (row_key chip) (chip ∷ []) ≡ none)))
    × (Listed chip (diff_rows (chip ∷ []) (two_chips ∷ [])).removed ↔ (
        (last_of (row_key chip) (chip ∷ []) ≡ some chip)
        × (last_of (row_key chip) (two_chips ∷ []) ≡ none)))
    × ((y : BomRow)
        → Listed (chip, y) (diff_rows (chip ∷ []) (two_chips ∷ [])).changed ↔ (
            (last_of (row_key chip) (chip ∷ []) ≡ some chip)
            × (last_of (row_key chip) (two_chips ∷ []) ≡ some y)
            × (row_eq chip y ≡ false)))
diff_rows_exact_example = diff_rows_exact (chip ∷ []) (two_chips ∷ []) chip

flat_bom_endless_example : flat_bom outside stored 9 looped 5 1 ≡ none
unfolding get_bom get_object first_where list_versions sort_by select hcp.Boms.get_parsed_json
    base_output edges_for hcp.GraphLinks.edges_among org_links lookup hcp.GraphLinks.touches
flat_bom_endless_example =
    flat_bom_endless outside stored 9 looped (λ k. 1)
      (λ k. (record { version_num = 1; rows = chip ∷ []; components = [] }, refl))
      (λ k. (
        contains_link "1" "1" ∷ [],
        refl,
        record {
          edge = contains_link "1" "1";
          edges_after = [];
          first = refl;
          inside = refl;
          at_next = refl;
        },
      ))
      5 1

nested_edges :
    (id : ℕ)
    → edges_out outside stored 9 nested id
      ≡ answer (if id == 1 then contains_link "1" "2" ∷ [] else [])
unfolding edges_for hcp.GraphLinks.edges_among org_links lookup hcp.GraphLinks.touches
nested_edges id = elim (Bool-cases (id == 1)) [
  | inl e ↦ rw (e) refl
  | inr e ↦ elim (Bool-cases (id == 2)) [ inl f ↦ rw (e, f) refl | inr f ↦ rw (e, f) refl ]
]

nested-Lighter :
    (id : ℕ) (edges : List Link)
    → edges_out outside stored 9 nested id ≡ answer edges
    → Lighter outside weight (weight id) edges
nested-Lighter id edges out = elim (Bool-cases (id == 1)) [
  | inl e ↦
      subst (λ es. Lighter outside weight (weight id) es) (same (the_edges e))
        (
          λ child inside found.
              subst (λ n. weight n < weight id) (some_inj found) (rw (e) (omega arith)),
          tt,
        )
  | inr e ↦ subst (λ es. Lighter outside weight (weight id) es) (same (no_edges e)) tt
]
  where
    answer_inj : {es fs : List Link} → answer es ≡ answer fs → es ≡ fs
    answer_inj h = cc h

    same : {es : List Link} → edges_out outside stored 9 nested id ≡ answer es → es ≡ edges
    same h = answer_inj (sym h ∙ out)

    some_inj : {m n : ℕ} → some m ≡ some n → m ≡ n
    some_inj h = cc h

    the_edges :
        id == 1 ≡ true → edges_out outside stored 9 nested id ≡ answer (contains_link "1" "2" ∷ [])
    the_edges e = nested_edges id ∙ rw (e) refl

    no_edges : id == 1 ≡ false → edges_out outside stored 9 nested id ≡ answer []
    no_edges e = nested_edges id ∙ rw (e) refl

flat_bom_ends_example : Ended (flat_bom outside stored 9 nested 2 1)
flat_bom_ends_example =
    flat_bom_ends outside stored 9 nested weight nested-Lighter 2 1 (omega arith)
