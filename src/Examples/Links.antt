-- ===== src/Examples/Links.antt =====
-- The graph of a version, at a concrete version.
use hcp.Prelude.{Listed, ◌≡◌, ◌⊎◌, refl, true, false, none, some, [], ◌∷◌, any, str_eq}
use hcp.Linker.{
  PartRef, LinkContext, PartSource, Parsed, Graph, mpn_of, part_ref, same_part, extract_parts,
  run_auto_link,
}
use hcp.Linker.Parts.{Distinct, FromParsed, extract_parts_exact}
use hcp.Linker.Again.{run_auto_link_idempotent}

abbrev context : LinkContext
context = record {
  org_id = "o";
  org_name = "Acme";
  project_id = "p";
  project_name = "Drone";
  object_id = "h";
  object_name = "Board";
  object_type = "PCB";
  version_id = "v2";
  version_num = 2;
  lifecycle_state = "draft";
  previous_version_id = some "v1";
}

-- One part twice, under a blank manufacturer and under none, and a row without a number.
abbrev parsed : Parsed
parsed = record {
  components =
      record { mpn = some " LM358 "; manufacturer = some " " }
      ∷ record { mpn = some "LM358"; manufacturer = none }
      ∷ [];
  bom_rows = record { mpn = none; manufacturer = some "TI" } ∷ [];
}

abbrev empty : Graph
empty = record {
  orgs = [];
  projects = [];
  objects = [];
  versions = [];
  parts = [];
  contains = [];
  has_version = [];
  supersedes = [];
  uses = [];
}

run_auto_link_idempotent_example :
    run_auto_link context parsed ((run_auto_link context parsed empty).1)
    ≡ run_auto_link context parsed empty
run_auto_link_idempotent_example = run_auto_link_idempotent context parsed empty

extract_parts_exact_example :
    Distinct (extract_parts parsed)
    × ((source : PartSource)
        → Listed source parsed.components ⊎ Listed source parsed.bom_rows
        → str_eq (mpn_of source) "" ≡ false
        → any (same_part (part_ref source)) (extract_parts parsed) ≡ true)
    × ((p : PartRef) → Listed p (extract_parts parsed) → FromParsed p parsed)
extract_parts_exact_example = extract_parts_exact parsed

one_part :
    extract_parts parsed ≡ record { mpn = "LM358"; manufacturer = "Unknown"; lifecycle = none } ∷ []
unfolding extract_parts hcp.Linker.collect mpn_of hcp.Text.strip any same_part part_ref
    hcp.Linker.manufacturer_of
one_part = refl
