-- ===== src/Parser/Schema.antt =====
-- parser/schema.py: what a parser finds in a file. A price, which is a float, is as it is written.
use hcp.Prelude.{ℕ, String, Bool, Option, List, ℤ}
use hcp.Json.{Fields}

pub record Component : Type 0 where
  pub ref : String
  pub mpn : Option String
  pub manufacturer : Option String
  pub value : Option String
  pub footprint : Option String
  pub description : Option String
  pub quantity : ℤ
  pub dnp : Bool

pub record BomRow : Type 0 where
  pub ref_designators : List String
  pub mpn : Option String
  pub manufacturer : Option String
  pub quantity : ℤ
  pub description : Option String
  pub unit_price_usd : Option String

pub record SourceAsset : Type 0 where
  pub uri : String
  pub role : String

-- The dicts are the fields of JSON objects, `none` for None.
pub record ParsedOutput : Type 0 where
  pub schema_version : String
  pub object_id : String
  pub version_id : String
  pub parsed_at : ℕ
  pub parser_name : String
  pub parser_version : String
  pub file_type : String
  pub tool_name : String
  pub components : List Component
  pub bom_rows : List BomRow
  pub board : Option Fields
  pub mechanical : Option Fields
  pub gerber : Option Fields
  pub firmware : Option Fields
  pub extracted_metadata : Fields
  pub errors : List String
  pub warnings : List String
  pub domain : Option String
  pub representation : String
  pub source_tool : Option String
  pub source_format : Option String
  pub capabilities : List String
  pub source_assets : List SourceAsset
