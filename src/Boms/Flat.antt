-- ===== src/Boms/Flat.antt =====
-- Where flat_bom ends: if no object contains itself, and only then.
use hcp.Prelude.{
  ℕ, zero, suc, ◌<◌, ◌≡◌, refl, true, Option, none, some, List, [], ◌∷◌, ◌++◌, arith, inl, inr,
  Bool-cases, Option-cases,
}
use hcp.Db.{Db}
use hcp.Parser.Schema.{BomRow}
use hcp.GraphLinks.{Answer, answer, refused, key_error, neo4j_error, Link, Links, edges_for, out_of}
use hcp.Boms.{
  Outside, Bom, get_bom, prepend, after_child, children_rows, below, flat_bom, Rows, contains,
}

abbrev pub Ended : Option (Answer (List BomRow)) → Type 0
Ended outcome = (result : Answer (List BomRow)) × (outcome ≡ some result)

prepend-Ended : (rows : List BomRow) (o : Option Rows) → Ended o → Ended (prepend rows o)
prepend-Ended rows (some (answer rest)) e = (answer (rows ++ rest), refl)
prepend-Ended rows (some (refused m)) e = (refused m, refl)
prepend-Ended rows (some key_error) e = (key_error, refl)
prepend-Ended rows (some neo4j_error) e = (neo4j_error, refl)
prepend-Ended rows none (r, e) = (r, e)

after_child-Ended : (c rest : Option Rows) → Ended c → Ended rest → Ended (after_child c rest)
after_child-Ended none rest c r = c
after_child-Ended (some (answer rows)) rest c r = prepend-Ended rows rest r
after_child-Ended (some (refused m)) rest c r = r
after_child-Ended (some key_error) rest c r = (key_error, refl)
after_child-Ended (some neo4j_error) rest c r = (neo4j_error, refl)

-- What the edges contain weighs less than `n`.
abbrev pub Lighter : Outside → (ℕ → ℕ) → ℕ → List Link → Type 0
Lighter outside w n [] = Unit {0}
Lighter outside w n (edge ∷ edges) =
    ((id : ℕ) → contains edge ≡ true → outside.parse_uuid edge.to_id ≡ some id → w id < n)
    × Lighter outside w n edges

children_rows-Ended :
    (outside : Outside) (child : ℕ → Option Rows) (w : ℕ → ℕ) (n : ℕ) (edges : List Link)
    → Lighter outside w n edges
    → ((id : ℕ) → w id < n → Ended (child id))
    → Ended (children_rows outside child edges)
unfolding children_rows
children_rows-Ended outside child w n [] light ends = (answer [], refl)
children_rows-Ended outside child w n (edge ∷ edges) (light, lights) ends =
    let rest = children_rows-Ended outside child w n edges lights ends in
    elim (Bool-cases (contains edge)) [
      | inr other ↦ rw (other) rest
      | inl inside ↦ elim (Option-cases (outside.parse_uuid edge.to_id)) [
        | inl bad ↦ (refused "badly formed hexadecimal UUID string", rw (inside, bad) refl)
        | inr (id, good) ↦
            rw (inside, good) (after_child-Ended _ _ (ends id (light id inside good)) rest)
      ]
    ]

below-Ended :
    (outside : Outside) (child : ℕ → Option Rows) (bom : Answer Bom) (edges : Answer (List Link))
    → ((all : List Link) → edges ≡ answer all → Ended (children_rows outside child all))
    → Ended (below outside child bom edges)
below-Ended outside child (answer bom) (answer all) ends = prepend-Ended bom.rows _ (ends all refl)
below-Ended outside child (answer bom) (refused m) ends = (refused m, refl)
below-Ended outside child (answer bom) key_error ends = (key_error, refl)
below-Ended outside child (answer bom) neo4j_error ends = (neo4j_error, refl)
below-Ended outside child (refused m) edges ends = (refused m, refl)
below-Ended outside child key_error edges ends = (key_error, refl)
below-Ended outside child neo4j_error edges ends = (neo4j_error, refl)

prepend-none : (rows : List BomRow) (o : Option Rows) → o ≡ none → prepend rows o ≡ none
prepend-none rows o e = rw e refl

-- The links out of an object, the first of which says that it contains `next`.
pub record LeadsTo (outside : Outside) (next : ℕ) (edges : List Link) : Type 0 where
  pub edge : Link
  pub edges_after : List Link
  pub first : edges ≡ edge ∷ edges_after
  pub inside : contains edge ≡ true
  pub at_next : outside.parse_uuid edge.to_id ≡ some next

module _ (outside : Outside) (db : Db) (org_id : ℕ) (links : Links) where
  abbrev pub edges_out : ℕ → Answer (List Link)
  edges_out object_id =
      edges_for (outside.uuid_text org_id) (outside.uuid_text object_id) out_of links

  -- Where every object weighs more than each object that it contains, flat_bom ends, with a result
  -- or with an exception, within as many nested calls as the object weighs, and one.
  pub flat_bom_ends :
      (w : ℕ → ℕ)
      → ((id : ℕ) (edges : List Link)
          → edges_out id ≡ answer edges
          → Lighter outside w (w id) edges)
      → (f object_id : ℕ) → w object_id < f
      → Ended (flat_bom outside db org_id links f object_id)
  unfolding flat_bom
  flat_bom_ends w heavier zero object_id h = absurd (omega arith)
  flat_bom_ends w heavier (suc f) object_id h =
      below-Ended outside (flat_bom outside db org_id links f)
        (get_bom outside db org_id object_id none) (edges_out object_id)
        (λ all e.
          children_rows-Ended outside (flat_bom outside db org_id links f) w (w object_id) all
            (heavier object_id all e) (λ id lighter. flat_bom_ends w heavier f id (omega arith)))

  -- Where the links lead from an object to one that it contains, and from there on without end, as
  -- they do where an object contains itself, flat_bom never ends, whatever number of nested calls it
  -- is given. (Each object on the way has a bill of materials, and its first link leads on.)
  pub flat_bom_endless :
      (path : ℕ → ℕ)
      → ((k : ℕ) → (bom : Bom) × (get_bom outside db org_id (path k) none ≡ answer bom))
      → ((k : ℕ)
          → (edges : List Link) × (edges_out (path k) ≡ answer edges)
            × LeadsTo outside (path (suc k)) edges)
      → (f k : ℕ) → flat_bom outside db org_id links f (path k) ≡ none
  unfolding flat_bom children_rows
  flat_bom_endless path boms leads zero k = refl
  flat_bom_endless path boms leads (suc f) k =
      let (bom, has_bom) = boms k in
      let (edges, out, way) = leads k in
      let deeper = flat_bom_endless path boms leads f (suc k) in
      rw (has_bom, out, way.first)
        (prepend-none bom.rows _ (rw (way.inside, way.at_next, deeper) refl))
