-- ===== src/Linker/Parts.antt =====
-- The parts that graph/linker.py's extract_parts collects.
use hcp.Prelude.{
  Listed, Listed-append, String, ◌≡◌, refl, ◌∙◌, subst, true, false, ◌⊎◌, List, [], ◌∷◌, ◌++◌,
  arith, any, any-append, str_eq, eq_iff, eq_refl, if◌then◌else◌, Bool-cases, inl, inr,
}
use hcp.Linker.{PartRef, PartSource, Parsed, mpn_of, part_ref, same_part, collect, extract_parts}

str_eq_sym : (s t : String) → str_eq s t ≡ false → str_eq t s ≡ false
str_eq_sym s t h = ground (arith, eq_iff s t, eq_iff t s)

same_part_sym : (p q : PartRef) → same_part p q ≡ false → same_part q p ≡ false
unfolding same_part
same_part_sym p q h = ground (
  arith,
  eq_iff p.mpn q.mpn,
  eq_iff q.mpn p.mpn,
  eq_iff p.manufacturer q.manufacturer,
  eq_iff q.manufacturer p.manufacturer,
)

same_part_self : (p : PartRef) → same_part p p ≡ true
unfolding same_part
same_part_self p = rw (eq_refl p.mpn, eq_refl p.manufacturer) refl

-- No two parts have the same number and manufacturer.
abbrev pub Distinct : List PartRef → Type 0
Distinct [] = Unit {0}
Distinct (p ∷ ps) = (any (same_part p) ps ≡ false) × Distinct ps

Distinct-last :
    (ps : List PartRef) (q : PartRef)
    → Distinct ps
    → any (same_part q) ps ≡ false
    → Distinct (ps ++ (q ∷ []))
unfolding any
Distinct-last [] q d h = (refl, tt)
Distinct-last (p ∷ ps) q (here, d) h =
    let first : same_part q p ≡ false = ground (arith, h) in
    let others : any (same_part q) ps ≡ false = ground (arith, h) in
    (
      any-append (same_part p) ps (q ∷ []) ∙ rw (here, same_part_sym q p first) refl,
      Distinct-last ps q d others,
    )

Listed-last :
    {A : Type 0} (x y : A) (xs : List A) → Listed x (xs ++ (y ∷ [])) → Listed x xs ⊎ (y ≡ x)
Listed-last x y xs h = elim (Listed-append x xs (y ∷ []) h) [
  | inl k ↦ inl k
  | inr (inl e) ↦ inr e
  | inr (inr impossible) ↦ absurd impossible
]

abbrev next : PartSource → List PartRef → List PartRef
next source parts =
    if str_eq (mpn_of source) ""
    then parts
    else if any (same_part (part_ref source)) parts
    then parts
    else parts ++ (part_ref source ∷ [])

next-Distinct :
    (source : PartSource) (parts : List PartRef) → Distinct parts → Distinct (next source parts)
next-Distinct source parts d = elim (Bool-cases (str_eq (mpn_of source) "")) [
  | inl e ↦ rw e d
  | inr e ↦ rw e elim (Bool-cases (any (same_part (part_ref source)) parts)) [
    | inl k ↦ rw k d
    | inr k ↦ rw k (Distinct-last parts (part_ref source) d k)
  ]
]

-- a part that is in the list stays
next_keeps :
    (p : PartRef) (source : PartSource) (parts : List PartRef)
    → any (same_part p) parts ≡ true
    → any (same_part p) (next source parts) ≡ true
next_keeps p source parts h = elim (Bool-cases (str_eq (mpn_of source) "")) [
  | inl e ↦ rw e h
  | inr e ↦ rw e elim (Bool-cases (any (same_part (part_ref source)) parts)) [
    | inl k ↦ rw k h
    | inr k ↦ rw (k, any-append (same_part p) parts (part_ref source ∷ []), h) refl
  ]
]

next_has :
    (source : PartSource) (parts : List PartRef)
    → str_eq (mpn_of source) "" ≡ false
    → any (same_part (part_ref source)) (next source parts) ≡ true
unfolding any
next_has source parts e = rw e elim (Bool-cases (any (same_part (part_ref source)) parts)) [
  | inl k ↦ rw k k
  | inr k ↦
      let last : any (same_part (part_ref source)) (part_ref source ∷ []) ≡ true =
        rw (same_part_self (part_ref source)) refl in
      rw (k, any-append (same_part (part_ref source)) parts (part_ref source ∷ []), k, last) refl
]

collect-Distinct :
    (sources : List PartSource) (parts : List PartRef)
    → Distinct parts
    → Distinct (collect sources parts)
unfolding collect
collect-Distinct [] parts d = d
collect-Distinct (s ∷ sources) parts d =
    collect-Distinct sources (next s parts) (next-Distinct s parts d)

collect_keeps :
    (p : PartRef) (sources : List PartSource) (parts : List PartRef)
    → any (same_part p) parts ≡ true
    → any (same_part p) (collect sources parts) ≡ true
unfolding collect
collect_keeps p [] parts h = h
collect_keeps p (s ∷ sources) parts h =
    collect_keeps p sources (next s parts) (next_keeps p s parts h)

collect_complete :
    (source : PartSource) (sources : List PartSource) (parts : List PartRef)
    → Listed source sources
    → str_eq (mpn_of source) "" ≡ false
    → any (same_part (part_ref source)) (collect sources parts) ≡ true
unfolding collect
collect_complete source [] parts h e = elim h [ ]
collect_complete source (s ∷ sources) parts (inl same) e =
    let named : str_eq (mpn_of s) "" ≡ false = rw same e in
    subst (λ t. any (same_part (part_ref t)) (collect (s ∷ sources) parts) ≡ true) same
      (collect_keeps (part_ref s) sources (next s parts) (next_has s parts named))
collect_complete source (s ∷ sources) parts (inr later) e =
    collect_complete source sources (next s parts) later e

abbrev From : PartRef → List PartSource → Type 0
From p sources =
    (source : PartSource) × Listed source sources
    × (part_ref source ≡ p)
    × (str_eq (mpn_of source) "" ≡ false)

next_sound :
    (p : PartRef) (source : PartSource) (parts : List PartRef)
    → Listed p (next source parts)
    → Listed p parts ⊎ ((part_ref source ≡ p) × (str_eq (mpn_of source) "" ≡ false))
next_sound p source parts h = elim (Bool-cases (str_eq (mpn_of source) "")) [
  | inl e ↦ inl (rw e at h)
  | inr e ↦ elim (Bool-cases (any (same_part (part_ref source)) parts)) [
    | inl k ↦ inl (rw (e, k) at h)
    | inr k ↦ elim (Listed-last p (part_ref source) parts (rw (e, k) at h)) [
      | inl old ↦ inl old
      | inr new ↦ inr (new, e)
    ]
  ]
]

collect_sound :
    (p : PartRef) (sources : List PartSource) (parts : List PartRef)
    → Listed p (collect sources parts)
    → Listed p parts ⊎ From p sources
unfolding collect
collect_sound p [] parts h = inl h
collect_sound p (s ∷ sources) parts h = elim (collect_sound p sources (next s parts) h) [
  | inr (source, at_, same, named) ↦ inr (source, inr at_, same, named)
  | inl early ↦ elim (next_sound p s parts early) [
    | inl old ↦ inl old
    | inr (same, named) ↦ inr (s, inl refl, same, named)
  ]
]

abbrev pub FromParsed : PartRef → Parsed → Type 0
FromParsed p parsed = From p parsed.components ⊎ From p parsed.bom_rows

-- extract_parts lists no part twice; it lists the part of every component and of every row whose
-- number is not empty when its blanks are removed; and it lists no other parts.
pub extract_parts_exact :
    (parsed : Parsed)
    → Distinct (extract_parts parsed)
      × ((source : PartSource)
          → Listed source parsed.components ⊎ Listed source parsed.bom_rows
          → str_eq (mpn_of source) "" ≡ false
          → any (same_part (part_ref source)) (extract_parts parsed) ≡ true)
      × ((p : PartRef) → Listed p (extract_parts parsed) → FromParsed p parsed)
unfolding extract_parts
extract_parts_exact parsed =
    let first = collect parsed.components [] in
    (
      collect-Distinct parsed.bom_rows first (collect-Distinct parsed.components [] tt),
      λ source at_ named. elim at_ [
        | inl c ↦
            collect_keeps (part_ref source) parsed.bom_rows first
              (collect_complete source parsed.components [] c named)
        | inr r ↦ collect_complete source parsed.bom_rows first r named
      ],
      λ p listed. elim (collect_sound p parsed.bom_rows first listed) [
        | inr from ↦ inr from
        | inl early ↦ elim (collect_sound p parsed.components [] early) [
          | inl nothing ↦ absurd nothing
          | inr from ↦ inl from
        ]
      ],
    )
