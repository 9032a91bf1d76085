-- ===== src/Hos/Diff/Exact.antt =====
-- The differences, path by path.
use hcp.Prelude.{
  Bool-cases, inl, inr, ◌≡◌, refl, ◌∙◌, ap, String, Bool, true, false, not, ◌||◌, List, [], ◌∷◌,
  ◌++◌, arith, any, select, sort_by, insert_by, str_eq, eq_iff, if◌then◌else◌,
}
use hcp.Prelude.Table.{unique}
use hcp.Json.{Json, null, json_eq}
use hcp.Json.Dict.{Dict, lookup}
use hcp.Hos.Diff.{
  DiffEntry, added, removed, modified, is_none, value, keys, has_path, text_le, diff_paths,
  diff_entry, append_entry, diff_loop, diff_maps,
}

-- The entries of a path that has these values in the two maps.
abbrev pub changes : String → String → Json → Json → List DiffEntry
changes model path null null = []
changes model path null to =
    record { path = path; change_type = added; from_value = null; to_value = to; model = model }
    ∷ []
changes model path from null =
    record { path = path; change_type = removed; from_value = from; to_value = null; model = model }
    ∷ []
changes model path from to =
    if json_eq from to
    then []
    else record {
      path = path;
      change_type = modified;
      from_value = from;
      to_value = to;
      model = model;
    }
      ∷ []

null_same : json_eq null null ≡ true
unfolding json_eq
null_same = refl

append_entry-changes :
    (model p : String) (av bv : Json)
    → append_entry (diff_entry model p av bv) [] ≡ changes model p av bv
unfolding diff_entry append_entry is_none
append_entry-changes model p null null = rw null_same refl
append_entry-changes model p null bv = refl
append_entry-changes model p av null = refl
append_entry-changes model p av bv = elim (Bool-cases (json_eq av bv)) [
  | inl same ↦ rw (same, append_entry) refl
  | inr other ↦ rw (other, append_entry) refl
]

-- No path is listed twice.
abbrev pub distinct : List String → Bool
distinct paths = unique (λ p r. str_eq r p) paths

abbrev occurrences : String → List String → List String
occurrences q paths = select (λ p. str_eq p q) paths

abbrev pub entries : String → List DiffEntry → List DiffEntry
entries path out = select (λ e. str_eq e.path path) out

entries-append_entry :
    (model p q : String) (av bv : Json) (out : List DiffEntry)
    → entries q (append_entry (diff_entry model p av bv) out) ≡ (
        if str_eq p q
        then append_entry (diff_entry model p av bv) (entries q out)
        else entries q out)
unfolding diff_entry append_entry select
entries-append_entry model p q av bv out = ground arith

entries-diff_loop :
    (model q : String) (a b : Dict Json) (paths : List String)
    → entries q (diff_loop model a b paths) ≡ diff_loop model a b (occurrences q paths)
unfolding diff_loop select
entries-diff_loop model q a b [] = refl
entries-diff_loop model q a b (p ∷ paths) = ground (
  arith,
  entries-append_entry model p q (value a p) (value b p) (diff_loop model a b paths),
  entries-diff_loop model q a b paths,
)

occurrences-insert_by :
    (q p : String) (ps : List String)
    → occurrences q (insert_by text_le p ps) ≡ occurrences q (p ∷ ps)
unfolding select insert_by
occurrences-insert_by q p [] = refl
occurrences-insert_by q p (r ∷ ps) =
    ground (arith, eq_iff p q, eq_iff r q, occurrences-insert_by q p ps)

occurrences-sort_by :
    (q : String) (ps : List String) → occurrences q (sort_by text_le ps) ≡ occurrences q ps
unfolding select sort_by
occurrences-sort_by q [] = refl
occurrences-sort_by q (p ∷ ps) =
    ground (arith, occurrences-insert_by q p (sort_by text_le ps), occurrences-sort_by q ps)

occurrences-append :
    (q : String) (ps rs : List String)
    → occurrences q (ps ++ rs) ≡ occurrences q ps ++ occurrences q rs
unfolding select
occurrences-append q [] rs = refl
occurrences-append q (p ∷ ps) rs = ground (arith, occurrences-append q ps rs)

has_path-cons :
    (q p : String) (ps : List String) → has_path q (p ∷ ps) ≡ (str_eq p q || has_path q ps)
unfolding has_path any
has_path-cons q p ps = refl

occurrences-distinct :
    (q : String) (ps : List String)
    → distinct ps ≡ true
    → occurrences q ps ≡ (if has_path q ps then q ∷ [] else [])
unfolding select has_path any unique
occurrences-distinct q [] h = refl
occurrences-distinct q (p ∷ ps) h = ground (arith, eq_iff p q, occurrences-distinct q ps)

occurrences-extra :
    (q : String) (old new : List String)
    → occurrences q (select (λ p. not (has_path p old)) new)
      ≡ (if has_path q old then [] else occurrences q new)
unfolding select
occurrences-extra q old [] = ground arith
occurrences-extra q old (p ∷ new) = ground (arith, eq_iff p q, occurrences-extra q old new)

-- Each path of the two maps is compared once.
occurrences-diff_paths :
    (q : String) (a b : Dict Json)
    → distinct (keys a) ≡ true
    → distinct (keys b) ≡ true
    → occurrences q (diff_paths a b)
      ≡ (if has_path q (keys a) || has_path q (keys b) then q ∷ [] else [])
unfolding diff_paths
occurrences-diff_paths q a b one_a one_b =
    let extra = select (λ p. not (has_path p (keys a))) (keys b) in
    occurrences-sort_by q (keys a ++ extra)
    ∙ occurrences-append q (keys a) extra
    ∙ ground (
      arith,
      occurrences-distinct q (keys a) one_a,
      occurrences-distinct q (keys b) one_b,
      occurrences-extra q (keys a) (keys b),
    )

-- A path that a map lacks has no value there.
value-lacks : (q : String) (d : Dict Json) → has_path q (keys d) ≡ false → value d q ≡ null
unfolding has_path any keys value lookup
value-lacks q [] h = refl
value-lacks q ((k, v) ∷ d) h = ground (arith, value-lacks q d)

compared_once :
    (model q : String) (a b : Dict Json)
    → diff_loop model a b (q ∷ []) ≡ changes model q (value a q) (value b q)
unfolding diff_loop
compared_once model q a b = append_entry-changes model q (value a q) (value b q)

missing : (model q : String) (a b : Json) → a ≡ null → b ≡ null → [] ≡ changes model q a b
missing model q a b no_a no_b = rw (no_a, no_b) refl

-- The diff of two maps, whose keys are distinct as a dict's are, has exactly these entries of a path:
-- one that says `added` if the path has no value in the first map and one in the second; one that says
-- `removed` if it has one in the first only; one that says `modified` if it has two that differ by
-- `==`; and otherwise none. The entry carries the two values. (A missing value is `None`.)
pub diff_exact :
    (model path : String) (a b : Dict Json)
    → distinct (keys a) ≡ true
    → distinct (keys b) ≡ true
    → entries path (diff_maps model a b) ≡ changes model path (value a path) (value b path)
unfolding diff_maps
diff_exact model path a b one_a one_b =
    entries-diff_loop model path a b (diff_paths a b)
    ∙ ap (diff_loop model a b) (occurrences-diff_paths path a b one_a one_b)
    ∙ (elim (Bool-cases (has_path path (keys a) || has_path path (keys b))) [
      | inl some_map ↦ rw some_map (compared_once model path a b)
      | inr no_map ↦ rw no_map (
          unfold diff_loop in
          missing model path (value a path) (value b path)
            (value-lacks path a (ground (arith, no_map)))
            (value-lacks path b (ground (arith, no_map))))
    ])
