-- ===== src/Catalog/Invariant.antt =====
-- What the calls of backend/src/kuuna_backend/domain/tools/service.py keep.
use kuuna_support_agents.Common.{
  ◌≤◌, ◌≡◌, refl, sym, subst, ◌∙◌, Bool, true, false, ◌&&◌, not, List, [], ◌∷◌, Text, strip,
  is_empty, text_eq, text_eq_iff, any, all, all-append, count, count-append, count-snoc_le_one,
  count-eq_zero_of_any, update_where, count-update_where_mono, if◌then◌else◌, arith, Bool-cases,
  inl, inr,
}
use kuuna_support_agents.Catalog.{
  ToolCatalogEntry, DefaultToolDefinition, Catalog, Upsert, has_key, default_tool_catalog, entry_of,
  is_missing, missing_entries, ensure_default_catalog_entries, list_tool_catalog_stores, or_runtime,
  normalized, overwrite, store_entry, validated, upsert_tool_catalog_entry,
}

is_distinct : List DefaultToolDefinition → Bool
is_distinct [] = true
is_distinct (d ∷ ds) = not (any (λ x. text_eq d.tool_key x.tool_key) ds) && is_distinct ds

count-eq_zero_of_absent :
    (k t : Text) (ds : List DefaultToolDefinition)
    → text_eq k t ≡ true
    → any (λ x. text_eq t x.tool_key) ds ≡ false
    → count (λ d. text_eq k d.tool_key) ds ≡ 0
count-eq_zero_of_absent k t [] e h = refl
count-eq_zero_of_absent k t (d ∷ ds) e h =
    let same : k ≡ t = (text_eq_iff k t).0 e in
    rw same (ground (arith, count-eq_zero_of_absent k t ds, same))

count-distinct :
    (k : Text) (ds : List DefaultToolDefinition)
    → is_distinct ds ≡ true
    → count (λ d. text_eq k d.tool_key) ds ≤ 1
unfolding is_distinct
count-distinct k [] h = omega arith
count-distinct k (d ∷ ds) h =
    ground (arith, count-distinct k ds, count-eq_zero_of_absent k d.tool_key ds)

missing_same :
    (k : Text) (db : Catalog) (d : DefaultToolDefinition)
    → text_eq k d.tool_key ≡ true
    → is_missing db d ≡ not (any (has_key k) db)
missing_same k db d e = let same : k ≡ d.tool_key = (text_eq_iff k d.tool_key).0 e in rw same refl

count-missing :
    (k : Text) (db : Catalog) (ds : List DefaultToolDefinition)
    → count (has_key k) (missing_entries db ds)
      ≡ (if any (has_key k) db then 0 else count (λ d. text_eq k d.tool_key) ds)
count-missing k db [] = ground arith
count-missing k db (d ∷ ds) = ground (arith, count-missing k db ds, missing_same k db d)

-- No text of an entry that identifies or explains it is empty.
abbrev pub is_filled : ToolCatalogEntry → Bool
is_filled entry =
    not (is_empty entry.tool_key)
    && not (is_empty entry.display_name)
    && not (is_empty entry.description)
    && not (is_empty entry.category)

-- The keys are different, as the unique constraint wants them, and every entry is filled.
pub record IsValid (db : Catalog) : Type 0 where
  pub keys : (k : Text) → count (has_key k) db ≤ 1
  pub filled : all is_filled db ≡ true

count-eq_zero : (k : Text) (db : Catalog) → any (has_key k) db ≡ false → count (has_key k) db ≡ 0
count-eq_zero k db h = count-eq_zero_of_any (has_key k) (has_key k) (λ x e. e) db h

abbrev is_filled_definition : DefaultToolDefinition → Bool
is_filled_definition d = is_filled (entry_of d)

all-missing :
    (db : Catalog) (ds : List DefaultToolDefinition)
    → all is_filled_definition ds ≡ true
    → all is_filled (missing_entries db ds) ≡ true
all-missing db [] h = refl
all-missing db (d ∷ ds) h = ground (arith, all-missing db ds)

distinct_defaults : is_distinct default_tool_catalog ≡ true
unfolding is_distinct text_eq
distinct_defaults = refl

count-ensured :
    (k : Text) (db : Catalog)
    → count (has_key k) db ≤ 1
    → count (has_key k) (ensure_default_catalog_entries db) ≤ 1
count-ensured k db old =
    let one = count-distinct k default_tool_catalog distinct_defaults in
    let both = count-append (has_key k) db (missing_entries db default_tool_catalog) in
    let new = count-missing k db default_tool_catalog in
    let absent = count-eq_zero k db in
    elim (Bool-cases (any (has_key k) db)) [
      | inl e ↦
          let none_new : count (has_key k) (missing_entries db default_tool_catalog) ≡ 0 =
            rw e at new in
          omega arith
      | inr e ↦
          let as_default : count (has_key k) (missing_entries db default_tool_catalog)
              ≡ count (λ d. text_eq k d.tool_key) default_tool_catalog =
            rw e at new in
          let none_old = absent e in omega arith
    ]

ensure-IsValid : (db : Catalog) → IsValid db → IsValid (ensure_default_catalog_entries db)
ensure-IsValid db h = record {
  keys = λ k. count-ensured k db (h.keys k);
  filled =
      all-append is_filled db (missing_entries db default_tool_catalog)
      ∙ rw (h.filled, all-missing db default_tool_catalog refl) refl;
}

or_runtime-is_empty : (t : Text) → is_empty (or_runtime t) ≡ false
or_runtime-is_empty [] = refl
or_runtime-is_empty (c ∷ t) = refl

keeps_key :
    (entry existing : ToolCatalogEntry) (k : Text)
    → has_key k (overwrite entry existing) ≡ has_key k existing
keeps_key entry existing k = refl

all-overwritten :
    (entry : ToolCatalogEntry) (db : Catalog)
    → is_filled entry ≡ true
    → all is_filled db ≡ true
    → all is_filled (update_where (has_key entry.tool_key) (overwrite entry) db) ≡ true
all-overwritten entry [] e h = refl
all-overwritten entry (x ∷ db) e h = ground (arith, all-overwritten entry db)

store-IsValid :
    (entry : ToolCatalogEntry) (db : Catalog)
    → is_filled entry ≡ true
    → IsValid db
    → IsValid (store_entry entry db)
store-IsValid entry db e h = elim (Bool-cases (any (has_key entry.tool_key) db)) [
  | inl t ↦ rw t (record {
    keys = λ k.
        let few =
          count-update_where_mono (has_key entry.tool_key) (has_key k) (has_key k) (overwrite entry)
            (λ x q. ground arith) db in
        let old = h.keys k in omega arith;
    filled = all-overwritten entry db e h.filled;
  })
  | inr t ↦ rw t (record {
    keys = λ k. count-snoc_le_one (has_key k) db entry (h.keys k) (λ q.
        count-eq_zero k db
          (subst (λ t. any (has_key t) db ≡ false) (sym ((text_eq_iff k entry.tool_key).0 q)) t));
    filled = all-append is_filled db (entry ∷ []) ∙ rw (h.filled, e) refl;
  })
]

validated-IsValid :
    (entry : ToolCatalogEntry) (db : Catalog)
    → is_empty entry.category ≡ false
    → IsValid db
    → IsValid (validated entry db).1
validated-IsValid entry db c h = elim (Bool-cases (is_empty entry.tool_key)) [
  | inl k ↦ rw k h
  | inr k ↦ elim (Bool-cases (is_empty entry.display_name)) [
    | inl n ↦ rw (k, n) h
    | inr n ↦ elim (Bool-cases (is_empty entry.description)) [
      | inl d ↦ rw (k, n, d) h
      | inr d ↦ rw (k, n, d) (store-IsValid entry db (rw (k, n, d, c) refl) h)
    ]
  ]
]

upsert-IsValid :
    (lower : Text → Text) (u : Upsert) (db : Catalog)
    → IsValid db
    → IsValid (upsert_tool_catalog_entry lower u db).1
unfolding upsert_tool_catalog_entry
upsert-IsValid lower u db h =
    validated-IsValid (normalized lower u) db (or_runtime-is_empty (lower (strip u.category))) h

pub data Call : Type 0 where
  list : (bootstrap_defaults : Bool) → Call
  upsert : (lower : Text → Text) → Upsert → Call

abbrev pub apply : Call → Catalog → Catalog
apply (list bootstrap) db = list_tool_catalog_stores bootstrap db
apply (upsert lower u) db = (upsert_tool_catalog_entry lower u db).1

abbrev pub history : List Call → Catalog → Catalog
history [] db = db
history (c ∷ cs) db = history cs (apply c db)

apply-IsValid : (c : Call) (db : Catalog) → IsValid db → IsValid (apply c db)
apply-IsValid (list true) db h = ensure-IsValid db h
apply-IsValid (list false) db h = h
apply-IsValid (upsert lower u) db h = upsert-IsValid lower u db h

-- Every sequence of calls on the catalogue keeps this: the keys of the entries are different, and no
-- key, name, description or category is empty.
pub catalog_history-IsValid :
    (calls : List Call) (db : Catalog) → IsValid db → IsValid (history calls db)
catalog_history-IsValid [] db h = h
catalog_history-IsValid (c ∷ cs) db h =
    catalog_history-IsValid cs (apply c db) (apply-IsValid c db h)
