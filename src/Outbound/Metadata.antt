-- ===== src/Outbound/Metadata.antt =====
-- The `_dispatch` entry of a payload: `_merge_dispatch_metadata` of
-- backend/src/kuuna_backend/domain/outbound/service.py.
use kuuna_support_agents.Common.{
  ◌≡◌, refl, some, none, String, str_eq, arith, false, Option-cases, inl, inr,
}
use kuuna_support_agents.Common.Json.{
  end, Json, Fields, obj, get, put, update, get_last, get-put, get-update,
}
use text.Mathlib.TextPositions.{eq_refl}
use kuuna_support_agents.Outbound.{as_dict, merge_dispatch_metadata}

-- The payload has a dict under `_dispatch`.
abbrev pub HasDispatch : Fields → Type 0
HasDispatch p = (d : Fields) × (get "_dispatch" p ≡ some (obj d))

get-put_self : (k : String) (v : Json) (d : Fields) → get k (put k v d) ≡ some v
get-put_self k v d = rw get-put (rw eq_refl)

get-put_ne :
    (k j : String) (v : Json) (d : Fields) → str_eq k j ≡ false → get j (put k v d) ≡ get j d
get-put_ne k j v d h = rw get-put (rw h)

-- If a merge succeeds, the old `_dispatch` entry was a dict, absent or falsy; the new one holds the
-- updates over it, key by key, and every other key of the payload is unchanged.
pub merge_effect :
    (p u q : Fields) (k j : String)
    → merge_dispatch_metadata p u ≡ some q
    → str_eq "_dispatch" k ≡ false
    → (old new : Fields) × (as_dict (get "_dispatch" p) ≡ some old)
      × (get "_dispatch" q ≡ some (obj new))
      × (get j new ≡ get_last j u (get j old))
      × (get k q ≡ get k p)
unfolding merge_dispatch_metadata
merge_effect p u q k j h n = elim (Option-cases (as_dict (get "_dispatch" p))) [
  | inl e ↦ absurd (ground arith)
  | inr (d, e) ↦
      let written : q ≡ put "_dispatch" (obj (update d u)) p = ground arith in
      (
        d,
        update d u,
        e,
        rw written (get-put_self "_dispatch" (obj (update d u)) p),
        get-update j d u,
        rw written (get-put_ne "_dispatch" k (obj (update d u)) p n),
      )
]

pub merge-HasDispatch : (p u q : Fields) → merge_dispatch_metadata p u ≡ some q → HasDispatch q
merge-HasDispatch p u q h =
    let (old, new, _, e, _, _) = merge_effect p u q "k" "k" h refl in (new, e)

pub merge_total :
    (p u : Fields) → HasDispatch p → (q : Fields) × (merge_dispatch_metadata p u ≡ some q)
unfolding merge_dispatch_metadata
merge_total p u (d, e) = (put "_dispatch" (obj (update d u)) p, ground (arith, e))

-- A payload without `_dispatch` takes a merge.
pub merge_absent :
    (p u : Fields)
    → get "_dispatch" p ≡ none
    → (q : Fields) × (merge_dispatch_metadata p u ≡ some q)
unfolding merge_dispatch_metadata
merge_absent p u e = (put "_dispatch" (obj (update end u)) p, ground (arith, e))
