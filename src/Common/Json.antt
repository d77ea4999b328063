-- ===== src/Common/Json.antt =====
-- JSON values as Python's `json` gives them, and the dict operations that the program uses.
use Prim.Native.Nat.{ℕ, zero, suc}
use Prim.Native.String.{String}
use mathlib.Core.Path.{◌≡◌, refl}
use mathlib.Core.Bool.{Bool, true, false, not}
use mathlib.Core.Option.{Option, none, some}
use mathlib.Core.List.{List, [], ◌∷◌}
use native.Mathlib.Omega.{arith}
use text.Mathlib.Text.{◌==◌ as str_eq}
use text.Mathlib.TextEquality.{eq_iff}
use kuuna_support_agents.Common.Tests.{if◌then◌else◌}
use kuuna_support_agents.Common.Texts.{Text, is_empty, codes, text_eq}

-- An integer: `pos n` is n and `negsuc n` is - (n + 1).
pub data ℤ : Type 0 where
  pos negsuc : ℕ → ℤ

mutual
  -- A float is a decimal number: its sign, its digits as one number, and how many of them stand after
  -- the point.
  pub data Json : Type 0 where
    null : Json
    bool : Bool → Json
    num : ℤ → Json
    decimal : (is_negative : Bool) → (digits scale : ℕ) → Json
    str : Text → Json
    arr : Items → Json
    obj : Fields → Json

  pub data Items : Type 0 where
    nil : Items
    cons : Json → Items → Items

  -- A dict in insertion order.
  pub data Fields : Type 0 where
    end : Fields
    field : String → Json → Fields → Fields

-- `d.get(key)`
unfoldable pub get : String → Fields → Option Json
get k end = none
get k (field j v d) = if str_eq j k then some v else get k d

-- `d[key] = value`
unfoldable pub put : String → Json → Fields → Fields
put k v end = field k v end
put k v (field j w d) = if str_eq j k then field k v d else field j w (put k v d)

-- `d.setdefault(key, value)`
unfoldable pub set_default : String → Json → Fields → Fields
unfolding get put
set_default k v d = elim (get k d) [ none ↦ put k v d | some _ ↦ d ]

-- `d.update(e)`
unfoldable pub update : Fields → Fields → Fields
update d end = d
update d (field k v e) = update (put k v d) e

abbrev pub elements : Items → List Json
elements nil = []
elements (cons j js) = j ∷ elements js

abbrev pub items : List Json → Items
items [] = nil
items (j ∷ js) = cons j (items js)

abbrev pub append : Items → Items → Items
append nil ks = ks
append (cons j js) ks = cons j (append js ks)

-- Python's truth of a value that may be missing.
abbrev pub truthy : Option Json → Bool
truthy none = false
truthy (some null) = false
truthy (some (bool b)) = b
truthy (some (num (pos zero))) = false
truthy (some (num (pos (suc n)))) = true
truthy (some (num (negsuc n))) = true
truthy (some (decimal negative zero scale)) = false
truthy (some (decimal negative (suc n) scale)) = true
truthy (some (str t)) = not (is_empty t)
truthy (some (arr nil)) = false
truthy (some (arr (cons j js))) = true
truthy (some (obj end)) = false
truthy (some (obj (field k v d))) = true

-- `d.get(key)` for a key that was computed.
unfoldable pub get_text : Text → Fields → Option Json
get_text k end = none
get_text k (field j v d) = if text_eq (codes j) k then some v else get_text k d

abbrev pub or_null : Option Json → Json
or_null none = null
or_null (some j) = j

pub get-put :
    (k j : String) (v : Json) (d : Fields)
    → get j (put k v d) ≡ (if str_eq k j then some v else get j d)
unfolding get put
get-put k j v end = refl
get-put k j v (field i w d) = ground (arith, eq_iff k j, eq_iff i k, eq_iff i j, get-put k j v d)

-- What `update` leaves at a key: the last value given for it, or what was there.
abbrev pub get_last : String → Fields → Option Json → Option Json
get_last j end o = o
get_last j (field k v e) o = get_last j e (if str_eq k j then some v else o)

pub get-update : (j : String) (d e : Fields) → get j (update d e) ≡ get_last j e (get j d)
unfolding update
get-update j d end = refl
get-update j d (field k v e) = ground (arith, get-update j (put k v d) e, get-put k j v d)

pub get-set_default :
    (k j : String) (v : Json) (d : Fields)
    → str_eq k j ≡ false
    → get j (set_default k v d) ≡ get j d
unfolding set_default
get-set_default k j v d h = ground (arith, get-put k j v d)
