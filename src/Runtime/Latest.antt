-- ===== src/Runtime/Latest.antt =====
-- The latest build: the query of backend/src/kuuna_backend/domain/runtime/resolve.py.
use kuuna_support_agents.Common.{
  ◌≡◌, refl, ap, sym, ◌∙◌, ◌≢◌, any, subst, Bool, true, false, ◌&&◌, not, Option, none, some, List,
  [], ◌∷◌, ◌++◌, all, if◌then◌else◌, arith, Bool-cases, Option-cases, inl, inr,
}
use kuuna_support_agents.Runtime.{TemplateBuild, is_newer, later, latest}

-- A row of the table that passes the test, than which no row that passes it is newer.
abbrev pub IsLatest : (TemplateBuild → Bool) → List TemplateBuild → TemplateBuild → Type 0
IsLatest p bs b =
    ((before after : List TemplateBuild) × (bs ≡ before ++ b ∷ after))
    × (p b ≡ true)
    × (all (λ c. not (p c && is_newer c b)) bs ≡ true)

not_newer_trans :
    (x d c : TemplateBuild) → is_newer d c ≡ false → is_newer x d ≡ false → is_newer x c ≡ false
not_newer_trans x d c h k = ground arith

newer_asym : (c d : TemplateBuild) → is_newer d c ≡ true → is_newer c d ≡ false
newer_asym c d h = ground arith

newer_irrefl : (c : TemplateBuild) → is_newer c c ≡ false
newer_irrefl c = ground arith

later_some : (b : TemplateBuild) (o : Option TemplateBuild) → later b o ≢ none
later_some b none h = absurd (ground arith)
later_some b (some c) h = elim (Bool-cases (is_newer c b)) [
  | inl e ↦ absurd (ground arith)
  | inr e ↦ absurd (ground arith)
]

if_true {ℓ} : {A : Type ℓ} {b : Bool} (x y : A) → b ≡ true → (if b then x else y) ≡ x
if_true x y e = rw e

if_false {ℓ} : {A : Type ℓ} {b : Bool} (x y : A) → b ≡ false → (if b then x else y) ≡ y
if_false x y e = rw e

no_newer :
    (p : TemplateBuild → Bool) (bs : List TemplateBuild) (c : TemplateBuild)
    → latest p bs ≡ none
    → all (λ x. not (p x && is_newer x c)) bs ≡ true
unfolding latest
no_newer p [] c h = refl
no_newer p (b ∷ bs) c h = elim (Bool-cases (p b)) [
  | inl e ↦ absurd (later_some b (latest p bs) (sym (if_true _ _ e) ∙ h))
  | inr e ↦ rw e (no_newer p bs c (sym (if_false _ _ e) ∙ h))
]

stays_newest :
    (p : TemplateBuild → Bool) (bs : List TemplateBuild) (d c : TemplateBuild)
    → is_newer d c ≡ false
    → all (λ x. not (p x && is_newer x d)) bs ≡ true
    → all (λ x. not (p x && is_newer x c)) bs ≡ true
stays_newest p [] d c h k = refl
stays_newest p (x ∷ bs) d c h k = elim (Bool-cases (is_newer x d)) [
  | inl e ↦ ground (arith, stays_newest p bs d c h)
  | inr e ↦ rw (not_newer_trans x d c h e) (ground (arith, stays_newest p bs d c h))
]

behind :
    (c : TemplateBuild) (bs : List TemplateBuild) (b : TemplateBuild)
    → (before after : List TemplateBuild) × (bs ≡ before ++ b ∷ after)
    → (before after : List TemplateBuild) × (c ∷ bs ≡ before ++ b ∷ after)
behind c bs b (before, after, e) = (c ∷ before, after, ap (λ t. c ∷ t) e)

pub none-latest :
    (p : TemplateBuild → Bool) (bs : List TemplateBuild) → latest p bs ≡ none → any p bs ≡ false
unfolding latest
none-latest p [] h = refl
none-latest p (b ∷ bs) h = elim (Bool-cases (p b)) [
  | inl e ↦ absurd (later_some b (latest p bs) (sym (if_true _ _ e) ∙ h))
  | inr e ↦ rw e (none-latest p bs (sym (if_false _ _ e) ∙ h))
]

pub latest-IsLatest :
    (p : TemplateBuild → Bool) (bs : List TemplateBuild) (b : TemplateBuild)
    → latest p bs ≡ some b
    → IsLatest p bs b
unfolding latest
latest-IsLatest p [] b h = absurd (ground arith)
latest-IsLatest p (c ∷ bs) b h = elim (Bool-cases (p c)) [
  | inr e ↦
      let (place, pb, top) = latest-IsLatest p bs b (sym (if_false _ _ e) ∙ h) in
      (behind c bs b place, pb, rw e top)
  | inl e ↦ elim (Option-cases (latest p bs)) [
    | inl empty ↦
        let same : c ≡ b = ground (arith, sym (if_true _ _ e) ∙ h) in
        subst (IsLatest p (c ∷ bs)) same
          (([], bs, refl), e, rw (newer_irrefl c, e) (no_newer p bs c empty))
    | inr (d, rest) ↦
        let (place, pd, top) = latest-IsLatest p bs d rest in
        let chosen : later c (some d) ≡ some b =
          sym (ap (later c) rest) ∙ sym (if_true _ _ e) ∙ h in
        elim (Bool-cases (is_newer d c)) [
          | inl n ↦
              let same : d ≡ b = ground (arith, sym (if_true _ _ n) ∙ chosen) in
              subst (IsLatest p (c ∷ bs)) same
                (behind c bs d place, pd, rw (newer_asym c d n, e) top)
          | inr n ↦
              let same : c ≡ b = ground (arith, sym (if_false _ _ n) ∙ chosen) in
              subst (IsLatest p (c ∷ bs)) same
                (([], bs, refl), e, rw (newer_irrefl c, e) (stays_newest p bs d c n top))
        ]
  ]
]
