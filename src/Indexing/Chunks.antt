-- ===== src/Indexing/Chunks.antt =====
-- `_chunk_markdown` of backend/src/kuuna_backend/jobs/indexing.py: every chunk is within the limit,
-- and the text is kept but for its blanks.
use mathlib.Core.List.{append-nil, append_assoc}
use kuuna_support_agents.Common.{
  ℕ, ◌≤◌, ◌≡◌, refl, ap, ◌∙◌, sym, true, Option, none, some, List, [], ◌∷◌, ◌++◌, Text, is_space,
  leb, length, All, arith, Bool-cases, inl, inr,
}
use kuuna_support_agents.Indexing.{
  split_text, replace_crlf, replace_cr, push, split_blank_lines, non_blank, add_part, add_parts,
  add_paragraphs, close_chunks, first_only, normalize_content, paragraphs, chunk_content,
  chunk_normalized, chunk_markdown, and_then,
}
use kuuna_support_agents.Indexing.Split.{
  ink, ink_all, left_empty, ink-append, ink-strip, Covers, or_head-Covers, split_text-Covers,
}

cr_is_space : is_space 13 ≡ true
unfolding is_space
cr_is_space = refl

lf_is_space : is_space 10 ≡ true
unfolding is_space
lf_is_space = refl

ink-replace_crlf : (s : Text) → ink (replace_crlf s) ≡ ink s
unfolding replace_crlf
ink-replace_crlf [] = refl
ink-replace_crlf (c ∷ []) = refl
ink-replace_crlf (c ∷ d ∷ s) =
    ground (arith, cr_is_space, lf_is_space, ink-replace_crlf s, ink-replace_crlf (d ∷ s))

ink-replace_cr : (s : Text) → ink (replace_cr s) ≡ ink s
unfolding replace_cr
ink-replace_cr [] = refl
ink-replace_cr (c ∷ s) = ground (arith, cr_is_space, lf_is_space, ink-replace_cr s)

ink-normalize_content : (s : Text) → ink (normalize_content s) ≡ ink s
ink-normalize_content s =
    unfold normalize_content in
    ink-strip (replace_cr (replace_crlf s)) ∙ ink-replace_cr (replace_crlf s) ∙ ink-replace_crlf s

ink_all-append : (ps qs : List Text) → ink_all (ps ++ qs) ≡ ink_all ps ++ ink_all qs
ink_all-append [] qs = refl
ink_all-append (p ∷ ps) qs =
    ap (λ r. ink p ++ r) (ink_all-append ps qs)
    ∙ sym (append_assoc (ink p) (ink_all ps) (ink_all qs))

ink_all-push : (c : ℕ) (ps : List Text) → ink_all (push c ps) ≡ ink (c ∷ []) ++ ink_all ps
ink_all-push c [] = ground arith
ink_all-push c (p ∷ ps) = ground arith

ink_all-split : (s : Text) → ink_all (split_blank_lines s) ≡ ink s
unfolding split_blank_lines
ink_all-split [] = refl
ink_all-split (c ∷ []) = append-nil (ink (c ∷ []))
ink_all-split (c ∷ d ∷ s) = ground (
  arith,
  lf_is_space,
  ink_all-split s,
  ink_all-split (d ∷ s),
  ink_all-push c (split_blank_lines (d ∷ s)),
)

ink_all-non_blank : (ps : List Text) → ink_all (non_blank ps) ≡ ink_all ps
unfolding non_blank
ink_all-non_blank [] = refl
ink_all-non_blank (p ∷ ps) = ground (arith, ink-strip p, ink_all-non_blank ps)

ink_all-paragraphs : (s : Text) → ink_all (paragraphs s) ≡ ink s
ink_all-paragraphs s =
    unfold paragraphs in ink_all-non_blank (split_blank_lines s) ∙ ink_all-split s

-- The chunks so far and the current one hold the text `t`, none of them too long.
abbrev Holds : ℕ → Text → List Text × Text → Type 0
Holds m t (chunks, current) =
    All (λ p. length p ≤ m) chunks × (length current ≤ m) × (ink_all chunks ++ ink current ≡ t)

All-snoc :
    (m : ℕ) (ps : List Text) (p : Text)
    → All (λ p. length p ≤ m) ps
    → length p ≤ m
    → All (λ p. length p ≤ m) (ps ++ p ∷ [])
All-snoc m [] p h l = (l, tt)
All-snoc m (q ∷ ps) p h l = (h.0, All-snoc m ps p h.1 l)

ink-join : (s t : Text) → ink (s ++ 10 ∷ 10 ∷ t) ≡ ink s ++ ink t
ink-join s t = ground (arith, lf_is_space, ink-append s (10 ∷ 10 ∷ t))

ink_all-snoc : (ps : List Text) (p : Text) → ink_all (ps ++ p ∷ []) ≡ ink_all ps ++ ink p
ink_all-snoc ps p = ink_all-append ps (p ∷ []) ∙ ap (λ r. ink_all ps ++ r) (append-nil (ink p))

add_part-Holds :
    (m : ℕ) (t : Text) (st : List Text × Text) (part : Text)
    → length part ≤ m
    → Holds m t st
    → Holds m (t ++ ink part) (add_part m st part)
unfolding add_part
add_part-Holds m t (chunks, []) part l h =
    (h.0, l, ap (λ r. r ++ ink part) (sym (append-nil (ink_all chunks)) ∙ h.2))
add_part-Holds m t (chunks, c ∷ current) part l h =
    elim (Bool-cases (leb (length ((c ∷ current) ++ 10 ∷ 10 ∷ part)) m)) [
      | inl fits ↦ rw fits (
        h.0,
        ground arith,
        ap (λ r. ink_all chunks ++ r) (ink-join (c ∷ current) part)
            ∙ sym (append_assoc (ink_all chunks) (ink (c ∷ current)) (ink part))
            ∙ ap (λ r. r ++ ink part) h.2,
      )
      | inr full ↦ rw full (
        All-snoc m chunks (c ∷ current) h.0 h.1,
        l,
        ap (λ r. r ++ ink part) (ink_all-snoc chunks (c ∷ current) ∙ h.2),
      )
    ]

add_parts-Holds :
    (m : ℕ) (t : Text) (st : List Text × Text) (parts : List Text)
    → All (λ p. length p ≤ m) parts
    → Holds m t st
    → Holds m (t ++ ink_all parts) (add_parts m st parts)
unfolding add_parts
add_parts-Holds m t st [] l h = rw append-nil h
add_parts-Holds m t st (p ∷ ps) l h =
    rw (← append_assoc t (ink p) (ink_all ps))
      (add_parts-Holds m (t ++ ink p) (add_part m st p) ps l.1 (add_part-Holds m t st p l.0 h))

abbrev Ends : ℕ → Text → Option (List Text × Text) → Type 0
Ends m t none = ⊥
Ends m t (some st) = Holds m t st

after_split :
    (m : ℕ) (p u : Text) (o : Option (List Text)) (k : List Text → Option (List Text × Text))
    → Covers m p o
    → ((parts : List Text)
        → All (λ q. length q ≤ m) parts
        → ink_all parts ≡ ink p
        → Ends m u (k parts))
    → Ends m u (and_then o k)
after_split m p u none k c f = absurd c
after_split m p u (some parts) k c f = f parts c.0 c.1

add_paragraphs-Ends :
    (m : ℕ) (t : Text) (st : List Text × Text) (ps : List Text)
    → 1 ≤ m
    → Holds m t st
    → Ends m (t ++ ink_all ps) (add_paragraphs m st ps)
unfolding add_paragraphs
add_paragraphs-Ends m t st [] pos h = rw append-nil h
add_paragraphs-Ends m t st (p ∷ ps) pos h =
    after_split m p (t ++ ink_all (p ∷ ps)) (split_text m p)
      (λ parts. add_paragraphs m (add_parts m st parts) ps) (split_text-Covers m p pos)
      λ parts l e. rw (← append_assoc t (ink p) (ink_all ps)) (
        add_paragraphs-Ends m (t ++ ink p) (add_parts m st parts) ps pos
          (rw (← e) (add_parts-Holds m t st parts l h)))

close_chunks-Covers :
    (m : ℕ) (content : Text) (st : List Text × Text)
    → Holds m (ink content) st
    → Covers m content (some (close_chunks m content st))
unfolding close_chunks
close_chunks-Covers m content (chunks, []) h =
    or_head-Covers m content chunks h.0 (sym (append-nil (ink_all chunks)) ∙ h.2)
close_chunks-Covers m content (chunks, c ∷ current) h =
    or_head-Covers m content (chunks ++ (c ∷ current) ∷ [])
      (All-snoc m chunks (c ∷ current) h.0 h.1) (ink_all-snoc chunks (c ∷ current) ∙ h.2)

close_Ends :
    (m : ℕ) (content : Text) (o : Option (List Text × Text))
    → Ends m (ink content) o
    → Covers m content (and_then o (λ st. some (close_chunks m content st)))
close_Ends m content none h = absurd h
close_Ends m content (some st) h = close_chunks-Covers m content st h

first_only-Covers :
    (m : ℕ) (content : Text) (o : Option (List Text))
    → [] ≡ ink content
    → Covers m content o
    → Covers m content (first_only o)
unfolding first_only
first_only-Covers m content none e h = absurd h
first_only-Covers m content (some []) e h = h
first_only-Covers m content (some (p ∷ ps)) e h = (
  (h.0.0, tt),
  append-nil (ink p) ∙ left_empty (ink p) (ink_all ps) (h.1 ∙ sym e) ∙ e,
  omega arith,
)

chunk_content-Covers :
    (m : ℕ) (content : Text) (ps : List Text)
    → 1 ≤ m
    → ink_all ps ≡ ink content
    → Covers m content (chunk_content m content ps)
chunk_content-Covers m content [] pos e =
    unfold chunk_content in
    first_only-Covers m content (split_text m content) e (split_text-Covers m content pos)
chunk_content-Covers m content (p ∷ ps) pos e =
    unfold chunk_content in
    close_Ends m content (add_paragraphs m ([], []) (p ∷ ps))
      (rw (← e) (add_paragraphs-Ends m [] ([], []) (p ∷ ps) pos (tt, omega arith, refl)))

chunk_normalized-Covers :
    (m : ℕ) (content : Text) → 1 ≤ m → Covers m content (chunk_normalized m content)
unfolding chunk_normalized
chunk_normalized-Covers m [] pos = ((omega arith, tt), refl, omega arith)
chunk_normalized-Covers m (c ∷ s) pos =
    chunk_content-Covers m (c ∷ s) (paragraphs (c ∷ s)) pos (ink_all-paragraphs (c ∷ s))

Covers-ink :
    (m : ℕ) (s t : Text) (o : Option (List Text)) → ink s ≡ ink t → Covers m s o → Covers m t o
Covers-ink m s t none e h = h
Covers-ink m s t (some parts) e h = (h.0, h.1 ∙ e, h.2)

-- For a positive limit `_chunk_markdown` ends for every document; it returns at least one chunk,
-- each chunk has at most `max_chunk` characters, and the chunks hold the document's characters that
-- are not blank, in order.
pub chunk_markdown-Covers :
    (m : ℕ) (content : Text) → 1 ≤ m → Covers m content (chunk_markdown m content)
unfolding chunk_markdown
chunk_markdown-Covers m content pos =
    Covers-ink m (normalize_content content) content
      (chunk_normalized m (normalize_content content)) (ink-normalize_content content)
      (chunk_normalized-Covers m (normalize_content content) pos)
