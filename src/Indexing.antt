-- ===== src/Indexing.antt =====
-- Knowledge indexing: the chunking of backend/src/kuuna_backend/jobs/indexing.py.
-- A text is a list of code points. The `while` loop of `_split_text` runs on fuel: `none` stands for
-- a loop that has not ended, which Indexing/Split refutes for every positive chunk size.
pub mod Split
pub mod Chunks
mod Tests
use kuuna_support_agents.Common.{
  ℕ, zero, suc, ◌+◌, Bool, true, false, not, ◌&&◌, Option, none, some, List, [], ◌∷◌, ◌++◌, Text,
  strip, is_space, is_empty, leb, ltb, ◌==◌, if◌then◌else◌, length, take, drop,
}

abbrev pub max_chunk_chars : ℕ
max_chunk_chars = 1000

-- `s.rfind(c)`: the last position of a character; `none` is -1.
rfind : ℕ → Text → Option ℕ
rfind c [] = none
rfind c (x ∷ xs) = elim (rfind c xs) [
  | some i ↦ some (suc i)
  | none ↦ if x == c then some 0 else none
]

-- A position above 0, or the fallback: `if split_at <= 0: split_at = fallback`.
abbrev pub positive_or : Option ℕ → ℕ → ℕ
positive_or none fallback = fallback
positive_or (some zero) fallback = fallback
positive_or (some (suc i)) fallback = suc i

-- Where the next part ends: the last line break, else the last blank, else the full size.
split_at : ℕ → Text → ℕ
unfolding rfind
split_at max_chunk s =
    let head = take (suc max_chunk) s in
    positive_or (rfind 10 head) (positive_or (rfind 32 head) max_chunk)

-- `if part: parts.append(part)`, in front of the parts that follow.
abbrev pub append_part : Text → Option (List Text) → Option (List Text)
append_part part none = none
append_part [] (some parts) = some parts
append_part (c ∷ part) (some parts) = some ((c ∷ part) ∷ parts)

-- The loop of `_split_text` over `remaining`.
pub split_loop : (fuel max_chunk : ℕ) → Text → Option (List Text)
split_loop zero max_chunk s = none
split_loop (suc fuel) max_chunk [] = some []
split_loop (suc fuel) max_chunk (c ∷ s) =
    let k = split_at max_chunk (c ∷ s) in
    let rest = split_loop fuel max_chunk (strip (drop k (c ∷ s))) in
    let more = append_part (strip (take k (c ∷ s))) rest in
    if leb (length (c ∷ s)) max_chunk then some ((c ∷ s) ∷ []) else more

-- `parts or [text[:max_chunk_chars]]`
abbrev pub or_head : ℕ → Text → List Text → List Text
or_head max_chunk text [] = take max_chunk text ∷ []
or_head max_chunk text (p ∷ parts) = p ∷ parts

-- `parts or [text[:max_chunk_chars]]`, once the loop has ended.
abbrev pub or_head_parts : ℕ → Text → Option (List Text) → Option (List Text)
or_head_parts max_chunk text none = none
or_head_parts max_chunk text (some parts) = some (or_head max_chunk text parts)

-- `_split_text` from its stripped text on.
pub split_stripped : (max_chunk : ℕ) (text remaining : Text) → Option (List Text)
unfolding split_loop split_at
split_stripped max_chunk text [] = some ([] ∷ [])
split_stripped max_chunk text (c ∷ s) =
    or_head_parts max_chunk text (split_loop (suc (length (c ∷ s))) max_chunk (c ∷ s))

-- `_split_text`
unfoldable pub split_text : (max_chunk : ℕ) → Text → Option (List Text)
unfolding split_stripped
split_text max_chunk text = split_stripped max_chunk text (strip text)

-- `s.replace("\r\n", "\n")`
replace_crlf : Text → Text
replace_crlf [] = []
replace_crlf (c ∷ []) = c ∷ []
replace_crlf (c ∷ d ∷ s) =
    let short = replace_crlf s in
    let long = replace_crlf (d ∷ s) in if c == 13 && d == 10 then 10 ∷ short else c ∷ long

-- `s.replace("\r", "\n")`
replace_cr : Text → Text
replace_cr [] = []
replace_cr (c ∷ s) = (if c == 13 then 10 else c) ∷ replace_cr s

abbrev push : ℕ → List Text → List Text
push c [] = (c ∷ []) ∷ []
push c (p ∷ ps) = (c ∷ p) ∷ ps

-- `s.split("\n\n")`
split_blank_lines : Text → List Text
split_blank_lines [] = [] ∷ []
split_blank_lines (c ∷ []) = (c ∷ []) ∷ []
split_blank_lines (c ∷ d ∷ s) =
    let after = [] ∷ split_blank_lines s in
    let within = push c (split_blank_lines (d ∷ s)) in if c == 10 && d == 10 then after else within

-- The paragraphs that are not blank, stripped.
non_blank : List Text → List Text
non_blank [] = []
non_blank (p ∷ ps) =
    let rest = non_blank ps in elim (strip p) [ [] ↦ rest | c ∷ s ↦ (c ∷ s) ∷ rest ]

-- One turn of the inner loop of `_chunk_markdown`: the state is the chunks closed so far and
-- `current_chunk`, where an empty text is no chunk.
pub add_part : (max_chunk : ℕ) → List Text × Text → Text → List Text × Text
add_part max_chunk (chunks, []) part = (chunks, part)
add_part max_chunk (chunks, c ∷ current) part =
    let candidate = (c ∷ current) ++ 10 ∷ 10 ∷ part in
    if leb (length candidate) max_chunk
    then (chunks, candidate)
    else (chunks ++ (c ∷ current) ∷ [], part)

pub add_parts : (max_chunk : ℕ) → List Text × Text → List Text → List Text × Text
unfolding add_part
add_parts max_chunk st [] = st
add_parts max_chunk st (p ∷ ps) = add_parts max_chunk (add_part max_chunk st p) ps

abbrev pub and_then : {A B : Type 0} → Option A → (A → Option B) → Option B
and_then none k = none
and_then (some a) k = k a

-- The loop over the paragraphs.
pub add_paragraphs : (max_chunk : ℕ) → List Text × Text → List Text → Option (List Text × Text)
unfolding add_parts split_text
add_paragraphs max_chunk st [] = some st
add_paragraphs max_chunk st (p ∷ ps) =
    and_then (split_text max_chunk p)
      (λ parts. add_paragraphs max_chunk (add_parts max_chunk st parts) ps)

-- `if current_chunk: chunks.append(current_chunk)`, and `chunks or [normalized_content[:max]]`.
pub close_chunks : (max_chunk : ℕ) → Text → List Text × Text → List Text
close_chunks max_chunk content (chunks, []) = or_head max_chunk content chunks
close_chunks max_chunk content (chunks, c ∷ current) =
    or_head max_chunk content (chunks ++ (c ∷ current) ∷ [])

-- `[_split_text(normalized_content, max_chunk_chars)[0]]`, for a text without a paragraph.
first_only : Option (List Text) → Option (List Text)
first_only none = none
first_only (some []) = some []
first_only (some (p ∷ ps)) = some (p ∷ [])

-- `content_markdown.replace("\r\n", "\n").replace("\r", "\n").strip()`
pub normalize_content : Text → Text
unfolding replace_crlf replace_cr
normalize_content s = strip (replace_cr (replace_crlf s))

pub paragraphs : Text → List Text
unfolding split_blank_lines non_blank
paragraphs content = non_blank (split_blank_lines content)

chunk_content : (max_chunk : ℕ) → Text → List Text → Option (List Text)
unfolding first_only close_chunks add_paragraphs
chunk_content max_chunk content [] = first_only (split_text max_chunk content)
chunk_content max_chunk content (p ∷ ps) =
    and_then (add_paragraphs max_chunk ([], []) (p ∷ ps))
      (λ st. some (close_chunks max_chunk content st))

-- `if not normalized_content: return [""]`
chunk_normalized : (max_chunk : ℕ) → Text → Option (List Text)
unfolding paragraphs chunk_content
chunk_normalized max_chunk [] = some ([] ∷ [])
chunk_normalized max_chunk (c ∷ s) = chunk_content max_chunk (c ∷ s) (paragraphs (c ∷ s))

-- `_chunk_markdown`
unfoldable pub chunk_markdown : (max_chunk : ℕ) → Text → Option (List Text)
unfolding normalize_content chunk_normalized
chunk_markdown max_chunk content_markdown =
    chunk_normalized max_chunk (normalize_content content_markdown)

-- `len(content.split())`: the number of runs of characters that are not blank; the flag says whether
-- the character before was in such a run.
word_count : Bool → Text → ℕ
unfolding is_space
word_count inside [] = 0
word_count inside (c ∷ s) =
    (if not (is_space c) && not inside then 1 else 0) + word_count (not (is_space c)) s

-- `_token_count`
unfoldable pub token_count : Text → ℕ
unfolding word_count
token_count content = let s = strip content in if is_empty s then 0 else word_count false s
