-- ===== src/Indexing/Tests.antt =====
-- Chunking at concrete documents.
use kuuna_support_agents.Common.{◌≡◌, refl, some, [], ◌∷◌, codes, arith, strip}
use kuuna_support_agents.Indexing.{split_text, chunk_markdown, token_count}
use kuuna_support_agents.Indexing.Split.{Covers, split_text-Covers}
use kuuna_support_agents.Indexing.Chunks.{chunk_markdown-Covers}

-- A cut at a blank, and a hard cut inside a word.
split_words :
    split_text 6 (codes "alpha beta gammadelta")
    ≡ some (codes "alpha" ∷ codes "beta" ∷ codes "gammad" ∷ codes "elta" ∷ [])
unfolding split_text strip
split_words = refl

split_text-Covers_example : Covers 6 (codes "alpha beta") (split_text 6 (codes "alpha beta"))
split_text-Covers_example = split_text-Covers 6 (codes "alpha beta") (omega arith)

chunk_two :
    chunk_markdown 12 (codes "one\r\n\r\ntwo\n\nthree four")
    ≡ some (codes "one\n\ntwo" ∷ codes "three four" ∷ [])
unfolding chunk_markdown strip
chunk_two = refl

chunk_markdown-Covers_example :
    Covers 12 (codes "one\n\ntwo three") (chunk_markdown 12 (codes "one\n\ntwo three"))
chunk_markdown-Covers_example = chunk_markdown-Covers 12 (codes "one\n\ntwo three") (omega arith)

three_tokens : token_count (codes " one  two\nthree ") ≡ 3
unfolding token_count strip
three_tokens = refl
