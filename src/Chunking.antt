-- ===== src/Chunking.antt =====
-- services/code_chunking.py: the chunks of a file that are embedded and searched.
pub mod Chunks
pub mod Kept
mod Witnesses
use revy.Common.{
  ℕ, zero, suc, ◌+◌, String, Bool, true, false, not, ◌&&◌, List, [], ◌∷◌, ◌++◌, ◌==◌, ltb, str_eq,
  if◌then◌else◌, strip, join, splitlines, text_length,
}

abbrev pub max_chunk_chars : ℕ
max_chunk_chars = 2000

pub record CodeChunk : Type 0 where
  pub file_path : String
  pub chunk_index : ℕ
  pub content : String

-- `bool(buffer)`
abbrev pub has_lines : List String → Bool
has_lines [] = false
has_lines (line ∷ lines) = true

-- The text of a buffer, `"\n".join(buffer).strip()`.
abbrev pub chunk_text : List String → String
chunk_text buffer = strip (join "\n" buffer)

-- `flush`, before the chunks that come after it: it adds a chunk if the buffer has text, and the next
-- chunk then has the next index.
unfoldable pub flush : String → ℕ → List String → (ℕ → List CodeChunk) → List CodeChunk
flush file_path chunk_index buffer later =
    let text = chunk_text buffer in
    if has_lines buffer && not (str_eq text "")
    then record { file_path = file_path; chunk_index = chunk_index; content = text }
      ∷ later (suc chunk_index)
    else later chunk_index

-- The loop over the lines, with the last `flush`.
unfoldable pub chunk_lines : String → List String → List String → ℕ → ℕ → List CodeChunk
chunk_lines file_path [] buffer buffer_len chunk_index =
    flush file_path chunk_index buffer (λ i. [])
chunk_lines file_path (line ∷ lines) buffer buffer_len chunk_index =
    let line_len = text_length line + 1 in
    let fresh =
      flush file_path chunk_index buffer
        (λ i. chunk_lines file_path lines (line ∷ []) line_len i) in
    let longer =
      chunk_lines file_path lines (buffer ++ line ∷ []) (buffer_len + line_len) chunk_index in
    if has_lines buffer && ltb max_chunk_chars (buffer_len + line_len) then fresh else longer

unfoldable pub chunk_file_content : String → String → List CodeChunk
chunk_file_content file_path content =
    if str_eq (strip content) "" then [] else chunk_lines file_path (splitlines content) [] 0 0
