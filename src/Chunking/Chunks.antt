-- ===== src/Chunking/Chunks.antt =====
-- The chunks of a file: their order, that none is empty, and their size.
use revy.Common.{
  ℕ, suc, ◌+◌, ◌≤◌, ◌≡◌, ◌≢◌, refl, String, false, not, ◌&&◌, List, [], ◌∷◌, ◌++◌, ltb, str_eq,
  eq_iff, arith, strip, join, splitlines, text_length, total_length, length-strip, length-join, All,
  Bool-cases, inl, inr,
}
use revy.Chunking.{
  CodeChunk, max_chunk_chars, has_lines, chunk_text, flush, chunk_lines, chunk_file_content,
}

-- A chunk of the file with that index, with text, of at most `most` characters.
pub record IsChunk (file_path : String) (index most : ℕ) (c : CodeChunk) : Type 0 where
  pub path : c.file_path ≡ file_path
  pub place : c.chunk_index ≡ index
  pub text : c.content ≢ ""
  pub size : text_length c.content ≤ most

-- Chunks that are numbered one after the other from an index.
abbrev pub AreChunks : String → ℕ → ℕ → List CodeChunk → Type 0
AreChunks file_path index most [] = Unit
AreChunks file_path index most (c ∷ cs) =
    IsChunk file_path index most c × AreChunks file_path (suc index) most cs

empty-chunk_text : text_length (chunk_text []) ≡ 0
unfolding strip join
empty-chunk_text = refl

length-chunk_text :
    (buffer : List String) (most : ℕ)
    → total_length buffer ≤ suc most
    → text_length (chunk_text buffer) ≤ most
length-chunk_text [] most h = let none_ = empty-chunk_text in omega arith
length-chunk_text (line ∷ lines) most h =
    let joined = length-join "\n" line lines refl in
    let stripped = length-strip (join "\n" (line ∷ lines)) in omega arith

flush-AreChunks :
    (file_path : String) (index most : ℕ) (buffer : List String) (later : ℕ → List CodeChunk)
    → total_length buffer ≤ suc most
    → ((i : ℕ) → AreChunks file_path i most (later i))
    → AreChunks file_path index most (flush file_path index buffer later)
unfolding flush
flush-AreChunks file_path index most buffer later short rest =
    elim (Bool-cases (has_lines buffer && not (str_eq (chunk_text buffer) ""))) [
      | inl full ↦ rw full (
        record {
          path = refl;
          place = refl;
          text = λ e. absurd (ground (arith, eq_iff (chunk_text buffer) ""));
          size = length-chunk_text buffer most short;
        },
        rest (suc index),
      )
      | inr blank ↦ rw blank (rest index)
    ]

total_length-append :
    (buffer : List String) (line : String)
    → total_length (buffer ++ line ∷ []) ≡ total_length buffer + (text_length line + 1)
total_length-append [] line = ground arith
total_length-append (s ∷ ss) line = let rest = total_length-append ss line in omega arith

empty_buffer : (buffer : List String) → has_lines buffer ≡ false → total_length buffer ≡ 0
empty_buffer [] h = refl
empty_buffer (s ∷ ss) h = absurd (ground arith)

-- A line that is added to the buffer leaves room, or is the first one.
short_line :
    (buffer : List String) (line : String) (buffer_len most : ℕ)
    → total_length buffer ≡ buffer_len
    → max_chunk_chars ≤ suc most
    → text_length line ≤ most
    → has_lines buffer && ltb max_chunk_chars (buffer_len + (text_length line + 1)) ≡ false
    → buffer_len + (text_length line + 1) ≤ suc most
short_line buffer line buffer_len most len room fit h = elim (Bool-cases (has_lines buffer)) [
  | inl some_ ↦
      let below : ltb max_chunk_chars (buffer_len + (text_length line + 1)) ≡ false =
        rw some_ at h in
      ground arith
  | inr none_ ↦ let start = empty_buffer buffer none_ in omega arith
]

chunk_lines-AreChunks :
    (file_path : String) (lines buffer : List String) (buffer_len index most : ℕ)
    → All (λ line. text_length line ≤ most) lines
    → max_chunk_chars ≤ suc most
    → total_length buffer ≡ buffer_len
    → buffer_len ≤ suc most
    → AreChunks file_path index most (chunk_lines file_path lines buffer buffer_len index)
unfolding chunk_lines
chunk_lines-AreChunks file_path [] buffer buffer_len index most fit room len short =
    flush-AreChunks file_path index most buffer (λ i. []) (omega arith) (λ i. tt)
chunk_lines-AreChunks file_path (line ∷ lines) buffer buffer_len index most fit room len short =
    elim (Bool-cases
      (has_lines buffer && ltb max_chunk_chars (buffer_len + (text_length line + 1)))) [
        | inl full ↦ rw full (
            flush-AreChunks file_path index most buffer _ (omega arith) (λ i.
              chunk_lines-AreChunks file_path lines (line ∷ []) (text_length line + 1) i most fit.1
                room (omega arith) (let first = fit.0 in omega arith)))
        | inr room_left ↦ rw room_left (
            chunk_lines-AreChunks file_path lines (buffer ++ line ∷ [])
              (buffer_len + (text_length line + 1)) index most fit.1 room
              (let more = total_length-append buffer line in omega arith)
              (short_line buffer line buffer_len most len room fit.0 room_left))
      ]

-- A file's chunks are numbered from 0 in order, carry its path, and each has text. A chunk has at most
-- 1999 characters, or as many as the longest line if that is longer: a line is never cut.
pub chunk_file_content-AreChunks :
    (file_path content : String) (longest : ℕ)
    → All (λ line. text_length line ≤ longest) (splitlines content)
    → 1999 ≤ longest
    → AreChunks file_path 0 longest (chunk_file_content file_path content)
unfolding chunk_file_content
chunk_file_content-AreChunks file_path content longest fit room =
    elim (Bool-cases (str_eq (strip content) "")) [
      | inl blank ↦ rw blank tt
      | inr text ↦ rw text (
          chunk_lines-AreChunks file_path (splitlines content) [] 0 0 longest fit (omega arith) refl
            (omega arith))
    ]
