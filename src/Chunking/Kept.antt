-- ===== src/Chunking/Kept.antt =====
-- What the chunks of a file keep of its text.
use Prim.Native.String.{◌++◌ as ◌<>◌}
use text.Mathlib.TextLemmas.{nil-append, append-nil, append_assoc}
use revy.Common.{
  ℕ, suc, ◌+◌, ◌≡◌, refl, sym, ◌∙◌, ap, String, true, false, not, ◌&&◌, List, [], ◌∷◌, ◌++◌, ltb,
  str_eq, eq_iff, arith, strip, join, splitlines, text_length, map, Bool-cases, inl, inr,
}
use revy.Common.Text.Visible.{visible, visible_all, visible-strip, visible-join, visible-splitlines}
use revy.Chunking.{
  CodeChunk, max_chunk_chars, has_lines, chunk_text, flush, chunk_lines, chunk_file_content,
}

abbrev pub visible_chunks : List CodeChunk → String
visible_chunks chunks = visible_all (map CodeChunk.content chunks)

visible-chunk_text : (buffer : List String) → visible (chunk_text buffer) ≡ visible_all buffer
visible-chunk_text buffer = visible-strip (join "\n" buffer) ∙ visible-join buffer

visible_none : visible "" ≡ ""
unfolding visible
visible_none = refl

text-has_lines :
    (buffer : List String) → str_eq (chunk_text buffer) "" ≡ false → has_lines buffer ≡ true
unfolding strip join
text-has_lines [] h = absurd (ground arith)
text-has_lines (line ∷ lines) h = refl

visible-flush :
    (file_path : String) (index : ℕ) (buffer : List String) (later : ℕ → List CodeChunk)
    (rest : String)
    → ((i : ℕ) → visible_chunks (later i) ≡ rest)
    → visible_chunks (flush file_path index buffer later) ≡ visible_all buffer <> rest
unfolding flush visible_all
visible-flush file_path index buffer later rest h =
    elim (Bool-cases (str_eq (chunk_text buffer) "")) [
      | inl blank ↦
          let no : (has_lines buffer && not (str_eq (chunk_text buffer) "")) ≡ false =
            ground arith in
          let nothing : visible_all buffer ≡ "" =
            sym (visible-chunk_text buffer)
            ∙ ap visible ((eq_iff (chunk_text buffer) "").0 blank)
            ∙ visible_none in
          rw no (h index ∙ sym (ap (λ v. v <> rest) nothing ∙ nil-append rest))
      | inr full ↦
          let yes : (has_lines buffer && not (str_eq (chunk_text buffer) "")) ≡ true =
            ground (arith, text-has_lines buffer full) in
          rw yes (
            ap (λ v. visible (chunk_text buffer) <> v) (h (suc index))
            ∙ ap (λ v. v <> rest) (visible-chunk_text buffer))
    ]

visible_all-append :
    (buffer : List String) (line : String) (rest : String)
    → visible_all (buffer ++ line ∷ []) <> rest ≡ visible_all buffer <> (visible line <> rest)
unfolding visible_all
visible_all-append [] line rest =
    ap (λ v. v <> rest) (append-nil (visible line)) ∙ sym (nil-append (visible line <> rest))
visible_all-append (s ∷ ss) line rest =
    append_assoc (visible s) (visible_all (ss ++ line ∷ [])) rest
    ∙ ap (λ v. visible s <> v) (visible_all-append ss line rest)
    ∙ sym (append_assoc (visible s) (visible_all ss) (visible line <> rest))

visible-chunk_lines :
    (file_path : String) (lines buffer : List String) (buffer_len index : ℕ)
    → visible_chunks (chunk_lines file_path lines buffer buffer_len index)
      ≡ visible_all buffer <> visible_all lines
unfolding chunk_lines visible_all
visible-chunk_lines file_path [] buffer buffer_len index =
    visible-flush file_path index buffer (λ i. []) "" (λ i. refl)
visible-chunk_lines file_path (line ∷ lines) buffer buffer_len index =
    elim (Bool-cases
      (has_lines buffer && ltb max_chunk_chars (buffer_len + (text_length line + 1)))) [
        | inl full ↦ rw full (
            visible-flush file_path index buffer _ (visible line <> visible_all lines) (λ i.
              visible-chunk_lines file_path lines (line ∷ []) (text_length line + 1) i
              ∙ ap (λ v. v <> visible_all lines) (append-nil (visible line))))
        | inr room ↦ rw room (
            visible-chunk_lines file_path lines (buffer ++ line ∷ [])
              (buffer_len + (text_length line + 1)) index
            ∙ visible_all-append buffer line (visible_all lines))
      ]

-- No text is lost and none is repeated: the characters of the chunks, in order and without white
-- space, are those of the file.
pub chunk_file_content-keeps_text :
    (file_path content : String)
    → visible_chunks (chunk_file_content file_path content) ≡ visible content
unfolding chunk_file_content visible_all
chunk_file_content-keeps_text file_path content = elim (Bool-cases (str_eq (strip content) "")) [
  | inl blank ↦ rw blank (
      sym (
        sym (visible-strip content)
        ∙ ap visible ((eq_iff (strip content) "").0 blank)
        ∙ visible_none))
  | inr text ↦ rw text (
      visible-chunk_lines file_path (splitlines content) [] 0 0
      ∙ nil-append (visible_all (splitlines content))
      ∙ visible-splitlines content)
]
