-- ===== src/Chunking/Witnesses.antt =====
-- The theorem about chunks at an input that meets its hypotheses, and runs of the code.
use revy.Common.{◌≡◌, refl, [], ◌∷◌, arith, strip, join, splitlines}
use revy.Chunking.{chunk_file_content, chunk_lines, flush}
use revy.Common.Text.Visible.{visible}
use revy.Chunking.Kept.{visible_chunks, chunk_file_content-keeps_text}
use revy.Chunking.Chunks.{AreChunks, chunk_file_content-AreChunks}

one_chunk :
    chunk_file_content "a.py" "x\n\ny\n"
    ≡ record { file_path = "a.py"; chunk_index = 0; content = "x\n\ny" } ∷ []
unfolding chunk_file_content chunk_lines flush strip join splitlines
one_chunk = refl

blank_file : chunk_file_content "a.py" " \n" ≡ []
unfolding chunk_file_content strip
blank_file = refl

chunk_file_content-AreChunks_example :
    AreChunks "a.py" 0 1999 (chunk_file_content "a.py" "x\n\ny\n")
unfolding splitlines
chunk_file_content-AreChunks_example =
    chunk_file_content-AreChunks "a.py" "x\n\ny\n" 1999
      (omega arith, (omega arith, (omega arith, tt))) (omega arith)

chunk_file_content-keeps_text_example :
    visible_chunks (chunk_file_content "a.py" "x\n\ny\n") ≡ visible "x\n\ny\n"
chunk_file_content-keeps_text_example = chunk_file_content-keeps_text "a.py" "x\n\ny\n"
