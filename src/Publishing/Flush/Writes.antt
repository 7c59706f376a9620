-- ===== src/Publishing/Flush/Writes.antt =====
-- The writes of the check and of the issue comment: the job has the id of what the log has written.
use revy.Common.{
  suc, ◌≡◌, refl, String, Option, none, some, List, [], ◌∷◌, ◌++◌, arith, str_eq, All, All-map,
  All-append_one, Bool-cases, inl, inr,
}
use revy.Common.Json.{ℤ}
use revy.Common.Options.{Whenever}
use revy.Publishing.Flight.{
  create_check, update_check, create_issue_comment, update_issue_comment, Answer, accepted, status,
  unreachable, unusable, Flight, World, Raised, skip_summary, send,
}
use revy.Publishing.Inline.Log.{Entry, HoldsElsewhere}
use revy.Publishing.Inline.TakenBack.{IsTracked}
use revy.Publishing.Surface.{
  with_check, with_comment, raise_failure, note_check, note_comment, write_check_at,
  write_comment_at,
}
use revy.Publishing.Flush.Surface.{unless_skip, written_check, written_comment, IsKnown}

-- An entry that posts nothing, and writes nothing that the job has no id of.
abbrev pub IsSurface : Option ℤ → Option ℤ → Entry → Type 0
IsSurface check comment e = IsTracked [] e × IsKnown check comment e

pub IsSurface-elsewhere : (check comment : Option ℤ) → HoldsElsewhere (IsSurface check comment)
IsSurface-elsewhere check comment = record {
  on_delete = λ i a. (tt, (tt, tt));
  on_check = λ i a. (tt, (tt, tt));
  on_issue_comment = λ i a. (tt, (tt, tt));
  on_finalize = λ i a. (tt, (tt, tt));
}

-- The stages of the flush keep this.
abbrev pub AllSurface : Flight → Type 0
AllSurface s = All (IsSurface s.job.github_check_run_id s.job.github_comment_id) s.log

known_any :
    (known written : Option ℤ)
    → Whenever (λ i. none ≡ some i) written
    → Whenever (λ i. known ≡ some i) written
known_any known none h = tt
known_any known (some i) h = absurd (ground arith)

known_unless : (text : String) (id : ℤ) → Whenever (λ i. some id ≡ some i) (unless_skip text id)
known_unless text id = elim (Bool-cases (str_eq text skip_summary)) [
  | inl skip ↦ rw skip tt
  | inr write ↦ rw write refl
]

-- What holds of the flight when nothing is raised.
abbrev pub Ok : (Flight → Type 0) → Flight × Option Raised → Type 0
Ok P (s, none) = P s
Ok P (s, some e) = Unit

pub Ok-always : (P : Flight → Type 0) (r : Flight × Option Raised) → P r.0 → Ok P r
Ok-always P (s, none) h = h
Ok-always P (s, some e) h = tt

module _ (world : World) where
  abbrev pub Unwritten : Flight → Type 0
  Unwritten s = All (IsSurface none none) s.log

  abbrev pub Checked : Flight → Type 0
  Checked s = All (IsSurface s.job.github_check_run_id none) s.log

  check-known :
      (check : Option ℤ) (log : List Entry)
      → All (IsSurface none none) log
      → All (IsSurface check none) log
  check-known check log =
      All-map (IsSurface none none) (IsSurface check none) log
        (λ e h. (h.0, (known_any check (written_check e) h.1.0, h.1.1)))

  comment-known :
      (check comment : Option ℤ) (log : List Entry)
      → All (IsSurface check none) log
      → All (IsSurface check comment) log
  comment-known check comment log =
      All-map (IsSurface check none) (IsSurface check comment) log
        (λ e h. (h.0, (h.1.0, known_any comment (written_comment e) h.1.1)))

  raise-Ok :
      (P : Flight → Type 0) (s : Flight) (answer : Answer) → P s → Ok P (raise_failure s answer)
  raise-Ok P s (accepted id) h = h
  raise-Ok P s (status code) h = tt
  raise-Ok P s unreachable h = tt
  raise-Ok P s unusable h = tt

  note_check-Ok :
      (conclusion summary : String) (answer : Answer) (s : Flight)
      → Unwritten s
      → Ok Checked (
          note_check
            (record s {
              log = s.log ++ (create_check conclusion summary, answer) ∷ [];
              clock = suc s.clock;
            })
            answer)
  note_check-Ok conclusion summary (status code) s h = tt
  note_check-Ok conclusion summary unreachable s h = tt
  note_check-Ok conclusion summary unusable s h = tt
  note_check-Ok conclusion summary (accepted id) s h =
      All-append_one (IsSurface (some id) none) s.log _ (check-known (some id) s.log h)
        (tt, (refl, tt))

  pub write_check_at-Ok :
      (conclusion summary : String) (id : Option ℤ) (s : Flight)
      → Unwritten s
      → Ok Checked (write_check_at world conclusion summary id s)
  write_check_at-Ok conclusion summary (some id) s h =
      raise-Ok Checked (send world (update_check id conclusion summary) (with_check (some id) s)).0
        (world.answer s.clock)
        (All-append_one (IsSurface (some id) none) s.log _ (check-known (some id) s.log h)
          (tt, (known_unless summary id, tt)))
  write_check_at-Ok conclusion summary none s h =
      note_check-Ok conclusion summary (world.answer s.clock) s h

  note_comment-Ok :
      (body : String) (answer : Answer) (s : Flight)
      → Checked s
      → Ok AllSurface (
          note_comment
            (record s {
              log = s.log ++ (create_issue_comment body, answer) ∷ [];
              clock = suc s.clock;
            })
            answer)
  note_comment-Ok body (status code) s h = tt
  note_comment-Ok body unreachable s h = tt
  note_comment-Ok body unusable s h = tt
  note_comment-Ok body (accepted id) s h =
      All-append_one (IsSurface s.job.github_check_run_id (some id)) s.log _
        (comment-known s.job.github_check_run_id (some id) s.log h) (tt, (tt, refl))

  pub write_comment_at-Ok :
      (body : String) (id : Option ℤ) (s : Flight)
      → Checked s
      → Ok AllSurface (write_comment_at world body id s)
  write_comment_at-Ok body (some id) s h =
      raise-Ok AllSurface (send world (update_issue_comment id body) (with_comment (some id) s)).0
        (world.answer s.clock)
        (All-append_one (IsSurface s.job.github_check_run_id (some id)) s.log _
          (comment-known s.job.github_check_run_id (some id) s.log h)
          (tt, (tt, known_unless body id)))
  write_comment_at-Ok body none s h = note_comment-Ok body (world.answer s.clock) s h
