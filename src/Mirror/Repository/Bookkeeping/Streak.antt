-- ===== src/Mirror/Repository/Bookkeeping/Streak.antt =====
-- A mirror goes off by itself exactly when failures follow one another up to the threshold.
use ham_spectrum_analysis.Prelude.{
  ℕ, ◌+◌, ◌≡◌, Bool, true, false, ◌&&◌, ◌||◌, Option, none, some, List, [], ◌∷◌, arith, ltb,
  if◌then◌else◌,
}
use ham_spectrum_analysis.Text.{Text}
use ham_spectrum_analysis.Mirror.Repository.Model.{ExternalMirror, Repository, get}
use ham_spectrum_analysis.Mirror.Repository.Bookkeeping.{update_after_push}
use ham_spectrum_analysis.Mirror.Repository.Bookkeeping.Outcome.{update_after_push-IsBooked}

-- One finished push, as the pusher reports it.
pub record Push : Type 0 where
  pub success : Bool
  pub watermark : Option ℕ
  pub status_msg : Option Text
  pub now : Text
  pub logged_at : Text

abbrev pub book : ℕ → Push → Repository → Repository
book id p repo = (update_after_push id p.success p.watermark p.status_msg p.now p.logged_at repo).1

abbrev pub book_all : ℕ → List Push → Repository → Repository
book_all id [] repo = repo
book_all id (p ∷ ps) repo = book_all id ps (book id p repo)

-- No run of failures, with `count` already made, reaches the threshold.
abbrev pub survives : ℕ → ℕ → List Push → Bool
survives threshold count [] = true
survives threshold count (p ∷ ps) =
    let failed = count + 1 in
    let rest = survives threshold (if p.success then 0 else failed) ps in
    (p.success || ltb failed threshold) && rest

abbrev pub is_enabled : ℕ → Repository → Bool
is_enabled id repo = elim (get id repo) [ none ↦ false | some m ↦ m.enabled ]

-- After any sequence of pushes of a mirror it is enabled exactly if it was enabled before and no
-- run of consecutive failures, counted from the failures that it had, reached the threshold; a
-- success in between starts the count again.
pub book_all-survives :
    (id : ℕ) (ps : List Push) (repo : Repository) (m : ExternalMirror)
    → get id repo ≡ some m
    → is_enabled id (book_all id ps repo)
      ≡ (m.enabled && survives repo.auto_disable_threshold m.consecutive_failures ps)
book_all-survives id [] repo m found = ground arith
book_all-survives id (p ∷ ps) repo m found =
    let (m', found', booked, logged, kept) =
      update_after_push-IsBooked id p.success p.watermark p.status_msg p.now p.logged_at repo m
        found in
    rw (book_all-survives id ps (book id p repo) m' found', kept, booked.switch, booked.failures)
      (ground arith)
