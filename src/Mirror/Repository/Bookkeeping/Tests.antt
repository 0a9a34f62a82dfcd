-- ===== src/Mirror/Repository/Bookkeeping/Tests.antt =====
-- A mirror with a threshold of three, and pushes of it.
use ham_spectrum_analysis.Prelude.{
  ◌+◌, ◌≡◌, refl, true, false, ◌&&◌, none, some, [], ◌∷◌, length, if◌then◌else◌,
}
use ham_spectrum_analysis.Text.{codes}
use ham_spectrum_analysis.Mirror.Repository.Model.{
  ExternalMirror, Repository, get, get_locked, log_event,
}
use ham_spectrum_analysis.Mirror.Repository.Bookkeeping.{update_after_push, after_push}
use ham_spectrum_analysis.Mirror.Repository.Bookkeeping.Outcome.{
  IsBooked, after, auto_disables, update_after_push-IsBooked,
}
use ham_spectrum_analysis.Mirror.Repository.Bookkeeping.Streak.{
  Push, book_all, survives, is_enabled, book_all-survives,
}

abbrev mirror : ExternalMirror
mirror = record {
  id = 4;
  name = codes "site";
  endpoint_url = codes "https://example.org/ingest.php";
  auth_token_hash = codes "hash";
  enabled = true;
  push_interval_seconds = 300;
  data_scopes = [];
  retention_days = none;
  last_push_at = none;
  last_push_status = none;
  last_push_watermark = 17;
  consecutive_failures = 1;
  auto_disabled_at = none;
  created_at = codes "2026-01-01T00:00:00Z";
  created_by = codes "admin";
  updated_at = none;
  display_name = none;
}

abbrev repo : Repository
repo = record {
  rows = record { mirror = mirror; auth_token_ciphertext = none } ∷ [];
  seq = 4;
  audit = [];
  audit_seq = 0;
  auto_disable_threshold = 3;
}

get_mirror : get 4 repo ≡ some mirror
unfolding get
get_mirror = refl

abbrev failed : Push
failed = record {
  success = false;
  watermark = none;
  status_msg = some (codes "timeout");
  now = codes "t";
  logged_at = codes "t";
}

abbrev done : Push
done = record failed { success = true; watermark = some 30 }

IsBooked_example :
    (m' : ExternalMirror) × (get 4 (after 4 false none none (codes "t") (codes "t") repo) ≡ some m')
    × IsBooked false 3 none mirror m'
    × (length (after 4 false none none (codes "t") (codes "t") repo).audit
        ≡ 0
          + (if auto_disables 4 false none none (codes "t") (codes "t") repo mirror then 1 else 0))
    × ((after 4 false none none (codes "t") (codes "t") repo).auto_disable_threshold ≡ 3)
IsBooked_example =
    update_after_push-IsBooked 4 false none none (codes "t") (codes "t") repo mirror get_mirror

-- One failure is already counted: a success in between keeps the mirror on.
survives_example :
    is_enabled 4 (book_all 4 (failed ∷ done ∷ failed ∷ failed ∷ []) repo)
    ≡ (true && survives 3 1 (failed ∷ done ∷ failed ∷ failed ∷ []))
survives_example = book_all-survives 4 (failed ∷ done ∷ failed ∷ failed ∷ []) repo mirror get_mirror

turned_off : is_enabled 4 (book_all 4 (failed ∷ failed ∷ []) repo) ≡ false
unfolding update_after_push get get_locked log_event after_push
turned_off = refl
