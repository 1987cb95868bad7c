-- ===== src/Campaign/Transactions/Progress.antt =====
-- What every sequence of transactions keeps of every pair.
use ai_cv_screening.Prelude.{is_some, is_some}
use ai_cv_screening.Campaign.Storage.{Extraction}
