-- ===== src/Worker/Jobs/Operation/Reports.antt =====
-- What the processing of a job assignment leaves in the table when it fails.
use mcma_libraries.Worker.Jobs.Helper.{Helper}
