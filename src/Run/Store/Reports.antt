-- ===== src/Run/Store/Reports.antt =====
-- The report of a run that is read from the database.
use otf.Time.{Time}
use otf.Workspace.Types.{Workspace}
use otf.Run.Status.{Status}
