-- ===== src/Sqlite/Scheduled.antt =====
-- internal/control/sqlite/store.go: ScheduledJobs.
use autback.Prelude.{
  Bool, true, false, ◌&&◌, ◌||◌, not, List, ltb, ◌==◌, count_where, select_where, order_by,
  text_pair_lt, map,
}
use autback.Protocol.{Status}
use autback.Control.{Job}
use autback.Sqlite.Tables.{Database, JobRow, Exec, select}
use autback.Sqlite.Jobs.{executes}

-- j.status IN ('queued', 'running')
abbrev pub is_scheduled : Status → Bool
is_scheduled Status.queued = true
is_scheduled Status.running = true
is_scheduled _ = false

-- ORDER BY j.created_at,j.id
abbrev pub created_before : JobRow → JobRow → Bool
created_before a b =
    ltb a.created_at b.created_at || a.created_at == b.created_at && text_pair_lt a.id "" b.id ""

-- The key of a queue row makes the join one row.
abbrev pub is_listed : Database → JobRow → Bool
is_listed db r = is_scheduled r.status && not (count_where (executes r.id) db.queue == 0)

-- ScheduledJobs
unfoldable pub scheduled_jobs : Exec (List Job)
scheduled_jobs = select λ db.
    map (λ (r : JobRow). r.job) (order_by created_before (select_where (is_listed db) db.jobs))
