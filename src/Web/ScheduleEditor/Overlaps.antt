-- ===== src/Web/ScheduleEditor/Overlaps.antt =====
-- frontend/src/components/admin/EventScheduleEditor.tsx: calls that overlap.
use unity_runn.Web.ScheduleEditor.{ScheduleEditor}
