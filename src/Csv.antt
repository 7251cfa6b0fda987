-- ===== src/Csv.antt =====
-- desktop/src/schedules/csv.ts: the timetable upload. The cells of a row and the whole file are read by
-- children (Long, LocalTime, Row, File), and the preview is counted by Summary.
pub mod Unicode
pub mod Long
pub mod LocalTime
pub mod Row
pub mod File
pub mod Summary
