-- ===== src/Schedule.antt =====
-- backend/internal/schedule: weekly windows in which a rule set is active.
pub mod Window
pub mod Parse
