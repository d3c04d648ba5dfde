-- ===== src/ControlPlane.antt =====
-- backend/internal/controlplane: the sessions of its panel.
pub mod Session
