-- ===== src/Worker.antt =====
-- services/worker/src: the jobs that run beside the control plane.
pub mod DispatchPrint
