-- ===== src/GpuMonitor/Tree.antt =====
-- The calling context tree of src/monitor/gpu_monitor.cpp over a sequence of events.
use lo2s.GpuMonitor.{GpuMonitor}
