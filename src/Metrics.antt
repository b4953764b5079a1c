-- ===== src/Metrics.antt =====
-- simple_network_dashboard/metrics_poller.py: the metrics of a device, fetched from its Node Exporter.
pub mod Labels
pub mod Lines
pub mod Target
pub mod Fetch
pub mod Numbers
pub mod Disks
mod Tests
