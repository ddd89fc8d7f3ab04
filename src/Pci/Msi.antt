-- ===== src/Pci/Msi.antt =====
-- The search for the MSI capability in src/drivers/pci.rs.
use an_os_in_rust.Ports.{Ports}
