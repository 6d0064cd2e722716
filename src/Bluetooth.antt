-- ===== src/Bluetooth.antt =====
-- tools/t630_qca_bt.py: bringing up the WCN6850 Bluetooth controller.
pub mod Address
pub mod Nvm
pub mod Transport
pub mod Controller
mod Scenarios
