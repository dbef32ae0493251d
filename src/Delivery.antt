-- ===== src/Delivery.antt =====
-- skills/issue-orchestration/scripts/delivery-epoch.mjs: the receipts that a delivery epoch binds.
mod Epoch
mod Bound
mod Examples
