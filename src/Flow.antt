-- ===== src/Flow.antt =====
-- How the parts work together: what the provisioner and the webhook do with what the node scanner has
-- published. `marshal` and `unmarshal` are the JSON of a disk map.
pub mod DiskMapJson
pub mod Published
pub mod Found
pub mod Delivery
