-- ===== src/Tests.antt =====
-- Concrete external functions and inputs, and the theorems at these inputs.
pub mod Toy
pub mod ToyCipher
pub mod Signatures
pub mod Keys
pub mod ToyPki
pub mod Certificates
pub mod Adapter
pub mod Kem
pub mod Files
pub mod Store
pub mod ToyDisk
pub mod ToyCa
pub mod Issue
